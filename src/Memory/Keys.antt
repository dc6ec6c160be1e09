-- ===== src/Memory/Keys.antt =====
-- `newPeerKey` and `decodePeerKey`.
pub mod RoundTrip
pub mod Equality
use chihaya.Base.{
  ℕ, ◌+◌, ◌*◌, ◌<◌, ◌≤◌, ◌^◌, ◌==◌, ltb, ◌≡◌, refl, ◌⊎◌, inl, inr, Bytes, bytes_eq, AreBytes,
  put_be, be, length, take, drop, ◌++◌, Option, none, some, Result, ok, err, panic, guard, assert,
  ◌>>=◌, ◌>>◌, if◌then◌else◌, arith, not,
}
use chihaya.Bittorrent.{Peer, Ip, ipv4, ipv6, peer_id_from_string}
use chihaya.Bittorrent.Peers.{to4, ip_bytes}

-- 20 bytes of ID, 2 of port and the address. `PutUint16` writes the low 16 bits.
unfoldable pub new_peer_key : Peer → Bytes
new_peer_key p = p.id ++ (put_be 2 p.port ++ ip_bytes p.ip.ip)

pub decode_ip : Bytes → Result Ip
decode_ip b = elim (to4 b) [
  | some v4 ↦ ok (record { ip = some v4; address_family = ipv4 })
  | none ↦ if length b == 16 then ok (record { ip = some b; address_family = ipv6 }) else panic
]

-- The slices panic on a key that is too short.
unfoldable pub decode_peer_key : Bytes → Result Peer
unfolding decode_ip
decode_peer_key pk = do
  assert (not (ltb (length pk) 22))
  id ← peer_id_from_string (take 20 pk)
  i ← decode_ip (drop 22 pk)
  ok (record { id = id; ip = i; port = be (take 2 (drop 20 pk)) })
