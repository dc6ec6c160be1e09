-- ===== src/Udp/Writer/Sizes.antt =====
-- How long the packets of responses are (frontend/udp/writer.go).
use native.Mathlib.Nat.{mul_comm}
use chihaya.Base.{
  ℕ, suc, ◌+◌, ◌*◌, ◌≡◌, Bool, Bytes, length, length-append, put_be, List, [], ◌∷◌, ◌++◌,
  if◌then◌else◌, arith,
}
use chihaya.Bittorrent.{AnnounceResponse, Peer}
use chihaya.Bittorrent.Peers.{ip_bytes}
use chihaya.Udp.Writer.{write_header, write_peers, write_announce}

-- The address of every peer has `k` bytes.
abbrev pub AllAddresses : ℕ → List Peer → Type 0
AllAddresses k [] = Unit {0}
AllAddresses k (p ∷ ps) = (length (ip_bytes p.ip.ip) ≡ k) × AllAddresses k ps

abbrev pub written_peers : AnnounceResponse → Bool → List Peer
written_peers resp v6_peers = if v6_peers then resp.ipv6_peers else resp.ipv4_peers

length-write_peers :
    (k : ℕ) (ps : List Peer) → AllAddresses k ps → length (write_peers ps) ≡ (k + 2) * length ps
unfolding write_peers put_be
length-write_peers k [] a = omega arith
length-write_peers k (p ∷ ps) a = omega (
  arith,
  length-append (ip_bytes p.ip.ip) (put_be 2 p.port ++ write_peers ps),
  a.0,
  length-write_peers k ps a.1,
  mul_comm (k + 2) (length ps),
  mul_comm (k + 2) (suc (length ps)),
)

-- An announce response, with a transaction ID of four bytes, to a client whose list has only
-- addresses of one length, has twenty bytes and, for each peer, those of its address and two more.
pub length-write_announce :
    (tx_id : Bytes) (resp : AnnounceResponse) (v6_action v6_peers : Bool) (k : ℕ)
    → length tx_id ≡ 4
    → AllAddresses k (written_peers resp v6_peers)
    → length (write_announce tx_id resp v6_action v6_peers)
      ≡ 20 + (k + 2) * length (written_peers resp v6_peers)
unfolding write_announce write_header put_be
length-write_announce tx_id resp v6_action v6_peers k t a =
    omega (arith, length-append tx_id _, t, length-write_peers k (written_peers resp v6_peers) a)
