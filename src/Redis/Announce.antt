-- ===== src/Redis/Announce.antt =====
-- The methods that read (storage/redis/peer_store.go), and what they answer.
use chihaya.Base.{
  ℕ, ◌==◌, ◌%◌, ◌^◌, ltb, ◌≡◌, refl, ap, sym, fun_ext, ◌∙◌, Bool, true, false, not, ◌&&◌, Bytes,
  bytes_eq, List, [], ◌∷◌, ◌++◌, length, take, Error, Result, ok, err, panic, assert, format_hex,
  ◌>>=◌, ◌>>◌, if◌then◌else◌, arith, Bool-cases, inl, inr,
}
use chihaya.Bittorrent.{AddressFamily, Peer, Scrape}
use chihaya.Memory.{err_resource_does_not_exist}
use chihaya.Memory.Announce.{Picked, pick_peer, append_peers}
use chihaya.Memory.Announce.Loops.{decode_all, append_peers-append, append_peers_full}
use chihaya.Memory.Announce.Selection.{peers_of}
use chihaya.Redis.{Store, new_peer_key, family_name, leecher_infohash_key, seeder_infohash_key}
use chihaya.Redis.Servers.{Server}

-- Two values of Go's `interface{}`: what the server replies, and the key of a peer.
pub data Value : Type 0 where
  byte_slice : Bytes → Value
  serialized_peer : Bytes → Value

-- `==` of such values: of two types never, and of two slices a panic.
unfoldable pub equal_values : Value → Value → Result Bool
equal_values (byte_slice a) (byte_slice b) = panic
equal_values (byte_slice a) (serialized_peer b) = ok false
equal_values (serialized_peer a) (byte_slice b) = ok false
equal_values (serialized_peer a) (serialized_peer b) = ok (bytes_eq a b)

-- The loop over the leechers, which is to skip the announcer.
unfoldable pub append_leechers : Bytes → List Bytes → Picked → Result Picked
unfolding equal_values
append_leechers own [] r = ok r
append_leechers own (pk ∷ pks) r = do
  same ← equal_values (byte_slice pk) (serialized_peer own)
  elim same [ true ↦ append_leechers own pks r | false ↦ pick_peer (append_leechers own pks) pk r ]

unfoldable pub pick : List Bytes → List Bytes → Bool → ℕ → Bytes → Result Picked
unfolding append_leechers
pick leechers seeders true num_want own =
    append_peers leechers (record { peers = []; num_want = num_want })
pick leechers seeders false num_want own = do
  r ← append_peers seeders (record { peers = []; num_want = num_want })
  elim (ltb 0 r.num_want) [ true ↦ append_leechers own leechers r | false ↦ ok r ]

module _ {V : Type 0} (server : Server V) where
  unfoldable pub announce_peers : Store → V → Bytes → Bool → ℕ → Peer → Result (List Peer)
  unfolding pick
  announce_peers st v ih seeder num_want announcer = do
    af ← family_name announcer.ip.address_family
    assert (not st.closed)
    leechers ← server.hkeys v (leecher_infohash_key af (format_hex ih))
    seeders ← server.hkeys v (seeder_infohash_key af (format_hex ih))
    if (length leechers == 0) && (length seeders == 0)
        then err err_resource_does_not_exist
        else (do r ← pick leechers seeders seeder num_want (new_peer_key announcer); ok r.peers)

  -- A count that the server does not give leaves the answer empty.
  unfoldable pub counted : Bytes → Result ℕ → Result ℕ → Result Scrape
  counted ih (ok l) (ok s) =
      ok (record { info_hash = ih; snatches = 0; complete = s % 2 ^ 32; incomplete = l % 2 ^ 32 })
  counted ih Result.panic s = panic
  counted ih (ok l) Result.panic = panic
  counted ih (ok l) (err e) =
      ok (record { info_hash = ih; snatches = 0; complete = 0; incomplete = 0 })
  counted ih (err e) s = ok (record { info_hash = ih; snatches = 0; complete = 0; incomplete = 0 })

  unfoldable pub scrape_swarm : Store → V → Bytes → AddressFamily → Result Scrape
  unfolding counted
  scrape_swarm st v ih address_family = do
    assert (not st.closed)
    af ← family_name address_family
    counted ih (server.hlen v (leecher_infohash_key af (format_hex ih)))
        (server.hlen v (seeder_infohash_key af (format_hex ih)))

-- No leecher is skipped: a reply of the server never equals the announcer's key.
append_leechers_lem :
    (own : Bytes) (ks : List Bytes) (r : Picked) → append_leechers own ks r ≡ append_peers ks r
unfolding append_leechers append_peers
append_leechers_lem own [] r = refl
append_leechers_lem own (pk ∷ pks) r =
    ap (λ f. pick_peer f pk r) (fun_ext (append_leechers_lem own pks))

-- The loop that runs only if more are wanted adds the same as one that always runs.
if_wanted_leechers :
    (own : Bytes) (ks : List Bytes) (r : Picked)
    → (elim (ltb 0 r.num_want) [ true ↦ append_leechers own ks r | false ↦ ok r ])
      ≡ append_peers ks r
if_wanted_leechers own ks r = elim (Bool-cases (ltb 0 r.num_want)) [
  | inl e ↦ rw e (append_leechers_lem own ks r)
  | inr e ↦ rw e (sym (append_peers_full ks r (ground arith)))
]

pick_lem :
    (leechers seeders : List Bytes) (seeder : Bool) (n : ℕ) (own : Bytes)
    → pick leechers seeders seeder n own
      ≡ append_peers
          (if seeder then leechers else seeders ++ leechers)
          (record { peers = []; num_want = n })
unfolding pick
pick_lem leechers seeders true n own = refl
pick_lem leechers seeders false n own =
    let r0 : Picked = record { peers = []; num_want = n } in
    ap (λ f. append_peers seeders r0 >>= f) (fun_ext (if_wanted_leechers own leechers))
    ∙ sym (append_peers-append seeders leechers r0)

answer_of :
    (b : Bool) (ks : List Bytes) (n : ℕ) (e : Error)
    → (if b
        then err e
        else (do r ← append_peers ks (record { peers = []; num_want = n }); ok r.peers))
      ≡ (if b then err e else decode_all (take n ks))
answer_of true ks n e = refl
answer_of false ks n e = peers_of false ks n e

module _ {V : Type 0} (server : Server V) where
  -- Over a server that gives the fields of both hashes, an open store answers an announcer of IPv4 or
  -- IPv6 with the first of them, decoded: for a seeder the leechers, and for a leecher the seeders and
  -- then the leechers, the announcer's own key with them. It fails with "resource does not exist" if
  -- both hashes are empty.
  pub announce_peers-all :
      (st : Store) (v : V) (ih : Bytes) (seeder : Bool) (n : ℕ) (p : Peer) (af : Bytes)
      (leechers seeders : List Bytes)
      → st.closed ≡ false
      → family_name p.ip.address_family ≡ ok af
      → server.hkeys v (leecher_infohash_key af (format_hex ih)) ≡ ok leechers
      → server.hkeys v (seeder_infohash_key af (format_hex ih)) ≡ ok seeders
      → announce_peers server st v ih seeder n p ≡ (
          if (length leechers == 0) && (length seeders == 0)
          then err err_resource_does_not_exist
          else decode_all (take n (if seeder then leechers else seeders ++ leechers)))
  unfolding announce_peers
  announce_peers-all st v ih seeder n p af leechers seeders o f l s =
      rw (o, f, l, s)
        (rw (pick_lem leechers seeders seeder n (new_peer_key p)) (
          answer_of ((length leechers == 0) && (length seeders == 0))
            (if seeder then leechers else seeders ++ leechers) n err_resource_does_not_exist))
