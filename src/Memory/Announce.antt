-- ===== src/Memory/Announce.antt =====
-- `AnnouncePeers` and `ScrapeSwarm`.
--
-- A loop over a Go map visits its keys in an order that the language leaves open, so the order is
-- a parameter: `order i` arranges the keys that the loop number i goes through.
pub mod Loops
pub mod Selection
pub mod Scrapes
pub mod Counted
use chihaya.Base.{
  ℕ, ◌+◌, ◌-◌, ◌%◌, ◌^◌, ◌==◌, ltb, Bool, true, false, not, ◌&&◌, ◌||◌, Bytes, bytes_eq, List, [],
  ◌∷◌, ◌++◌, Option, none, some, is_some, length, Result, ok, err, panic, assert, guard, ◌>>=◌,
  ◌>>◌, if◌then◌else◌,
}
use chihaya.Base.Dict.{Dict, lookup, keys}
use chihaya.Bittorrent.{AddressFamily, ipv4, ipv6, other_family, Peer, Scrape}
use chihaya.Memory.{Swarm, PeerShard, PeerStore, Config, err_resource_does_not_exist}
use chihaya.Memory.Keys.{new_peer_key, decode_peer_key}
use chihaya.Memory.Shards.{swarm_of}
use chihaya.Memory.Operations.{shard_for}

-- The peers so far, and how many are still wanted.
pub record Picked : Type 0 where
  pub peers : List Peer
  pub num_want : ℕ

-- One round of a loop: stop if enough are there, or append a decoded key and go on with `rest`.
unfoldable pub pick_peer : (Picked → Result Picked) → Bytes → Picked → Result Picked
pick_peer rest pk r = elim (r.num_want == 0) [
  | true ↦ ok r
  | false ↦ decode_peer_key pk >>= λ p.
      rest (record { peers = r.peers ++ p ∷ []; num_want = r.num_want - 1 })
]

-- One loop that appends decoded keys until enough are there.
unfoldable pub append_peers : List Bytes → Picked → Result Picked
append_peers [] r = ok r
append_peers (pk ∷ pks) r = pick_peer (append_peers pks) pk r

-- The loop that skips the announcer's own key.
unfoldable pub append_others : Bytes → List Bytes → Picked → Result Picked
append_others own [] r = ok r
append_others own (pk ∷ pks) r = elim (bytes_eq pk own) [
  | true ↦ append_others own pks r
  | false ↦ pick_peer (append_others own pks) pk r
]

-- `if numWant > 0 && exists { … }`
unfoldable pub if_wanted : Bool → (Picked → Result Picked) → Picked → Result Picked
if_wanted exists loop r = elim (ltb 0 r.num_want && exists) [ true ↦ loop r | false ↦ ok r ]

abbrev pub Orders : Type 0
Orders = ℕ → List Bytes → List Bytes

module _ (order : Orders) where
  -- Without dual-stack peers: one shard.
  unfoldable pub pick_single : Option Swarm → Bool → ℕ → Bytes → Result Picked
  pick_single none seeder num_want own = err err_resource_does_not_exist
  pick_single (some w) true num_want own =
      append_peers (order 0 (keys w.leechers)) (record { peers = []; num_want = num_want })
  pick_single (some w) false num_want own = do
    r ← append_peers (order 1 (keys w.seeders)) (record { peers = []; num_want = num_want })
    if_wanted true (append_others own (order 2 (keys w.leechers))) r

  -- A seeder gets leechers: those of its own family, then the others.
  unfoldable pub pick_for_seeder : Swarm → Bool → Swarm → Bool → Picked → Result Picked
  pick_for_seeder same same_exists other other_exists r = do
    r1 ← if same_exists then append_peers (order 3 (keys same.leechers)) r else ok r
    if_wanted other_exists (append_peers (order 4 (keys other.leechers))) r1

  -- A leecher gets seeders of both families, then leechers of both.
  unfoldable pub pick_for_leecher : Swarm → Bool → Swarm → Bool → Bytes → Picked → Result Picked
  pick_for_leecher same same_exists other other_exists own r = do
    r1 ← if same_exists then append_peers (order 5 (keys same.seeders)) r else ok r
    r2 ← if_wanted other_exists (append_peers (order 6 (keys other.seeders))) r1
    r3 ← if_wanted same_exists (append_others own (order 7 (keys same.leechers))) r2
    if_wanted other_exists (append_peers (order 8 (keys other.leechers))) r3

  unfoldable pub pick_dual : Bytes → PeerShard → PeerShard → Bool → ℕ → Bytes → Result Picked
  unfolding pick_for_seeder pick_for_leecher
  pick_dual ih same other seeder num_want own =
      let same_exists = is_some (lookup ih same.swarms) in
      let other_exists = is_some (lookup ih other.swarms) in
      let r : Picked = record { peers = []; num_want = num_want } in
      if not same_exists && not other_exists
      then err err_resource_does_not_exist
      else if seeder
      then pick_for_seeder (swarm_of ih same.swarms) same_exists (swarm_of ih other.swarms)
          other_exists r
      else pick_for_leecher (swarm_of ih same.swarms) same_exists (swarm_of ih other.swarms)
          other_exists own r

  -- `same` is the shard of the announcer's family, which is IPv6's for all but IPv4.
  unfoldable pub pick_families :
      Bytes → PeerShard → PeerShard → AddressFamily → Bool → ℕ → Bytes → Result Picked
  unfolding pick_dual
  pick_families ih v4 v6 ipv4 seeder num_want own = pick_dual ih v4 v6 seeder num_want own
  pick_families ih v4 v6 ipv6 seeder num_want own = pick_dual ih v6 v4 seeder num_want own
  pick_families ih v4 v6 (other_family n) seeder num_want own =
      pick_dual ih v6 v4 seeder num_want own

  unfoldable pub announce_peers : PeerStore → Bytes → Bool → ℕ → Peer → Result (List Peer)
  unfolding pick_single pick_families
  announce_peers ps ih seeder num_want announcer = do
    assert (not ps.closed)
    let own = new_peer_key announcer
    r ←
        if not ps.cfg.enable_dual_stack_peers
        then (do
          s ← shard_for ps ih announcer.ip.address_family
          pick_single (lookup ih s.swarms) seeder num_want own)
        else (do
          v4 ← shard_for ps ih ipv4
          v6 ← shard_for ps ih ipv6
          pick_families ih v4 v6 announcer.ip.address_family seeder num_want own)
    ok r.peers

-- `uint32(len(…))`
abbrev u32 : ℕ → ℕ
u32 n = n % 2 ^ 32

unfoldable pub scrape_swarm : PeerStore → Bytes → AddressFamily → Result Scrape
scrape_swarm ps ih af = do
  assert (not ps.closed)
  if not ps.cfg.enable_dual_stack_peers
      then (do
        s ← shard_for ps ih af
        let w = swarm_of ih s.swarms
        ok (record {
          info_hash = ih;
          snatches = 0;
          complete = u32 (length w.seeders);
          incomplete = u32 (length w.leechers);
        }))
      else (do
        v4 ← shard_for ps ih ipv4
        v6 ← shard_for ps ih ipv6
        let w4 = swarm_of ih v4.swarms
        let w6 = swarm_of ih v6.swarms
        ok (record {
          info_hash = ih;
          snatches = 0;
          complete = u32 (u32 (length w4.seeders) + u32 (length w6.seeders));
          incomplete = u32 (u32 (length w4.leechers) + u32 (length w6.leechers));
        }))
