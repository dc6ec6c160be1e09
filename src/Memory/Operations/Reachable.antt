-- ===== src/Memory/Operations/Reachable.antt =====
-- What holds in every run of a new store, and of a store that was stopped.
use chihaya.Base.{
  ap, ◌∙◌, sym, not, assert, >>=-eq-ok, ok-injective, false, ℕ, ◌+◌, ◌*◌, ◌/◌, ◌%◌, ◌^◌, ◌<◌, ◌≡◌,
  refl, List, [], ◌∷◌, length, replicate, length-replicate, true, Bytes, panic, arith, ok,
}
use chihaya.Bittorrent.{Peer}
use chihaya.Memory.{Config, PeerShard, PeerStore, empty_shard}
use chihaya.Memory.Configs.{new, validate}
use chihaya.Memory.Keys.{new_peer_key}
use chihaya.Memory.Shards.{put_seeder_in, put_leecher_in, graduate_leecher_in}
use chihaya.Memory.Shards.Counts.{total, seeders_of, leechers_of}
use chihaya.Memory.Operations.{
  put_seeder, put_leecher, delete_seeder, delete_leecher, graduate_leecher, prom_totals,
  collect_garbage, stop,
}
use chihaya.Memory.Announce.{Orders, announce_peers, scrape_swarm}
use chihaya.Memory.Operations.Collecting.{AllShards}
use chihaya.Memory.Operations.Steps.{
  Step, puts_seeder, puts_leecher, deletes_seeder, deletes_leecher, graduates, collects, ticks,
  stops, Reach, here, next, StoreInv, Step-StoreInv, replicate-AllShards, with_shard_closed,
}

Reach-StoreInv : {ps q : PeerStore} → StoreInv ps → Reach ps q → StoreInv q
Reach-StoreInv v here = v
Reach-StoreInv v (next r s) = Step-StoreInv s (Reach-StoreInv v r)

-- `Validate` never leaves a store without shards.
validate-shard_count : (cfg : Config) → 0 < (validate cfg).shard_count
unfolding validate
validate-shard_count cfg = ground arith

even_shards :
    (n : ℕ) (s : PeerShard)
    → 0 < n
    → n < 2 ^ 31
    → (0 < length (replicate (n * 2) s) / 2)
      × (length (replicate (n * 2) s) % 2 ≡ 0)
      × (length (replicate (n * 2) s) < 2 ^ 32)
even_shards n s h k = rw (length-replicate (n * 2) s) (omega arith)

pub new-StoreInv :
    (cfg : Config) (clock : ℕ) → (validate cfg).shard_count < 2 ^ 31 → StoreInv (new cfg clock)
unfolding new
new-StoreInv cfg clock h =
    let n : ℕ = (validate cfg).shard_count in
    let (a, b, c) = even_shards n empty_shard (validate-shard_count cfg) h in
    record {
      sharded = record { some_shards = a; even = b; fits = c };
      shards_ok = replicate-AllShards (n * 2);
    }

-- In every run of a new store, whatever the interleaving of its critical sections, each shard has
-- its keys once, keeps no empty swarm, and counts its seeders and leechers right in uint64. The
-- configured number of shards must be below 2^31.
pub reachable_invariant :
    (cfg : Config) (clock : ℕ) (q : PeerStore)
    → (validate cfg).shard_count < 2 ^ 31
    → Reach (new cfg clock) q
    → StoreInv q
reachable_invariant cfg clock q h r = Reach-StoreInv (new-StoreInv cfg clock h) r

-- The sum over all shards of what `f` counts in each swarm.
abbrev pub sum_over : (PeerShard → ℕ) → List PeerShard → ℕ
sum_over f [] = 0
sum_over f (s ∷ ss) = f s + sum_over f ss

-- The metrics posted for shards that keep their invariant are, in uint64, the numbers of swarms,
-- of seeders and of leechers that the shards hold.
pub prom_totals-sum :
    (ss : List PeerShard)
    → AllShards ss
    → prom_totals ss ≡ (
      sum_over (λ s. length s.swarms) ss % 2 ^ 64,
      sum_over (λ s. total seeders_of s.swarms) ss % 2 ^ 64,
      sum_over (λ s. total leechers_of s.swarms) ss % 2 ^ 64,
    )
unfolding prom_totals
prom_totals-sum [] h = refl
prom_totals-sum (s ∷ ss) h =
    ground
      (arith, prom_totals-sum ss h.1, h.0.counted.seeders_counted, h.0.counted.leechers_counted)

-- Every method that needs an open store panics, and a collection does nothing.
abbrev pub IsShut : Orders → PeerStore → Bytes → Peer → ℕ → ℕ → Type 0
IsShut order ps ih p n cutoff =
    (put_seeder ps ih p ≡ panic)
    × (put_leecher ps ih p ≡ panic)
    × (delete_seeder ps ih p ≡ panic)
    × (delete_leecher ps ih p ≡ panic)
    × (graduate_leecher ps ih p ≡ panic)
    × (announce_peers order ps ih true n p ≡ panic)
    × (announce_peers order ps ih false n p ≡ panic)
    × (scrape_swarm ps ih p.ip.address_family ≡ panic)
    × (stop ps ≡ panic)
    × (collect_garbage ps cutoff ≡ ps)

closed-IsShut :
    (order : Orders) (ps : PeerStore) (ih : Bytes) (p : Peer) (n cutoff : ℕ)
    → ps.closed ≡ true
    → IsShut order ps ih p n cutoff
unfolding put_seeder put_leecher delete_seeder delete_leecher graduate_leecher collect_garbage
    announce_peers scrape_swarm stop
closed-IsShut order ps ih p n cutoff c = (
  with_shard_closed ps ih p (λ s. ok (put_seeder_in ih (new_peer_key p) ps.clock s)) c,
  with_shard_closed ps ih p (λ s. ok (put_leecher_in ih (new_peer_key p) ps.clock s)) c,
  with_shard_closed ps ih p _ c,
  with_shard_closed ps ih p _ c,
  with_shard_closed ps ih p (λ s. ok (graduate_leecher_in ih (new_peer_key p) ps.clock s)) c,
  rw c,
  rw c,
  rw c,
  rw c,
  ground arith,
)

stop-closed : (ps q : PeerStore) → stop ps ≡ ok q → q.closed ≡ true
unfolding stop
stop-closed ps q e =
    let (_, _, is) = >>=-eq-ok (assert (not ps.closed)) _ e in
    ap (λ s. s.closed) (sym (ok-injective is))

Step-closed : {ps q : PeerStore} → Step ps q → ps.closed ≡ true → q.closed ≡ true
Step-closed {ps} (puts_seeder ih p e) c = cc (closed-IsShut (λ i ks. ks) ps ih p 0 0 c).0
Step-closed {ps} (puts_leecher ih p e) c = cc (closed-IsShut (λ i ks. ks) ps ih p 0 0 c).1
Step-closed {ps} (deletes_seeder ih p e) c = cc (closed-IsShut (λ i ks. ks) ps ih p 0 0 c).2
Step-closed {ps} (deletes_leecher ih p e) c = cc (closed-IsShut (λ i ks. ks) ps ih p 0 0 c).3
Step-closed {ps} (graduates ih p e) c = cc (closed-IsShut (λ i ks. ks) ps ih p 0 0 c).4
Step-closed (collects cutoff i ih e) c = ap (λ s. s.closed) e ∙ c
Step-closed (ticks now e) c = ap (λ s. s.closed) e ∙ c
Step-closed {ps} {q} (stops e) c = stop-closed ps q e

Reach-closed : {ps q : PeerStore} → ps.closed ≡ true → Reach ps q → q.closed ≡ true
Reach-closed c here = c
Reach-closed c (next r s) = Step-closed s (Reach-closed c r)

-- Once `Stop` has closed a store, then in every later run each write, each announce, each scrape and
-- a second `Stop` panics, and a collection does nothing.
pub stop-IsShut :
    (order : Orders) (ps q t : PeerStore) (ih : Bytes) (p : Peer) (n cutoff : ℕ)
    → stop ps ≡ ok q
    → Reach q t
    → IsShut order t ih p n cutoff
stop-IsShut order ps q t ih p n cutoff e r =
    closed-IsShut order t ih p n cutoff (Reach-closed (stop-closed ps q e) r)
