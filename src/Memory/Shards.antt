-- ===== src/Memory/Shards.antt =====
-- What each operation does to its shard while it holds the lock.
pub mod Swarms
pub mod Times
pub mod Counts
pub mod Invariant
pub mod Collection
use chihaya.Base.{
  ℕ, ◌==◌, leb, ◌&&◌, ◌||◌, Bool, Bytes, Option, none, some, is_some, List, [], ◌∷◌, length, Result,
  ok, err, if◌then◌else◌,
}
use chihaya.Base.Dict.{Dict, lookup, insert, delete, keys}
use chihaya.Memory.{Swarm, PeerShard, empty_swarm, inc64, dec64, err_resource_does_not_exist}

-- `swarms[ih]`; a missing swarm reads as one whose maps are nil, and so empty.
unfoldable pub swarm_of : Bytes → Dict Swarm → Swarm
swarm_of ih m = elim (lookup ih m) [ none ↦ empty_swarm | some w ↦ w ]

-- `if _, ok := swarms[ih]; !ok { swarms[ih] = swarm{…} }`
unfoldable pub ensure_swarm : Bytes → PeerShard → PeerShard
ensure_swarm ih s =
    if is_some (lookup ih s.swarms) then s else record s { swarms = insert ih empty_swarm s.swarms }

-- `seeders[pk] = now`, with the counter raised for a new seeder.
unfoldable pub set_seeder : Bytes → Bytes → ℕ → PeerShard → PeerShard
set_seeder ih pk now s =
    let w = swarm_of ih s.swarms in
    record s {
      num_seeders = if is_some (lookup pk w.seeders) then s.num_seeders else inc64 s.num_seeders;
      swarms = insert ih (record w { seeders = insert pk now w.seeders }) s.swarms;
    }

unfoldable pub set_leecher : Bytes → Bytes → ℕ → PeerShard → PeerShard
set_leecher ih pk now s =
    let w = swarm_of ih s.swarms in
    record s {
      num_leechers =
          if is_some (lookup pk w.leechers) then s.num_leechers else inc64 s.num_leechers;
      swarms = insert ih (record w { leechers = insert pk now w.leechers }) s.swarms;
    }

unfoldable pub put_seeder_in : Bytes → Bytes → ℕ → PeerShard → PeerShard
unfolding set_seeder ensure_swarm
put_seeder_in ih pk now s = set_seeder ih pk now (ensure_swarm ih s)

unfoldable pub put_leecher_in : Bytes → Bytes → ℕ → PeerShard → PeerShard
unfolding set_leecher ensure_swarm
put_leecher_in ih pk now s = set_leecher ih pk now (ensure_swarm ih s)

-- `len(seeders)|len(leechers) == 0`
unfoldable pub is_empty_swarm : Swarm → Bool
is_empty_swarm w = (length w.seeders == 0) && (length w.leechers == 0)

-- Stores a swarm, or deletes it when it holds nobody.
unfoldable pub store_swarm : Bytes → Swarm → Dict Swarm → Dict Swarm
store_swarm ih w m =
    let stored = insert ih w m in if is_empty_swarm w then delete ih stored else stored

unfoldable pub remove_seeder : Bytes → Bytes → Swarm → PeerShard → Result PeerShard
remove_seeder ih pk w s =
    if is_some (lookup pk w.seeders)
    then ok (record s {
      num_seeders = dec64 s.num_seeders;
      swarms = store_swarm ih (record w { seeders = delete pk w.seeders }) s.swarms;
    })
    else err err_resource_does_not_exist

unfoldable pub delete_seeder_in : Bytes → Bytes → PeerShard → Result PeerShard
unfolding remove_seeder
delete_seeder_in ih pk s = elim (lookup ih s.swarms) [
  | none ↦ err err_resource_does_not_exist
  | some w ↦ remove_seeder ih pk w s
]

unfoldable pub remove_leecher : Bytes → Bytes → Swarm → PeerShard → Result PeerShard
remove_leecher ih pk w s =
    if is_some (lookup pk w.leechers)
    then ok (record s {
      num_leechers = dec64 s.num_leechers;
      swarms = store_swarm ih (record w { leechers = delete pk w.leechers }) s.swarms;
    })
    else err err_resource_does_not_exist

unfoldable pub delete_leecher_in : Bytes → Bytes → PeerShard → Result PeerShard
unfolding remove_leecher
delete_leecher_in ih pk s = elim (lookup ih s.swarms) [
  | none ↦ err err_resource_does_not_exist
  | some w ↦ remove_leecher ih pk w s
]

-- `if _, ok := leechers[pk]; ok { numLeechers--; delete(leechers, pk) }`
unfoldable pub unset_leecher : Bytes → Bytes → PeerShard → PeerShard
unset_leecher ih pk s =
    let w = swarm_of ih s.swarms in
    if is_some (lookup pk w.leechers)
    then record s {
      num_leechers = dec64 s.num_leechers;
      swarms = insert ih (record w { leechers = delete pk w.leechers }) s.swarms;
    }
    else s

unfoldable pub graduate_leecher_in : Bytes → Bytes → ℕ → PeerShard → PeerShard
unfolding unset_leecher set_seeder ensure_swarm
graduate_leecher_in ih pk now s = set_seeder ih pk now (unset_leecher ih pk (ensure_swarm ih s))

-- The loop of a garbage collection over one map: an entry at or before the cutoff is deleted and
-- the counter lowered.
unfoldable pub expire : ℕ → ℕ → Dict ℕ → ℕ × Dict ℕ
expire cutoff n [] = (n, [])
expire cutoff n ((pk, mtime) ∷ m) =
    let rest = expire cutoff (if leb mtime cutoff then dec64 n else n) m in
    (rest.0, if leb mtime cutoff then rest.1 else (pk, mtime) ∷ rest.1)

unfoldable pub collect_swarm : ℕ → Bytes → Swarm → PeerShard → PeerShard
collect_swarm cutoff ih w s =
    let ls = expire cutoff s.num_leechers w.leechers in
    let ss = expire cutoff s.num_seeders w.seeders in
    record s {
      num_leechers = ls.0;
      num_seeders = ss.0;
      swarms = store_swarm ih (record { seeders = ss.1; leechers = ls.1 }) s.swarms;
    }

-- One critical section of a collection: the swarm may be gone by then.
unfoldable pub collect_in : ℕ → Bytes → PeerShard → PeerShard
unfolding collect_swarm
collect_in cutoff ih s = elim (lookup ih s.swarms) [
  | none ↦ s
  | some w ↦ collect_swarm cutoff ih w s
]

-- The collection of a shard that nobody else touches meanwhile, over the infohashes it had.
unfoldable pub collect_all : ℕ → List Bytes → PeerShard → PeerShard
collect_all cutoff [] s = s
collect_all cutoff (ih ∷ ihs) s = collect_all cutoff ihs (collect_in cutoff ih s)
