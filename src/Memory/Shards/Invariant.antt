-- ===== src/Memory/Shards/Invariant.antt =====
-- What holds of a shard between any two critical sections, and that each one keeps it.
pub mod Counters
pub mod Occupancy
use chihaya.Base.{
  ℕ, ◌+◌, ◌-◌, ◌%◌, ◌^◌, ◌≡◌, refl, sym, ap, ◌∙◌, inl, inr, Bool, true, false, not, Bytes, bytes_eq,
  bytes_eq_iff, Option, none, some, is_some, Option-cases, Bool-cases, List, [], ◌∷◌, length, leb,
  if◌then◌else◌, arith, ◌≤◌, subst,
}
use chihaya.Base.Dict.{
  Dict, lookup, insert, delete, lookup-insert, lookup-delete, IsUnique, insert-IsUnique,
  delete-IsUnique, length-insert, length-delete,
}
use chihaya.Memory.{Swarm, PeerShard, empty_swarm, empty_shard, dec64, inc64}
use chihaya.Memory.Shards.{
  swarm_of, is_empty_swarm, store_swarm, ensure_swarm, set_seeder, set_leecher, put_seeder_in,
  put_leecher_in, unset_leecher, graduate_leecher_in,
}
use chihaya.Memory.Shards.Swarms.{
  swarm_of-insert, swarm_of-ensure_swarm, insert-ensure_swarm, swarm_of-store_swarm,
}
use chihaya.Memory.Shards.Times.{without_seeder, without_leecher, seeder_time_in, leecher_time_in}
use chihaya.Memory.Shards.Counts.{
  total, seeders_of, leechers_of, total-insert, total-store_swarm, store_swarm-IsUnique,
  is_some-store_swarm,
}

-- The maps have each key once, and the counters agree with them in uint64.
pub record Counted (s : PeerShard) : Type 0 where
  pub swarms_unique : IsUnique s.swarms
  pub seeders_unique : (j : Bytes) → IsUnique (swarm_of j s.swarms).seeders
  pub leechers_unique : (j : Bytes) → IsUnique (swarm_of j s.swarms).leechers
  pub seeders_counted : s.num_seeders ≡ total seeders_of s.swarms % 2 ^ 64
  pub leechers_counted : s.num_leechers ≡ total leechers_of s.swarms % 2 ^ 64

-- A swarm is kept exactly as long as it holds somebody.
abbrev pub NoneEmpty : PeerShard → Type 0
NoneEmpty s = (j : Bytes) → is_some (lookup j s.swarms) ≡ not (is_empty_swarm (swarm_of j s.swarms))

pub record ShardInv (s : PeerShard) : Type 0 where
  pub counted : Counted s
  pub none_empty : NoneEmpty s

-- A property of each swarm survives the change of one.
pub each-insert :
    (P : Swarm → Type 0) (ih : Bytes) (w : Swarm) (m : Dict Swarm)
    → P w
    → ((j : Bytes) → P (swarm_of j m))
    → (j : Bytes) → P (swarm_of j (insert ih w m))
each-insert P ih w m p ps j = elim (Bool-cases (bytes_eq ih j)) [
  | inl e ↦ rw (swarm_of-insert ih j w m, e) p
  | inr e ↦ rw (swarm_of-insert ih j w m, e) (ps j)
]

pub each-store_swarm :
    (P : Swarm → Type 0) (ih : Bytes) (w : Swarm) (m : Dict Swarm)
    → P w
    → ((j : Bytes) → P (swarm_of j m))
    → (j : Bytes) → P (swarm_of j (store_swarm ih w m))
each-store_swarm P ih w m p ps j = elim (Bool-cases (bytes_eq ih j)) [
  | inl e ↦ rw (swarm_of-store_swarm ih j w m, e) p
  | inr e ↦ rw (swarm_of-store_swarm ih j w m, e) (ps j)
]

ensure_swarm_there :
    (ih : Bytes) (s : PeerShard) → is_some (lookup ih s.swarms) ≡ true → ensure_swarm ih s ≡ s
unfolding ensure_swarm
ensure_swarm_there ih s h = rw h

unset_leecher_absent :
    (ih pk : Bytes) (s : PeerShard) → leecher_time_in s ih pk ≡ none → unset_leecher ih pk s ≡ s
unfolding unset_leecher
unset_leecher_absent ih pk s h = rw h

absent_time :
    (ih pk : Bytes) (s : PeerShard)
    → is_some (lookup ih s.swarms) ≡ false
    → leecher_time_in s ih pk ≡ none
unfolding swarm_of lookup
absent_time ih pk s h = ground arith

module _ (ih pk : Bytes) (now : ℕ) (s : PeerShard) where
  -- `ensure_swarm` leaves no trace under the write that follows it.
  pub put_seeder_in_lem : put_seeder_in ih pk now s ≡ set_seeder ih pk now s
  unfolding put_seeder_in set_seeder
  put_seeder_in_lem =
      rw (swarm_of-ensure_swarm ih ih s, insert-ensure_swarm ih _ s)
        (unfold ensure_swarm in ground arith)

  pub put_leecher_in_lem : put_leecher_in ih pk now s ≡ set_leecher ih pk now s
  unfolding put_leecher_in set_leecher
  put_leecher_in_lem =
      rw (swarm_of-ensure_swarm ih ih s, insert-ensure_swarm ih _ s)
        (unfold ensure_swarm in ground arith)

  pub graduate_leecher_in_lem :
      graduate_leecher_in ih pk now s ≡ set_seeder ih pk now (unset_leecher ih pk s)
  unfolding graduate_leecher_in
  graduate_leecher_in_lem = elim (Bool-cases (is_some (lookup ih s.swarms))) [
    | inl e ↦ rw (ensure_swarm_there ih s e)
    | inr e ↦
        let gone = absent_time ih pk s e in
        rw
          (
            unset_leecher_absent ih pk (ensure_swarm ih s)
                (rw (swarm_of-ensure_swarm ih ih s) gone),
            unset_leecher_absent ih pk s gone,
          )
          (unfold put_seeder_in in put_seeder_in_lem)
  ]
