-- ===== src/Memory/Shards/Invariant/Occupancy.antt =====
-- Each critical section deletes a swarm with its last peer, and keeps every other.
use chihaya.Base.{
  ℕ, ◌≡◌, refl, Bytes, bytes_eq, bytes_eq_iff, is_some, Bool-cases, inl, inr, arith, true, false,
  not,
}
use chihaya.Base.Dict.{lookup, insert, delete, lookup-insert, length_pos-lookup}
use chihaya.Memory.{Swarm, PeerShard, empty_shard}
use chihaya.Memory.Shards.{
  swarm_of, store_swarm, set_seeder, set_leecher, unset_leecher, collect_in, collect_swarm,
  is_empty_swarm, put_seeder_in, put_leecher_in, graduate_leecher_in,
}
use chihaya.Memory.Shards.Swarms.{swarm_of-insert, swarm_of-store_swarm}
use chihaya.Memory.Shards.Times.{without_seeder, without_leecher, seeder_time_in, leecher_time_in}
use chihaya.Memory.Shards.Counts.{is_some-store_swarm, total}
use chihaya.Memory.Shards.Invariant.{
  NoneEmpty, ShardInv, put_seeder_in_lem, put_leecher_in_lem, graduate_leecher_in_lem,
}
use chihaya.Memory.Shards.Invariant.Counters.{
  set_seeder-Counted, set_leecher-Counted, unset_leecher-Counted, without_seeder-Counted,
  without_leecher-Counted, collect_in_lem, collect_in-Counted,
}

-- Occupancy of the swarms other than one.
abbrev OthersNoneEmpty : Bytes → PeerShard → Type 0
OthersNoneEmpty ih s =
    (j : Bytes)
    → bytes_eq ih j ≡ false
    → is_some (lookup j s.swarms) ≡ not (is_empty_swarm (swarm_of j s.swarms))

store-NoneEmpty :
    (ih : Bytes) (v : Swarm) (s : PeerShard) (n k : ℕ)
    → NoneEmpty s
    → NoneEmpty (record { swarms = store_swarm ih v s.swarms; num_seeders = n; num_leechers = k })
store-NoneEmpty ih v s n k h j =
    ground (arith, is_some-store_swarm ih j v s.swarms, swarm_of-store_swarm ih j v s.swarms, h j)

insert-NoneEmpty :
    (ih : Bytes) (v : Swarm) (s : PeerShard) (n k : ℕ)
    → is_empty_swarm v ≡ false
    → OthersNoneEmpty ih s
    → NoneEmpty (record { swarms = insert ih v s.swarms; num_seeders = n; num_leechers = k })
insert-NoneEmpty ih v s n k occupied h j =
    ground (arith, lookup-insert ih j v s.swarms, swarm_of-insert ih j v s.swarms, h j)

module _ (ih pk : Bytes) (now : ℕ) (s : PeerShard) where
  set_seeder-NoneEmpty : OthersNoneEmpty ih s → NoneEmpty (set_seeder ih pk now s)
  unfolding set_seeder
  set_seeder-NoneEmpty h =
      let w : Swarm = swarm_of ih s.swarms in
      insert-NoneEmpty ih (record w { seeders = insert pk now w.seeders }) s 0 0
        (unfold is_empty_swarm in
          ground (
            arith,
            length_pos-lookup pk (insert pk now w.seeders) {v = now},
            lookup-insert pk pk now w.seeders,
            bytes_eq_iff pk pk,
          ))
        h

  set_leecher-NoneEmpty : OthersNoneEmpty ih s → NoneEmpty (set_leecher ih pk now s)
  unfolding set_leecher
  set_leecher-NoneEmpty h =
      let w : Swarm = swarm_of ih s.swarms in
      insert-NoneEmpty ih (record w { leechers = insert pk now w.leechers }) s 0 0
        (unfold is_empty_swarm in
          ground (
            arith,
            length_pos-lookup pk (insert pk now w.leechers) {v = now},
            lookup-insert pk pk now w.leechers,
            bytes_eq_iff pk pk,
          ))
        h

  unset_leecher-others : NoneEmpty s → OthersNoneEmpty ih (unset_leecher ih pk s)
  unfolding unset_leecher
  unset_leecher-others h j ne =
      let w : Swarm = swarm_of ih s.swarms in
      let v : Swarm = record w { leechers = delete pk w.leechers } in
      ground (arith, lookup-insert ih j v s.swarms, swarm_of-insert ih j v s.swarms, h j)

-- The invariant is kept by every critical section.
module _ (ih pk : Bytes) (now : ℕ) (s : PeerShard) (v : ShardInv s) where
  pub put_seeder_in-ShardInv : ShardInv (put_seeder_in ih pk now s)
  put_seeder_in-ShardInv = rw (put_seeder_in_lem ih pk now s) (record {
    counted = set_seeder-Counted ih pk now s v.counted;
    none_empty = set_seeder-NoneEmpty ih pk now s (λ j _. v.none_empty j);
  })

  pub put_leecher_in-ShardInv : ShardInv (put_leecher_in ih pk now s)
  put_leecher_in-ShardInv = rw (put_leecher_in_lem ih pk now s) (record {
    counted = set_leecher-Counted ih pk now s v.counted;
    none_empty = set_leecher-NoneEmpty ih pk now s (λ j _. v.none_empty j);
  })

  pub graduate_leecher_in-ShardInv : ShardInv (graduate_leecher_in ih pk now s)
  graduate_leecher_in-ShardInv = rw (graduate_leecher_in_lem ih pk now s) (record {
    counted =
        set_seeder-Counted ih pk now (unset_leecher ih pk s)
          (unset_leecher-Counted ih pk s v.counted);
    none_empty =
        set_seeder-NoneEmpty ih pk now (unset_leecher ih pk s)
          (unset_leecher-others ih pk now s v.none_empty);
  })

module _ (ih pk : Bytes) (s : PeerShard) (v : ShardInv s) where
  pub without_seeder-ShardInv :
      is_some (seeder_time_in s ih pk) ≡ true → ShardInv (without_seeder ih pk s)
  without_seeder-ShardInv e = record {
    counted = without_seeder-Counted ih pk s v.counted e;
    none_empty = store-NoneEmpty ih _ s 0 0 v.none_empty;
  }

  pub without_leecher-ShardInv :
      is_some (leecher_time_in s ih pk) ≡ true → ShardInv (without_leecher ih pk s)
  without_leecher-ShardInv e = record {
    counted = without_leecher-Counted ih pk s v.counted e;
    none_empty = store-NoneEmpty ih _ s 0 0 v.none_empty;
  }

collect_in-NoneEmpty :
    (cutoff : ℕ) (ih : Bytes) (s : PeerShard) → ShardInv s → NoneEmpty (collect_in cutoff ih s)
unfolding collect_swarm
collect_in-NoneEmpty cutoff ih s v = elim (Bool-cases (is_some (lookup ih s.swarms))) [
  | inr e ↦ rw (collect_in_lem cutoff ih s v.counted, e) v.none_empty
  | inl e ↦ rw (collect_in_lem cutoff ih s v.counted, e) (store-NoneEmpty ih _ s 0 0 v.none_empty)
]

pub collect_in-ShardInv :
    (cutoff : ℕ) (ih : Bytes) (s : PeerShard) → ShardInv s → ShardInv (collect_in cutoff ih s)
collect_in-ShardInv cutoff ih s v = record {
  counted = collect_in-Counted cutoff ih s v.counted;
  none_empty = collect_in-NoneEmpty cutoff ih s v;
}

pub empty_shard-ShardInv : ShardInv empty_shard
unfolding swarm_of lookup is_empty_swarm
empty_shard-ShardInv = record {
  counted = record {
    swarms_unique = tt;
    seeders_unique = λ j. tt;
    leechers_unique = λ j. tt;
    seeders_counted = unfold total in refl;
    leechers_counted = unfold total in refl;
  };
  none_empty = λ j. refl;
}
