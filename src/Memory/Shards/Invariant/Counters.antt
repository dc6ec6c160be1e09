-- ===== src/Memory/Shards/Invariant/Counters.antt =====
-- Each critical section keeps the keys unique and the counters right.
use chihaya.Base.{
  ℕ, ◌%◌, ◌^◌, ◌≡◌, refl, Bytes, is_some, Bool-cases, inl, inr, length, if◌then◌else◌, arith, true,
  leb, ◌-◌, [], ◌∷◌,
}
use chihaya.Base.Dict.{
  Dict, lookup, insert, delete, IsUnique, insert-IsUnique, delete-IsUnique, length-insert,
  length-delete,
}
use chihaya.Memory.{Swarm, PeerShard, dec64, inc64, empty_swarm}
use chihaya.Memory.Shards.{
  swarm_of, store_swarm, set_seeder, set_leecher, unset_leecher, expire, collect_in, collect_swarm,
}
use chihaya.Memory.Shards.Times.{
  without_seeder, without_leecher, seeder_time_in, leecher_time_in, lookup-expire,
}
use chihaya.Memory.Shards.Counts.{
  total, seeders_of, leechers_of, total-insert, total-store_swarm, store_swarm-IsUnique,
  expire_counted,
}
use chihaya.Memory.Shards.Invariant.{Counted, each-insert, each-store_swarm}

-- A dictionary of swarms with one swarm written anew.
module _ (ih : Bytes) (s : PeerShard) (c : Counted s) (v : Swarm) (n k : ℕ)
    (us : IsUnique v.seeders) (ul : IsUnique v.leechers) where
  insert-Counted :
      n ≡ total seeders_of (insert ih v s.swarms) % 2 ^ 64
      → k ≡ total leechers_of (insert ih v s.swarms) % 2 ^ 64
      → Counted (record { swarms = insert ih v s.swarms; num_seeders = n; num_leechers = k })
  insert-Counted hn hk = record {
    swarms_unique = insert-IsUnique ih v s.swarms c.swarms_unique;
    seeders_unique = each-insert (λ x. IsUnique x.seeders) ih v s.swarms us c.seeders_unique;
    leechers_unique = each-insert (λ x. IsUnique x.leechers) ih v s.swarms ul c.leechers_unique;
    seeders_counted = hn;
    leechers_counted = hk;
  }

  store_swarm-Counted :
      n ≡ total seeders_of (store_swarm ih v s.swarms) % 2 ^ 64
      → k ≡ total leechers_of (store_swarm ih v s.swarms) % 2 ^ 64
      → Counted (record { swarms = store_swarm ih v s.swarms; num_seeders = n; num_leechers = k })
  store_swarm-Counted hn hk = record {
    swarms_unique = store_swarm-IsUnique ih v s.swarms c.swarms_unique;
    seeders_unique = each-store_swarm (λ x. IsUnique x.seeders) ih v s.swarms us c.seeders_unique;
    leechers_unique =
        each-store_swarm (λ x. IsUnique x.leechers) ih v s.swarms ul c.leechers_unique;
    seeders_counted = hn;
    leechers_counted = hk;
  }

module _ (ih pk : Bytes) (now : ℕ) (s : PeerShard) (c : Counted s) where
  abbrev w : Swarm
  w = swarm_of ih s.swarms

  pub set_seeder-Counted : Counted (set_seeder ih pk now s)
  unfolding set_seeder inc64
  set_seeder-Counted =
      let v : Swarm = record w { seeders = insert pk now w.seeders } in
      insert-Counted ih s c v _ _ (insert-IsUnique pk now w.seeders (c.seeders_unique ih))
        (c.leechers_unique ih)
        (ground (
          arith,
          c.seeders_counted,
          total-insert seeders_of refl ih v s.swarms,
          length-insert pk now w.seeders,
        ))
        (ground (arith, c.leechers_counted, total-insert leechers_of refl ih v s.swarms))

  pub set_leecher-Counted : Counted (set_leecher ih pk now s)
  unfolding set_leecher inc64
  set_leecher-Counted =
      let v : Swarm = record w { leechers = insert pk now w.leechers } in
      insert-Counted ih s c v _ _ (c.seeders_unique ih)
        (insert-IsUnique pk now w.leechers (c.leechers_unique ih))
        (ground (arith, c.seeders_counted, total-insert seeders_of refl ih v s.swarms))
        (ground (
          arith,
          c.leechers_counted,
          total-insert leechers_of refl ih v s.swarms,
          length-insert pk now w.leechers,
        ))

module _ (ih pk : Bytes) (s : PeerShard) (c : Counted s) where
  abbrev w' : Swarm
  w' = swarm_of ih s.swarms

  pub unset_leecher-Counted : Counted (unset_leecher ih pk s)
  unfolding unset_leecher dec64
  unset_leecher-Counted = elim (Bool-cases (is_some (lookup pk w'.leechers))) [
    | inr e ↦ rw (e, unset_leecher) c
    | inl e ↦
        let v : Swarm = record w' { leechers = delete pk w'.leechers } in
        rw (e, unset_leecher)
          (insert-Counted ih s c v _ _ (c.seeders_unique ih)
            (delete-IsUnique pk w'.leechers (c.leechers_unique ih))
            (ground (arith, c.seeders_counted, total-insert seeders_of refl ih v s.swarms))
            (ground (
              arith,
              c.leechers_counted,
              total-insert leechers_of refl ih v s.swarms,
              length-delete pk w'.leechers (c.leechers_unique ih),
            )))
  ]

  pub without_seeder-Counted :
      is_some (seeder_time_in s ih pk) ≡ true → Counted (without_seeder ih pk s)
  unfolding dec64
  without_seeder-Counted e =
      let v : Swarm = record w' { seeders = delete pk w'.seeders } in
      store_swarm-Counted ih s c v _ _ (delete-IsUnique pk w'.seeders (c.seeders_unique ih))
        (c.leechers_unique ih)
        (ground (
          arith,
          c.seeders_counted,
          total-store_swarm seeders_of refl ih v s.swarms c.swarms_unique,
          length-delete pk w'.seeders (c.seeders_unique ih),
        ))
        (ground (
          arith,
          c.leechers_counted,
          total-store_swarm leechers_of refl ih v s.swarms c.swarms_unique,
        ))

  pub without_leecher-Counted :
      is_some (leecher_time_in s ih pk) ≡ true → Counted (without_leecher ih pk s)
  unfolding dec64
  without_leecher-Counted e =
      let v : Swarm = record w' { leechers = delete pk w'.leechers } in
      store_swarm-Counted ih s c v _ _ (c.seeders_unique ih)
        (delete-IsUnique pk w'.leechers (c.leechers_unique ih))
        (ground (
          arith,
          c.seeders_counted,
          total-store_swarm seeders_of refl ih v s.swarms c.swarms_unique,
        ))
        (ground (
          arith,
          c.leechers_counted,
          total-store_swarm leechers_of refl ih v s.swarms c.swarms_unique,
          length-delete pk w'.leechers (c.leechers_unique ih),
        ))

expire-IsUnique : (cutoff n : ℕ) (m : Dict ℕ) → IsUnique m → IsUnique (expire cutoff n m).1
unfolding expire
expire-IsUnique cutoff n [] u = tt
expire-IsUnique cutoff n ((pk, t) ∷ m) u = ground (
  arith,
  lookup-expire cutoff (if leb t cutoff then dec64 n else n) pk m u.1,
  expire-IsUnique cutoff (if leb t cutoff then dec64 n else n) m u.1,
)

module _ (cutoff : ℕ) (ih : Bytes) (s : PeerShard) (c : Counted s) where
  -- The collection of one swarm, written over `swarm_of`.
  pub collect_in_lem : collect_in cutoff ih s ≡ (
      if is_some (lookup ih s.swarms) then collect_swarm cutoff ih (swarm_of ih s.swarms) s else s)
  unfolding collect_in swarm_of
  collect_in_lem = ground arith

  pub collect_in-Counted : Counted (collect_in cutoff ih s)
  unfolding collect_swarm
  collect_in-Counted = elim (Bool-cases (is_some (lookup ih s.swarms))) [
    | inr e ↦ rw (collect_in_lem, e) c
    | inl e ↦
        let x : Swarm = swarm_of ih s.swarms in
        let other_seeders : ℕ = total seeders_of s.swarms - length x.seeders in
        let other_leechers : ℕ = total leechers_of s.swarms - length x.leechers in
        let below = total-insert seeders_of refl ih empty_swarm s.swarms in
        let below' = total-insert leechers_of refl ih empty_swarm s.swarms in
        let v : Swarm = record {
          seeders = (expire cutoff s.num_seeders x.seeders).1;
          leechers = (expire cutoff s.num_leechers x.leechers).1;
        } in
        let stored = total-store_swarm seeders_of refl ih v s.swarms c.swarms_unique in
        let stored' = total-store_swarm leechers_of refl ih v s.swarms c.swarms_unique in
        let counted =
          expire_counted cutoff s.num_seeders other_seeders x.seeders
            (ground (arith, c.seeders_counted, below)) in
        let counted' =
          expire_counted cutoff s.num_leechers other_leechers x.leechers
            (ground (arith, c.leechers_counted, below')) in
        rw (collect_in_lem, e)
          (store_swarm-Counted ih s c v _ _
            (expire-IsUnique cutoff s.num_seeders x.seeders (c.seeders_unique ih))
            (expire-IsUnique cutoff s.num_leechers x.leechers (c.leechers_unique ih))
            (ground (arith, counted, stored, below)) (ground (arith, counted', stored', below')))
  ]
