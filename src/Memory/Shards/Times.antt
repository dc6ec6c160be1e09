-- ===== src/Memory/Shards/Times.antt =====
-- A shard seen as two functions from an infohash and a peer key to the time of the last announce,
-- and what each operation does to them.
use chihaya.Base.{
  ℕ, leb, ◌≡◌, refl, Bool, ◌&&◌, Bytes, bytes_eq, bytes_eq_iff, inl, inr, Option, none, some,
  is_some, Option-cases, [], ◌∷◌, ok, err, if◌then◌else◌, arith,
}
use chihaya.Base.Dict.{Dict, lookup, insert, delete, lookup-insert, lookup-delete, IsUnique}
use chihaya.Memory.{PeerShard, dec64, err_resource_does_not_exist}
use chihaya.Memory.Shards.{
  swarm_of, ensure_swarm, set_seeder, set_leecher, put_seeder_in, put_leecher_in, store_swarm,
  delete_seeder_in, delete_leecher_in, unset_leecher, graduate_leecher_in, expire,
}
use chihaya.Memory.Shards.Swarms.{swarm_of-insert, swarm_of-ensure_swarm, swarm_of-store_swarm}

abbrev pub seeder_time_in : PeerShard → Bytes → Bytes → Option ℕ
seeder_time_in s ih pk = lookup pk (swarm_of ih s.swarms).seeders

abbrev pub leecher_time_in : PeerShard → Bytes → Bytes → Option ℕ
leecher_time_in s ih pk = lookup pk (swarm_of ih s.swarms).leechers

-- The pair names the same swarm and the same peer.
abbrev pub same_in : Bytes → Bytes → Bytes → Bytes → Bool
same_in ih pk j qk = bytes_eq ih j && bytes_eq pk qk

module _ (ih pk : Bytes) (now : ℕ) (s : PeerShard) (j qk : Bytes) where
  set_seeder-times :
      (seeder_time_in (set_seeder ih pk now s) j qk
        ≡ (if same_in ih pk j qk then some now else seeder_time_in s j qk))
      × (leecher_time_in (set_seeder ih pk now s) j qk ≡ leecher_time_in s j qk)
  unfolding set_seeder
  set_seeder-times = ground (
    arith,
    bytes_eq_iff ih j,
    swarm_of-insert ih j
        (record (swarm_of ih s.swarms) { seeders = insert pk now (swarm_of ih s.swarms).seeders })
        s.swarms,
    lookup-insert pk qk now (swarm_of ih s.swarms).seeders,
  )

  set_leecher-times :
      (leecher_time_in (set_leecher ih pk now s) j qk
        ≡ (if same_in ih pk j qk then some now else leecher_time_in s j qk))
      × (seeder_time_in (set_leecher ih pk now s) j qk ≡ seeder_time_in s j qk)
  unfolding set_leecher
  set_leecher-times = ground (
    arith,
    bytes_eq_iff ih j,
    swarm_of-insert ih j
        (record (swarm_of ih s.swarms) { leechers = insert pk now (swarm_of ih s.swarms).leechers })
        s.swarms,
    lookup-insert pk qk now (swarm_of ih s.swarms).leechers,
  )

module _ (ih pk : Bytes) (s : PeerShard) (j qk : Bytes) where
  unset_leecher-times :
      (leecher_time_in (unset_leecher ih pk s) j qk
        ≡ (if same_in ih pk j qk then none else leecher_time_in s j qk))
      × (seeder_time_in (unset_leecher ih pk s) j qk ≡ seeder_time_in s j qk)
  unfolding unset_leecher
  unset_leecher-times = ground (
    arith,
    bytes_eq_iff ih j,
    bytes_eq_iff pk qk,
    swarm_of-insert ih j
        (record (swarm_of ih s.swarms) { leechers = delete pk (swarm_of ih s.swarms).leechers })
        s.swarms,
    lookup-delete pk qk (swarm_of ih s.swarms).leechers,
  )

module _ (ih pk : Bytes) (now : ℕ) (s : PeerShard) (j qk : Bytes) where
  pub put_seeder_in-times :
      (seeder_time_in (put_seeder_in ih pk now s) j qk
        ≡ (if same_in ih pk j qk then some now else seeder_time_in s j qk))
      × (leecher_time_in (put_seeder_in ih pk now s) j qk ≡ leecher_time_in s j qk)
  unfolding put_seeder_in
  put_seeder_in-times =
      rw (← swarm_of-ensure_swarm ih j s) (set_seeder-times ih pk now (ensure_swarm ih s) j qk)

  pub put_leecher_in-times :
      (leecher_time_in (put_leecher_in ih pk now s) j qk
        ≡ (if same_in ih pk j qk then some now else leecher_time_in s j qk))
      × (seeder_time_in (put_leecher_in ih pk now s) j qk ≡ seeder_time_in s j qk)
  unfolding put_leecher_in
  put_leecher_in-times =
      rw (← swarm_of-ensure_swarm ih j s) (set_leecher-times ih pk now (ensure_swarm ih s) j qk)

  pub graduate_leecher_in-times :
      (seeder_time_in (graduate_leecher_in ih pk now s) j qk
        ≡ (if same_in ih pk j qk then some now else seeder_time_in s j qk))
      × (leecher_time_in (graduate_leecher_in ih pk now s) j qk
          ≡ (if same_in ih pk j qk then none else leecher_time_in s j qk))
  unfolding graduate_leecher_in
  graduate_leecher_in-times = ground (
    arith,
    swarm_of-ensure_swarm ih j s,
    unset_leecher-times ih pk (ensure_swarm ih s) j qk,
    set_seeder-times ih pk now (unset_leecher ih pk (ensure_swarm ih s)) j qk,
  )

-- The shard after a seeder, or a leecher, that was there is gone.
abbrev pub without_seeder : Bytes → Bytes → PeerShard → PeerShard
without_seeder ih pk s = record s {
  num_seeders = dec64 s.num_seeders;
  swarms =
      store_swarm ih
        (record (swarm_of ih s.swarms) { seeders = delete pk (swarm_of ih s.swarms).seeders })
        s.swarms;
}

abbrev pub without_leecher : Bytes → Bytes → PeerShard → PeerShard
without_leecher ih pk s = record s {
  num_leechers = dec64 s.num_leechers;
  swarms =
      store_swarm ih
        (record (swarm_of ih s.swarms) { leechers = delete pk (swarm_of ih s.swarms).leechers })
        s.swarms;
}

module _ (ih pk : Bytes) (s : PeerShard) where
  -- A deletion fails exactly when the peer is not there.
  pub delete_seeder_in_lem : delete_seeder_in ih pk s ≡ (
      if is_some (seeder_time_in s ih pk)
      then ok (without_seeder ih pk s)
      else err err_resource_does_not_exist)
  unfolding delete_seeder_in swarm_of lookup
  delete_seeder_in_lem = elim (Option-cases (lookup ih s.swarms)) [
    | inl e ↦ rw (e, delete_seeder_in, swarm_of)
    | inr (w, e) ↦ rw (e, delete_seeder_in, swarm_of)
  ]

  pub delete_leecher_in_lem : delete_leecher_in ih pk s ≡ (
      if is_some (leecher_time_in s ih pk)
      then ok (without_leecher ih pk s)
      else err err_resource_does_not_exist)
  unfolding delete_leecher_in swarm_of lookup
  delete_leecher_in_lem = elim (Option-cases (lookup ih s.swarms)) [
    | inl e ↦ rw (e, delete_leecher_in, swarm_of)
    | inr (w, e) ↦ rw (e, delete_leecher_in, swarm_of)
  ]

module _ (ih pk : Bytes) (s : PeerShard) (j qk : Bytes) where
  pub without_seeder-times :
      (seeder_time_in (without_seeder ih pk s) j qk
        ≡ (if same_in ih pk j qk then none else seeder_time_in s j qk))
      × (leecher_time_in (without_seeder ih pk s) j qk ≡ leecher_time_in s j qk)
  without_seeder-times = ground (
    arith,
    bytes_eq_iff ih j,
    swarm_of-store_swarm ih j
        (record (swarm_of ih s.swarms) { seeders = delete pk (swarm_of ih s.swarms).seeders })
        s.swarms,
    lookup-delete pk qk (swarm_of ih s.swarms).seeders,
  )

  pub without_leecher-times :
      (leecher_time_in (without_leecher ih pk s) j qk
        ≡ (if same_in ih pk j qk then none else leecher_time_in s j qk))
      × (seeder_time_in (without_leecher ih pk s) j qk ≡ seeder_time_in s j qk)
  without_leecher-times = ground (
    arith,
    bytes_eq_iff ih j,
    swarm_of-store_swarm ih j
        (record (swarm_of ih s.swarms) { leechers = delete pk (swarm_of ih s.swarms).leechers })
        s.swarms,
    lookup-delete pk qk (swarm_of ih s.swarms).leechers,
  )

-- What is left of a time by a collection.
abbrev pub fresh : ℕ → Option ℕ → Option ℕ
fresh cutoff none = none
fresh cutoff (some t) = if leb t cutoff then none else some t

pub lookup-expire :
    (cutoff n : ℕ) (qk : Bytes) (m : Dict ℕ)
    → IsUnique m
    → lookup qk (expire cutoff n m).1 ≡ fresh cutoff (lookup qk m)
unfolding lookup expire
lookup-expire cutoff n qk [] u = refl
lookup-expire cutoff n qk ((pk, t) ∷ m) u =
    ground (
      arith,
      bytes_eq_iff pk qk,
      lookup-expire cutoff (if leb t cutoff then dec64 n else n) qk m u.1,
    )
