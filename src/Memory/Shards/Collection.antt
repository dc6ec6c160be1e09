-- ===== src/Memory/Shards/Collection.antt =====
-- A whole collection of one shard: what is left of each time, and the invariant.
use chihaya.Base.{
  ℕ, ◌≡◌, refl, Bytes, bytes_eq, bytes_eq_iff, Option, none, some, is_some, List, [], ◌∷◌, arith,
  true, false, Bool, ◌||◌,
}
use chihaya.Base.Dict.{Dict, lookup, keys}
use chihaya.Memory.{Swarm, PeerShard}
use chihaya.Memory.Shards.{swarm_of, collect_in, collect_swarm, collect_all, expire}
use chihaya.Memory.Shards.Swarms.{swarm_of-store_swarm}
use chihaya.Memory.Shards.Times.{seeder_time_in, leecher_time_in, fresh, lookup-expire}
use chihaya.Memory.Shards.Invariant.{ShardInv}
use chihaya.Memory.Shards.Invariant.Counters.{collect_in_lem}
use chihaya.Memory.Shards.Invariant.Occupancy.{collect_in-ShardInv}

pub collect_all-ShardInv :
    (cutoff : ℕ) (ihs : List Bytes) (s : PeerShard)
    → ShardInv s
    → ShardInv (collect_all cutoff ihs s)
unfolding collect_all
collect_all-ShardInv cutoff [] s v = v
collect_all-ShardInv cutoff (ih ∷ ihs) s v =
    collect_all-ShardInv cutoff ihs (collect_in cutoff ih s) (collect_in-ShardInv cutoff ih s v)

-- A swarm that is not there has no times.
no_swarm-times :
    (ih qk : Bytes) (s : PeerShard)
    → is_some (lookup ih s.swarms) ≡ false
    → (seeder_time_in s ih qk ≡ none) × (leecher_time_in s ih qk ≡ none)
unfolding swarm_of lookup
no_swarm-times ih qk s h = ground arith

abbrev after {ℓ} : {A : Type ℓ} → Bool → (A → A) → A → A
after true f a = f a
after false f a = a

module _ (cutoff : ℕ) (ih : Bytes) (s : PeerShard) (v : ShardInv s) (j qk : Bytes) where
  pub collect_in-times :
      (seeder_time_in (collect_in cutoff ih s) j qk
        ≡ after (bytes_eq ih j) (fresh cutoff) (seeder_time_in s j qk))
      × (leecher_time_in (collect_in cutoff ih s) j qk
          ≡ after (bytes_eq ih j) (fresh cutoff) (leecher_time_in s j qk))
  unfolding collect_swarm
  collect_in-times =
      let w : Swarm = swarm_of ih s.swarms in
      ground (
        arith,
        bytes_eq_iff ih j,
        collect_in_lem cutoff ih s v.counted,
        no_swarm-times ih qk s,
        swarm_of-store_swarm ih j
            (record {
              seeders = (expire cutoff s.num_seeders w.seeders).1;
              leechers = (expire cutoff s.num_leechers w.leechers).1;
            })
            s.swarms,
        lookup-expire cutoff s.num_seeders qk w.seeders (v.counted.seeders_unique ih),
        lookup-expire cutoff s.num_leechers qk w.leechers (v.counted.leechers_unique ih),
      )

abbrev member : Bytes → List Bytes → Bool
member j [] = false
member j (ih ∷ ihs) = bytes_eq ih j || member j ihs

fresh_twice : (cutoff : ℕ) (o : Option ℕ) → fresh cutoff (fresh cutoff o) ≡ fresh cutoff o
fresh_twice cutoff none = refl
fresh_twice cutoff (some t) = ground arith

collect_all-times_of :
    (cutoff : ℕ) (ihs : List Bytes) (s : PeerShard)
    → ShardInv s
    → (j qk : Bytes)
    → (seeder_time_in (collect_all cutoff ihs s) j qk
        ≡ after (member j ihs) (fresh cutoff) (seeder_time_in s j qk))
      × (leecher_time_in (collect_all cutoff ihs s) j qk
          ≡ after (member j ihs) (fresh cutoff) (leecher_time_in s j qk))
unfolding collect_all
collect_all-times_of cutoff [] s v j qk = (refl, refl)
collect_all-times_of cutoff (ih ∷ ihs) s v j qk = ground (
  arith,
  collect_in-times cutoff ih s v j qk,
  fresh_twice cutoff (seeder_time_in s j qk),
  fresh_twice cutoff (leecher_time_in s j qk),
  collect_all-times_of cutoff ihs (collect_in cutoff ih s) (collect_in-ShardInv cutoff ih s v) j qk,
)

member-keys : (j : Bytes) (m : Dict Swarm) → member j (keys m) ≡ is_some (lookup j m)
unfolding lookup
member-keys j [] = refl
member-keys j ((k, w) ∷ m) = ground (arith, member-keys j m)

-- A collection leaves exactly the times after the cutoff.
pub collect_all-times :
    (cutoff : ℕ) (s : PeerShard)
    → ShardInv s
    → (j qk : Bytes)
    → (seeder_time_in (collect_all cutoff (keys s.swarms) s) j qk
        ≡ fresh cutoff (seeder_time_in s j qk))
      × (leecher_time_in (collect_all cutoff (keys s.swarms) s) j qk
          ≡ fresh cutoff (leecher_time_in s j qk))
collect_all-times cutoff s v j qk = ground (
  arith,
  collect_all-times_of cutoff (keys s.swarms) s v j qk,
  member-keys j s.swarms,
  no_swarm-times j qk s,
)
