-- ===== src/Memory/Operations/Collecting.antt =====
-- A collection of garbage over the whole store.
use chihaya.Base.{
  ℕ, ◌≡◌, refl, sym, ap, ◌∙◌, false, Bytes, List, [], ◌∷◌, zero, suc, map, get_or, length-map,
  arith, Bool-cases, inl, inr,
}
use chihaya.Base.Dict.{keys}
use chihaya.Bittorrent.{AddressFamily}
use chihaya.Memory.{PeerShard, PeerStore, empty_shard}
use chihaya.Memory.Shards.{collect_all}
use chihaya.Memory.Shards.Times.{fresh}
use chihaya.Memory.Shards.Invariant.{ShardInv}
use chihaya.Memory.Shards.Invariant.Occupancy.{empty_shard-ShardInv}
use chihaya.Memory.Shards.Collection.{collect_all-times, collect_all-ShardInv}
use chihaya.Memory.Operations.{collect_garbage}
use chihaya.Memory.Operations.Index.{shard_at, index_of}
use chihaya.Memory.Operations.Refinement.{seeder_time, leecher_time}

-- Every shard of a store keeps its invariant.
abbrev pub AllShards : List PeerShard → Type 0
AllShards [] = Unit {0}
AllShards (s ∷ ss) = ShardInv s × AllShards ss

pub AllShards-get_or :
    (ss : List PeerShard) (i : ℕ) → AllShards ss → ShardInv (get_or ss i empty_shard)
AllShards-get_or [] i h = empty_shard-ShardInv
AllShards-get_or (s ∷ ss) zero h = h.0
AllShards-get_or (s ∷ ss) (suc i) h = AllShards-get_or ss i h.1

get_or-map {ℓ κ} :
    {A : Type ℓ} {B : Type κ} (f : A → B) (xs : List A) (i : ℕ) (d : A)
    → get_or (map f xs) i (f d) ≡ f (get_or xs i d)
get_or-map f [] i d = refl
get_or-map f (x ∷ xs) zero d = refl
get_or-map f (x ∷ xs) (suc i) d = get_or-map f xs i d

abbrev sweep : ℕ → PeerShard → PeerShard
sweep cutoff s = collect_all cutoff (keys s.swarms) s

sweep-empty_shard : (cutoff : ℕ) → sweep cutoff empty_shard ≡ empty_shard
unfolding collect_all
sweep-empty_shard cutoff = refl

collect_garbage_open :
    (ps : PeerStore) (cutoff : ℕ)
    → ps.closed ≡ false
    → collect_garbage ps cutoff ≡ record ps { shards = map (sweep cutoff) ps.shards }
unfolding collect_garbage
collect_garbage_open ps cutoff o = ground arith

-- Each shard is swept on its own.
shard_at-collect_garbage :
    (ps : PeerStore) (cutoff : ℕ) (j : Bytes) (af : AddressFamily)
    → ps.closed ≡ false
    → shard_at (collect_garbage ps cutoff) j af ≡ sweep cutoff (shard_at ps j af)
shard_at-collect_garbage ps cutoff j af o =
    rw (collect_garbage_open ps cutoff o, length-map (sweep cutoff) ps.shards)
      (ap (get_or (map (sweep cutoff) ps.shards) (index_of ps j af))
          (sym (sweep-empty_shard cutoff))
        ∙ get_or-map (sweep cutoff) ps.shards (index_of ps j af) empty_shard)

-- A collection of garbage in an open store whose shards keep their invariant forgets exactly the
-- peers whose last announce is at the cutoff or before it.
pub collect_garbage-refines :
    (ps : PeerStore) (cutoff : ℕ) (j : Bytes) (af : AddressFamily) (qk : Bytes)
    → AllShards ps.shards
    → ps.closed ≡ false
    → (seeder_time (collect_garbage ps cutoff) j af qk ≡ fresh cutoff (seeder_time ps j af qk))
      × (leecher_time (collect_garbage ps cutoff) j af qk ≡ fresh cutoff (leecher_time ps j af qk))
collect_garbage-refines ps cutoff j af qk h o =
    rw (shard_at-collect_garbage ps cutoff j af o)
      (collect_all-times cutoff (shard_at ps j af) (AllShards-get_or ps.shards _ h) j qk)

pub collect_garbage-AllShards :
    (ps : PeerStore) (cutoff : ℕ)
    → AllShards ps.shards
    → AllShards (collect_garbage ps cutoff).shards
unfolding collect_garbage
collect_garbage-AllShards ps cutoff h = elim (Bool-cases ps.closed) [
  | inl e ↦ rw (e, collect_garbage) h
  | inr e ↦ rw (e, collect_garbage) (swept ps.shards h)
]
  where
    swept : (ss : List PeerShard) → AllShards ss → AllShards (map (sweep cutoff) ss)
    swept [] h = tt
    swept (s ∷ ss) h = (collect_all-ShardInv cutoff (keys s.swarms) s h.0, swept ss h.1)
