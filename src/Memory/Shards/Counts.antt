-- ===== src/Memory/Shards/Counts.antt =====
-- The peers of a shard, added up over its swarms.
use chihaya.Base.{
  ℕ, ◌+◌, ◌%◌, ◌^◌, ◌≡◌, not, Bytes, bytes_eq, bytes_eq_iff, is_some, [], ◌∷◌, length, leb,
  if◌then◌else◌, arith,
}
use chihaya.Base.Dict.{
  Dict, lookup, insert, delete, lookup-insert, lookup-delete, IsUnique, insert-IsUnique,
  delete-IsUnique, delete_missing,
}
use chihaya.Memory.{Swarm, empty_swarm, dec64}
use chihaya.Memory.Shards.{swarm_of, is_empty_swarm, store_swarm, expire}
use chihaya.Memory.Shards.Swarms.{is_empty_swarm-eq}

abbrev pub seeders_of : Swarm → ℕ
seeders_of w = length w.seeders

abbrev pub leechers_of : Swarm → ℕ
leechers_of w = length w.leechers

unfoldable pub total : (Swarm → ℕ) → Dict Swarm → ℕ
total f [] = 0
total f ((k, w) ∷ m) = f w + total f m

module _ (f : Swarm → ℕ) (f_empty : f empty_swarm ≡ 0) where
  pub total-insert :
      (ih : Bytes) (w : Swarm) (m : Dict Swarm)
      → total f (insert ih w m) + f (swarm_of ih m) ≡ total f m + f w
  unfolding total swarm_of insert lookup
  total-insert ih w [] = omega arith
  total-insert ih w ((j, v) ∷ m) = ground (arith, total-insert ih w m)

  total-delete :
      (ih : Bytes) (m : Dict Swarm)
      → IsUnique m
      → total f (delete ih m) + f (swarm_of ih m) ≡ total f m
  unfolding total swarm_of delete lookup
  total-delete ih [] u = omega arith
  total-delete ih ((j, v) ∷ m) u =
      ground (arith, bytes_eq_iff j ih, delete_missing ih m, total-delete ih m u.1)

  swarm_of-insert_self : (ih : Bytes) (w : Swarm) (m : Dict Swarm) → swarm_of ih (insert ih w m) ≡ w
  unfolding swarm_of
  swarm_of-insert_self ih w m = ground (arith, bytes_eq_iff ih ih, lookup-insert ih ih w m)

  pub total-store_swarm :
      (ih : Bytes) (w : Swarm) (m : Dict Swarm)
      → IsUnique m
      → total f (store_swarm ih w m) + f (swarm_of ih m) ≡ total f m + f w
  unfolding store_swarm
  total-store_swarm ih w m u = ground (
    arith,
    total-insert ih w m,
    total-delete ih (insert ih w m) (insert-IsUnique ih w m u),
    swarm_of-insert_self ih w m,
    is_empty_swarm-eq w,
  )

pub store_swarm-IsUnique :
    (ih : Bytes) (w : Swarm) (m : Dict Swarm) → IsUnique m → IsUnique (store_swarm ih w m)
unfolding store_swarm
store_swarm-IsUnique ih w m u =
    ground (
      arith,
      insert-IsUnique ih w m u,
      delete-IsUnique ih (insert ih w m) (insert-IsUnique ih w m u),
    )

-- After `store_swarm` a swarm is there exactly if it holds somebody.
pub is_some-store_swarm :
    (ih j : Bytes) (w : Swarm) (m : Dict Swarm)
    → is_some (lookup j (store_swarm ih w m))
      ≡ (if bytes_eq ih j then not (is_empty_swarm w) else is_some (lookup j m))
unfolding store_swarm
is_some-store_swarm ih j w m =
    ground (arith, lookup-insert ih j w m, lookup-delete ih j (insert ih w m))

-- The counter follows the entries that are deleted: `rest` counts those of other swarms.
pub expire_counted :
    (cutoff n rest : ℕ) (m : Dict ℕ)
    → n ≡ (rest + length m) % 2 ^ 64
    → (expire cutoff n m).0 ≡ (rest + length (expire cutoff n m).1) % 2 ^ 64
unfolding expire dec64
expire_counted cutoff n rest [] h = h
expire_counted cutoff n rest ((pk, t) ∷ m) h = ground (
  arith,
  expire_counted cutoff (if leb t cutoff then dec64 n else n)
      (if leb t cutoff then rest else rest + 1) m,
)
