-- ===== src/Base/Dict.antt =====
-- A Go map with byte-string keys, as an association list.
use mathlib.Core.Path.{◌≡◌, refl}
use mathlib.Core.Option.{Option, none, some}
use mathlib.Core.List.{List, [], ◌∷◌, map}
use Prim.Native.Nat.{◌+◌, ◌≤◌}
use native.Mathlib.Omega.{arith}
use chihaya.Base.Tests.{if◌then◌else◌, is_some}
use chihaya.Base.Lists.{length}
use chihaya.Base.ByteStrings.{Bytes, bytes_eq, bytes_eq_iff}

abbrev pub Dict {ℓ} : Type ℓ → Type ℓ
Dict V = List (Bytes × V)

module _ {ℓ} {V : Type ℓ} where
  unfoldable pub lookup : Bytes → Dict V → Option V
  lookup k [] = none
  lookup k ((j, v) ∷ m) = if bytes_eq j k then some v else lookup k m

  -- `m[k] = v`
  unfoldable pub insert : Bytes → V → Dict V → Dict V
  insert k v [] = (k, v) ∷ []
  insert k v ((j, w) ∷ m) = if bytes_eq j k then (k, v) ∷ m else (j, w) ∷ insert k v m

  -- `delete(m, k)`
  unfoldable pub delete : Bytes → Dict V → Dict V
  delete k [] = []
  delete k ((j, w) ∷ m) = let rest = delete k m in if bytes_eq j k then rest else (j, w) ∷ rest

  abbrev pub keys : Dict V → List Bytes
  keys m = map (λ e. e.0) m

  pub lookup-insert :
      (k j : Bytes) (v : V) (m : Dict V)
      → lookup j (insert k v m) ≡ (if bytes_eq k j then some v else lookup j m)
  unfolding lookup insert
  lookup-insert k j v [] = refl
  lookup-insert k j v ((i, w) ∷ m) =
      ground (arith, bytes_eq_iff k j, bytes_eq_iff i k, bytes_eq_iff i j, lookup-insert k j v m)

  -- A second write to a key is all that remains.
  pub insert_twice : (k : Bytes) (v w : V) (m : Dict V) → insert k v (insert k w m) ≡ insert k v m
  unfolding insert
  insert_twice k v w [] = ground (arith, bytes_eq_iff k k)
  insert_twice k v w ((i, x) ∷ m) = ground (arith, bytes_eq_iff k k, insert_twice k v w m)

  pub lookup-delete :
      (k j : Bytes) (m : Dict V)
      → lookup j (delete k m) ≡ (if bytes_eq k j then none else lookup j m)
  unfolding lookup delete
  lookup-delete k j [] = ground arith
  lookup-delete k j ((i, w) ∷ m) =
      ground (arith, bytes_eq_iff k j, bytes_eq_iff i k, bytes_eq_iff i j, lookup-delete k j m)

  pub length-insert :
      (k : Bytes) (v : V) (m : Dict V)
      → length (insert k v m) ≡ length m + (if is_some (lookup k m) then 0 else 1)
  unfolding lookup insert
  length-insert k v [] = omega arith
  length-insert k v ((i, w) ∷ m) = ground (arith, length-insert k v m)

  pub length_pos-lookup : (k : Bytes) (m : Dict V) {v : V} → lookup k m ≡ some v → 1 ≤ length m
  unfolding lookup
  length_pos-lookup k [] h = cc
  length_pos-lookup k (e ∷ m) h = omega arith

  -- Each key stands once.
  abbrev pub IsUnique : Dict V → Type ℓ
  IsUnique [] = Unit
  IsUnique ((k, v) ∷ m) = (lookup k m ≡ none) × IsUnique m

  pub insert-IsUnique : (k : Bytes) (v : V) (m : Dict V) → IsUnique m → IsUnique (insert k v m)
  unfolding insert
  insert-IsUnique k v [] u = (unfold lookup in refl, tt)
  insert-IsUnique k v ((i, w) ∷ m) u =
      ground (
        arith,
        bytes_eq_iff i k,
        bytes_eq_iff k i,
        lookup-insert k i v m,
        insert-IsUnique k v m u.1,
      )

  pub delete-IsUnique : (k : Bytes) (m : Dict V) → IsUnique m → IsUnique (delete k m)
  unfolding delete
  delete-IsUnique k [] u = tt
  delete-IsUnique k ((i, w) ∷ m) u =
      ground (arith, bytes_eq_iff i k, lookup-delete k i m, delete-IsUnique k m u.1)

  pub delete_missing : (k : Bytes) (m : Dict V) → lookup k m ≡ none → delete k m ≡ m
  unfolding lookup delete
  delete_missing k [] h = refl
  delete_missing k ((i, w) ∷ m) h = ground (arith, delete_missing k m)

  -- With unique keys, a deletion takes away the entry that is there.
  pub length-delete :
      (k : Bytes) (m : Dict V)
      → IsUnique m
      → length (delete k m) + (if is_some (lookup k m) then 1 else 0) ≡ length m
  unfolding lookup delete
  length-delete k [] u = omega arith
  length-delete k ((i, w) ∷ m) u =
      ground (arith, bytes_eq_iff i k, delete_missing k m, length-delete k m u.1)
