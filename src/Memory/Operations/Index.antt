-- ===== src/Memory/Operations/Index.antt =====
-- Which shard an infohash and a family fall into.
use native.Mathlib.Nat.{mod-lt}
use chihaya.Base.{
  ℕ, ◌+◌, ◌/◌, ◌%◌, ◌^◌, ◌<◌, ◌==◌, ◌≡◌, refl, Bool, true, false, not, Bytes, bytes_eq,
  bytes_eq_iff, be, take, List, [], ◌∷◌, length, get_elem?, get_or, set, some, ok, if◌then◌else◌,
  arith, zero, suc,
}
use chihaya.Bittorrent.{AddressFamily}
use chihaya.Memory.{PeerShard, PeerStore, empty_shard}
use chihaya.Memory.Operations.{is_ipv6, shard_index, shard_for}

-- An even number of shards, some for each family, that a uint32 can count.
pub record IsSharded (ps : PeerStore) : Type 0 where
  pub some_shards : 0 < length ps.shards / 2
  pub even : length ps.shards % 2 ≡ 0
  pub fits : length ps.shards < 2 ^ 32

abbrev pub index_of : PeerStore → Bytes → AddressFamily → ℕ
index_of ps ih af =
    be (take 4 ih) % (length ps.shards / 2) + (if is_ipv6 af then length ps.shards / 2 else 0)

abbrev pub shard_at : PeerStore → Bytes → AddressFamily → PeerShard
shard_at ps ih af = get_or ps.shards (index_of ps ih af) empty_shard

-- The two values say the same.
abbrev pub bool_eq : Bool → Bool → Bool
bool_eq true b = b
bool_eq false b = not b

-- Both families use one half of the shards.
abbrev pub family_eq : AddressFamily → AddressFamily → Bool
family_eq a b = bool_eq (is_ipv6 a) (is_ipv6 b)

module _ (ps : PeerStore) (r : IsSharded ps) (ih : Bytes) (af : AddressFamily) where
  pub index_of-lt : index_of ps ih af < length ps.shards
  index_of-lt = ground (arith, r.some_shards, mod-lt (be (take 4 ih)) r.some_shards)

  pub shard_index_lem : shard_index ps ih af ≡ ok (index_of ps ih af)
  unfolding shard_index
  shard_index_lem =
      ground (arith, r.some_shards, r.even, r.fits, mod-lt (be (take 4 ih)) r.some_shards)

  pub index_of-family :
      (j : Bytes) (af' : AddressFamily)
      → bytes_eq ih j ≡ true
      → (index_of ps ih af == index_of ps j af') ≡ family_eq af af'
  index_of-family j af' e =
      ground (arith, r.some_shards, bytes_eq_iff ih j, mod-lt (be (take 4 ih)) r.some_shards)

pub get_elem?-get_or {ℓ} :
    {A : Type ℓ} (xs : List A) (i : ℕ) (d : A)
    → i < length xs
    → get_elem? xs i ≡ some (get_or xs i d)
get_elem?-get_or [] i d h = elim h [ ]
get_elem?-get_or (x ∷ xs) zero d h = refl
get_elem?-get_or (x ∷ xs) (suc i) d h = get_elem?-get_or xs i d (omega arith)

pub get_or-set {ℓ} :
    {A : Type ℓ} (xs : List A) (i k : ℕ) (v d : A)
    → i < length xs
    → get_or (set xs i v) k d ≡ (if i == k then v else get_or xs k d)
get_or-set [] i k v d h = elim h [ ]
get_or-set (x ∷ xs) zero zero v d h = refl
get_or-set (x ∷ xs) zero (suc k) v d h = ground arith
get_or-set (x ∷ xs) (suc i) zero v d h = ground arith
get_or-set (x ∷ xs) (suc i) (suc k) v d h = ground (arith, get_or-set xs i k v d)

pub shard_for_lem :
    (ps : PeerStore)
    → IsSharded ps
    → (ih : Bytes) (af : AddressFamily) → shard_for ps ih af ≡ ok (shard_at ps ih af)
unfolding shard_for
shard_for_lem ps r ih af = rw (
  shard_index_lem ps r ih af,
  get_elem?-get_or ps.shards (index_of ps ih af) empty_shard (index_of-lt ps r ih af),
)
