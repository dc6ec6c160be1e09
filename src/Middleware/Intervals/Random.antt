-- ===== src/Middleware/Intervals/Random.antt =====
-- XORShift128Plus, and a state for it from a request (middleware/pkg/random/xorshift.go, entropy.go).
use chihaya.Base.{
  ℕ, ◌+◌, ◌*◌, ◌/◌, ◌%◌, ◌^◌, ◌<◌, ◌==◌, ltb, ◌≡◌, ◌⊎◌, inl, inr, bit_xor, be, take, drop, ℤ, pos,
  negsuc, signed64, neg, rem, minus, is_negative, bits64, ◌-◌, false, Result, ok, assert, not, ◌>>◌,
  if◌then◌else◌, arith, Bool-cases,
}
use native.Mathlib.Nat.{mod-lt}
use chihaya.Bittorrent.{AnnounceRequest}

unfoldable pub derive_entropy : AnnounceRequest → ℕ × ℕ
derive_entropy req = (
  (be (take 8 req.info_hash) + be (take 8 (drop 8 req.info_hash))) % 2 ^ 64,
  (be (take 8 req.peer.id) + be (take 8 (drop 8 req.peer.id))) % 2 ^ 64,
)

-- The number, and the two words of the next state.
unfoldable pub generate_and_advance : ℕ → ℕ → ℕ × ℕ × ℕ
generate_and_advance s0 s1 =
    let t0 = bit_xor s0 ((s0 * 2 ^ 23) % 2 ^ 64) in
    ((s0 + s1) % 2 ^ 64, s1, bit_xor (bit_xor (bit_xor t0 s1) (t0 / 2 ^ 18)) (s1 / 2 ^ 5))

-- `k := int(v); if k < 0 { k = -k }`
unfoldable pub absolute : ℕ → ℤ
absolute v = let k = signed64 v in if is_negative k then neg k else k

-- A bound of 0 stands for one that is not positive.
unfoldable pub intn : ℕ → ℕ → ℕ → Result (ℤ × ℕ × ℕ)
unfolding absolute generate_and_advance
intn s0 s1 n = do
  assert (not (n == 0))
  let (v, t0, t1) = generate_and_advance s0 s1
  ok (rem (absolute v) n, t0, t1)

absolute-cases :
    (v : ℕ)
    → v < 2 ^ 64
    → ((v ≡ 2 ^ 63) × (absolute v ≡ negsuc (2 ^ 63 - 1))) ⊎ ((m : ℕ) × (absolute v ≡ pos m))
unfolding absolute signed64 neg bits64
absolute-cases v h = elim (Bool-cases (ltb v (2 ^ 63))) [
  | inl e ↦ inr (v, ground arith)
  | inr e ↦ elim (Bool-cases (v == 2 ^ 63)) [
    | inl f ↦ inl (ground arith, ground arith)
    | inr f ↦ inr (2 ^ 64 - v, ground arith)
  ]
]

-- With a positive bound the generator gives a number from 0 to below the bound, but for the one sum
-- of its state words that is 2^63 in uint64: then it gives minus the remainder of 2^63.
pub intn-range :
    (s0 s1 n : ℕ)
    → 0 < n
    → let (v, t0, t1) = generate_and_advance s0 s1 in
      ((k : ℕ) × (k < n) × (intn s0 s1 n ≡ ok (pos k, t0, t1)))
      ⊎ ((v ≡ 2 ^ 63) × (intn s0 s1 n ≡ ok (minus (2 ^ 63 % n), t0, t1)))
unfolding intn rem generate_and_advance
intn-range s0 s1 n h =
    let positive : (n == 0) ≡ false = ground arith in
    let v : ℕ = (s0 + s1) % 2 ^ 64 in
    elim (absolute-cases v (omega arith)) [
      | inl (e, a) ↦ inr (e, simp (positive, a))
      | inr (m, a) ↦ inl (m % n, mod-lt m h, simp (positive, a))
    ]
