-- ===== src/Base/Ints.antt =====
-- Go's int64 as integers: the value of a bit pattern, wrapping sums, and division towards zero.
use Prim.Native.Nat.{ℕ, suc, ◌+◌, ◌-◌, ◌*◌, ◌/◌, ◌%◌, ◌^◌, ◌<◌}
use mathlib.Core.Path.{◌≡◌}
use mathlib.Core.Bool.{Bool, true, false}
use native.Mathlib.Omega.{arith}
use chihaya.Base.Tests.{◌==◌, ltb, if◌then◌else◌}

-- `negsuc n` is the integer -(n + 1).
pub data ℤ : Type 0 where
  pos : ℕ → ℤ
  negsuc : ℕ → ℤ

-- The difference of two numbers.
abbrev pub diff : ℕ → ℕ → ℤ
diff m n = if ltb m n then negsuc (n - m - 1) else pos (m - n)

-- int64 of a uint64.
unfoldable pub signed64 : ℕ → ℤ
signed64 w = if ltb w (2 ^ 63) then pos w else negsuc (2 ^ 64 - 1 - w)

-- uint64 of an integer.
unfoldable pub bits64 : ℤ → ℕ
bits64 (pos n) = n % 2 ^ 64
bits64 (negsuc n) = 2 ^ 64 - 1 - n % 2 ^ 64

-- `a + b` and `-a` on int64.
infixl 65 ◌+ℤ◌
unfoldable pub ◌+ℤ◌ : ℤ → ℤ → ℤ
unfolding signed64 bits64
a +ℤ b = signed64 ((bits64 a + bits64 b) % 2 ^ 64)

unfoldable pub neg : ℤ → ℤ
unfolding signed64 bits64
neg a = signed64 ((2 ^ 64 - bits64 a) % 2 ^ 64)

-- `a * n` for a number `n`, on int64.
unfoldable pub scale : ℤ → ℕ → ℤ
unfolding signed64 bits64
scale a n = signed64 ((bits64 a * n) % 2 ^ 64)

-- `-n` for a number.
abbrev pub minus : ℕ → ℤ
minus n = diff 0 n

-- `a / n` and `a % n` for a positive number `n`.
unfoldable pub quot : ℤ → ℕ → ℤ
quot (pos m) n = pos (m / n)
quot (negsuc m) n = minus (suc m / n)

unfoldable pub rem : ℤ → ℕ → ℤ
rem (pos m) n = pos (m % n)
rem (negsuc m) n = minus (suc m % n)

abbrev pub is_negative : ℤ → Bool
is_negative (pos n) = false
is_negative (negsuc n) = true

pub pos-+ℤ-pos : (m n : ℕ) → m + n < 2 ^ 63 → pos m +ℤ pos n ≡ pos (m + n)
unfolding ◌+ℤ◌ signed64 bits64
pos-+ℤ-pos m n h = ground arith

pub bits64-signed64 : (w : ℕ) → w < 2 ^ 64 → bits64 (signed64 w) ≡ w
unfolding signed64 bits64
bits64-signed64 w h = ground arith

-- A time, or the default for one that is not above zero.
abbrev pub positive_or : ℤ → ℤ → ℤ
positive_or (pos n) d = if n == 0 then d else pos n
positive_or (negsuc n) d = d
