-- ===== src/Base/Decimals.antt =====
-- Decimal text: Go's strconv.FormatUint, FormatInt, ParseUint and ParseInt in base 10, and %x.
use Prim.Native.Nat.{ℕ, zero, suc, ◌+◌, ◌-◌, ◌*◌, ◌/◌, ◌%◌, ◌^◌, ◌<◌}
use mathlib.Core.Path.{◌≡◌, ap, ◌∙◌}
use mathlib.Core.Bool.{Bool, true, false, ◌&&◌}
use mathlib.Core.List.{[], ◌∷◌}
use mathlib.Core.Option.{Option, none, some}
use native.Mathlib.Omega.{arith}
use chihaya.Base.Lists.{length}
use chihaya.Base.Tests.{lt→ltb, ltb, leb, ◌==◌, if◌then◌else◌}
use chihaya.Base.ByteStrings.{Bytes}
use chihaya.Base.Ints.{ℤ, pos, negsuc, minus}

-- The digits of `n` in front of `rest`. The fuel is above the number.
unfoldable pub digits : ℕ → ℕ → Bytes → Bytes
digits zero n rest = rest
digits (suc fuel) n rest = elim (ltb n 10) [
  | true ↦ (b'0' + n) ∷ rest
  | false ↦ digits fuel (n / 10) ((b'0' + n % 10) ∷ rest)
]

unfoldable pub format_uint : ℕ → Bytes
unfolding digits
format_uint n = digits (suc n) n []

unfoldable pub format_int : ℤ → Bytes
unfolding format_uint
format_int (pos n) = format_uint n
format_int (negsuc n) = b'-' ∷ format_uint (suc n)

abbrev pub is_digit : ℕ → Bool
is_digit c = leb b'0' c && leb c b'9'

-- The value of digits behind others that stand for `n`.
unfoldable pub read_digits : ℕ → Bytes → Option ℕ
read_digits n [] = some n
read_digits n (c ∷ s) = elim (is_digit c) [
  | true ↦ read_digits (n * 10 + (c - b'0')) s
  | false ↦ none
]

unfoldable pub in_bits : Option ℕ → ℕ → Option ℕ
in_bits none bits = none
in_bits (some n) bits = if ltb n (2 ^ bits) then some n else none

-- `none` for an empty text, for another character, and for a number of more than `bits` bits.
unfoldable pub parse_uint : Bytes → ℕ → Option ℕ
unfolding read_digits in_bits
parse_uint [] bits = none
parse_uint (c ∷ s) bits = in_bits (read_digits 0 (c ∷ s)) bits

-- An int64, with an optional sign.
unfoldable pub parse_int : Bytes → Option ℤ
unfolding parse_uint
parse_int [] = none
parse_int (c ∷ s) =
    if c == b'-'
    then elim (parse_uint s 64) [
      | none ↦ none
      | some n ↦ if leb n (2 ^ 63) then some (minus n) else none
    ]
    else elim (parse_uint (if c == b'+' then s else c ∷ s) 64) [
      | none ↦ none
      | some n ↦ if ltb n (2 ^ 63) then some (pos n) else none
    ]

-- `%x` of bytes.
abbrev pub hex_digit : ℕ → ℕ
hex_digit n = if ltb n 10 then b'0' + n else b'a' + (n - 10)

unfoldable pub format_hex : Bytes → Bytes
format_hex [] = []
format_hex (b ∷ bs) = hex_digit (b / 16) ∷ hex_digit (b % 16) ∷ format_hex bs

pub read_digits-digits :
    (fuel n : ℕ) (rest : Bytes) → n < fuel → read_digits 0 (digits fuel n rest) ≡ read_digits n rest
unfolding digits read_digits
read_digits-digits zero n rest h = absurd (omega arith)
read_digits-digits (suc fuel) n rest h =
    ground (arith, read_digits-digits fuel (n / 10) ((b'0' + n % 10) ∷ rest))

pub length-digits :
    (fuel n : ℕ) (rest : Bytes) → n < fuel → length rest < length (digits fuel n rest)
unfolding digits
length-digits zero n rest h = absurd (omega arith)
length-digits (suc fuel) n rest h =
    ground (arith, length-digits fuel (n / 10) ((b'0' + n % 10) ∷ rest))

parse_uint_read :
    (s : Bytes) (n bits : ℕ)
    → 0 < length s
    → read_digits 0 s ≡ some n
    → n < 2 ^ bits
    → parse_uint s bits ≡ some n
parse_uint_read [] n bits l e h = absurd (omega arith)
parse_uint_read (c ∷ s) n bits l e h =
    let read : parse_uint (c ∷ s) bits ≡ in_bits (some n) bits =
      unfold parse_uint in ap (λ x. in_bits x bits) e in
    let fits : in_bits (some n) bits ≡ some n = unfold in_bits in rw (lt→ltb n (2 ^ bits) h) in
    read ∙ fits

-- What is printed reads back, if it fits.
pub parse_uint-format_uint : (n bits : ℕ) → n < 2 ^ bits → parse_uint (format_uint n) bits ≡ some n
unfolding format_uint read_digits
parse_uint-format_uint n bits h =
    parse_uint_read (format_uint n) n bits (length-digits (suc n) n [] (omega arith))
      (read_digits-digits (suc n) n [] (omega arith)) h
