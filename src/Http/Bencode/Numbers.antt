-- ===== src/Http/Bencode/Numbers.antt =====
-- The integers of frontend/http/bencode: what the encoder prints, the decoder reads back.
use chihaya.Base.{
  ℕ, zero, suc, ◌+◌, ◌/◌, ◌%◌, ◌^◌, ◌<◌, ◌≤◌, ◌==◌, ltb, leb, ◌≡◌, refl, ap, ◌∙◌, Bytes, [], ◌∷◌,
  ◌++◌, length, length-append, some, true, false, ℤ, pos, negsuc, minus, quot, is_digit, digits,
  format_uint, format_int, parse_uint, parse_int, length-digits, parse_uint-format_uint, ok, ◌>>=◌,
  arith, Bool-cases, lt→ltb, inl, inr,
}
use chihaya.Bittorrent.Params.{cut}
use chihaya.Http.Bencode.Decoder.{
  Reader, behind, read_slice, parsed, terminated, read_terminated_int,
}

abbrev pub IsInt64 : ℤ → Type 0
IsInt64 (pos n) = n < 2 ^ 63
IsInt64 (negsuc n) = n < 2 ^ 63

abbrev pub AllDigits : Bytes → Type 0
AllDigits [] = Unit {0}
AllDigits (c ∷ s) = (is_digit c ≡ true) × AllDigits s

-- No byte of the text is `t`.
abbrev pub Avoids : ℕ → Bytes → Type 0
Avoids t [] = Unit {0}
Avoids t (c ∷ s) = ((c == t) ≡ false) × Avoids t s

digits-AllDigits : (fuel n : ℕ) (rest : Bytes) → AllDigits rest → AllDigits (digits fuel n rest)
unfolding digits
digits-AllDigits zero n rest a = a
digits-AllDigits (suc fuel) n rest a = elim (Bool-cases (ltb n 10)) [
  | inl e ↦ rw (e, digits, AllDigits) (ground arith, a)
  | inr e ↦
      rw (e, digits, AllDigits)
        (digits-AllDigits fuel (n / 10) ((b'0' + n % 10) ∷ rest) (ground arith, a))
]

pub format_uint-AllDigits : (n : ℕ) → AllDigits (format_uint n)
unfolding format_uint
format_uint-AllDigits n = digits-AllDigits (suc n) n [] tt

pub format_uint_nonempty : (n : ℕ) → 0 < length (format_uint n)
unfolding format_uint
format_uint_nonempty n = length-digits (suc n) n [] (omega arith)

pub AllDigits-Avoids : (t : ℕ) (s : Bytes) → is_digit t ≡ false → AllDigits s → Avoids t s
AllDigits-Avoids t [] h a = tt
AllDigits-Avoids t (c ∷ s) h a = (ground (arith, a.0), AllDigits-Avoids t s h a.1)

pub cut-append :
    (t : ℕ) (s rest : Bytes) → Avoids t s → cut (λ x. x == t) (s ++ t ∷ rest) ≡ (s, some rest)
unfolding cut
cut-append t [] rest a = ground arith
cut-append t (c ∷ s) rest a = rw (a.0, cut-append t s rest a.1)

parse_int_digits :
    (s : Bytes) (n : ℕ)
    → 0 < length s
    → AllDigits s
    → parse_uint s 64 ≡ some n
    → n < 2 ^ 63
    → parse_int s ≡ some (pos n)
unfolding parse_int
parse_int_digits [] n l a e h = absurd (omega arith)
parse_int_digits (c ∷ s) n l a e h =
    let no_minus : (c == b'-') ≡ false = ground (arith, a.0) in
    let no_plus : (c == b'+') ≡ false = ground (arith, a.0) in
    rw (no_minus, no_plus, e, lt→ltb n (2 ^ 63) h)

minus-suc : (n : ℕ) → minus (suc n) ≡ negsuc n
minus-suc n = ground arith

parse_int_minus :
    (s : Bytes) (n : ℕ)
    → parse_uint s 64 ≡ some (suc n)
    → n < 2 ^ 63
    → parse_int (b'-' ∷ s) ≡ some (negsuc n)
unfolding parse_int
parse_int_minus s n e h =
    let fits : leb (suc n) (2 ^ 63) ≡ true = ground arith in rw (e, fits) (ap some (minus-suc n))

pub parse_int-format_int : (z : ℤ) → IsInt64 z → parse_int (format_int z) ≡ some z
unfolding format_int
parse_int-format_int (pos n) h =
    parse_int_digits (format_uint n) n (format_uint_nonempty n) (format_uint-AllDigits n)
      (parse_uint-format_uint n 64 (omega arith)) h
parse_int-format_int (negsuc n) h =
    parse_int_minus (format_uint (suc n)) n (parse_uint-format_uint (suc n) 64 (omega arith)) h

pub format_int_nonempty : (z : ℤ) → 0 < length (format_int z)
unfolding format_int
format_int_nonempty (pos n) = format_uint_nonempty n
format_int_nonempty (negsuc n) = omega arith

pub format_int-Avoids : (z : ℤ) → Avoids b'e' (format_int z)
unfolding format_int
format_int-Avoids (pos n) = AllDigits-Avoids b'e' (format_uint n) refl (format_uint-AllDigits n)
format_int-Avoids (negsuc n) =
    (refl, AllDigits-Avoids b'e' (format_uint (suc n)) refl (format_uint-AllDigits (suc n)))

-- A reader whose buffer holds all that is left.
abbrev pub full : Bytes → Reader
full s = (s, length s)

behind_full : (n i k : ℕ) → n ≡ i + suc k → behind n n i ≡ some k
unfolding behind
behind_full n i k e = ground arith

-- An integer in front of its terminator.
pub read_terminated_int_lem :
    (s : Bytes) (z : ℤ) (t : ℕ) (rest : Bytes)
    → 0 < length s
    → Avoids t s
    → parse_int s ≡ some z
    → read_terminated_int (full (s ++ t ∷ rest)) t ≡ ok (z, full rest)
unfolding read_terminated_int
read_terminated_int_lem [] z t rest l a e = absurd (omega arith)
read_terminated_int_lem (c ∷ s) z t rest l a e =
    let all = c ∷ s ++ t ∷ rest in
    ap (λ parts. terminated (full all) parts.0 parts.1) (cut-append t (c ∷ s) rest a)
    ∙ ap (read_slice (c ∷ s) rest)
        (behind_full (length all) (length (c ∷ s)) (length rest) (length-append (c ∷ s) (t ∷ rest)))
    ∙ ap (λ n. parsed n >>= λ m. ok (m, full rest)) e

minus-IsInt64 : (n : ℕ) → n ≤ 2 ^ 63 → IsInt64 (minus n)
minus-IsInt64 zero h = ground arith
minus-IsInt64 (suc n) h = rw (minus-suc n) (omega arith)

-- Whole seconds.
pub seconds-IsInt64 : (z : ℤ) → IsInt64 z → IsInt64 (quot z 1_000_000_000)
unfolding quot
seconds-IsInt64 (pos m) h = omega arith
seconds-IsInt64 (negsuc m) h = minus-IsInt64 (suc m / 1_000_000_000) (omega arith)
