-- ===== src/Http/Bencode/Reading.antt =====
-- How the decoder of frontend/http/bencode reads what the encoder writes, one construct at a time.
use chihaya.Base.{
  ℕ, zero, suc, ◌+◌, ◌-◌, ◌^◌, ltb, ◌<◌, ◌≤◌, ◌==◌, leb, ◌≡◌, refl, ap, sym, subst, ◌∙◌, Bytes, [],
  ◌∷◌, ◌++◌, append_assoc, length, length-append, take-append, drop-append, is_digit, true, false,
  ℤ, pos, format_uint, format_int, ok, ◌>>=◌, arith,
}
use chihaya.Http.Bencode.{
  Value, byte_slice, text, texts, int, uint, duration, list, dict, unsupported, Items, nil, cons,
  Fields, marshal_bytes, marshal_int, marshal_uint,
}
use chihaya.Http.Bencode.Decoder.{
  key_of, read_terminated_int, or_unknown, read_text, read_into, read_bytes, put, unmarshal,
  read_list, read_dict,
}
use chihaya.Http.Bencode.Numbers.{
  full, IsInt64, AllDigits, AllDigits-Avoids, format_uint-AllDigits, format_uint_nonempty,
  parse_int-format_int, format_int_nonempty, format_int-Avoids, read_terminated_int_lem,
}
use chihaya.Http.Bencode.Coding.{IsShort, IsEncodable, coded}

read_into_lem : (s rest : Bytes) → read_into (length s) (full (s ++ rest)) ≡ ok (text s, full rest)
unfolding read_into
read_into_lem [] rest = refl
read_into_lem (c ∷ s) rest =
    let enough : leb (suc (length s)) (suc (length (s ++ rest))) ≡ true =
      ground (arith, length-append s rest) in
    let left : suc (length (s ++ rest)) - suc (length s) ≡ length rest =
      omega (arith, length-append s rest) in
    rw (enough, left, take-append s rest (length s) refl, drop-append s rest (length s) refl)

read_bytes_lem :
    (s rest : Bytes)
    → IsShort s
    → read_bytes (pos (length s)) (full (s ++ rest)) ≡ ok (text s, full rest)
unfolding read_bytes
read_bytes_lem s rest h =
    let small : ltb (2 ^ 48) (length s) ≡ false = ground arith in rw small (read_into_lem s rest)

-- A length, a colon and as many bytes.
read_text_lem :
    (s rest : Bytes)
    → IsShort s
    → read_text (full (format_uint (length s) ++ b':' ∷ (s ++ rest))) ≡ ok (text s, full rest)
unfolding read_text format_int
read_text_lem s rest h =
    ap (λ r. or_unknown r >>= λ q. read_bytes q.0 q.1)
      (read_terminated_int_lem (format_uint (length s)) (pos (length s)) b':' (s ++ rest)
        (format_uint_nonempty (length s))
        (AllDigits-Avoids b':' (format_uint (length s)) refl (format_uint-AllDigits (length s)))
        (parse_int-format_int (pos (length s)) (omega arith)))
    ∙ read_bytes_lem s rest h

-- The first byte is there, and is none of those letters that the decoder looks for.
abbrev StartsWithDigit : Bytes → Type 0
StartsWithDigit [] = ⊥
StartsWithDigit (c ∷ s) = is_digit c ≡ true

digits_first : (ds s : Bytes) → 0 < length ds → AllDigits ds → StartsWithDigit (ds ++ s)
digits_first [] s l a = absurd (omega arith)
digits_first (c ∷ ds) s l a = a.0

unmarshal_digit :
    (fuel : ℕ) (s : Bytes) → StartsWithDigit s → unmarshal (suc fuel) (full s) ≡ read_text (full s)
unfolding unmarshal
unmarshal_digit fuel [] d = absurd d
unmarshal_digit fuel (c ∷ s) d =
    let no_i : (c == b'i') ≡ false = ground (arith, d) in
    let no_l : (c == b'l') ≡ false = ground (arith, d) in
    let no_d : (c == b'd') ≡ false = ground (arith, d) in rw (no_i, no_l, no_d, unmarshal)

pub unmarshal_text :
    (fuel : ℕ) (s rest : Bytes)
    → IsShort s
    → unmarshal (suc fuel) (full (marshal_bytes s ++ rest)) ≡ ok (text s, full rest)
unfolding marshal_bytes
unmarshal_text fuel s rest h =
    ap (λ x. unmarshal (suc fuel) (full x)) (append_assoc (format_uint (length s)) (b':' ∷ s) rest)
    ∙ unmarshal_digit fuel _ (
        digits_first (format_uint (length s)) (b':' ∷ (s ++ rest)) (format_uint_nonempty (length s))
          (format_uint-AllDigits (length s)))
    ∙ read_text_lem s rest h

pub unmarshal_int :
    (fuel : ℕ) (z : ℤ) (rest : Bytes)
    → IsInt64 z
    → unmarshal (suc fuel) (full (marshal_int z ++ rest)) ≡ ok (int z, full rest)
unfolding marshal_int unmarshal
unmarshal_int fuel z rest h =
    ap (λ r. r >>= λ x. ok (int x.0, x.1))
      (ap (λ s. read_terminated_int (full s) b'e') (append_assoc (format_int z) (b'e' ∷ []) rest)
        ∙ read_terminated_int_lem (format_int z) z b'e' rest (format_int_nonempty z)
            (format_int-Avoids z) (parse_int-format_int z h))

-- A list goes on unless its terminator is next.
abbrev pub GoesOn : Bytes → Type 0
GoesOn [] = ⊥
GoesOn (c ∷ s) = (c == b'e') ≡ false

read_list_step :
    (fuel : ℕ) (s : Bytes)
    → GoesOn s
    → read_list (suc fuel) (full s) ≡ (do
      (v, rest) ← unmarshal fuel (full s)
      (vs, rest') ← read_list fuel rest
      ok (cons v vs, rest'))
unfolding unmarshal
read_list_step fuel [] g = absurd g
read_list_step fuel (c ∷ s) g = rw (g, read_list)

read_dict_step :
    (fuel : ℕ) (acc : Fields) (s : Bytes)
    → GoesOn s
    → read_dict (suc fuel) acc (full s) ≡ (do
      (k, rest) ← unmarshal fuel (full s)
      key ← key_of k
      (v, rest') ← unmarshal fuel rest
      read_dict fuel (put key v acc) rest')
unfolding unmarshal
read_dict_step fuel acc [] g = absurd g
read_dict_step fuel acc (c ∷ s) g = rw (g, read_dict)

StartsWithDigit-GoesOn : (s : Bytes) → StartsWithDigit s → GoesOn s
StartsWithDigit-GoesOn [] d = absurd d
StartsWithDigit-GoesOn (c ∷ s) d = ground (arith, d)

pub text-GoesOn : (s rest : Bytes) → GoesOn (marshal_bytes s ++ rest)
unfolding marshal_bytes
text-GoesOn s rest = subst GoesOn (sym (append_assoc (format_uint (length s)) (b':' ∷ s) rest)) (
    StartsWithDigit-GoesOn _ (
      digits_first (format_uint (length s)) (b':' ∷ (s ++ rest)) (format_uint_nonempty (length s))
        (format_uint-AllDigits (length s))))

pub coded-GoesOn : (v : Value) (rest : Bytes) → IsEncodable v → GoesOn (coded v ++ rest)
unfolding marshal_int marshal_uint
coded-GoesOn (byte_slice s) rest e = text-GoesOn s rest
coded-GoesOn (text s) rest e = text-GoesOn s rest
coded-GoesOn (texts ss) rest e = refl
coded-GoesOn (int z) rest e = refl
coded-GoesOn (uint n) rest e = refl
coded-GoesOn (duration z) rest e = refl
coded-GoesOn (list vs) rest e = refl
coded-GoesOn (dict fs) rest e = refl
coded-GoesOn (unsupported t) rest e = absurd e

pub GoesOn-length : (s : Bytes) → GoesOn (s ++ []) → 0 < length s
GoesOn-length [] g = absurd g
GoesOn-length (c ∷ s) g = omega arith

pub length-coded : (v : Value) → IsEncodable v → 0 < length (coded v)
length-coded v e = GoesOn-length (coded v) (coded-GoesOn v [] e)

-- A decoder of a text with enough fuel, which leaves what is behind it in the buffer.
abbrev pub Decodes : Bytes → Value → Type 0
Decodes s v =
    (fuel : ℕ) (rest : Bytes)
    → length s ≤ fuel
    → unmarshal fuel (full (s ++ rest)) ≡ ok (v, full rest)

abbrev pub DecodesList : Bytes → Items → Type 0
DecodesList s vs =
    (fuel : ℕ) (rest : Bytes)
    → length s ≤ fuel
    → read_list fuel (full (s ++ rest)) ≡ ok (vs, full rest)

abbrev pub DecodesDict : Bytes → Fields → Fields → Type 0
DecodesDict s acc fs =
    (fuel : ℕ) (rest : Bytes)
    → length s ≤ fuel
    → read_dict fuel acc (full (s ++ rest)) ≡ ok (fs, full rest)

pub DecodesList-nil : DecodesList (b'e' ∷ []) nil
unfolding unmarshal
DecodesList-nil zero rest h = absurd (omega arith)
DecodesList-nil (suc fuel) rest h = refl

pub DecodesList-cons :
    (s more : Bytes) (v : Value) (vs : Items)
    → ((rest : Bytes) → GoesOn (s ++ rest))
    → 0 < length more
    → Decodes s v
    → DecodesList more vs
    → DecodesList (s ++ more) (cons v vs)
DecodesList-cons s more v vs g m d ds zero rest h =
    absurd (omega (arith, length-append s more, GoesOn-length s (g [])))
DecodesList-cons s more v vs g m d ds (suc fuel) rest h =
    let first : length s ≤ fuel = omega (arith, length-append s more) in
    let others : length more ≤ fuel = omega (arith, length-append s more, GoesOn-length s (g [])) in
    ap (λ x. read_list (suc fuel) (full x)) (append_assoc s more rest)
    ∙ read_list_step fuel (s ++ (more ++ rest)) (g (more ++ rest))
    ∙ rw (d fuel (more ++ rest) first, ds fuel rest others)

pub DecodesDict-end : (acc : Fields) → DecodesDict (b'e' ∷ []) acc acc
unfolding unmarshal
DecodesDict-end acc zero rest h = absurd (omega arith)
DecodesDict-end acc (suc fuel) rest h = refl

pub DecodesDict-field :
    (s t more k : Bytes) (v : Value) (acc fs : Fields)
    → ((rest : Bytes) → GoesOn (s ++ rest))
    → 0 < length more
    → Decodes s (text k)
    → Decodes t v
    → DecodesDict more (put k v acc) fs
    → DecodesDict (s ++ (t ++ more)) acc fs
DecodesDict-field s t more k v acc fs g m ds dt dm zero rest h =
    absurd (omega (arith, length-append s (t ++ more), GoesOn-length s (g [])))
DecodesDict-field s t more k v acc fs g m ds dt dm (suc fuel) rest h =
    let total : length s + (length t + length more) ≤ suc fuel =
      omega (arith, length-append s (t ++ more), length-append t more) in
    let some_key : 0 < length s = GoesOn-length s (g []) in
    let key : length s ≤ fuel = omega arith in
    let value : length t ≤ fuel = omega arith in
    let others : length more ≤ fuel = omega arith in
    ap (λ x. read_dict (suc fuel) acc (full x))
      (append_assoc s (t ++ more) rest ∙ ap (λ x. s ++ x) (append_assoc t more rest))
    ∙ read_dict_step fuel acc (s ++ (t ++ (more ++ rest))) (g (t ++ (more ++ rest)))
    ∙ rw (ds fuel (t ++ (more ++ rest)) key, dt fuel (more ++ rest) value, dm fuel rest others)
