-- ===== src/Http/Bencode/Decoder.antt =====
-- The decoder (frontend/http/bencode/decoder.go), on a bufio.Reader over the whole input.
--
-- A reader is the input that is not read yet, with the number of its first bytes that are in the
-- buffer. The buffer has 4096 bytes, and a fill takes as much as there is and as fits. `make` panics
-- above the limit that a 64-bit system has; that memory runs out below it is not modelled.
use chihaya.Base.{
  ℕ, zero, suc, ◌+◌, ◌-◌, ◌^◌, min, ◌==◌, leb, ltb, Bytes, codes, bytes_eq, [], ◌∷◌, length, take,
  drop, Option, none, some, true, false, ℤ, pos, negsuc, parse_int, Error, internal_error, Result,
  ok, err, panic, ◌>>=◌, if◌then◌else◌,
}
use chihaya.Bittorrent.Params.{cut}
use chihaya.Http.Bencode.{Value, text, int, list, dict, Items, nil, cons, Fields, end, field}

abbrev pub err_eof : Error
err_eof = internal_error (codes "EOF")

abbrev pub err_empty_integer : Error
err_empty_integer = internal_error (codes "bencode: empty integer field")

abbrev pub err_unknown_input : Error
err_unknown_input = internal_error (codes "bencode: unknown input sequence")

abbrev pub err_short_read : Error
err_short_read = internal_error (codes "bencode: short read")

abbrev pub err_buffer_full : Error
err_buffer_full = internal_error (codes "bufio: buffer full")

abbrev pub err_non_string_key : Error
err_non_string_key = internal_error (codes "bencode: non-string map key")

-- The errors of `strconv.ParseInt` are one here.
abbrev pub err_parse_int : Error
err_parse_int = internal_error (codes "strconv.ParseInt")

-- No error of the code: what the model answers if its fuel is spent.
abbrev pub err_out_of_fuel : Error
err_out_of_fuel = internal_error (codes "out of fuel")

abbrev pub parsed : Option ℤ → Result ℤ
parsed none = err err_parse_int
parsed (some n) = ok n

unfoldable pub read_int : Bytes → Result ℤ
read_int [] = err err_empty_integer
read_int (c ∷ s) = parsed (parse_int (c ∷ s))

abbrev pub Reader : Type 0
Reader = Bytes × ℕ

abbrev pub buffer_size : ℕ
buffer_size = 4096

-- The buffer when a byte is to be read: it is filled if it is empty.
abbrev pub filled : ℕ → ℕ → ℕ
filled n zero = min buffer_size n
filled n (suc b) = suc b

abbrev pub one_less : ℕ → ℕ
one_less zero = zero
one_less (suc b) = b

-- `ReadSlice`: what is left in the buffer behind a terminator at `i`. It is searched for in the
-- buffer, and then in as much as the buffer can hold.
unfoldable pub behind : ℕ → ℕ → ℕ → Option ℕ
behind n b i =
    if ltb i b
    then some (b - (i + 1))
    else if ltb i buffer_size
    then some (min buffer_size n - (i + 1))
    else none

abbrev pub read_slice : Bytes → Bytes → Option ℕ → Result (ℤ × Reader)
read_slice s rest none = err err_buffer_full
read_slice s rest (some b) = do n ← read_int s; ok (n, (rest, b))

abbrev pub terminated : Reader → Bytes → Option Bytes → Result (ℤ × Reader)
terminated r s none = if ltb (length r.0) buffer_size then err err_eof else err err_buffer_full
terminated r s (some rest) = read_slice s rest (behind (length r.0) r.1 (length s))

-- The integer, and the reader behind the terminator.
unfoldable pub read_terminated_int : Reader → ℕ → Result (ℤ × Reader)
unfolding read_int behind
read_terminated_int r term = let parts = cut (λ x. x == term) r.0 in terminated r parts.0 parts.1

-- One Read that is to give `n` bytes, where `available` can be given.
abbrev pub take_bytes : ℕ → Bytes → ℕ → ℕ → Result (Value × Reader)
take_bytes n s available left =
    if leb n available then ok (text (take n s), (drop n s, left)) else err err_short_read

-- With an empty buffer, a Read of as much as the buffer holds goes past it, and a smaller one fills it
-- first.
unfoldable pub read_into : ℕ → Reader → Result (Value × Reader)
read_into zero r = ok (text [], r)
read_into (suc n) ([], b) = err err_eof
read_into (suc n) (c ∷ s, zero) =
    if leb buffer_size (suc n)
    then take_bytes (suc n) (c ∷ s) (length (c ∷ s)) 0
    else take_bytes (suc n) (c ∷ s) (min buffer_size (length (c ∷ s)))
        (min buffer_size (length (c ∷ s)) - suc n)
read_into (suc n) (c ∷ s, suc b) = take_bytes (suc n) (c ∷ s) (suc b) (suc b - suc n)

abbrev pub max_alloc : ℕ
max_alloc = 2 ^ 48

-- `make` panics for a negative length and for one that is too large.
unfoldable pub read_bytes : ℤ → Reader → Result (Value × Reader)
unfolding read_into
read_bytes (negsuc n) r = panic
read_bytes (pos n) r = if ltb max_alloc n then panic else read_into n r

-- Any error of the length is the same error.
abbrev pub or_unknown : Result (ℤ × Reader) → Result (ℤ × Reader)
or_unknown (ok x) = ok x
or_unknown (err e) = err err_unknown_input
or_unknown Result.panic = panic

unfoldable pub read_text : Reader → Result (Value × Reader)
unfolding read_terminated_int read_bytes
read_text r = do (n, rest) ← or_unknown (read_terminated_int r b':'); read_bytes n rest

-- `dict[key] = v`
unfoldable pub put : Bytes → Value → Fields → Fields
put k v end = field k v end
put k v (field j w fs) = if bytes_eq j k then field k v fs else field j w (put k v fs)

abbrev pub key_of : Value → Result Bytes
key_of (text k) = ok k
key_of v = err err_non_string_key

unfoldable mutual
  unfolding read_text read_terminated_int put

  pub unmarshal : ℕ → Reader → Result (Value × Reader)
  unmarshal zero r = err err_out_of_fuel
  unmarshal (suc fuel) ([], b) = err err_eof
  unmarshal (suc fuel) (tok ∷ s, b) =
      let all = filled (length (tok ∷ s)) b in
      elim (tok == b'i') [
        | true ↦ do (n, rest) ← read_terminated_int (s, one_less all) b'e'; ok (int n, rest)
        | false ↦ elim (tok == b'l') [
          | true ↦ do (vs, rest) ← read_list fuel (s, one_less all); ok (list vs, rest)
          | false ↦ elim (tok == b'd') [
            | true ↦ do (fs, rest) ← read_dict fuel end (s, one_less all); ok (dict fs, rest)
            | false ↦ read_text (tok ∷ s, all)
          ]
        ]
      ]

  pub read_list : ℕ → Reader → Result (Items × Reader)
  read_list zero r = err err_out_of_fuel
  read_list (suc fuel) ([], b) = err err_eof
  read_list (suc fuel) (tok ∷ s, b) =
      let all = filled (length (tok ∷ s)) b in
      elim (tok == b'e') [
        | true ↦ ok (nil, (s, one_less all))
        | false ↦ do
          (v, rest) ← unmarshal fuel (tok ∷ s, all)
          (vs, rest') ← read_list fuel rest
          ok (cons v vs, rest')
      ]

  -- The dictionary so far is the second argument.
  pub read_dict : ℕ → Fields → Reader → Result (Fields × Reader)
  read_dict zero fs r = err err_out_of_fuel
  read_dict (suc fuel) fs ([], b) = err err_eof
  read_dict (suc fuel) fs (tok ∷ s, b) =
      let all = filled (length (tok ∷ s)) b in
      elim (tok == b'e') [
        | true ↦ ok (fs, (s, one_less all))
        | false ↦ do
          (k, rest) ← unmarshal fuel (tok ∷ s, all)
          key ← key_of k
          (v, rest') ← unmarshal fuel rest
          read_dict fuel (put key v fs) rest'
      ]

-- `Unmarshal`: one value; what follows it is not read. Each byte needs at most two turns.
unfoldable pub unmarshal_bytes : Bytes → Result Value
unfolding unmarshal
unmarshal_bytes buf = do (v, rest) ← unmarshal (suc (length buf + length buf)) (buf, 0); ok v
