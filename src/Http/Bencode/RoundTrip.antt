-- ===== src/Http/Bencode/RoundTrip.antt =====
-- What the encoder of frontend/http/bencode writes, the decoder reads back.
use chihaya.Base.{
  ◌==◌, true, false, Result, ℕ, zero, suc, ◌+◌, ◌^◌, ◌<◌, ◌≤◌, min, refl, ◌≡◌, ap, sym, ◌∙◌, Bytes,
  List, [], ◌∷◌, ◌++◌, append-nil, length, length-append, ℤ, pos, quot, format_int, ok, ◌>>=◌,
  arith,
}
use chihaya.Http.Bencode.{
  Value, byte_slice, text, texts, int, uint, duration, list, dict, unsupported, Items, nil, cons,
  Fields, end, field, marshal_bytes, marshal_texts, marshal_int, marshal_uint, marshal,
}
use chihaya.Http.Bencode.Decoder.{
  Reader, one_less, read_terminated_int, read_list, read_dict, read_text, put, unmarshal,
  unmarshal_bytes,
}
use chihaya.Http.Bencode.Numbers.{full, IsInt64, seconds-IsInt64}
use chihaya.Http.Bencode.Coding.{
  IsShort, AllShort, IsEncodable, AllEncodable, AllFieldsEncodable, put_all, text_items, plain,
  plain_items, plain_fields, coded, coded_items, coded_fields, marshal_lem,
}
use chihaya.Http.Bencode.Reading.{
  unmarshal_text, unmarshal_int, coded-GoesOn, length-coded, text-GoesOn, GoesOn-length, Decodes,
  DecodesList, DecodesDict, DecodesList-nil, DecodesList-cons, DecodesDict-end, DecodesDict-field,
}

text-Decodes : (s : Bytes) → IsShort s → Decodes (marshal_bytes s) (text s)
text-Decodes s e zero rest h =
    absurd (omega (arith, GoesOn-length (marshal_bytes s) (text-GoesOn s [])))
text-Decodes s e (suc fuel) rest h = unmarshal_text fuel s rest e

int-Decodes : (z : ℤ) → IsInt64 z → Decodes (marshal_int z) (int z)
unfolding marshal_int
int-Decodes z e zero rest h = absurd (omega arith)
int-Decodes z e (suc fuel) rest h = unmarshal_int fuel z rest e

list-Decodes : (s : Bytes) (vs : Items) → DecodesList s vs → Decodes (b'l' ∷ s) (list vs)
unfolding unmarshal
list-Decodes s vs d zero rest h = absurd (omega arith)
list-Decodes s vs d (suc fuel) rest h =
    ap (λ r. r >>= λ x. ok (list x.0, x.1)) (d fuel rest (omega arith))

dict-Decodes : (s : Bytes) (fs : Fields) → DecodesDict s end fs → Decodes (b'd' ∷ s) (dict fs)
unfolding unmarshal
dict-Decodes s fs d zero rest h = absurd (omega arith)
dict-Decodes s fs d (suc fuel) rest h =
    ap (λ r. r >>= λ x. ok (dict x.0, x.1)) (d fuel rest (omega arith))

texts_nonempty : (ss : List Bytes) → 0 < length (marshal_texts ss)
unfolding marshal_texts
texts_nonempty [] = omega arith
texts_nonempty (s ∷ ss) =
    omega (arith, length-append (marshal_bytes s) (marshal_texts ss), texts_nonempty ss)

texts-DecodesList : (ss : List Bytes) → AllShort ss → DecodesList (marshal_texts ss) (text_items ss)
unfolding marshal_texts
texts-DecodesList [] e = DecodesList-nil
texts-DecodesList (s ∷ ss) e =
    DecodesList-cons (marshal_bytes s) (marshal_texts ss) (text s) (text_items ss) (text-GoesOn s)
      (texts_nonempty ss) (text-Decodes s e.0) (texts-DecodesList ss e.1)

items_nonempty : (vs : Items) → AllEncodable vs → 0 < length (coded_items vs)
items_nonempty nil e = omega arith
items_nonempty (cons v vs) e =
    omega (arith, length-append (coded v) (coded_items vs), length-coded v e.0)

fields_nonempty : (fs : Fields) → AllFieldsEncodable fs → 0 < length (coded_fields fs)
fields_nonempty end e = omega arith
fields_nonempty (field k v fs) e = omega (
  arith,
  length-append (marshal_bytes k) (coded v ++ coded_fields fs),
  GoesOn-length (marshal_bytes k) (text-GoesOn k []),
)

uint-Decodes : (n : ℕ) → n < 2 ^ 63 → Decodes (marshal_uint n) (int (pos n))
unfolding marshal_uint marshal_int format_int
uint-Decodes n e = int-Decodes (pos n) e

-- The first byte that is read fills the buffer.
unmarshal_start :
    (fuel : ℕ) (s : Bytes) → length s ≤ 4096 → unmarshal fuel (s, 0) ≡ unmarshal fuel (full s)
unfolding unmarshal
unmarshal_start zero s h = refl
unmarshal_start (suc fuel) [] h = refl
unmarshal_start (suc fuel) (c ∷ s) h =
    let all : min 4096 (suc (length s)) ≡ suc (length s) = omega arith in
    ap
      (λ n. elim (c == b'i') as (λ _. Result (Value × Reader)) [
        | true ↦ do (z, rest) ← read_terminated_int (s, one_less n) b'e'; ok (int z, rest)
        | false ↦ elim (c == b'l') as (λ _. Result (Value × Reader)) [
          | true ↦ do (vs, rest) ← read_list fuel (s, one_less n); ok (list vs, rest)
          | false ↦ elim (c == b'd') as (λ _. Result (Value × Reader)) [
            | true ↦ do (fs, rest) ← read_dict fuel end (s, one_less n); ok (dict fs, rest)
            | false ↦ read_text (c ∷ s, n)
          ]
        ]
      ])
      all

whole : (s : Bytes) (v : Value) → length s ≤ 4096 → Decodes s v → unmarshal_bytes s ≡ ok v
unfolding unmarshal_bytes
whole s v h d =
    let fuel = suc (length s + length s) in
    ap (λ r. r >>= λ x. ok x.0) (unmarshal_start fuel s h)
    ∙ ap (λ x. unmarshal fuel (full x) >>= λ r. ok r.0) (sym (append-nil s))
    ∙ ap (λ r. r >>= λ x. ok x.0) (d fuel [] (omega arith))

mutual
  coded-Decodes : (v : Value) → IsEncodable v → Decodes (coded v) (plain v)
  coded-Decodes (byte_slice s) e = text-Decodes s e
  coded-Decodes (text s) e = text-Decodes s e
  coded-Decodes (texts ss) e =
      list-Decodes (marshal_texts ss) (text_items ss) (texts-DecodesList ss e)
  coded-Decodes (int z) e = int-Decodes z e
  coded-Decodes (uint n) e = uint-Decodes n e
  coded-Decodes (duration z) e = int-Decodes (quot z 1_000_000_000) (seconds-IsInt64 z e)
  coded-Decodes (list vs) e =
      list-Decodes (coded_items vs) (plain_items vs) (items-DecodesList vs e)
  coded-Decodes (dict fs) e =
      dict-Decodes (coded_fields fs) (put_all end (plain_fields fs)) (fields-DecodesDict fs end e)
  coded-Decodes (unsupported t) e = absurd e

  items-DecodesList : (vs : Items) → AllEncodable vs → DecodesList (coded_items vs) (plain_items vs)
  items-DecodesList nil e = DecodesList-nil
  items-DecodesList (cons v vs) e =
      DecodesList-cons (coded v) (coded_items vs) (plain v) (plain_items vs)
        (λ rest. coded-GoesOn v rest e.0) (items_nonempty vs e.1) (coded-Decodes v e.0)
        (items-DecodesList vs e.1)

  fields-DecodesDict :
      (fs acc : Fields)
      → AllFieldsEncodable fs
      → DecodesDict (coded_fields fs) acc (put_all acc (plain_fields fs))
  fields-DecodesDict end acc e = DecodesDict-end acc
  fields-DecodesDict (field k v fs) acc e =
      DecodesDict-field (marshal_bytes k) (coded v) (coded_fields fs) k (plain v) acc
        (put_all (put k (plain v) acc) (plain_fields fs)) (text-GoesOn k) (fields_nonempty fs e.2)
        (text-Decodes k e.0) (coded-Decodes v e.1) (fields-DecodesDict fs (put k (plain v) acc) e.2)

-- A value of the types that the encoder knows is written without an error, and what is written decodes
-- to it: texts for bytes, whole seconds for a duration, and of two entries of a dictionary with one
-- key the later. Its integers must fit an int64, and what is written, and so each text in it, must have
-- at most the 4096 bytes that the decoder's buffer holds.
pub unmarshal-marshal :
    (v : Value)
    → IsEncodable v
    → ((s : Bytes) → marshal v ≡ ok s → length s ≤ 4096)
    → (marshal v >>= unmarshal_bytes) ≡ ok (plain v)
unmarshal-marshal v e fits =
    ap (λ r. r >>= unmarshal_bytes) (marshal_lem v e)
    ∙ whole (coded v) (plain v) (fits (coded v) (marshal_lem v e)) (coded-Decodes v e)
