-- ===== src/Http/Bencode/Coding.antt =====
-- The values that frontend/http/bencode encodes, their bytes, and what stands for them once they
-- are read back.
use chihaya.Base.{
  ◌≤◌, ◌^◌, ◌<◌, ◌≡◌, refl, ap, Bytes, List, [], ◌∷◌, ◌++◌, length, pos, quot, ok, ◌>>=◌,
}
use chihaya.Http.Bencode.{
  Value, byte_slice, text, texts, int, uint, duration, list, dict, unsupported, Items, nil, cons,
  Fields, end, field, marshal_bytes, marshal_texts, marshal_int, marshal_uint, marshal,
  marshal_list, marshal_map,
}
use chihaya.Http.Bencode.Decoder.{put}
use chihaya.Http.Bencode.Numbers.{IsInt64}

abbrev pub IsShort : Bytes → Type 0
IsShort s = length s ≤ 4096

abbrev pub AllShort : List Bytes → Type 0
AllShort [] = Unit {0}
AllShort (s ∷ ss) = IsShort s × AllShort ss

abbrev mutual
  -- A value of the types that the encoder knows, with integers that fit an int64.
  pub IsEncodable : Value → Type 0
  IsEncodable (byte_slice s) = IsShort s
  IsEncodable (text s) = IsShort s
  IsEncodable (texts ss) = AllShort ss
  IsEncodable (int z) = IsInt64 z
  IsEncodable (uint n) = n < 2 ^ 63
  IsEncodable (duration z) = IsInt64 z
  IsEncodable (list vs) = AllEncodable vs
  IsEncodable (dict fs) = AllFieldsEncodable fs
  IsEncodable (unsupported t) = ⊥

  pub AllEncodable : Items → Type 0
  AllEncodable nil = Unit {0}
  AllEncodable (cons v vs) = IsEncodable v × AllEncodable vs

  pub AllFieldsEncodable : Fields → Type 0
  AllFieldsEncodable end = Unit {0}
  AllFieldsEncodable (field k v fs) = IsShort k × IsEncodable v × AllFieldsEncodable fs

-- What stands for a value once it is read back: text for bytes, an int64 for each number, and a
-- dictionary in which a later entry of a key replaces an earlier one.
abbrev pub put_all : Fields → Fields → Fields
put_all acc end = acc
put_all acc (field k v fs) = put_all (put k v acc) fs

abbrev pub text_items : List Bytes → Items
text_items [] = nil
text_items (s ∷ ss) = cons (text s) (text_items ss)

abbrev mutual
  pub plain : Value → Value
  plain (byte_slice s) = text s
  plain (text s) = text s
  plain (texts ss) = list (text_items ss)
  plain (int z) = int z
  plain (uint n) = int (pos n)
  plain (duration z) = int (quot z 1_000_000_000)
  plain (list vs) = list (plain_items vs)
  plain (dict fs) = dict (put_all end (plain_fields fs))
  plain (unsupported t) = unsupported t

  pub plain_items : Items → Items
  plain_items nil = nil
  plain_items (cons v vs) = cons (plain v) (plain_items vs)

  pub plain_fields : Fields → Fields
  plain_fields end = end
  plain_fields (field k v fs) = field k (plain v) (plain_fields fs)

-- The bytes of an encodable value.
abbrev mutual
  pub coded : Value → Bytes
  coded (byte_slice s) = marshal_bytes s
  coded (text s) = marshal_bytes s
  coded (texts ss) = b'l' ∷ marshal_texts ss
  coded (int z) = marshal_int z
  coded (uint n) = marshal_uint n
  coded (duration z) = marshal_int (quot z 1_000_000_000)
  coded (list vs) = b'l' ∷ coded_items vs
  coded (dict fs) = b'd' ∷ coded_fields fs
  coded (unsupported t) = []

  pub coded_items : Items → Bytes
  coded_items nil = b'e' ∷ []
  coded_items (cons v vs) = coded v ++ coded_items vs

  pub coded_fields : Fields → Bytes
  coded_fields end = b'e' ∷ []
  coded_fields (field k v fs) = marshal_bytes k ++ (coded v ++ coded_fields fs)

mutual
  unfolding marshal

  pub marshal_lem : (v : Value) → IsEncodable v → marshal v ≡ ok (coded v)
  marshal_lem (byte_slice s) e = refl
  marshal_lem (text s) e = refl
  marshal_lem (texts ss) e = refl
  marshal_lem (int z) e = refl
  marshal_lem (uint n) e = refl
  marshal_lem (duration z) e = refl
  marshal_lem (list vs) e = ap (λ r. r >>= λ b. ok (b'l' ∷ b)) (marshal_list_lem vs e)
  marshal_lem (dict fs) e = ap (λ r. r >>= λ b. ok (b'd' ∷ b)) (marshal_map_lem fs e)
  marshal_lem (unsupported t) e = absurd e

  marshal_list_lem : (vs : Items) → AllEncodable vs → marshal_list vs ≡ ok (coded_items vs)
  marshal_list_lem nil e = refl
  marshal_list_lem (cons v vs) e = rw (marshal_lem v e.0, marshal_list_lem vs e.1)

  marshal_map_lem : (fs : Fields) → AllFieldsEncodable fs → marshal_map fs ≡ ok (coded_fields fs)
  marshal_map_lem end e = refl
  marshal_map_lem (field k v fs) e = rw (marshal_lem v e.1, marshal_map_lem fs e.2)
