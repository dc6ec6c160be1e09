-- ===== src/Http/Bencode.antt =====
-- Bencoding: the values and the encoder (frontend/http/bencode, bencode.go and encoder.go).
--
-- Bytes are written to a buffer that does not fail. A dictionary lists its entries in the order in
-- which the loop over the map meets them.
pub mod Decoder
pub mod Numbers
pub mod Coding
pub mod Reading
pub mod Termination
pub mod RoundTrip
use chihaya.Base.{
  ℕ, ℤ, ◌∷◌, [], ◌++◌, List, Bytes, codes, length, format_uint, format_int, quot, Error,
  internal_error, Result, ok, err, ◌>>=◌,
}

-- The values that the encoder has a case for, and any other by the name of its type. `int` stands for
-- the signed integers, `uint` for the unsigned ones, `list` for List, []interface{} and []Dict.
mutual
  pub data Value : Type 0 where
    byte_slice : Bytes → Value
    text : Bytes → Value
    texts : List Bytes → Value
    int : ℤ → Value
    uint : ℕ → Value
    duration : ℤ → Value
    list : Items → Value
    dict : Fields → Value
    unsupported : Bytes → Value

  pub data Items : Type 0 where
    nil : Items
    cons : Value → Items → Items

  pub data Fields : Type 0 where
    end : Fields
    field : Bytes → Value → Fields → Fields

unfoldable pub marshal_int : ℤ → Bytes
marshal_int v = b'i' ∷ (format_int v ++ b'e' ∷ [])

unfoldable pub marshal_uint : ℕ → Bytes
marshal_uint v = b'i' ∷ (format_uint v ++ b'e' ∷ [])

unfoldable pub marshal_bytes : Bytes → Bytes
marshal_bytes v = format_uint (length v) ++ b':' ∷ v

unfoldable pub marshal_texts : List Bytes → Bytes
unfolding marshal_bytes
marshal_texts [] = b'e' ∷ []
marshal_texts (s ∷ ss) = marshal_bytes s ++ marshal_texts ss

unfoldable mutual
  unfolding marshal_bytes marshal_texts marshal_int marshal_uint

  pub marshal : Value → Result Bytes
  marshal (byte_slice v) = ok (marshal_bytes v)
  marshal (text v) = ok (marshal_bytes v)
  marshal (texts v) = ok (b'l' ∷ marshal_texts v)
  marshal (int v) = ok (marshal_int v)
  marshal (uint v) = ok (marshal_uint v)
  marshal (duration v) = ok (marshal_int (quot v 1_000_000_000))
  marshal (list v) = do items ← marshal_list v; ok (b'l' ∷ items)
  marshal (dict v) = do fields ← marshal_map v; ok (b'd' ∷ fields)
  marshal (unsupported name) =
      err (internal_error (codes "attempted to marshal unsupported type:\n" ++ name))

  -- The items and the letter that ends them.
  pub marshal_list : Items → Result Bytes
  marshal_list nil = ok (b'e' ∷ [])
  marshal_list (cons v vs) = do b ← marshal v; bs ← marshal_list vs; ok (b ++ bs)

  pub marshal_map : Fields → Result Bytes
  marshal_map end = ok (b'e' ∷ [])
  marshal_map (field k v fs) = do
    b ← marshal v
    bs ← marshal_map fs
    ok (marshal_bytes k ++ (b ++ bs))
