-- ===== src/Middleware/Passkeys/Base64.antt =====
-- `base64.URLEncoding.DecodeString` of Go's library, which
-- middleware/passkeyapproval/passkeyapproval.go applies to a credential.
use chihaya.Base.{
  ℕ, ◌+◌, ◌-◌, ◌*◌, ◌/◌, ◌%◌, ◌==◌, leb, ◌&&◌, ◌||◌, Bytes, [], ◌∷◌, Option, none, some,
  if◌then◌else◌,
}

-- The six bits of a character.
unfoldable pub six_bits : ℕ → Option ℕ
six_bits c =
    if leb b'A' c && leb c b'Z'
    then some (c - b'A')
    else if leb b'a' c && leb c b'z'
    then some (c - b'a' + 26)
    else if leb b'0' c && leb c b'9'
    then some (c - b'0' + 52)
    else if c == b'-'
    then some 62
    else if c == b'_'
    then some 63
    else none

-- Line ends are skipped wherever they stand.
unfoldable pub without_lines : Bytes → Bytes
without_lines [] = []
without_lines (c ∷ s) =
    let rest = without_lines s in if (c == 10) || (c == 13) then rest else c ∷ rest

-- Nothing stands behind padding.
unfoldable pub last_bytes : Bytes → Bytes → Option Bytes
last_bytes [] out = some out
last_bytes (c ∷ s) out = none

unfoldable pub push_three : ℕ → ℕ → ℕ → ℕ → Option Bytes → Option Bytes
push_three w x y z none = none
push_three w x y z (some out) =
    some ((w * 4 + x / 16) ∷ (x % 16 * 16 + y / 4) ∷ (y % 4 * 64 + z) ∷ out)

-- The characters in fours, the last four with one or two for padding. Bits that are left over are
-- not looked at.
unfoldable pub decode_fours : Bytes → Option Bytes
unfolding six_bits last_bytes push_three
decode_fours [] = some []
decode_fours (a ∷ b ∷ c ∷ d ∷ s) =
    let rest = decode_fours s in
    elim (six_bits a) [
      | none ↦ none
      | some w ↦ elim (six_bits b) [
        | none ↦ none
        | some x ↦
            if (c == b'=') && (d == b'=')
            then last_bytes s ((w * 4 + x / 16) ∷ [])
            else elim (six_bits c) [
              | none ↦ none
              | some y ↦
                  if d == b'='
                  then last_bytes s ((w * 4 + x / 16) ∷ (x % 16 * 16 + y / 4) ∷ [])
                  else elim (six_bits d) [ none ↦ none | some z ↦ push_three w x y z rest ]
            ]
      ]
    ]
decode_fours _ = none

unfoldable pub decode_string : Bytes → Option Bytes
unfolding without_lines decode_fours
decode_string s = decode_fours (without_lines s)
