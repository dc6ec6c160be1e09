-- ===== src/Middleware/Passkeys/Requests.antt =====
-- The address that middleware/passkeyapproval/passkeyapproval.go asks about a passkey, with
-- `url.QueryEscape` and `strings.Contains` of Go's library.
use chihaya.Base.{
  ℕ, ◌+◌, ◌-◌, ◌/◌, ◌%◌, ◌==◌, ltb, leb, Bool, false, ◌&&◌, ◌||◌, Bytes, codes, [], ◌∷◌, ◌++◌,
  if◌then◌else◌,
}

-- Letters, digits and four signs stand for themselves.
unfoldable pub is_plain : ℕ → Bool
is_plain c =
    (leb b'a' c && leb c b'z')
    || (leb b'A' c && leb c b'Z')
    || (leb b'0' c && leb c b'9')
    || (c == b'-')
    || (c == b'_')
    || (c == b'.')
    || (c == b'~')

abbrev pub upper_hex : ℕ → ℕ
upper_hex n = if ltb n 10 then b'0' + n else b'A' + (n - 10)

unfoldable pub query_escape : Bytes → Bytes
unfolding is_plain
query_escape [] = []
query_escape (c ∷ s) =
    let rest = query_escape s in
    if is_plain c
    then c ∷ rest
    else if c == b' '
    then b'+' ∷ rest
    else b'%' ∷ upper_hex (c / 16) ∷ upper_hex (c % 16) ∷ rest

unfoldable pub has_query : Bytes → Bool
has_query [] = false
has_query (c ∷ s) = (c == b'?') || has_query s

unfoldable pub api_url : Bytes → Bytes → Bytes
unfolding query_escape has_query
api_url url passkey =
    url
    ++ (if has_query url then codes "&" else codes "?")
    ++ codes "passkey="
    ++ query_escape passkey
