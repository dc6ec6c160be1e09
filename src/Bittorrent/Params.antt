-- ===== src/Bittorrent/Params.antt =====
-- URL data and its parameters (bittorrent/params.go), with `url.QueryUnescape` of Go's library.
--
-- `strings.ToLower` is modelled on ASCII: a key with other letters keeps them here.
pub mod Hashes
use chihaya.Base.{
  ℕ, ◌+◌, ◌-◌, ◌*◌, ◌==◌, leb, Bool, true, false, ◌&&◌, ◌||◌, Bytes, codes, bytes_eq, length, List,
  [], ◌∷◌, ◌++◌, Option, none, some, Result, ok, err, panic, Error, client_error, internal_error,
  ◌>>=◌, ◌>>◌, if◌then◌else◌, parse_uint,
}
use chihaya.Base.Dict.{lookup, insert}
use chihaya.Bittorrent.{QueryParams, info_hash_from_string}
use chihaya.Bittorrent.Events.{to_lower}

abbrev pub err_key_not_found : Error
err_key_not_found = internal_error (codes "query: value for the provided key does not exist")

abbrev pub err_invalid_infohash : Error
err_invalid_infohash = client_error (codes "provided invalid infohash")

abbrev pub err_invalid_query_escape : Error
err_invalid_query_escape = client_error (codes "invalid query escape")

-- `RouteParams.ByName`: the first value of the name, or nothing.
unfoldable pub by_name : Bytes → List (Bytes × Bytes) → Bytes
by_name name [] = []
by_name name ((k, v) ∷ rp) = if bytes_eq k name then v else by_name name rp

-- What stands before the first byte that passes the test, and behind it, if there is one.
unfoldable pub cut : (ℕ → Bool) → Bytes → Bytes × Option Bytes
cut test [] = ([], none)
cut test (c ∷ s) = let rest = cut test s in if test c then ([], some s) else (c ∷ rest.0, rest.1)

abbrev pub or_empty : Option Bytes → Bytes
or_empty none = []
or_empty (some s) = s

-- The first text that is not empty.
abbrev pub or_else : Bytes → Bytes → Bytes
or_else a b = if length a == 0 then b else a

unfoldable pub is_hex : ℕ → Bool
is_hex c = (leb b'0' c && leb c b'9') || (leb b'a' c && leb c b'f') || (leb b'A' c && leb c b'F')

unfoldable pub unhex : ℕ → ℕ
unhex c = if leb c b'9' then c - b'0' else if leb b'a' c then c - b'a' + 10 else c - b'A' + 10

push_byte : ℕ → Option Bytes → Option Bytes
push_byte c none = none
push_byte c (some s) = some (c ∷ s)

plus_to_space : ℕ → ℕ
plus_to_space c = if c == b'+' then b' ' else c

-- `url.QueryUnescape`: `none` for a percent sign without two hexadecimal digits.
unfoldable pub query_unescape : Bytes → Option Bytes
unfolding is_hex unhex push_byte plus_to_space
query_unescape [] = some []
query_unescape (c ∷ []) = if c == b'%' then none else some (plus_to_space c ∷ [])
query_unescape (c ∷ a ∷ []) =
    let plain = push_byte (plus_to_space c) (query_unescape (a ∷ [])) in
    if c == b'%' then none else plain
query_unescape (c ∷ a ∷ b ∷ s) =
    let plain = push_byte (plus_to_space c) (query_unescape (a ∷ b ∷ s)) in
    let escaped = push_byte (unhex a * 16 + unhex b) (query_unescape s) in
    if c == b'%' then (if is_hex a && is_hex b then escaped else none) else plain

unfoldable pub unescaped : Option Bytes → Result Bytes
unescaped none = err err_invalid_query_escape
unescaped (some s) = ok s

-- An infohash is collected; any other key is stored in lower case.
unfoldable pub add_param : Bytes → Bytes → QueryParams → Result QueryParams
add_param key value q =
    if bytes_eq key (codes "info_hash")
    then (if length value == 20
        then (do
          ih ← info_hash_from_string value
          ok (record q { info_hashes = q.info_hashes ++ ih ∷ [] }))
        else err err_invalid_infohash)
    else ok (record q { params = insert (to_lower key) value q.params })

-- One turn of the loop of `parseQuery`: what stands between two separators.
unfoldable pub parse_pair : Bytes → QueryParams → Result QueryParams
unfolding unescaped
parse_pair [] q = ok q
parse_pair (c ∷ s) q = do
  let kv = cut (λ x. x == b'=') (c ∷ s)
  key ← unescaped (query_unescape kv.0)
  value ← unescaped (query_unescape (or_empty kv.1))
  add_param key value q

-- The pieces between `&` and `;`.
unfoldable pub pieces : Bytes → Bytes → List Bytes
pieces piece [] = piece ∷ []
pieces piece (c ∷ s) =
    let next = pieces [] s in
    let longer = pieces (piece ++ c ∷ []) s in
    if (c == b'&') || (c == b';') then piece ∷ next else longer

unfoldable pub parse_pairs : List Bytes → QueryParams → Result QueryParams
parse_pairs [] q = ok q
parse_pairs (p ∷ ps) q = do q' ← parse_pair p q; parse_pairs ps q'

unfoldable pub parse_query : Bytes → Result QueryParams
parse_query query =
    parse_pairs (pieces [] query)
      (record { path = []; query = query; params = []; info_hashes = [] })

-- Every error of a query is a client error already.
unfoldable pub parse_url_data : Bytes → Result QueryParams
parse_url_data url = do
  let pq = cut (λ x. x == b'?') url
  q ← parse_query (or_empty pq.1)
  ok (record q { path = pq.0 })

-- `QueryParams.String`
unfoldable pub param_string : QueryParams → Bytes → Option Bytes
param_string qp key = lookup key qp.params

abbrev pub err_parse_uint : Error
err_parse_uint = internal_error (codes "strconv.ParseUint")

abbrev pub parsed_uint : Option ℕ → Result ℕ
parsed_uint none = err err_parse_uint
parsed_uint (some n) = ok n

unfoldable pub uint_value : Option Bytes → ℕ → Result ℕ
uint_value none bits = err err_key_not_found
uint_value (some s) bits = parsed_uint (parse_uint s bits)

-- `QueryParams.Uint`. The errors of `strconv.ParseUint` are one here.
unfoldable pub param_uint : QueryParams → Bytes → ℕ → Result ℕ
unfolding uint_value
param_uint qp key bits = uint_value (param_string qp key) bits
