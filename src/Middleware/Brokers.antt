-- ===== src/Middleware/Brokers.antt =====
-- The address of a Redis server, as three hooks read it: `parseRedisURL` of
-- middleware/passkeyapproval/passkeyapproval.go, middleware/trafficpush/trafficpush.go and
-- middleware/peerlimit/peerlimit.go. The three copies are one definition here.
--
-- The reading of a URL by net/url is the parameter `url_parse`.
use chihaya.Base.{
  ◌==◌, Bool, true, false, Bytes, bytes_eq, codes, length, List, [], ◌∷◌, ◌++◌, none, some, ℤ, pos,
  Error, internal_error, Result, ok, err, guard, ◌>>=◌, ◌>>◌, parse_int, if◌then◌else◌,
}

-- The parts of a url.URL that are read; `user` is the text of its user information.
pub record Url : Type 0 where
  pub scheme : Bytes
  pub host : Bytes
  pub path : Bytes
  pub user : Bytes

pub record RedisUrl : Type 0 where
  pub host : Bytes
  pub password : Bytes
  pub db : ℤ

-- `strings.Split(s, "/")`, behind the part `part` of the first piece.
unfoldable pub split_onto : Bytes → Bytes → List Bytes
split_onto part [] = part ∷ []
split_onto part (c ∷ s) = elim (c == b'/') [
  | true ↦ part ∷ split_onto [] s
  | false ↦ split_onto (part ++ c ∷ []) s
]

abbrev pub split : Bytes → List Bytes
split s = split_onto [] s

abbrev pub err_atoi : Error
err_atoi = internal_error (codes "strconv.Atoi")

-- `strconv.Atoi` on an int of 64 bits.
abbrev pub atoi : Bytes → Result ℤ
atoi s = elim (parse_int s) [ none ↦ err err_atoi | some n ↦ ok n ]

-- The number of the database: the first piece of the path behind its slash, or zero.
unfoldable pub database : List Bytes → Result ℤ
database (a ∷ b ∷ rest) = if length b == 0 then ok (pos 0) else atoi b
database _ = ok (pos 0)

unfoldable pub parse_redis_url : (Bytes → Result Url) → Bytes → Result RedisUrl
unfolding split_onto database
parse_redis_url url_parse target = do
  u ← url_parse target
  guard (bytes_eq u.scheme (codes "redis")) (internal_error (codes "no redis scheme found"))
  db ← database (split u.path)
  ok (record { host = u.host; password = u.user; db = db })

-- There is a pool if there is a broker.
unfoldable pub check_broker : (Bytes → Result Url) → Bytes → Result Bool
unfolding parse_redis_url
check_broker url_parse broker =
    if length broker == 0 then ok false else (do _ ← parse_redis_url url_parse broker; ok true)
