-- ===== src/Redis/Backends/Broker.antt =====
-- The address of the server as the Redis store and as the hooks read it (parseRedisURL of
-- storage/redis/redis.go and of the packages of middleware/).
use chihaya.Base.{
  ◌==◌, ◌≡◌, refl, Bool, false, ◌&&◌, Bool-cases, Result-cases, inl, inr, Bytes, length, List, [],
  ◌∷◌, codes, bytes_eq, Result, ok, err, parse_int, arith, if◌then◌else◌,
}
use chihaya.Middleware.Brokers
use chihaya.Middleware.Brokers.{Url, RedisUrl, split, split_onto, err_atoi}
use chihaya.Redis.Backends.{database, parse_redis_url}

-- The path has a first slash and nothing between it and the next.
abbrev pub names_nothing : List Bytes → Bool
names_nothing (a ∷ b ∷ rest) = length b == 0
names_nothing _ = false

database-agrees :
    (ps : List Bytes)
    → database ps ≡ (if names_nothing ps then err err_atoi else Brokers.database ps)
unfolding database Brokers.database parse_int
database-agrees [] = refl
database-agrees (a ∷ []) = refl
database-agrees (a ∷ [] ∷ rest) = refl
database-agrees (a ∷ (c ∷ b) ∷ rest) = ground arith

-- The error of a number that is not there, for a redis URL whose path begins with an empty piece.
abbrev pub refuse_nothing : Result Url → Result RedisUrl → Result RedisUrl
refuse_nothing (ok u) r =
    if bytes_eq u.scheme (codes "redis") && names_nothing (split u.path) then err err_atoi else r
refuse_nothing (err e) r = r
refuse_nothing Result.panic r = r

-- The store and the hooks read every address alike, with the same error where they refuse it; but a
-- redis URL with nothing behind the slash of its path, which is database zero to the hooks, is an
-- error to the store.
pub parse_redis_url-agrees :
    (url_parse : Bytes → Result Url) (target : Bytes)
    → parse_redis_url url_parse target
      ≡ refuse_nothing (url_parse target) (Brokers.parse_redis_url url_parse target)
unfolding parse_redis_url Brokers.parse_redis_url
parse_redis_url-agrees url_parse target = elim (Result-cases (url_parse target)) [
  | inl (u, e) ↦ rw e (elim (Bool-cases (bytes_eq u.scheme (codes "redis"))) [
    | inl s ↦
        rw (s, database-agrees (split u.path))
          (elim (Bool-cases (names_nothing (split u.path))) [
            | inl n ↦ rw n refl
            | inr n ↦ rw n refl
          ])
    | inr s ↦ rw s refl
  ])
  | inr (inl (x, e)) ↦ rw e refl
  | inr (inr e) ↦ rw e refl
]
