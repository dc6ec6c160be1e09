-- ===== src/Redis/Backends.antt =====
-- The connections of the Redis store (storage/redis/redis.go, and how New of
-- storage/redis/peer_store.go sets them up).
--
-- Dialling and the commands on a connection are the parameter `Driver` on the state of the network.
-- The idle connections of the pool and the locks of redsync are the libraries'.
pub mod Broker
pub mod Selected
use chihaya.Base.{
  ◌==◌, ltb, Bool, false, Bytes, bytes_eq, codes, length, List, [], ◌∷◌, ℕ, ℤ, pos, negsuc, Option,
  none, some, Error, internal_error, Result, ok, err, panic, guard, ◌>>=◌, ◌>>◌, if◌then◌else◌,
}
use chihaya.Middleware.Brokers.{Url, RedisUrl, split, split_onto, atoi}
use chihaya.Redis.Configs.{Config, validate, new_config}

-- The number of the database: here the first piece behind a slash is read even if it is empty.
unfoldable pub database : List Bytes → Result ℤ
database (a ∷ b ∷ rest) = atoi b
database _ = ok (pos 0)

unfoldable pub parse_redis_url : (Bytes → Result Url) → Bytes → Result RedisUrl
unfolding split_onto database
parse_redis_url url_parse target = do
  u ← url_parse target
  guard (bytes_eq u.scheme (codes "redis")) (internal_error (codes "no redis scheme found"))
  db ← database (split u.path)
  ok (record { host = u.host; password = u.user; db = db })

pub record RedisConnector : Type 0 where
  pub url : RedisUrl
  pub socket_path : Bytes
  pub read_timeout : ℤ
  pub write_timeout : ℤ
  pub connect_timeout : ℤ

unfoldable pub new_redis_backend : Config → RedisUrl → Bytes → RedisConnector
new_redis_backend cfg u socket_path = record {
  url = u;
  socket_path = socket_path;
  read_timeout = cfg.redis_read_timeout;
  write_timeout = cfg.redis_write_timeout;
  connect_timeout = cfg.redis_connect_timeout;
}

-- The configuration and the connections of `New`. The broker is the validated one; the timeouts are
-- those provided.
unfoldable pub new : (Bytes → Result Url) → Config → Result (Config × RedisConnector)
unfolding new_config validate parse_redis_url new_redis_backend
new url_parse provided =
    let cfg = new_config provided in
    do u ← parse_redis_url url_parse cfg.redis_broker; ok (cfg, new_redis_backend provided u [])

-- The options of a dial; no password is `none`.
pub record DialOptions : Type 0 where
  pub db : ℤ
  pub read_timeout : ℤ
  pub write_timeout : ℤ
  pub connect_timeout : ℤ
  pub password : Option Bytes

-- `dial` takes the network's name and the address; `select` and `ping` are commands.
pub record Driver (N C : Type 0) : Type 0 where
  pub dial : Bytes → Bytes → DialOptions → N → N × Result C
  pub select : C → ℤ → N → N × Option Error
  pub ping : C → N → N × Option Error

unfoldable pub dial_options : RedisConnector → DialOptions
dial_options rc = record {
  db = rc.url.db;
  read_timeout = rc.read_timeout;
  write_timeout = rc.write_timeout;
  connect_timeout = rc.connect_timeout;
  password = if length rc.url.password == 0 then none else some rc.url.password;
}

-- `==` on an int and zero.
abbrev pub is_zero : ℤ → Bool
is_zero (pos n) = n == 0
is_zero (negsuc n) = false

module _ {N C : Type 0} (driver : Driver N C) where
  unfoldable pub open_connection : RedisConnector → N → N × Result C
  unfolding dial_options
  open_connection rc n =
      if length rc.socket_path == 0
      then driver.dial (codes "tcp") rc.url.host (dial_options rc) n
      else driver.dial (codes "unix") rc.socket_path (dial_options rc) n

  -- Where SELECT fails the connection is given up, but not closed.
  abbrev pub selected : C → N × Option Error → N × Result C
  selected c (n, none) = (n, ok c)
  selected c (n, some e) = (n, err e)

  abbrev pub choose : ℤ → N × Result C → N × Result C
  choose db (n, ok c) = if is_zero db then (n, ok c) else selected c (driver.select c db n)
  choose db (n, err e) = (n, err e)
  choose db (n, Result.panic) = (n, panic)

  -- `Dial` of the pool.
  unfoldable pub dial_pool : RedisConnector → N → N × Result C
  unfolding open_connection
  dial_pool rc n = choose rc.url.db (open_connection rc n)

  -- `TestOnBorrow` of a connection that has been idle for a time in nanoseconds.
  unfoldable pub test_on_borrow : C → ℕ → N → N × Option Error
  test_on_borrow c since n = if ltb since 10_000_000_000 then (n, none) else driver.ping c n
