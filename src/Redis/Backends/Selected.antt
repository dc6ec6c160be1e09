-- ===== src/Redis/Backends/Selected.antt =====
-- The database that a connection of the pool is on (NewPool and open of storage/redis/redis.go).
use chihaya.Base.{
  ◌≡◌, refl, Bool-cases, inl, inr, Bytes, length, ◌==◌, ℤ, Option, none, some, Error, Result, ok,
  err,
}
use chihaya.Redis.Backends.{
  RedisConnector, DialOptions, Driver, dial_options, open_connection, is_zero, selected, choose,
  dial_pool,
}

-- A connection is on the database of its options until SELECT names another one.
pub record Laws {N C : Type 0} (driver : Driver N C) : Type 0 where
  pub database_of : N → C → ℤ
  pub dial_db :
      (network addr : Bytes) (opts : DialOptions) (n : N) (c : C)
      → (driver.dial network addr opts n).1 ≡ ok c
      → database_of (driver.dial network addr opts n).0 c ≡ opts.db
  pub select_db :
      (c : C) (db : ℤ) (n : N)
      → (driver.select c db n).1 ≡ none
      → database_of (driver.select c db n).0 c ≡ db

module _ {N C : Type 0} (driver : Driver N C) (laws : Laws driver) where
  open laws use {database_of, dial_db, select_db}

  -- A connection that was given is on the database.
  abbrev pub IsOn : ℤ → N × Result C → Type 0
  IsOn db (n, ok c) = database_of n c ≡ db
  IsOn db (n, err e) = Unit {0}
  IsOn db (n, Result.panic) = Unit {0}

  IsOn-of :
      (db : ℤ) (o : N × Result C) → ((c : C) → o.1 ≡ ok c → database_of o.0 c ≡ db) → IsOn db o
  IsOn-of db (n, ok c) h = h c refl
  IsOn-of db (n, err e) h = tt
  IsOn-of db (n, Result.panic) h = tt

  open_connection-IsOn :
      (rc : RedisConnector) (n : N) → IsOn rc.url.db (open_connection driver rc n)
  unfolding open_connection dial_options
  open_connection-IsOn rc n = elim (Bool-cases (length rc.socket_path == 0)) [
    | inl e ↦
        rw e (
          IsOn-of rc.url.db (driver.dial _ _ (dial_options rc) n) (dial_db _ _ (dial_options rc) n))
    | inr e ↦
        rw e (
          IsOn-of rc.url.db (driver.dial _ _ (dial_options rc) n) (dial_db _ _ (dial_options rc) n))
  ]

  selected-IsOn :
      (db : ℤ) (c : C) (o : N × Option Error)
      → (o.1 ≡ none → database_of o.0 c ≡ db)
      → IsOn db (selected driver c o)
  selected-IsOn db c (n, none) h = h refl
  selected-IsOn db c (n, some e) h = tt

  choose-IsOn : (db : ℤ) (o : N × Result C) → IsOn db o → IsOn db (choose driver db o)
  choose-IsOn db (n, ok c) h = elim (Bool-cases (is_zero db)) [
    | inl e ↦ rw e h
    | inr e ↦ rw e (selected-IsOn db c (driver.select c db n) (select_db c db n))
  ]
  choose-IsOn db (n, err e) h = tt
  choose-IsOn db (n, Result.panic) h = tt

  -- A connection that the pool dials is on the database that the URL names.
  pub dial_pool-IsOn : (rc : RedisConnector) (n : N) → IsOn rc.url.db (dial_pool driver rc n)
  unfolding dial_pool
  dial_pool-IsOn rc n =
      choose-IsOn rc.url.db (open_connection driver rc n) (open_connection-IsOn rc n)
