-- ===== src/Memory.antt =====
-- The in-memory peer store (storage/memory/peer_store.go): its state and its small helpers. The
-- child modules hold the operations and their proofs.
--
-- A Go map is an association list (Base/Dict). A shard's mutex makes each of its critical sections
-- one step. Times are nanoseconds since 1970, and `clock` is what timecache.NowUnixNano reads.
pub mod Configs
pub mod Keys
pub mod Shards
pub mod Operations
pub mod Announce
pub mod Interface
use chihaya.Base.{
  ℕ, ◌+◌, ◌-◌, ◌%◌, ◌^◌, ◌==◌, Bool, ◌&&◌, List, [], Bytes, codes, length, Error, client_error,
  if◌then◌else◌,
}
use chihaya.Base.Dict.{Dict, delete}

-- Durations are nanoseconds and may be negative in a configuration, as may `shard_count`; a value
-- that is not positive is written 0 here.
pub record Config : Type 0 where
  pub garbage_collection_interval : ℕ
  pub prometheus_reporting_interval : ℕ
  pub peer_lifetime : ℕ
  pub shard_count : ℕ
  pub enable_dual_stack_peers : Bool

-- Each map takes a serialized peer to the time of its last announce.
pub record Swarm : Type 0 where
  pub seeders : Dict ℕ
  pub leechers : Dict ℕ

pub record PeerShard : Type 0 where
  pub swarms : Dict Swarm
  pub num_seeders : ℕ
  pub num_leechers : ℕ

pub record PeerStore : Type 0 where
  pub cfg : Config
  pub shards : List PeerShard
  pub closed : Bool
  pub clock : ℕ

abbrev pub empty_swarm : Swarm
empty_swarm = record { seeders = []; leechers = [] }

abbrev pub empty_shard : PeerShard
empty_shard = record { swarms = []; num_seeders = 0; num_leechers = 0 }

abbrev pub err_resource_does_not_exist : Error
err_resource_does_not_exist = client_error (codes "resource does not exist")

-- `n++` and `n--` on a uint64.
unfoldable pub inc64 : ℕ → ℕ
inc64 n = (n + 1) % 2 ^ 64

unfoldable pub dec64 : ℕ → ℕ
dec64 n = (n + (2 ^ 64 - 1)) % 2 ^ 64
