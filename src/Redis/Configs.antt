-- ===== src/Redis/Configs.antt =====
-- The configuration of the Redis store (Config, Validate and the start of New of
-- storage/redis/peer_store.go). The warnings go to the log and are not modelled.
use chihaya.Base.{ℤ, pos, positive_or, ◌==◌, Bool, true, Bytes, codes, length, if◌then◌else◌}

-- Times are in nanoseconds.
pub record Config : Type 0 where
  pub garbage_collection_interval : ℤ
  pub prometheus_reporting_interval : ℤ
  pub peer_lifetime : ℤ
  pub redis_broker : Bytes
  pub redis_read_timeout : ℤ
  pub redis_write_timeout : ℤ
  pub redis_connect_timeout : ℤ
  pub enable_dual_stack_peers : Bool

abbrev pub default_prometheus_reporting_interval : ℤ
default_prometheus_reporting_interval = pos 1_000_000_000

abbrev pub default_garbage_collection_interval : ℤ
default_garbage_collection_interval = pos 180_000_000_000

abbrev pub default_peer_lifetime : ℤ
default_peer_lifetime = pos 1_800_000_000_000

abbrev pub default_redis_broker : Bytes
default_redis_broker = codes "redis://myRedis@127.0.0.1:6379/0"

-- The default of the read, the write and the connect timeout.
abbrev pub default_redis_timeout : ℤ
default_redis_timeout = pos 15_000_000_000

unfoldable pub validate : Config → Config
validate cfg = record cfg {
  garbage_collection_interval =
      positive_or cfg.garbage_collection_interval default_garbage_collection_interval;
  prometheus_reporting_interval =
      positive_or cfg.prometheus_reporting_interval default_prometheus_reporting_interval;
  peer_lifetime = positive_or cfg.peer_lifetime default_peer_lifetime;
  redis_broker = if length cfg.redis_broker == 0 then default_redis_broker else cfg.redis_broker;
  redis_read_timeout = positive_or cfg.redis_read_timeout default_redis_timeout;
  redis_write_timeout = positive_or cfg.redis_write_timeout default_redis_timeout;
  redis_connect_timeout = positive_or cfg.redis_connect_timeout default_redis_timeout;
}

-- The configuration that `New` keeps.
unfoldable pub new_config : Config → Config
unfolding validate
new_config provided =
    let cfg = validate provided in
    if provided.enable_dual_stack_peers
    then cfg
    else if cfg.enable_dual_stack_peers
    then cfg
    else record cfg { enable_dual_stack_peers = true }
