-- ===== src/Memory/Configs.antt =====
-- `Config.Validate` and `New`.
use chihaya.Base.{
  ℕ, ◌*◌, ◌-◌, ◌/◌, ◌^◌, ◌==◌, ltb, true, false, not, ◌||◌, ◌&&◌, replicate, if◌then◌else◌,
}
use chihaya.Memory.{Config, PeerStore, empty_shard}

abbrev second : ℕ
second = 1_000_000_000

abbrev pub default_shard_count : ℕ
default_shard_count = 1024

abbrev default_prometheus_reporting_interval : ℕ
default_prometheus_reporting_interval = second * 1

abbrev default_garbage_collection_interval : ℕ
default_garbage_collection_interval = second * 60 * 3

abbrev default_peer_lifetime : ℕ
default_peer_lifetime = second * 60 * 30

-- `math.MaxInt/2`
abbrev pub max_shard_count : ℕ
max_shard_count = (2 ^ 63 - 1) / 2

unfoldable pub validate : Config → Config
validate cfg = record {
  shard_count =
      if (cfg.shard_count == 0) || ltb max_shard_count cfg.shard_count
      then default_shard_count
      else cfg.shard_count;
  garbage_collection_interval =
      if cfg.garbage_collection_interval == 0
      then default_garbage_collection_interval
      else cfg.garbage_collection_interval;
  prometheus_reporting_interval =
      if cfg.prometheus_reporting_interval == 0
      then default_prometheus_reporting_interval
      else cfg.prometheus_reporting_interval;
  peer_lifetime = if cfg.peer_lifetime == 0 then default_peer_lifetime else cfg.peer_lifetime;
  enable_dual_stack_peers = cfg.enable_dual_stack_peers;
}

-- `New`, without its two background loops; the shards are all empty.
unfoldable pub new : Config → ℕ → PeerStore
unfolding validate
new provided clock =
    let cfg = validate provided in
    let dual =
      if not provided.enable_dual_stack_peers && not cfg.enable_dual_stack_peers
      then true
      else cfg.enable_dual_stack_peers in
    record {
      cfg = record cfg { enable_dual_stack_peers = dual };
      shards = replicate (cfg.shard_count * 2) empty_shard;
      closed = false;
      clock = clock;
    }
