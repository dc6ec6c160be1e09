-- ===== src/Middleware/Traffic.antt =====
-- The hook that writes the traffic of each announce to a Redis stream
-- (middleware/trafficpush/trafficpush.go).
--
-- The Redis server is the parameter `TrafficServer` and the text of an IP address the parameter
-- `ip_text`; the clock is an argument, read once for an announce. YAML decoding, the pool of
-- connections, the pauses between attempts and the log are not modelled.
pub mod Effects
pub mod Accounting
use chihaya.Base.{
  ℕ, zero, suc, ◌+◌, ◌-◌, ◌==◌, leb, Bool, true, false, Bytes, codes, length, List, [], ◌∷◌, ◌++◌,
  Option, none, some, ℤ, pos, negsuc, ◌+ℤ◌, neg, quot, positive_or, Error, Result, ok, err, panic,
  ◌>>=◌, format_hex, if◌then◌else◌,
}
use chihaya.Bittorrent.{AnnounceRequest, AnnounceResponse, Ip}
use chihaya.Bittorrent.Events.{event_string}
use chihaya.Bittorrent.Params.{or_else}
use chihaya.Middleware.{Context, Payload, Hook}
use chihaya.Middleware.Brokers.{Url, RedisUrl, parse_redis_url}
use chihaya.Middleware.Limits.{passkey_of}
use chihaya.Redis.{family_name}

pub record Config : Type 0 where
  pub redis_broker : Bytes
  pub stream_key : Bytes
  pub last_key_prefix : Bytes
  pub retry_count : ℤ
  pub retry_interval : ℤ
  pub redis_read_timeout : ℤ
  pub redis_write_timeout : ℤ
  pub redis_connect_timeout : ℤ

unfoldable pub with_defaults : Config → Config
with_defaults cfg = record cfg {
  stream_key = or_else cfg.stream_key (codes "tracker:traffic");
  last_key_prefix = or_else cfg.last_key_prefix (codes "tracker:last");
  retry_count = positive_or cfg.retry_count (pos 3);
  retry_interval = positive_or cfg.retry_interval (pos 1_000_000_000);
}

-- The configuration that the hook keeps; the address is used by its pool.
unfoldable pub new_hook : (Bytes → Result Url) → Config → Result (Config × RedisUrl)
unfolding with_defaults
new_hook url_parse cfg = do
  let c = with_defaults cfg
  ru ← parse_redis_url url_parse c.redis_broker
  ok (c, ru)

-- What HMSET keeps of an announce.
pub record Snapshot : Type 0 where
  pub uploaded : ℕ
  pub downloaded : ℕ
  pub port : ℕ
  pub ip : Bytes
  pub af : Bytes
  pub ts : ℤ

-- The values of a stream entry.
pub data Value : Type 0 where
  text : Bytes → Value
  num : ℕ → Value
  int : ℤ → Value

abbrev pub Fields : Type 0
Fields = List (Bytes × Value)

-- HMGET with redis.Scan, where a value that is missing is zero; HMSET; XADD.
pub record TrafficServer (S : Type 0) : Type 0 where
  pub hmget : S → Bytes → Result (ℕ × ℕ × ℤ)
  pub hmset : S → Bytes → Snapshot → S × Result (Unit {0})
  pub xadd : S → Bytes → Fields → S × Result (Unit {0})

-- A counter that fell was reset: it counts from zero.
unfoldable pub increment : ℕ → ℕ → ℕ
increment now last = if leb last now then now - last else now

-- The time since the last announce, if there was one.
unfoldable pub elapsed : ℤ → ℤ → ℤ
elapsed now (pos zero) = pos 0
elapsed now (pos (suc n)) = now +ℤ neg (pos (suc n))
elapsed now (negsuc n) = pos 0

abbrev pub optional_field : Bytes → Option Bytes → Fields
optional_field name none = []
optional_field name (some v) = (name, text v) ∷ []

-- What a payload adds.
unfoldable pub extra_fields : Option Payload → Fields
extra_fields none = []
extra_fields (some p) = optional_field (codes "fd") p.fd ++ optional_field (codes "pd") p.pd

-- `last:<passkey>:<infohash>:<peer_id>`
abbrev pub last_key : Config → Context → AnnounceRequest → Bytes
last_key cfg ctx req =
    cfg.last_key_prefix
    ++ codes ":"
    ++ passkey_of ctx req
    ++ codes ":"
    ++ format_hex req.info_hash
    ++ codes ":"
    ++ format_hex req.peer.id

abbrev pub counters_or_zero : Result (ℕ × ℕ × ℤ) → ℕ × ℕ × ℤ
counters_or_zero (ok c) = c
counters_or_zero (err e) = (0, 0, pos 0)
counters_or_zero Result.panic = (0, 0, pos 0)

-- In whole seconds.
abbrev pub seconds : ℤ → ℤ
seconds d = quot d 1_000_000_000

abbrev pub attempts : ℤ → ℕ
attempts (pos n) = n
attempts (negsuc n) = 0

module _ {S : Type 0} (server : TrafficServer S) where
  -- The attempts to add an entry, up to the first that succeeds.
  unfoldable pub push : ℕ → S → Bytes → Fields → S
  push zero s stream fields = s
  push (suc n) s stream fields =
      let (s', r) = server.xadd s stream fields in
      elim r [ ok _ ↦ s' | err e ↦ push n s' stream fields | Result.panic ↦ s' ]

module _ (ip_text : Option Bytes → Bytes) where
  unfoldable pub snapshot : ℤ → AnnounceRequest → Bytes → Snapshot
  snapshot now req af = record {
    uploaded = req.uploaded;
    downloaded = req.downloaded;
    port = req.peer.port;
    ip = ip_text req.peer.ip.ip;
    af = af;
    ts = now;
  }

  unfoldable pub entry :
      ℤ → Context → AnnounceRequest → AnnounceResponse → Bytes → Bytes → ℕ × ℕ × ℤ → Fields
  unfolding increment elapsed extra_fields
  entry now ctx req resp af event (last_up, last_down, last_ts) =
      ((codes "passkey", text (passkey_of ctx req))
        ∷ (codes "infohash", text (format_hex req.info_hash))
        ∷ (codes "peer_id", text (format_hex req.peer.id))
        ∷ (codes "port", num req.peer.port)
        ∷ (codes "ip", text (ip_text req.peer.ip.ip))
        ∷ (codes "af", text af)
        ∷ (codes "du", num (increment req.uploaded last_up))
        ∷ (codes "dd", num (increment req.downloaded last_down))
        ∷ (codes "left", num req.left)
        ∷ (codes "event", text event)
        ∷ (codes "ts", int now)
        ∷ (codes "dt", int (elapsed now last_ts))
        ∷ (codes "interval", int (seconds resp.interval))
        ∷ (codes "min_interval", int (seconds resp.min_interval))
        ∷ [])
      ++ extra_fields ctx.payload

  module _ {S : Type 0} (server : TrafficServer S) where
    -- The snapshot is replaced before the entry is added. Errors of the server are only logged.
    unfoldable pub record_traffic :
        Config → S → ℤ → Context → AnnounceRequest → AnnounceResponse → Bytes → Bytes → S
    unfolding push snapshot entry
    record_traffic cfg s now ctx req resp af event =
        let key = last_key cfg ctx req in
        let last = counters_or_zero (server.hmget s key) in
        push server (attempts cfg.retry_count) (server.hmset s key (snapshot now req af)).0
          cfg.stream_key (entry now ctx req resp af event last)

    unfoldable pub push_traffic :
        Config
        → ℤ
        → S
        → Context
        → AnnounceRequest
        → AnnounceResponse
        → S × Result (Context × AnnounceRequest × AnnounceResponse)
    unfolding record_traffic
    push_traffic cfg now s ctx req resp = elim (family_name req.peer.ip.address_family) [
      | err e ↦ (s, panic)
      | Result.panic ↦ (s, panic)
      | ok af ↦ elim (event_string req.event) [
        | err e ↦ (s, panic)
        | Result.panic ↦ (s, panic)
        | ok event ↦ (record_traffic cfg s now ctx req resp af event, ok (ctx, req, resp))
      ]
    ]

    abbrev pub traffic_hook : Config → ℤ → Hook S
    traffic_hook cfg now = record {
      handle_announce = push_traffic cfg now;
      handle_scrape = λ s ctx req resp. (s, ok (ctx, req, resp));
    }
