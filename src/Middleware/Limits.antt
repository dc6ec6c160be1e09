-- ===== src/Middleware/Limits.antt =====
-- The hook that lets one peer of a user announce a torrent (middleware/peerlimit/peerlimit.go).
--
-- The Redis server is not part of the program: it is the interface `SetServer` on the shared state,
-- with its documented behaviour as laws. YAML decoding, the pool of connections and the log are not
-- modelled.
pub mod Uniqueness
use chihaya.Base.{
  ℕ, ℤ, pos, positive_or, ◌==◌, ◌≡◌, Bool, true, false, not, ◌&&◌, Bytes, bytes_eq, codes, length,
  List, [], ◌∷◌, ◌++◌, Option, none, some, Error, client_error, Result, ok, err, panic, format_hex,
  quot, if◌then◌else◌, ◌>>=◌,
}
use chihaya.Bittorrent.{Event, stopped, AnnounceRequest, AnnounceResponse}
use chihaya.Bittorrent.Params.{by_name, param_string, or_empty, or_else}
use chihaya.Middleware.Brokers.{Url, check_broker}
use chihaya.Middleware.{Context, Payload, Hook}

pub record Config : Type 0 where
  pub redis_broker : Bytes
  pub limit_key_prefix : Bytes
  pub peer_lifetime : ℤ

unfoldable pub with_defaults : Config → Config
with_defaults cfg = record cfg {
  limit_key_prefix =
      if length cfg.limit_key_prefix == 0 then codes "tracker:limit" else cfg.limit_key_prefix;
  peer_lifetime = positive_or cfg.peer_lifetime (pos 1_800_000_000_000);
}

-- The configuration that the hook keeps. It has a pool if there is a broker.
unfoldable pub new_hook : (Bytes → Result Url) → Config → Result Config
unfolding with_defaults check_broker
new_hook url_parse cfg = do
  let c = with_defaults cfg
  _ ← check_broker url_parse c.redis_broker
  ok c

-- SREM, SMEMBERS, and SADD with EXPIRE between MULTI and EXEC.
pub record SetServer (S : Type 0) : Type 0 where
  pub srem : S → Bytes → Bytes → S × Result (Unit {0})
  pub smembers : S → Bytes → Result (List Bytes)
  pub sadd : S → Bytes → Bytes → ℤ → S × Result (Unit {0})

abbrev pub err_limit_reached : Error
err_limit_reached = client_error (codes "connection limit reached for this torrent")

abbrev pub payload_passkey : Option Payload → Bytes
payload_passkey none = []
payload_passkey (some p) = p.passkey

-- The passkey that an earlier hook found, or that of the route, or that of the query.
unfoldable pub passkey_of : Context → AnnounceRequest → Bytes
passkey_of ctx req = or_else (payload_passkey ctx.payload) (
    or_else (by_name (codes "passkey") ctx.route_params)
      (or_empty (param_string req.params (codes "passkey"))))

-- `tracker:limit:<passkey>:<infohash>`
abbrev pub limit_key : Config → Bytes → Bytes → Bytes
limit_key cfg passkey ih =
    cfg.limit_key_prefix ++ codes ":" ++ passkey ++ codes ":" ++ format_hex ih

-- The loop over the members.
unfoldable pub other_member : Bytes → List Bytes → Bool
other_member id [] = false
other_member id (m ∷ ms) = if bytes_eq m id then other_member id ms else true

abbrev pub is_stopped : Event → Bool
is_stopped stopped = true
is_stopped _ = false

module _ {S : Type 0} (server : SetServer S) where
  -- What the server replies to a change is only logged.
  unfoldable pub limit_announce :
      Config
      → S
      → Context
      → AnnounceRequest
      → AnnounceResponse
      → S × Result (Context × AnnounceRequest × AnnounceResponse)
  unfolding other_member
  limit_announce cfg s ctx req resp =
      let passkey = passkey_of ctx req in
      let key = limit_key cfg passkey req.info_hash in
      let id = format_hex req.peer.id in
      if length cfg.redis_broker == 0
      then (s, ok (ctx, req, resp))
      else if length passkey == 0
      then (s, ok (ctx, req, resp))
      else if is_stopped req.event
      then ((server.srem s key id).0, ok (ctx, req, resp))
      else elim (server.smembers s key) [
        | err e ↦ (s, ok (ctx, req, resp))
        | Result.panic ↦ (s, panic)
        | ok members ↦ if other_member id members then (s, err err_limit_reached) else (
          (server.sadd s key id (quot cfg.peer_lifetime 1_000_000_000)).0,
          ok (ctx, req, resp),
        )
      ]

  abbrev pub limit_hook : Config → Hook S
  limit_hook cfg = record {
    handle_announce = limit_announce cfg;
    handle_scrape = λ s ctx req resp. (s, ok (ctx, req, resp));
  }
