-- ===== src/Middleware/Passkeys.antt =====
-- The hook that admits announces by their passkey (middleware/passkeyapproval/passkeyapproval.go):
-- its configuration, how it finds the passkey, and the two places that it asks.
--
-- Sealed credentials (AES-GCM and the JSON in them) are the parameter `Sealing`; the Redis server,
-- the HTTP service and the reading of its answer are the parameter `Services`. YAML decoding, the
-- pool of connections and the log are not modelled.
pub mod Base64
pub mod Requests
pub mod Approved
pub mod Users
use chihaya.Base.{
  ℕ, ◌+◌, ◌/◌, ◌==◌, ltb, Bool, true, false, not, ◌&&◌, Bytes, codes, length, take, drop, List, [],
  ◌∷◌, ◌++◌, Option, none, some, ℤ, pos, positive_or, Error, client_error, internal_error, Result,
  ok, err, panic, guard, ◌>>=◌, ◌>>◌, if◌then◌else◌,
}
use chihaya.Bittorrent.{AnnounceRequest, AnnounceResponse}
use chihaya.Bittorrent.Params.{by_name, param_string, or_empty, or_else}
use chihaya.Middleware.{Context, Payload, Hook}
use chihaya.Middleware.Brokers.{Url, check_broker}
use chihaya.Middleware.Passkeys.Base64.{decode_string}
use chihaya.Middleware.Passkeys.Requests.{api_url}

pub record Config : Type 0 where
  pub redis_broker : Bytes
  pub set_key : Bytes
  pub http_url : Bytes
  pub http_timeout : ℤ
  pub http_api_key_header : Bytes
  pub http_api_key : Bytes
  pub cache_ttl_seconds : ℤ
  pub redis_read_timeout : ℤ
  pub redis_write_timeout : ℤ
  pub redis_connect_timeout : ℤ
  pub encryption_key : Bytes

-- `has_pool` says that the pool is not nil; `key` is that of the cipher, if there is one.
pub record PasskeyHook : Type 0 where
  pub cfg : Config
  pub has_pool : Bool
  pub key : Option Bytes

unfoldable pub with_defaults : Config → Config
with_defaults cfg = record cfg {
  set_key = or_else cfg.set_key (codes "pt:passkeys");
  http_timeout = positive_or cfg.http_timeout (pos 5_000_000_000);
  http_api_key_header = or_else cfg.http_api_key_header (codes "X-API-Key");
}

abbrev pub err_encryption_key : Error
err_encryption_key = internal_error (codes "encryption_key must be 32 bytes")

-- The cipher and its mode take every key of 32 bytes.
unfoldable pub read_key : Bytes → Result (Option Bytes)
read_key k =
    if length k == 0
    then ok none
    else if length k == 32
    then ok (some k)
    else err err_encryption_key

unfoldable pub new_hook : (Bytes → Result Url) → Config → Result PasskeyHook
unfolding with_defaults read_key check_broker
new_hook url_parse cfg = do
  let c = with_defaults cfg
  key ← read_key c.encryption_key
  pool ← check_broker url_parse c.redis_broker
  ok (record { cfg = c; has_pool = pool; key = key })

-- A sealed text is opened with the key, its nonce and the rest; what it holds is a payload.
pub record Sealing : Type 0 where
  pub nonce_size : ℕ
  pub open_sealed : Bytes → Bytes → Bytes → Option Bytes
  pub read_payload : Bytes → Option Payload

-- SISMEMBER, SADD and EXPIRE of the server. A request gives a status and a body, or `none` where it
-- cannot be made or fails. `read_valid` is `data.valid` of a body, false where there is none.
pub record Services (S : Type 0) : Type 0 where
  pub sismember : S → Bytes → Bytes → Result Bool
  pub sadd : S → Bytes → Bytes → S × Result (Unit {0})
  pub expire : S → Bytes → ℤ → S × Result (Unit {0})
  pub http_get : S → Bytes → List (Bytes × Bytes) → S × Option (ℕ × Bytes)
  pub read_valid : Bytes → Bool

abbrev pub err_missing_passkey : Error
err_missing_passkey = client_error (codes "missing passkey")

abbrev pub err_unapproved_passkey : Error
err_unapproved_passkey = client_error (codes "unapproved passkey")

abbrev pub err_invalid_passkey : Error
err_invalid_passkey = client_error (codes "invalid passkey")

-- A value of the route, or else that of the query.
unfoldable pub route_or_query : Bytes → Context → AnnounceRequest → Bytes
route_or_query name ctx req =
    or_else (by_name name ctx.route_params) (or_empty (param_string req.params name))

-- Why a text is not opened is only logged.
unfoldable pub decrypt : Sealing → Bytes → Bytes → Option Payload
decrypt sealing key text = elim (decode_string text) [
  | none ↦ none
  | some sealed ↦
      if ltb (length sealed) sealing.nonce_size
      then none
      else elim (sealing.open_sealed key (take sealing.nonce_size sealed)
          (drop sealing.nonce_size sealed)) [
            | none ↦ none
            | some plain ↦ sealing.read_payload plain
          ]
]

-- With a cipher, the credential (or the passkey, which came first) is a sealed payload.
unfoldable pub open_credential :
    Sealing → Bytes → Context → AnnounceRequest → Result (Context × Bytes)
unfolding route_or_query decrypt
open_credential sealing key ctx req =
    let text =
      or_else (route_or_query (codes "credential") ctx req)
        (route_or_query (codes "passkey") ctx req) in
    if length text == 0 then err err_missing_passkey else elim (decrypt sealing key text) [
      | none ↦ err err_invalid_passkey
      | some p ↦ ok (record ctx { payload = some p }, p.passkey)
    ]

-- Without one, the passkey is plain.
unfoldable pub plain_passkey : Context → AnnounceRequest → Result (Context × Bytes)
unfolding route_or_query
plain_passkey ctx req =
    let passkey = route_or_query (codes "passkey") ctx req in
    if length passkey == 0
    then err err_missing_passkey
    else ok (
      record ctx {
        payload = some (record { passkey = passkey; timestamp = pos 0; fd = none; pd = none });
      },
      passkey,
    )

-- The passkey of an announce, and the context with its payload.
unfoldable pub identify :
    Sealing → PasskeyHook → Context → AnnounceRequest → Result (Context × Bytes)
unfolding open_credential plain_passkey
identify sealing h ctx req = elim h.key [
  | some key ↦ open_credential sealing key ctx req
  | none ↦ plain_passkey ctx req
]

abbrev pub is_positive : ℤ → Bool
is_positive (pos n) = ltb 0 n
is_positive (ℤ.negsuc n) = false

abbrev pub is_yes : Result Bool → Bool
is_yes (ok b) = b
is_yes (err e) = false
is_yes Result.panic = false

module _ {S : Type 0} (services : Services S) where
  -- An error of the server is logged and counts as no.
  unfoldable pub in_set : PasskeyHook → S → Bytes → Bool
  in_set h s passkey = h.has_pool && is_yes (services.sismember s h.cfg.set_key passkey)

  -- The whole set gets the lifetime.
  unfoldable pub remember : PasskeyHook → S → Bytes → S
  remember h s passkey =
      if h.has_pool && is_positive h.cfg.cache_ttl_seconds
      then (services.expire (services.sadd s h.cfg.set_key passkey).0 h.cfg.set_key
          h.cfg.cache_ttl_seconds).0
      else s

  abbrev pub headers : Config → List (Bytes × Bytes)
  headers cfg =
      if length cfg.http_api_key == 0 then [] else (cfg.http_api_key_header, cfg.http_api_key) ∷ []

  -- What the service answered.
  unfoldable pub settle : PasskeyHook → Bytes → S × Option (ℕ × Bytes) → S × Bool
  unfolding remember
  settle h passkey (s, none) = (s, false)
  settle h passkey (s, some (status, body)) =
      if (status / 100 == 2) && services.read_valid body
      then (remember h s passkey, true)
      else (s, false)

  unfoldable pub ask_service : PasskeyHook → S → Bytes → S × Bool
  unfolding settle
  ask_service h s passkey =
      if length h.cfg.http_url == 0
      then (s, false)
      else settle h passkey (services.http_get s (api_url h.cfg.http_url passkey) (headers h.cfg))

  -- The set is asked first, the service only where that did not help.
  unfoldable pub check : PasskeyHook → S → Bytes → S × Bool
  unfolding in_set ask_service
  check h s passkey = if in_set h s passkey then (s, true) else ask_service h s passkey

  unfoldable pub approve_passkey :
      Sealing
      → PasskeyHook
      → S
      → Context
      → AnnounceRequest
      → AnnounceResponse
      → S × Result (Context × AnnounceRequest × AnnounceResponse)
  unfolding identify check
  approve_passkey sealing h s ctx req resp = elim (identify sealing h ctx req) [
    | err e ↦ (s, err e)
    | Result.panic ↦ (s, panic)
    | ok (ctx', passkey) ↦
        let (s', approved) = check h s passkey in
        (s', if approved then ok (ctx', req, resp) else err err_unapproved_passkey)
  ]

  abbrev pub passkey_hook : Sealing → PasskeyHook → Hook S
  passkey_hook sealing h = record {
    handle_announce = approve_passkey sealing h;
    handle_scrape = λ s ctx req resp. (s, ok (ctx, req, resp));
  }
