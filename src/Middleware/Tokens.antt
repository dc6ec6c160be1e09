-- ===== src/Middleware/Tokens.antt =====
-- The hooks that ask for a JSON Web Token (middleware/jwt/jwt.go and
-- middleware/jwtoptional/jwtoptional.go). The two packages have the key rotation, the checks and
-- `Stop` twice; they are one definition here.
--
-- The library that reads and verifies tokens and keys is the parameter `Jose`; what a fetch of the
-- key set gives is an argument. YAML decoding, the timer of the refresh and the log are not
-- modelled.
pub mod Checks
pub mod Rotation
use chihaya.Base.{
  ℕ, ◌+◌, ◌==◌, Bool, true, false, not, ◌&&◌, ◌||◌, Bytes, bytes_eq, codes, List, [], ◌∷◌, Option,
  none, some, is_some, ℤ, Error, client_error, internal_error, Result, ok, err, panic, format_hex,
  if◌then◌else◌,
}
use chihaya.Base.Dict.{Dict, lookup, insert}
use chihaya.Bittorrent.{Event, completed, AnnounceRequest, AnnounceResponse}
use chihaya.Bittorrent.Params.{param_string}
use chihaya.Middleware.{Context, Hook}

-- The two switches are those of the optional hook.
pub record Config : Type 0 where
  pub issuer : Bytes
  pub audience : Bytes
  pub jwk_set_url : Bytes
  pub jwk_update_interval : ℤ
  pub require_for_seeder : Bool
  pub require_for_leecher : Bool

-- What is read of a parsed token: three claims, and the `kid` of its protected header. `none`
-- stands for one that is missing or of another type.
pub record Token : Type 0 where
  pub issuer : Option Bytes
  pub audience : Option (List Bytes)
  pub infohash : Option Bytes
  pub kid : Option Bytes

-- `verify` is RS256 over the text of a token.
pub record Jose (K : Type 0) : Type 0 where
  pub parse_jwt : Bytes → Option Token
  pub verify : Bytes → K → Bool

-- Why a token is refused; it is only logged.
pub data TokenError : Type 0 where
  not_parsed invalid_issuer invalid_audience invalid_infohash : TokenError
  invalid_kid unknown_kid not_verified : TokenError

abbrev pub err_missing_jwt : Error
err_missing_jwt = client_error (codes "unapproved request: missing jwt")

abbrev pub err_invalid_jwt : Error
err_invalid_jwt = client_error (codes "unapproved request: invalid jwt")

-- The text of the cause behind it is left out.
abbrev pub err_initial_fetch : Error
err_initial_fetch = internal_error (codes "failed to fetch initial JWK Set: ")

-- `in`
unfoldable pub is_in : Bytes → List Bytes → Bool
is_in x [] = false
is_in x (y ∷ ys) = bytes_eq x y || is_in x ys

abbrev pub is_text : Bytes → Option Bytes → Bool
is_text x none = false
is_text x (some y) = bytes_eq y x

abbrev pub lists : Bytes → Option (List Bytes) → Bool
lists x none = false
lists x (some ys) = is_in x ys

-- The fields of a JWK: its `kid`, and the public key if it can be decoded.
abbrev pub Jwk : Type 0 → Type 0
Jwk K = Bytes × Option K

abbrev pub is_completed : Event → Bool
is_completed completed = true
is_completed _ = false

-- A peer seeds if it has nothing left or says that it completed.
unfoldable pub is_required : Config → AnnounceRequest → Bool
is_required cfg req =
    let seeding = (req.left == 0) || is_completed req.event in
    (seeding && cfg.require_for_seeder) || (not seeding && cfg.require_for_leecher)

pub record TokenHook (K : Type 0) : Type 0 where
  pub cfg : Config
  pub public_keys : Dict K

module _ {K : Type 0} where
  -- The loop over the keys; the first that cannot be decoded ends it.
  unfoldable pub read_keys : List (Jwk K) → Dict K → Option (Dict K)
  read_keys [] keys = some keys
  read_keys ((kid, none) ∷ jwks) keys = none
  read_keys ((kid, some key) ∷ jwks) keys = read_keys jwks (insert kid key keys)

  -- `none` for a set that could not be fetched or decoded.
  unfoldable pub fetched_keys : Option (List (Jwk K)) → Option (Dict K)
  unfolding read_keys
  fetched_keys none = none
  fetched_keys (some jwks) = read_keys jwks []

  -- The keys are replaced as a whole or not at all.
  unfoldable pub update_keys : TokenHook K → Option (List (Jwk K)) → TokenHook K × Bool
  unfolding fetched_keys
  update_keys h reply = elim (fetched_keys reply) [
    | none ↦ (h, false)
    | some keys ↦ (record h { public_keys = keys }, true)
  ]

  -- `NewHook` of middleware/jwt.
  unfoldable pub new_hook : Config → Option (List (Jwk K)) → Result (TokenHook K)
  unfolding update_keys
  new_hook cfg reply =
      let (h, done) = update_keys (record { cfg = cfg; public_keys = [] }) reply in
      if done then ok h else err err_initial_fetch

  -- `NewHook` of middleware/jwtoptional, which gives the error of a first fetch that fails, `cause`, as
  -- it is.
  unfoldable pub new_optional_hook : Config → Error → Option (List (Jwk K)) → Result (TokenHook K)
  unfolding update_keys
  new_optional_hook cfg cause reply =
      let (h, done) = update_keys (record { cfg = cfg; public_keys = [] }) reply in
      if done then ok h else err cause

  -- The refreshes, with what each of them fetched. Their errors are only logged.
  unfoldable pub refresh : TokenHook K → List (Option (List (Jwk K))) → TokenHook K
  unfolding update_keys
  refresh h [] = h
  refresh h (reply ∷ replies) = refresh (update_keys h reply).0 replies

  module _ (jose : Jose K) where
    -- The key that the token names, and its signature.
    unfoldable pub check_signature : Bytes → Option Bytes → Dict K → Option TokenError
    check_signature text none keys = some invalid_kid
    check_signature text (some kid) keys = elim (lookup kid keys) [
      | none ↦ some unknown_kid
      | some key ↦ if jose.verify text key then none else some not_verified
    ]

    unfoldable pub check_token : Bytes → Bytes → Bytes → Bytes → Dict K → Token → Option TokenError
    unfolding check_signature is_in
    check_token ih text issuer audience keys token =
        if not (is_text issuer token.issuer)
        then some invalid_issuer
        else if not (lists audience token.audience)
        then some invalid_audience
        else if not (is_text (format_hex ih) token.infohash)
        then some invalid_infohash
        else check_signature text token.kid keys

    -- `none` for a token that is valid.
    unfoldable pub validate_jwt : Bytes → Bytes → Bytes → Bytes → Dict K → Option TokenError
    unfolding check_token
    validate_jwt ih text issuer audience keys = elim (jose.parse_jwt text) [
      | none ↦ some not_parsed
      | some token ↦ check_token ih text issuer audience keys token
    ]

    unfoldable pub check_request : TokenHook K → AnnounceRequest → Result (Unit {0})
    unfolding validate_jwt
    check_request h req = elim (param_string req.params (codes "jwt")) [
      | none ↦ err err_missing_jwt
      | some text ↦
          elim (validate_jwt req.info_hash text h.cfg.issuer h.cfg.audience h.public_keys) [
            | none ↦ ok tt
            | some why ↦ err err_invalid_jwt
          ]
    ]

    abbrev pub pass :
        {S : Type 0}
        → S
        → Context
        → AnnounceRequest
        → AnnounceResponse
        → Result (Unit {0})
        → S × Result (Context × AnnounceRequest × AnnounceResponse)
    pass s ctx req resp (ok _) = (s, ok (ctx, req, resp))
    pass s ctx req resp (err e) = (s, err e)
    pass s ctx req resp Result.panic = (s, panic)

    -- `HandleAnnounce` of middleware/jwt.
    unfoldable pub approve_token :
        {S : Type 0}
        → TokenHook K
        → S
        → Context
        → AnnounceRequest
        → AnnounceResponse
        → S × Result (Context × AnnounceRequest × AnnounceResponse)
    unfolding check_request
    approve_token h s ctx req resp = pass s ctx req resp (check_request h req)

    -- `HandleAnnounce` of middleware/jwtoptional.
    unfoldable pub approve_optional :
        {S : Type 0}
        → TokenHook K
        → S
        → Context
        → AnnounceRequest
        → AnnounceResponse
        → S × Result (Context × AnnounceRequest × AnnounceResponse)
    unfolding check_request is_required
    approve_optional h s ctx req resp =
        if is_required h.cfg req
        then pass s ctx req resp (check_request h req)
        else (s, ok (ctx, req, resp))

    -- Scrapes don't require any protection.
    abbrev pub token_hook : {S : Type 0} → TokenHook K → Hook S
    token_hook h = record {
      handle_announce = approve_token h;
      handle_scrape = λ s ctx req resp. (s, ok (ctx, req, resp));
    }

    abbrev pub optional_hook : {S : Type 0} → TokenHook K → Hook S
    optional_hook h = record {
      handle_announce = approve_optional h;
      handle_scrape = λ s ctx req resp. (s, ok (ctx, req, resp));
    }
