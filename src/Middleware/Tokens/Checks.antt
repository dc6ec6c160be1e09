-- ===== src/Middleware/Tokens/Checks.antt =====
-- Which announces the token hooks of middleware/jwt/jwt.go and
-- middleware/jwtoptional/jwtoptional.go let in.
use chihaya.Base.{
  ◌≡◌, ◌↔◌, ◌⊎◌, inl, inr, refl, ap, true, false, Bytes, bytes_eq_iff, codes, List, Option, none,
  some, Result, ok, err, Bool-cases, Option-cases, format_hex, arith,
}
use chihaya.Base.Dict.{Dict, lookup}
use chihaya.Bittorrent.{AnnounceRequest, AnnounceResponse}
use chihaya.Bittorrent.Params.{param_string}
use chihaya.Middleware.{Context}
use chihaya.Middleware.Tokens.{
  Token, Jose, is_in, is_text, lists, TokenHook, check_signature, check_token, validate_jwt,
  check_request, pass, approve_token, is_required, approve_optional,
}

module _ {K : Type 0} (jose : Jose K) where
  -- A token for an announce of the torrent `ih`, under a configured issuer and audience and a set
  -- of keys: its claims are the ones that are asked for, and a key of the set has signed it.
  pub record IsValidFor (ih issuer audience : Bytes) (keys : Dict K) (text : Bytes) : Type 0 where
    pub token : Token
    pub key_id : Bytes
    pub key : K
    pub audiences : List Bytes
    pub parsed : jose.parse_jwt text ≡ some token
    pub by_issuer : token.issuer ≡ some issuer
    pub for_audiences : token.audience ≡ some audiences
    pub for_us : is_in audience audiences ≡ true
    pub for_torrent : token.infohash ≡ some (format_hex ih)
    pub names_key : token.kid ≡ some key_id
    pub key_known : lookup key_id keys ≡ some key
    pub signed : jose.verify text key ≡ true

  is_text-some : (x : Bytes) (o : Option Bytes) → is_text x o ≡ true → o ≡ some x
  is_text-some x none h = cc
  is_text-some x (some y) h = ap some ((bytes_eq_iff y x).0 h)

  lists-some :
      (x : Bytes) (o : Option (List Bytes))
      → lists x o ≡ true
      → (ys : List Bytes) × (o ≡ some ys) × (is_in x ys ≡ true)
  lists-some x none h = cc
  lists-some x (some ys) h = (ys, refl, h)

  check_signature-none :
      (text : Bytes) (kid : Option Bytes) (keys : Dict K)
      → check_signature jose text kid keys ≡ none
      → (id : Bytes) × (key : K) × (kid ≡ some id)
        × (lookup id keys ≡ some key)
        × (jose.verify text key ≡ true)
  unfolding check_signature
  check_signature-none text none keys h = cc
  check_signature-none text (some id) keys h = elim (Option-cases (lookup id keys)) [
    | inl e ↦ absurd (ground arith)
    | inr (key, e) ↦ (id, key, refl, e, ground arith)
  ]

  pub validate_jwt-IsValidFor :
      (ih text issuer audience : Bytes) (keys : Dict K)
      → validate_jwt jose ih text issuer audience keys ≡ none
      → IsValidFor ih issuer audience keys text
  unfolding validate_jwt check_token
  validate_jwt-IsValidFor ih text issuer audience keys h =
      elim (Option-cases (jose.parse_jwt text)) [
        | inl e ↦ absurd (ground arith)
        | inr (token, e) ↦
            let a : is_text issuer token.issuer ≡ true = ground arith in
            let b : lists audience token.audience ≡ true = ground arith in
            let c : is_text (format_hex ih) token.infohash ≡ true = ground arith in
            let s : check_signature jose text token.kid keys ≡ none = ground arith in
            let (ys, f, g) = lists-some audience token.audience b in
            let (id, key, p, q, r) = check_signature-none text token.kid keys s in
            record {
              token = token;
              key_id = id;
              key = key;
              audiences = ys;
              parsed = e;
              by_issuer = is_text-some issuer token.issuer a;
              for_audiences = f;
              for_us = g;
              for_torrent = is_text-some (format_hex ih) token.infohash c;
              names_key = p;
              key_known = q;
              signed = r;
            }
      ]

  pub IsValidFor-validate_jwt :
      (ih text issuer audience : Bytes) (keys : Dict K)
      → IsValidFor ih issuer audience keys text
      → validate_jwt jose ih text issuer audience keys ≡ none
  unfolding validate_jwt check_token check_signature
  IsValidFor-validate_jwt ih text issuer audience keys v =
      ground (arith, bytes_eq_iff issuer issuer, bytes_eq_iff (format_hex ih) (format_hex ih))

  -- The query of the announce has a token that is valid for it.
  abbrev pub HasToken : TokenHook K → AnnounceRequest → Type 0
  HasToken h req =
      (text : Bytes) × (param_string req.params (codes "jwt") ≡ some text)
      × IsValidFor req.info_hash h.cfg.issuer h.cfg.audience h.public_keys text

  check_request-HasToken :
      (h : TokenHook K) (req : AnnounceRequest) → check_request jose h req ≡ ok tt → HasToken h req
  unfolding check_request
  check_request-HasToken h req e = elim (Option-cases (param_string req.params (codes "jwt"))) [
    | inl f ↦ absurd (ground arith)
    | inr (text, f) ↦ (
      text,
      f,
      validate_jwt-IsValidFor req.info_hash text h.cfg.issuer h.cfg.audience h.public_keys
          (ground arith),
    )
  ]

  HasToken-check_request :
      (h : TokenHook K) (req : AnnounceRequest) → HasToken h req → check_request jose h req ≡ ok tt
  unfolding check_request
  HasToken-check_request h req (text, f, v) =
      let e =
        IsValidFor-validate_jwt req.info_hash text h.cfg.issuer h.cfg.audience h.public_keys v in
      ground arith

  module _ {S : Type 0} where
    pass-ok :
        (s : S) (ctx : Context) (req : AnnounceRequest) (resp : AnnounceResponse)
        (r : Result (Unit {0}))
        → pass jose s ctx req resp r ≡ (s, ok (ctx, req, resp))
        → r ≡ ok tt
    pass-ok s ctx req resp (ok tt) e = refl
    pass-ok s ctx req resp (err why) e = cc
    pass-ok s ctx req resp Result.panic e = cc

    -- The hook passes an announce on, unchanged, exactly if its query has a token whose issuer,
    -- audience and infohash are the configured ones and that of the announce, and whose signature
    -- verifies with the key of its `kid` among the current keys.
    pub approve_token-HasToken :
        (h : TokenHook K) (s : S) (ctx : Context) (req : AnnounceRequest) (resp : AnnounceResponse)
        → (approve_token jose h s ctx req resp ≡ (s, ok (ctx, req, resp))) ↔ HasToken h req
    unfolding approve_token
    approve_token-HasToken h s ctx req resp = (
      λ e. check_request-HasToken h req (pass-ok s ctx req resp (check_request jose h req) e),
      λ t. ap (pass jose s ctx req resp) (HasToken-check_request h req t),
    )

    -- The optional hook passes an announce on, unchanged, exactly if the configuration asks no token
    -- of such a peer, a seeder or a leecher, or the announce has a valid one.
    pub approve_optional-HasToken :
        (h : TokenHook K) (s : S) (ctx : Context) (req : AnnounceRequest) (resp : AnnounceResponse)
        → ((approve_optional jose h s ctx req resp ≡ (s, ok (ctx, req, resp)))
            → (is_required h.cfg req ≡ false) ⊎ HasToken h req)
          × ((is_required h.cfg req ≡ false) ⊎ HasToken h req
              → approve_optional jose h s ctx req resp ≡ (s, ok (ctx, req, resp)))
    unfolding approve_optional
    approve_optional-HasToken h s ctx req resp = elim (Bool-cases (is_required h.cfg req)) [
      | inl e ↦ rw e (
        λ p.
            inr
              (check_request-HasToken h req (pass-ok s ctx req resp (check_request jose h req) p)),
        λ t. elim t [
          | inl f ↦ cc
          | inr v ↦ ap (pass jose s ctx req resp) (HasToken-check_request h req v)
        ],
      )
      | inr e ↦ rw e (λ p. inl refl, λ t. refl)
    ]
