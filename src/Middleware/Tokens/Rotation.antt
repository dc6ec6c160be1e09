-- ===== src/Middleware/Tokens/Rotation.antt =====
-- The rotation of keys in middleware/jwt/jwt.go and middleware/jwtoptional/jwtoptional.go.
use chihaya.Base.{
  ◌≡◌, ◌⊎◌, inl, inr, refl, ap, subst, ◌∙◌, true, Bytes, bytes_eq, bytes_eq_iff, codes, List, [],
  ◌∷◌, ◌++◌, Option, none, some, ok, Bool-cases, arith,
}
use chihaya.Base.Dict.{Dict, lookup, insert, lookup-insert}
use chihaya.Bittorrent.{AnnounceRequest, AnnounceResponse}
use chihaya.Bittorrent.Params.{param_string}
use chihaya.Middleware.{Context}
use chihaya.Middleware.Tokens.{
  Token, Jose, Jwk, TokenHook, read_keys, fetched_keys, update_keys, refresh, approve_token,
}
use chihaya.Middleware.Tokens.Checks.{approve_token-HasToken}

module _ {K : Type 0} where
  -- The key stands in the list under the name.
  abbrev pub IsListed : Bytes → K → List (Jwk K) → Type 0
  IsListed kid key [] = ⊥
  IsListed kid key ((j, k) ∷ jwks) = ((j ≡ kid) × (k ≡ some key)) ⊎ IsListed kid key jwks

  read_keys-IsListed :
      (jwks : List (Jwk K)) (before keys : Dict K) (kid : Bytes) (key : K)
      → read_keys jwks before ≡ some keys
      → lookup kid keys ≡ some key
      → IsListed kid key jwks ⊎ (lookup kid before ≡ some key)
  unfolding read_keys
  read_keys-IsListed [] before keys kid key e l = inr (ground arith)
  read_keys-IsListed ((j, none) ∷ jwks) before keys kid key e l = cc
  read_keys-IsListed ((j, some k) ∷ jwks) before keys kid key e l =
      elim (read_keys-IsListed jwks (insert j k before) keys kid key e l) [
        | inl there ↦ inl (inr there)
        | inr here ↦ elim (Bool-cases (bytes_eq j kid)) [
          | inl same ↦
              inl (inl ((bytes_eq_iff j kid).0 same, ground (arith, lookup-insert j kid k before)))
          | inr other ↦ inr (ground (arith, lookup-insert j kid k before))
        ]
      ]

  -- The set could not be fetched, or has a key that cannot be decoded.
  abbrev pub AllIncomplete : List (Option (List (Jwk K))) → Type 0
  AllIncomplete [] = Unit {0}
  AllIncomplete (r ∷ rs) = (fetched_keys r ≡ none) × AllIncomplete rs

  refresh-append :
      (h : TokenHook K) (rs more : List (Option (List (Jwk K))))
      → refresh h (rs ++ more) ≡ refresh (refresh h rs) more
  unfolding refresh
  refresh-append h [] more = refl
  refresh-append h (r ∷ rs) more = refresh-append (update_keys h r).0 rs more

  refresh_incomplete :
      (h : TokenHook K) (rs : List (Option (List (Jwk K)))) → AllIncomplete rs → refresh h rs ≡ h
  unfolding refresh
  refresh_incomplete h [] a = refl
  refresh_incomplete h (r ∷ rs) (e, a) =
      let same : (update_keys h r).0 ≡ h = rw (e, update_keys) in
      ap (λ x. refresh x rs) same ∙ refresh_incomplete h rs a

  refresh_complete :
      (h : TokenHook K) (r : Option (List (Jwk K))) (rs : List (Option (List (Jwk K))))
      (keys : Dict K)
      → fetched_keys r ≡ some keys
      → AllIncomplete rs
      → refresh h (r ∷ rs) ≡ record h { public_keys = keys }
  unfolding refresh
  refresh_complete h r rs keys e a =
      let new : (update_keys h r).0 ≡ record h { public_keys = keys } = rw (e, update_keys) in
      ap (λ x. refresh x rs) new ∙ refresh_incomplete (record h { public_keys = keys }) rs a

  refresh_last :
      (h : TokenHook K) (before after : List (Option (List (Jwk K)))) (r : Option (List (Jwk K)))
      (keys : Dict K)
      → fetched_keys r ≡ some keys
      → AllIncomplete after
      → (refresh h (before ++ r ∷ after)).public_keys ≡ keys
  refresh_last h before after r keys e a =
      ap (λ (x : TokenHook K). x.public_keys)
        (refresh-append h before (r ∷ after) ∙ refresh_complete (refresh h before) r after keys e a)

  -- After any refreshes, a complete set, and others that fail or have a key that cannot be decoded, an
  -- announce is let in only with a token that is signed by a key that stands in that set under the
  -- token's `kid`: keys of earlier sets are gone, and a failed refresh takes none away.
  pub approve_token-rotated :
      {S : Type 0} (jose : Jose K) (h : TokenHook K) (before after : List (Option (List (Jwk K))))
      (jwks : List (Jwk K)) (keys : Dict K) (s : S) (ctx : Context) (req : AnnounceRequest)
      (resp : AnnounceResponse)
      → fetched_keys (some jwks) ≡ some keys
      → AllIncomplete after
      → let h' = refresh h (before ++ some jwks ∷ after) in
        approve_token jose h' s ctx req resp ≡ (s, ok (ctx, req, resp))
        → (h'.public_keys ≡ keys)
          × ((text : Bytes) × (token : Token) × (kid : Bytes) × (key : K) × (param_string req.params
                  (codes "jwt")
                ≡ some text)
              × (jose.parse_jwt text ≡ some token)
              × (token.kid ≡ some kid)
              × (jose.verify text key ≡ true)
              × IsListed kid key jwks)
  approve_token-rotated jose h before after jwks keys s ctx req resp e a let_in =
      let h' = refresh h (before ++ some jwks ∷ after) in
      let last = refresh_last h before after (some jwks) keys e a in
      let (text, p, v) = (approve_token-HasToken jose h' s ctx req resp).0 let_in in
      let known : lookup v.key_id keys ≡ some v.key =
        subst (λ ks. lookup v.key_id ks ≡ some v.key) last v.key_known in
      (
        last,
        (
          text,
          v.token,
          v.key_id,
          v.key,
          p,
          v.parsed,
          v.names_key,
          v.signed,
          elim (read_keys-IsListed jwks [] keys v.key_id v.key (unfold fetched_keys in e) known) [
            | inl there ↦ there
            | inr none_before ↦ absurd (unfold lookup in cc)
          ],
        ),
      )
