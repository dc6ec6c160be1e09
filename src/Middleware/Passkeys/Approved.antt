-- ===== src/Middleware/Passkeys/Approved.antt =====
-- What the set of middleware/passkeyapproval/passkeyapproval.go remembers.
use chihaya.Base.{
  ℕ, ℤ, ◌/◌, ◌==◌, ◌≡◌, refl, sym, ap, ◌∙◌, Bool, true, false, not, ◌&&◌, ◌||◌, Bytes, bytes_eq,
  bytes_eq_refl, length, List, [], Option, none, some, ok, err, inl, inr, ◌∷◌, Result-cases,
  Bool-cases, if◌then◌else◌, arith,
}
use chihaya.Bittorrent.{AnnounceRequest, AnnounceResponse}
use chihaya.Middleware.{Context}
use chihaya.Middleware.Passkeys.{
  PasskeyHook, Sealing, Services, err_unapproved_passkey, identify, is_positive, in_set, remember,
  headers, settle, ask_service, check, approve_passkey,
}
use chihaya.Middleware.Passkeys.Requests.{api_url}

-- A server that answers, while its sets do not expire, and a service that leaves them alone.
pub record Laws {S : Type 0} (services : Services S) : Type 0 where
  pub has : S → Bytes → Bytes → Bool
  pub sismember_has : (s : S) (k m : Bytes) → services.sismember s k m ≡ ok (has s k m)
  pub sadd_has :
      (s : S) (k m j n : Bytes)
      → has (services.sadd s k m).0 j n ≡ (if bytes_eq k j && bytes_eq m n then true else has s j n)
  pub expire_has :
      (s : S) (k : Bytes) (t : ℤ) (j n : Bytes) → has (services.expire s k t).0 j n ≡ has s j n
  pub http_get_has :
      (s : S) (url : Bytes) (hs : List (Bytes × Bytes)) (j n : Bytes)
      → has (services.http_get s url hs).0 j n ≡ has s j n

module _ {S : Type 0} (services : Services S) (laws : Laws services) where
  open laws use {has, sismember_has, sadd_has, expire_has, http_get_has}

  -- The service says yes: the answer to the request has a status of 200 to 299 and a valid body.
  abbrev pub is_valid_reply : Option (ℕ × Bytes) → Bool
  is_valid_reply none = false
  is_valid_reply (some (status, body)) = (status / 100 == 2) && services.read_valid body

  abbrev pub service_says : PasskeyHook → S → Bytes → Bool
  service_says h s passkey =
      not (length h.cfg.http_url == 0)
      && is_valid_reply
          (services.http_get s (api_url h.cfg.http_url passkey) (headers services h.cfg)).1

  -- What the set holds is what counts, if there is a server.
  abbrev pub is_known : PasskeyHook → S → Bytes → Bool
  is_known h s passkey = h.has_pool && has s h.cfg.set_key passkey

  abbrev pub keeps : PasskeyHook → Bool
  keeps h = h.has_pool && is_positive h.cfg.cache_ttl_seconds

  in_set-eq : (h : PasskeyHook) (s : S) (m : Bytes) → in_set services h s m ≡ is_known h s m
  unfolding in_set
  in_set-eq h s m = rw (sismember_has s h.cfg.set_key m)

  remember-has :
      (h : PasskeyHook) (s : S) (m j n : Bytes)
      → has (remember services h s m) j n
        ≡ (if keeps h && (bytes_eq h.cfg.set_key j && bytes_eq m n) then true else has s j n)
  unfolding remember
  remember-has h s m j n = elim (Bool-cases (keeps h)) [
    | inl e ↦ rw e (
        expire_has (services.sadd s h.cfg.set_key m).0 h.cfg.set_key h.cfg.cache_ttl_seconds j n
        ∙ sadd_has s h.cfg.set_key m j n)
    | inr e ↦ rw e
  ]

  settle_lem :
      (h : PasskeyHook) (m : Bytes) (o : S × Option (ℕ × Bytes)) (j n : Bytes)
      → ((settle services h m o).1 ≡ is_valid_reply o.1)
        × (has (settle services h m o).0 j n ≡ (
            if is_valid_reply o.1 && (keeps h && (bytes_eq h.cfg.set_key j && bytes_eq m n))
            then true
            else has o.0 j n))
  unfolding settle
  settle_lem h m (s, none) j n = (refl, refl)
  settle_lem h m (s, some (status, body)) j n =
      elim (Bool-cases ((status / 100 == 2) && services.read_valid body)) [
        | inl e ↦ rw e (refl, remember-has h s m j n)
        | inr e ↦ rw e (refl, refl)
      ]

  ask_service_lem :
      (h : PasskeyHook) (s : S) (m j n : Bytes)
      → ((ask_service services h s m).1 ≡ service_says h s m)
        × (has (ask_service services h s m).0 j n ≡ (
            if service_says h s m && (keeps h && (bytes_eq h.cfg.set_key j && bytes_eq m n))
            then true
            else has s j n))
  unfolding ask_service
  ask_service_lem h s m j n = elim (Bool-cases (length h.cfg.http_url == 0)) [
    | inl e ↦ rw e (refl, refl)
    | inr e ↦
        let url = api_url h.cfg.http_url m in
        let (a, b) = settle_lem h m (services.http_get s url (headers services h.cfg)) j n in
        rw e (a, rw (← http_get_has s url (headers services h.cfg) j n) b)
  ]

  -- What `check` adds to the sets.
  abbrev pub learns : PasskeyHook → S → Bytes → Bytes → Bytes → Bool
  learns h s m j n =
      not (is_known h s m)
      && (service_says h s m && (keeps h && (bytes_eq h.cfg.set_key j && bytes_eq m n)))

  check_lem :
      (h : PasskeyHook) (s : S) (m j n : Bytes)
      → ((check services h s m).1 ≡ (is_known h s m || service_says h s m))
        × (has (check services h s m).0 j n ≡ (if learns h s m j n then true else has s j n))
  unfolding check
  check_lem h s m j n = elim (Bool-cases (is_known h s m)) [
    | inl e ↦ rw (in_set-eq h s m, e) (refl, refl)
    | inr e ↦ rw (in_set-eq h s m, e) (ask_service_lem h s m j n)
  ]

  approve_passkey-check :
      (sealing : Sealing) (h : PasskeyHook) (s : S) (ctx ctx' : Context) (req : AnnounceRequest)
      (resp : AnnounceResponse) (m : Bytes)
      → identify sealing h ctx req ≡ ok (ctx', m)
      → approve_passkey services sealing h s ctx req resp ≡ (
        (check services h s m).0,
        (if (check services h s m).1 then ok (ctx', req, resp) else err err_unapproved_passkey),
      )
  unfolding approve_passkey
  approve_passkey-check sealing h s ctx ctx' req resp m e = rw (e, approve_passkey)

  -- An announce with a passkey is passed on, with the payload in its context, exactly if the server
  -- has the passkey in the set or the service says that it is valid, and is refused as "unapproved
  -- passkey" otherwise. It adds that passkey to the set if the service had to be asked, said yes, and
  -- the configuration has a broker and a lifetime above zero; nothing else in any set changes. The
  -- server answers, its sets do not expire meanwhile, and the service leaves them alone.
  pub approve_passkey-effect :
      (sealing : Sealing) (h : PasskeyHook) (s : S) (ctx ctx' : Context) (req : AnnounceRequest)
      (resp : AnnounceResponse) (m j n : Bytes)
      → identify sealing h ctx req ≡ ok (ctx', m)
      → let r = approve_passkey services sealing h s ctx req resp in
        (r.1 ≡ (
          if is_known h s m || service_says h s m
          then ok (ctx', req, resp)
          else err err_unapproved_passkey))
        × (has r.0 j n ≡ (if learns h s m j n then true else has s j n))
  approve_passkey-effect sealing h s ctx ctx' req resp m j n e =
      let (a, b) = check_lem h s m j n in
      rw (approve_passkey-check sealing h s ctx ctx' req resp m e)
        (ap (λ x. if x then ok (ctx', req, resp) else err err_unapproved_passkey) a, b)

  known_after :
      (h : PasskeyHook) (s : S) (m : Bytes)
      → keeps h ≡ true
      → (is_known h s m || service_says h s m) ≡ true
      → is_known h (check services h s m).0 m ≡ true
  known_after h s m k e =
      ground
        (arith, (check_lem h s m h.cfg.set_key m).1, bytes_eq_refl h.cfg.set_key, bytes_eq_refl m)

  check_known :
      (h : PasskeyHook) (s : S) (m : Bytes)
      → is_known h s m ≡ true
      → check services h s m ≡ (s, true)
  unfolding check
  check_known h s m e = rw (in_set-eq h s m, e)

  passed_on :
      {A : Type 0} (b : Bool) (a : A)
      → (if b then ok a else err err_unapproved_passkey) ≡ ok a
      → b ≡ true
  passed_on true a e = refl
  passed_on false a e = cc

  -- An announce as it comes to the hook.
  abbrev pub Arrival : Type 0
  Arrival = Context × AnnounceRequest × AnnounceResponse

  -- The state when the hook has handled some announces, whatever it made of them.
  abbrev pub after_all : Sealing → PasskeyHook → List Arrival → S → S
  after_all sealing h [] s = s
  after_all sealing h ((ctx, req, resp) ∷ more) s =
      after_all sealing h more (approve_passkey services sealing h s ctx req resp).0

  check-keeps :
      (h : PasskeyHook) (s : S) (asked m : Bytes)
      → is_known h s m ≡ true
      → is_known h (check services h s asked).0 m ≡ true
  check-keeps h s asked m k = elim (Bool-cases (learns h s asked h.cfg.set_key m)) [
    | inl e ↦ ground (arith, (check_lem h s asked h.cfg.set_key m).1)
    | inr e ↦ ground (arith, (check_lem h s asked h.cfg.set_key m).1)
  ]

  -- No announce takes anybody out of a set.
  approve_passkey-keeps :
      (sealing : Sealing) (h : PasskeyHook) (s : S) (ctx : Context) (req : AnnounceRequest)
      (resp : AnnounceResponse) (m : Bytes)
      → is_known h s m ≡ true
      → is_known h (approve_passkey services sealing h s ctx req resp).0 m ≡ true
  unfolding approve_passkey
  approve_passkey-keeps sealing h s ctx req resp m k =
      elim (Result-cases (identify sealing h ctx req)) [
        | inl (x, e) ↦ rw (e, approve_passkey) (check-keeps h s x.1 m k)
        | inr (inl (x, e)) ↦ rw (e, approve_passkey) k
        | inr (inr e) ↦ rw (e, approve_passkey) k
      ]

  after_all-keeps :
      (sealing : Sealing) (h : PasskeyHook) (arrivals : List Arrival) (s : S) (m : Bytes)
      → is_known h s m ≡ true
      → is_known h (after_all sealing h arrivals s) m ≡ true
  after_all-keeps sealing h [] s m k = k
  after_all-keeps sealing h ((ctx, req, resp) ∷ more) s m k =
      after_all-keeps sealing h more (approve_passkey services sealing h s ctx req resp).0 m
        (approve_passkey-keeps sealing h s ctx req resp m k)

  -- With a broker and a lifetime above zero, once an announce was let in, and after any announces
  -- that the hook has handled since, an announce with that passkey is let in by the set alone: it asks
  -- no service and changes nothing. The server answers, its sets do not expire meanwhile, and the
  -- service leaves them alone.
  pub approve_passkey-again :
      (sealing : Sealing) (h : PasskeyHook) (s : S) (between : List Arrival)
      (ctx ctx' later later' : Context) (req next : AnnounceRequest)
      (resp next_resp : AnnounceResponse) (m : Bytes)
      → keeps h ≡ true
      → identify sealing h ctx req ≡ ok (ctx', m)
      → identify sealing h later next ≡ ok (later', m)
      → (approve_passkey services sealing h s ctx req resp).1 ≡ ok (ctx', req, resp)
      → let s' =
          after_all sealing h between (approve_passkey services sealing h s ctx req resp).0 in
        approve_passkey services sealing h s' later next next_resp
        ≡ (s', ok (later', next, next_resp))
  approve_passkey-again sealing h s between ctx ctx' later later' req next resp next_resp m k e f
        let_in =
      let (a, _) = approve_passkey-effect sealing h s ctx ctx' req resp m [] [] e in
      let known = known_after h s m k (passed_on _ (ctx', req, resp) (sym a ∙ let_in)) in
      let s' = after_all sealing h between (approve_passkey services sealing h s ctx req resp).0 in
      let still : is_known h s' m ≡ true = after_all-keeps sealing h between _ m (
        ap (λ o. is_known h o.0 m) (approve_passkey-check sealing h s ctx ctx' req resp m e)
        ∙ known) in
      approve_passkey-check sealing h s' later later' next next_resp m f
      ∙ ap (λ o. (o.0, if o.1 then ok (later', next, next_resp) else err err_unapproved_passkey))
          (check_known h s' m still)
