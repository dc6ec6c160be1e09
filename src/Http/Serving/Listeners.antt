-- ===== src/Http/Serving/Listeners.antt =====
-- Which listeners stay open when the HTTP frontend is made (frontend/http/frontend.go).
use chihaya.Base.{
  ◌≡◌, refl, ap, ◌∙◌, true, false, Bytes, List, [], ◌∷◌, ◌++◌, Option, none, some, Error, Result,
  ok, err, panic, Result-cases, Bool-cases, inl, inr,
}
use chihaya.Http.Configs.{Config, validate, check_config, is_empty}
use chihaya.Http.Serving.{
  Network, Frontend, listen_on, close_if, listen_https, listen_both, started, new_frontend,
}

-- A listener that was opened is at the address asked for, and is open until it is closed; one that failed to open is not.
pub record Laws {N L : Type 0} (net : Network N L) : Type 0 where
  pub listeners : N → List L
  pub address_of : L → Bytes
  pub listen_ok :
      (n : N) (addr : Bytes) (l : L)
      → (net.listen n addr).1 ≡ ok l
      → (listeners (net.listen n addr).0 ≡ l ∷ listeners n) × (address_of l ≡ addr)
  pub listen_err :
      (n : N) (addr : Bytes) (e : Error)
      → (net.listen n addr).1 ≡ err e
      → listeners (net.listen n addr).0 ≡ listeners n
  pub close_last :
      (n : N) (l : L) (rest : List L) → listeners n ≡ l ∷ rest → listeners (net.close n l) ≡ rest

module _ {N L : Type 0} (net : Network N L) (laws : Laws net) where
  open laws use {listeners, address_of, listen_ok, listen_err, close_last}

  abbrev pub opened : Option L → List L
  opened none = []
  opened (some l) = l ∷ []

  -- A listener at the address, or none where that is empty.
  abbrev pub IsAt : Bytes → Option L → Type 0
  IsAt addr none = is_empty addr ≡ true
  IsAt addr (some l) = (is_empty addr ≡ false) × (address_of l ≡ addr)

  -- A listener for an address that is there, or an error and nothing.
  abbrev pub Listens : Bytes → N → N × Result (Option L) → Type 0
  Listens addr n (n', ok l) = (listeners n' ≡ opened l ++ listeners n) × IsAt addr l
  Listens addr n (n', err e) = listeners n' ≡ listeners n
  Listens addr n (n', Result.panic) = Unit {0}

  listen_on-Listens : (addr : Bytes) (n : N) → Listens addr n (listen_on net addr n)
  unfolding listen_on
  listen_on-Listens addr n = elim (Bool-cases (is_empty addr)) [
    | inl e ↦ rw e (refl, e)
    | inr e ↦ elim (Result-cases (net.listen n addr).1) [
      | inl (l, f) ↦ rw (e, f) ((listen_ok n addr l f).0, (e, (listen_ok n addr l f).1))
      | inr (inl (x, f)) ↦ rw (e, f) (listen_err n addr x f)
      | inr (inr f) ↦ rw (e, f) tt
    ]
  ]

  close_if_lem :
      (first : Option L) (n : N) (rest : List L)
      → listeners n ≡ opened first ++ rest
      → listeners (close_if net first n) ≡ rest
  close_if_lem none n rest h = h
  close_if_lem (some l) n rest h = close_last n l rest h

  -- Listeners for the addresses that are there, or an error and nothing.
  abbrev pub ListensBoth : Config → N → N × Result (Option L × Option L) → Type 0
  ListensBoth cfg n (n', ok (a, b)) =
      (listeners n' ≡ opened b ++ (opened a ++ listeners n))
      × IsAt cfg.addr a
      × IsAt cfg.https_addr b
  ListensBoth cfg n (n', err e) = listeners n' ≡ listeners n
  ListensBoth cfg n (n', Result.panic) = Unit {0}

  second_Listens :
      (cfg : Config) (n n1 : N) (first : Option L) (o : N × Result (Option L))
      → listeners n1 ≡ opened first ++ listeners n
      → IsAt cfg.addr first
      → Listens cfg.https_addr n1 o
      → ListensBoth cfg n (elim (o.1) as (λ _. N × Result (Option L × Option L)) [
        | ok l ↦ (o.0, ok (first, l))
        | err e ↦ (close_if net first o.0, err e)
        | Result.panic ↦ (o.0, panic)
      ])
  second_Listens cfg n n1 first (n2, ok l) a b (c, d) = (c ∙ ap (λ x. opened l ++ x) a, b, d)
  second_Listens cfg n n1 first (n2, err e) a b c = close_if_lem first n2 (listeners n) (c ∙ a)
  second_Listens cfg n n1 first (n2, Result.panic) a b c = tt

  first_Listens :
      (cfg : Config) (n : N) (o : N × Result (Option L))
      → Listens cfg.addr n o
      → ListensBoth cfg n (elim (o.1) as (λ _. N × Result (Option L × Option L)) [
        | ok l ↦ listen_https net cfg l o.0
        | err e ↦ (o.0, err e)
        | Result.panic ↦ (o.0, panic)
      ])
  unfolding listen_https
  first_Listens cfg n (n1, ok l) (a, b) =
      second_Listens cfg n n1 l (listen_on net cfg.https_addr n1) a b
        (listen_on-Listens cfg.https_addr n1)
  first_Listens cfg n (n1, err e) a = a
  first_Listens cfg n (n1, Result.panic) a = tt

  listen_both-ListensBoth : (cfg : Config) (n : N) → ListensBoth cfg n (listen_both net cfg n)
  unfolding listen_both
  listen_both-ListensBoth cfg n =
      first_Listens cfg n (listen_on net cfg.addr n) (listen_on-Listens cfg.addr n)

  -- The frontend that was made from a configuration, with the listeners that were opened.
  abbrev pub Opens : Config → N → N × Result (Frontend × Option L × Option L) → Type 0
  Opens cfg n (n', ok (f, a, b)) =
      (f.cfg ≡ cfg)
      × (listeners n' ≡ opened b ++ (opened a ++ listeners n))
      × IsAt cfg.addr a
      × IsAt cfg.https_addr b
  Opens cfg n (n', err e) = listeners n' ≡ listeners n
  Opens cfg n (n', Result.panic) = Unit {0}

  started-Opens :
      (cfg : Config) (n : N) (o : N × Result (Option L × Option L))
      → ListensBoth cfg n o
      → Opens cfg n (started net cfg o)
  started-Opens cfg n (n', ok (a, b)) (p, q, r) = (refl, p, q, r)
  started-Opens cfg n (n', err e) p = p
  started-Opens cfg n (n', Result.panic) p = tt

  -- A frontend that is made has the validated configuration, and the listeners that were opened are one
  -- at each of the two addresses that it names, and none for an address that is empty. One that is refused, for its configuration, its key pair or
  -- an address that cannot be listened on, leaves no listener open that was not open before.
  pub new_frontend-Opens :
      (load : Bytes → Bytes → Result (Unit {0})) (provided : Config) (n : N)
      → Opens (validate provided) n (new_frontend net load provided n)
  unfolding new_frontend
  new_frontend-Opens load provided n = elim (Result-cases (check_config load (validate provided))) [
    | inl (x, e) ↦
        rw (e, new_frontend)
          (started-Opens (validate provided) n (listen_both net (validate provided) n)
            (listen_both-ListensBoth (validate provided) n))
    | inr (inl (x, e)) ↦ rw (e, new_frontend) refl
    | inr (inr e) ↦ rw (e, new_frontend) tt
  ]
