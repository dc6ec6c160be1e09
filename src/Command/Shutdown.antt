-- ===== src/Command/Shutdown.antt =====
-- What a reload keeps, and what a failed shutdown leaves running (cmd/chihaya/main.go).
use chihaya.Base.{
  ◌==◌, ◌≡◌, refl, ◌∙◌, Bytes, length, some, Result, ok, err, Result-cases, Bool-cases, inl, inr,
}
use chihaya.Middleware.{Logic}
use chihaya.Support.Stops.{StopFunc}
use chihaya.Command.{Config, Parts, Run, make_logic, add_frontend, then_start, start_frontends}

module _ {W H U O P Y : Type 0} (parts : Parts W H U O P Y) where
  abbrev pub Outcome : Type 0
  Outcome = W × Run W P × Result (Unit {0})

  -- The store and the hooks of a run stay.
  abbrev pub Keeps : Run W P → Outcome → Type 0
  Keeps r o = (o.1.peer_store ≡ r.peer_store) × (o.1.logic ≡ r.logic)

  add_frontend-Keeps :
      (addr : Bytes) (make : W → W × Result (StopFunc W)) (w : W) (r : Run W P)
      → Keeps r (add_frontend parts addr make w r)
  unfolding add_frontend
  add_frontend-Keeps addr make w r = elim (Bool-cases (length addr == 0)) [
    | inl e ↦ rw e (refl, refl)
    | inr e ↦ elim (Result-cases (make w).1) [
      | inl (f, g) ↦ rw (e, g) (refl, refl)
      | inr (inl (x, g)) ↦ rw (e, g) (refl, refl)
      | inr (inr g) ↦ rw (e, g) (refl, refl)
    ]
  ]

  then_start-Keeps :
      (r : Run W P) (o : Outcome) (k : W → Run W P → Outcome)
      → Keeps r o
      → ((w : W) (r : Run W P) → Keeps r (k w r))
      → Keeps r (then_start parts o k)
  then_start-Keeps r (w, r', ok tt) k (a, b) h = ((h w r').0 ∙ a, (h w r').1 ∙ b)
  then_start-Keeps r (w, r', err e) k p h = p
  then_start-Keeps r (w, r', Result.panic) k p h = p

  pub start_frontends-Keeps :
      (cfg : Config W H U O) (logic : Logic W) (w : W) (r : Run W P)
      → Keeps r (start_frontends parts cfg logic w r)
  unfolding start_frontends
  start_frontends-Keeps cfg logic w r =
      then_start-Keeps r
        (add_frontend parts (parts.http_addr cfg.http_config)
          (parts.http_frontend logic cfg.http_config) w r)
        (add_frontend parts (parts.udp_addr cfg.udp_config)
          (parts.udp_frontend logic cfg.udp_config))
        (add_frontend-Keeps (parts.http_addr cfg.http_config)
          (parts.http_frontend logic cfg.http_config) w r)
        (add_frontend-Keeps (parts.udp_addr cfg.udp_config)
          (parts.udp_frontend logic cfg.udp_config))

  -- The run has the store, and the hooks that a configuration gives over it.
  abbrev pub Serves : Config W H U O → P → Run W P → Type 0
  Serves cfg ps r =
      (r.peer_store ≡ some ps)
      × ((logic : Logic W) × (make_logic parts cfg ps ≡ ok logic) × (r.logic ≡ some logic))
