-- ===== src/Command/Loop/Store.antt =====
-- The peer store over a whole run of the command, with its reloads (cmd/chihaya/main.go).
use chihaya.Base.{
  ◌≡◌, refl, sym, ap, subst, ◌∙◌, Bool, arith, true, false, Bytes, codes, List, [], ◌∷◌, Option,
  none, some, Error, Result, ok, err, panic, Result-cases, inl, inr, if◌then◌else◌,
}
use chihaya.Middleware.{Logic}
use chihaya.Support.Stops.{Errors, add_func, new_group, stop_group, stop_logic}
use chihaya.Command.{
  failed, Config, Parts, Run, combine_errors, open_store, make_logic, start_frontends, start_logic,
  start_with, start, unless_failed, wait_for, stop_store, stop_hooks, stop, reload,
}
use chihaya.Command.Loop.{Signal, reload_signal, shutdown_signal, ended, root_loop}
use chihaya.Command.Shutdown.{start_frontends-Keeps}

module _ {W H U O P Y : Type 0} (parts : Parts W H U O P Y) where
  -- A shutdown step ends in what holds of the run as it is, or of what follows.
  unless_failed-Post :
      {A : Type 0} (Post : W × Run W P × Result A → Type 0) (prefix : Bytes) (w : W) (r : Run W P)
      (o : Result Errors) (rest : W → Run W P → W × Run W P × Result A)
      → ((w : W) (e : Error) → Post (w, r, err e))
      → ((w : W) → Post (w, r, panic))
      → (o ≡ ok [] → Post (rest w r))
      → Post (unless_failed parts prefix w r o rest)
  unless_failed-Post Post prefix w r (ok []) rest a b c = c refl
  unless_failed-Post Post prefix w r (ok (e ∷ errors)) rest a b c =
      elim (Result-cases (combine_errors prefix (e ∷ errors))) [
        | inl (x, f) ↦ rw f (a w x)
        | inr (inl (x, f)) ↦ rw f (a w x)
        | inr (inr f) ↦ rw f (b w)
      ]
  unless_failed-Post Post prefix w r (err e) rest a b c = a w e
  unless_failed-Post Post prefix w r Result.panic rest a b c = b w

  -- To stop for a reload leaves the run as it is, and gives its store.
  abbrev Passes : Run W P → W × Run W P × Result (Option P) → Type 0
  Passes r (w, r', ok ps) = (r' ≡ r) × (ps ≡ r.peer_store)
  Passes r (w, r', err e) = r' ≡ r
  Passes r (w, r', Result.panic) = r' ≡ r

  -- What `Stop` does about the hooks.
  abbrev with_hooks : Bool → W → Run W P → Option (Logic W) → W × Run W P × Result (Option P)
  with_hooks keep w r none = (w, r, panic)
  with_hooks keep w r (some logic) =
      unless_failed parts (codes "failed while shutting down middleware")
        (stop_logic parts.stopper logic w).0 r (stop_logic parts.stopper logic w).1
        (λ w2 r2. if keep then (w2, r2, ok r2.peer_store) else stop_store parts w2 r2)

  with_hooks-Passes :
      (w : W) (r : Run W P) (l : Option (Logic W)) → Passes r (with_hooks true w r l)
  with_hooks-Passes w r none = refl
  with_hooks-Passes w r (some logic) =
      unless_failed-Post (Passes r) (codes "failed while shutting down middleware")
        (stop_logic parts.stopper logic w).0 r (stop_logic parts.stopper logic w).1
        (λ w2 r2. (w2, r2, ok r2.peer_store)) (λ w x. refl) (λ w. refl) (λ _. (refl, refl))

  stop_hooks-Passes : (w : W) (r : Run W P) → Passes r (stop_hooks parts true w r)
  unfolding stop_hooks
  stop_hooks-Passes w r = with_hooks-Passes w r r.logic

  stop-Passes : (w : W) (r : Run W P) → Passes r (stop parts true w r)
  unfolding stop
  stop-Passes w r =
      unless_failed-Post (Passes r) (codes "failed while shutting down frontends")
        (stop_group r.group w).0 r _ (stop_hooks parts true) (λ w x. refl) (λ w. refl)
        (λ _. stop_hooks-Passes (stop_group r.group w).0 r)

  logic-store :
      (cfg : Config W H U O) (w : W) (r : Run W P) (ps : P) (l : Result (Logic W))
      → (elim l as (λ _. W × Run W P × Result (Unit {0})) [
        | err e ↦ (w, record r { peer_store = some ps }, err e)
        | Result.panic ↦ (w, record r { peer_store = some ps }, panic)
        | ok logic ↦
            start_frontends parts cfg logic w
              (record r { peer_store = some ps; logic = some logic })
      ]).1.peer_store
        ≡ some ps
  logic-store cfg w r ps (err e) = refl
  logic-store cfg w r ps Result.panic = refl
  logic-store cfg w r ps (ok logic) =
      (start_frontends-Keeps parts cfg logic w
        (record r { peer_store = some ps; logic = some logic })).0

  config-store :
      (w : W) (r : Run W P) (ps : P) (c : Result (Config W H U O))
      → r.peer_store ≡ some ps
      → (elim c as (λ _. W × Run W P × Result (Unit {0})) [
        | err e ↦ (w, r, err (failed (codes "failed to read config: ")))
        | Result.panic ↦ (w, r, panic)
        | ok cfg ↦ start_with parts cfg (some ps) w r
      ]).1.peer_store
        ≡ some ps
  unfolding start_with open_store start_logic
  config-store w r ps (err e) p = p
  config-store w r ps Result.panic p = p
  config-store w r ps (ok cfg) p =
      let (w1, metrics) = parts.new_metrics cfg.metrics_addr w in
      logic-store cfg w1 (record r { group = add_func metrics new_group }) ps
        (make_logic parts cfg ps)

  start-store :
      (w : W) (r : Run W P) (ps : P)
      → r.peer_store ≡ some ps
      → (start parts (some ps) w r).1.peer_store ≡ some ps
  unfolding start
  start-store w r ps p = config-store w r ps (parts.parse_config_file w) p

  restart-store :
      (r : Run W P) (ps : P) (o : W × Run W P × Result (Option P))
      → r.peer_store ≡ some ps
      → Passes r o
      → (elim (o.2) as (λ _. W × Run W P × Result (Unit {0})) [
        | ok ps ↦ start parts ps o.0 o.1
        | err e ↦ (o.0, o.1, err e)
        | Result.panic ↦ (o.0, o.1, panic)
      ]).1.peer_store
        ≡ some ps
  restart-store r ps (w, r', ok o) p (a, b) =
      rw (b ∙ p) (start-store w r' ps (ap (λ (x : Run W P). x.peer_store) a ∙ p))
  restart-store r ps (w, r', err e) p a = ap (λ (x : Run W P). x.peer_store) a ∙ p
  restart-store r ps (w, r', Result.panic) p a = ap (λ (x : Run W P). x.peer_store) a ∙ p

  reload-store :
      (w : W) (r : Run W P) (ps : P)
      → r.peer_store ≡ some ps
      → (reload parts w r).1.peer_store ≡ some ps
  unfolding reload
  reload-store w r ps p = restart-store r ps (stop parts true w r) p (stop-Passes w r)

  -- The store was stopped last, without an error.
  abbrev pub IsClosed : P → W → Run W P → Type 0
  IsClosed ps w r = (r.peer_store ≡ none) × (w1 : W) × (parts.store_stop ps w1 ≡ (w, some []))

  abbrev Shuts : P → W × Run W P × Result (Option P) → Type 0
  Shuts ps (w, r, ok _) = IsClosed ps w r
  Shuts ps (w, r, err e) = r.peer_store ≡ some ps
  Shuts ps (w, r, Result.panic) = r.peer_store ≡ some ps

  store_stopped :
      (w : W) (r : Run W P) (ps : P) (o : W × Option Errors)
      → r.peer_store ≡ some ps
      → parts.store_stop ps w ≡ o
      → Shuts ps (
          unless_failed parts
            (codes "failed while shutting down peer store")
            (wait_for parts o).0
            r
            (wait_for parts o).1
            (λ w2 r2. (w2, record r2 { peer_store = none }, ok none)))
  store_stopped w r ps (w', none) p e = p
  store_stopped w r ps (w', some []) p e = (refl, w, e)
  store_stopped w r ps (w', some (x ∷ xs)) p e =
      unless_failed-Post (Shuts ps) (codes "failed while shutting down peer store") w' r
        (ok (x ∷ xs)) (λ w2 r2. (w2, record r2 { peer_store = none }, ok none)) (λ w x. p) (λ w. p)
        (λ h. absurd (grind arith))

  -- What `Stop` does about the store.
  abbrev with_store : W → Run W P → Option P → W × Run W P × Result (Option P)
  with_store w r none = (w, r, panic)
  with_store w r (some ps) =
      unless_failed parts (codes "failed while shutting down peer store")
        (wait_for parts (parts.store_stop ps w)).0 r (wait_for parts (parts.store_stop ps w)).1
        (λ w2 r2. (w2, record r2 { peer_store = none }, ok none))

  stop_store-Shuts :
      (w : W) (r : Run W P) (ps : P) → r.peer_store ≡ some ps → Shuts ps (stop_store parts w r)
  unfolding stop_store
  stop_store-Shuts w r ps p =
      subst (λ x. Shuts ps (with_store w r x)) (sym p)
        (store_stopped w r ps (parts.store_stop ps w) p refl)

  with_hooks-Shuts :
      (w : W) (r : Run W P) (ps : P) (l : Option (Logic W))
      → r.peer_store ≡ some ps
      → Shuts ps (with_hooks false w r l)
  with_hooks-Shuts w r ps none p = p
  with_hooks-Shuts w r ps (some logic) p =
      unless_failed-Post (Shuts ps) (codes "failed while shutting down middleware")
        (stop_logic parts.stopper logic w).0 r (stop_logic parts.stopper logic w).1
        (λ w2 r2. stop_store parts w2 r2) (λ w x. p) (λ w. p)
        (λ _. stop_store-Shuts (stop_logic parts.stopper logic w).0 r ps p)

  stop_hooks-Shuts :
      (w : W) (r : Run W P) (ps : P)
      → r.peer_store ≡ some ps
      → Shuts ps (stop_hooks parts false w r)
  unfolding stop_hooks
  stop_hooks-Shuts w r ps p = with_hooks-Shuts w r ps r.logic p

  stop-Shuts :
      (w : W) (r : Run W P) (ps : P) → r.peer_store ≡ some ps → Shuts ps (stop parts false w r)
  unfolding stop
  stop-Shuts w r ps p =
      unless_failed-Post (Shuts ps) (codes "failed while shutting down frontends")
        (stop_group r.group w).0 r _ (stop_hooks parts false) (λ w x. p) (λ w. p)
        (λ _. stop_hooks-Shuts (stop_group r.group w).0 r ps p)

  -- A command that has ended without an error has closed the store; else it has it still.
  abbrev pub Holds : P → W × Run W P × Option (Result (Unit {0})) → Type 0
  Holds ps (w, r, none) = r.peer_store ≡ some ps
  Holds ps (w, r, some (ok _)) = IsClosed ps w r
  Holds ps (w, r, some (err e)) = r.peer_store ≡ some ps
  Holds ps (w, r, some Result.panic) = r.peer_store ≡ some ps

  ended-Holds :
      (ps : P) (o : W × Run W P × Result (Option P)) → Shuts ps o → Holds ps (ended parts o)
  ended-Holds ps (w, r, ok x) h = h
  ended-Holds ps (w, r, err e) h = h
  ended-Holds ps (w, r, Result.panic) h = h

  turn-Holds :
      (more : List Signal) (ps : P) (o : W × Run W P × Result (Unit {0}))
      → o.1.peer_store ≡ some ps
      → ((w : W) (r : Run W P) → r.peer_store ≡ some ps → Holds ps (root_loop parts more w r))
      → Holds ps (elim (o.2) as (λ _. W × Run W P × Option (Result (Unit {0}))) [
        | ok _ ↦ root_loop parts more o.0 o.1
        | err e ↦ (o.0, o.1, some (err e))
        | Result.panic ↦ (o.0, o.1, some panic)
      ])
  turn-Holds more ps (w, r, ok x) p go_on = go_on w r p
  turn-Holds more ps (w, r, err e) p go_on = p
  turn-Holds more ps (w, r, Result.panic) p go_on = p

  -- Whatever signals come in whatever order, a run that has a peer store goes on with that store over
  -- all its reloads. When the command ends without an error, it has stopped that store last, without an
  -- error, and holds none; when it ends otherwise, it holds the store still.
  pub root_loop-Holds :
      (signals : List Signal) (w : W) (r : Run W P) (ps : P)
      → r.peer_store ≡ some ps
      → Holds ps (root_loop parts signals w r)
  unfolding root_loop
  root_loop-Holds [] w r ps p = p
  root_loop-Holds (shutdown_signal ∷ more) w r ps p =
      ended-Holds ps (stop parts false w r) (stop-Shuts w r ps p)
  root_loop-Holds (reload_signal ∷ more) w r ps p =
      turn-Holds more ps (reload parts w r) (reload-store w r ps p)
        (λ w r p. root_loop-Holds more w r ps p)
