-- ===== src/Command.antt =====
-- A running tracker: how its parts are started, stopped and reloaded (`Run` of cmd/chihaya/main.go,
-- with the configuration of cmd/chihaya/config.go).
--
-- `W` is the state that all parts share. Reading the file and its YAML, the metrics server of
-- pkg/metrics/server.go, the two frontends with their listeners, and the making of hooks over a
-- store are the parameter `Parts`; drivers come from registries. The command line and the log
-- are not modelled.
pub mod Shutdown
pub mod Loop
use chihaya.Base.{
  ◌==◌, Bool, true, false, not, Bytes, codes, length, List, [], ◌∷◌, ◌++◌, map, Option, none, some,
  ℤ, Error, client_error, internal_error, Result, ok, err, panic, ◌>>=◌, if◌then◌else◌,
}
use chihaya.Base.Dict.{Dict}
use chihaya.Middleware.{Hook, Logic, ResponseConfig, new_logic}
use chihaya.Support.Registries.{Driver, HookConfig, new_peer_store, hooks_from_configs}
use chihaya.Support.Stops.{Errors, StopFunc, Group, new_group, add_func, stop_group, stop_logic}

-- `H` and `U` are the configurations of the frontends, `O` the options of drivers.
pub record Config (W H U O : Type 0) : Type 0 where
  pub response_config : ResponseConfig W
  pub metrics_addr : Bytes
  pub http_config : H
  pub udp_config : U
  pub storage_name : Bytes
  pub storage_config : O
  pub pre_hooks : List (HookConfig O)
  pub post_hooks : List (HookConfig O)

-- `PreHookNames` and `PostHookNames`.
abbrev pub hook_names : {O : Type 0} → List (HookConfig O) → List Bytes
hook_names cfgs = map (λ cfg. cfg.name) cfgs

-- `P` are peer stores and `Y` encoded options.
pub record Parts (W H U O P Y : Type 0) : Type 0 where
  pub parse_config_file : W → Result (Config W H U O)
  pub new_metrics : Bytes → W → W × StopFunc W
  pub store_drivers : Dict (Driver O P)
  pub hook_drivers : Dict (Driver Y (Hook W))
  pub marshal : O → Result Y
  pub store_stop : P → StopFunc W
  pub response_hook : P → Hook W
  pub swarm_hook : P → Hook W
  pub stopper : Hook W → Option (StopFunc W)
  pub http_addr : H → Bytes
  pub udp_addr : U → Bytes
  pub http_frontend : Logic W → H → W → W × Result (StopFunc W)
  pub udp_frontend : Logic W → U → W → W × Result (StopFunc W)

-- The fields of a Run that change; `none` is nil.
pub record Run (W P : Type 0) : Type 0 where
  pub peer_store : Option P
  pub logic : Option (Logic W)
  pub group : Group W

-- A message and the cause of an error behind it; the cause is cut here.
abbrev pub failed : Bytes → Error
failed message = internal_error message

-- `err.Error()`
unfoldable pub message : Error → Bytes
message (client_error text) = text
message (internal_error text) = text

-- `errStrs`; a nil error panics.
unfoldable pub messages : Errors → Result (List Bytes)
unfolding message
messages [] = ok []
messages (none ∷ errors) = panic
messages (some e ∷ errors) = do ms ← messages errors; ok (message e ∷ ms)

-- `strings.Join(errStrs, "; ")`
unfoldable pub join : List Bytes → Bytes
join [] = []
join (m ∷ []) = m
join (m ∷ n ∷ ms) = m ++ codes "; " ++ join (n ∷ ms)

unfoldable pub combine_errors : Bytes → Errors → Result Error
unfolding messages join
combine_errors prefix errors = do
  ms ← messages errors
  ok (internal_error (prefix ++ codes ": " ++ join ms))

module _ {W H U O P Y : Type 0} (parts : Parts W H U O P Y) where
  -- The store that was handed over, or a new one.
  unfoldable pub open_store : Config W H U O → Option P → Result P
  open_store cfg (some ps) = ok ps
  open_store cfg none =
      elim (new_peer_store cfg.storage_name cfg.storage_config parts.store_drivers) [
        | ok ps ↦ ok ps
        | err e ↦ err (failed (codes "failed to create storage: "))
        | Result.panic ↦ panic
      ]

  abbrev pub valid_hooks : List (Hook W) × Result (Unit {0}) → Result (List (Hook W))
  valid_hooks (hooks, ok _) = ok hooks
  valid_hooks (hooks, err e) = err (failed (codes "failed to validate hook config: "))
  valid_hooks (hooks, Result.panic) = panic

  unfoldable pub make_hooks : List (HookConfig O) → Result (List (Hook W))
  make_hooks cfgs = valid_hooks (hooks_from_configs parts.marshal cfgs parts.hook_drivers)

  unfoldable pub make_logic : Config W H U O → P → Result (Logic W)
  unfolding make_hooks
  make_logic cfg ps = do
    pre ← make_hooks cfg.pre_hooks
    post ← make_hooks cfg.post_hooks
    ok (new_logic cfg.response_config (parts.response_hook ps) (parts.swarm_hook ps) pre post)

  -- A frontend with an address is started and joins the group.
  unfoldable pub add_frontend :
      Bytes → (W → W × Result (StopFunc W)) → W → Run W P → W × Run W P × Result (Unit {0})
  add_frontend addr make w r =
      if length addr == 0
      then (w, r, ok tt)
      else (let (w', made) = make w in
          elim made [
            | ok f ↦ (w', record r { group = add_func f r.group }, ok tt)
            | err e ↦ (w', r, err e)
            | Result.panic ↦ (w', r, panic)
          ])

  abbrev pub then_start :
      W × Run W P × Result (Unit {0})
      → (W → Run W P → W × Run W P × Result (Unit {0}))
      → W × Run W P × Result (Unit {0})
  then_start (w, r, ok _) k = k w r
  then_start (w, r, err e) k = (w, r, err e)
  then_start (w, r, Result.panic) k = (w, r, panic)

  unfoldable pub start_frontends :
      Config W H U O → Logic W → W → Run W P → W × Run W P × Result (Unit {0})
  unfolding add_frontend
  start_frontends cfg logic w r =
      then_start
        (add_frontend (parts.http_addr cfg.http_config) (parts.http_frontend logic cfg.http_config)
          w r)
        (add_frontend (parts.udp_addr cfg.udp_config) (parts.udp_frontend logic cfg.udp_config))

  -- The run is filled in as far as it comes before an error.
  unfoldable pub start_logic : Config W H U O → W → Run W P → P → W × Run W P × Result (Unit {0})
  unfolding make_logic start_frontends
  start_logic cfg w r ps = elim (make_logic cfg ps) [
    | err e ↦ (w, record r { peer_store = some ps }, err e)
    | Result.panic ↦ (w, record r { peer_store = some ps }, panic)
    | ok logic ↦ start_frontends cfg logic w (record r { peer_store = some ps; logic = some logic })
  ]

  unfoldable pub start_with :
      Config W H U O → Option P → W → Run W P → W × Run W P × Result (Unit {0})
  unfolding open_store start_logic
  start_with cfg ps w r =
      let (w1, metrics) = parts.new_metrics cfg.metrics_addr w in
      let r1 = record r { group = add_func metrics new_group } in
      elim (open_store cfg ps) [
        | err e ↦ (w1, r1, err e)
        | Result.panic ↦ (w1, r1, panic)
        | ok store ↦ start_logic cfg w1 r1 store
      ]

  -- `Run.Start`
  unfoldable pub start : Option P → W → Run W P → W × Run W P × Result (Unit {0})
  unfolding start_with
  start ps w r = elim (parts.parse_config_file w) [
    | err e ↦ (w, r, err (failed (codes "failed to read config: ")))
    | Result.panic ↦ (w, r, panic)
    | ok cfg ↦ start_with cfg ps w r
  ]

  -- `NewRun` starts an empty run.
  unfoldable pub new_run : W → W × Run W P × Result (Unit {0})
  unfolding start
  new_run w = start none w (record { peer_store = none; logic = none; group = [] })

  -- What the errors of a shutdown, if there are any, make of it; `rest` is what follows without one.
  abbrev pub unless_failed :
      {A : Type 0}
      → Bytes
      → W
      → Run W P
      → Result Errors
      → (W → Run W P → W × Run W P × Result A)
      → W × Run W P × Result A
  unless_failed prefix w r (ok []) rest = rest w r
  unless_failed prefix w r (ok (e ∷ errors)) rest =
      (w, r, (combine_errors prefix (e ∷ errors) >>= λ e'. err e'))
  unless_failed prefix w r (err e) rest = (w, r, err e)
  unless_failed prefix w r Result.panic rest = (w, r, panic)

  abbrev pub wait_for : W × Option Errors → W × Result Errors
  wait_for (w, some errors) = (w, ok errors)
  wait_for (w, none) = (w, panic)

  unfoldable pub stop_store : W → Run W P → W × Run W P × Result (Option P)
  stop_store w r = elim r.peer_store [
    | none ↦ (w, r, panic)
    | some ps ↦
        let (w', stopped) = wait_for (parts.store_stop ps w) in
        unless_failed (codes "failed while shutting down peer store") w' r stopped
          (λ w2 r2. (w2, record r2 { peer_store = none }, ok none))
  ]

  unfoldable pub stop_hooks : Bool → W → Run W P → W × Run W P × Result (Option P)
  unfolding stop_store
  stop_hooks keep w r = elim r.logic [
    | none ↦ (w, r, panic)
    | some logic ↦
        let (w', stopped) = stop_logic parts.stopper logic w in
        unless_failed (codes "failed while shutting down middleware") w' r stopped
          (λ w2 r2. if keep then (w2, r2, ok r2.peer_store) else stop_store w2 r2)
  ]

  -- `Run.Stop`: the frontends and the metrics server, then the hooks, then the store.
  unfoldable pub stop : Bool → W → Run W P → W × Run W P × Result (Option P)
  unfolding stop_hooks
  stop keep w r =
      let (w', stopped) = stop_group r.group w in
      unless_failed (codes "failed while shutting down frontends") w' r stopped (stop_hooks keep)

  -- A turn of the loop of `RootRunCmdFunc` that found a signal to reload.
  unfoldable pub reload : W → Run W P → W × Run W P × Result (Unit {0})
  unfolding start stop
  reload w r =
      let (w1, r1, stopped) = stop true w r in
      elim stopped [
        | ok ps ↦ start ps w1 r1
        | err e ↦ (w1, r1, err e)
        | Result.panic ↦ (w1, r1, panic)
      ]
