-- ===== src/Support/Registries.antt =====
-- The registries of drivers: `RegisterDriver`, `New` and `HooksFromHookConfigs` of
-- middleware/middleware.go, `RegisterDriver` and `NewPeerStore` of storage/storage.go. The two
-- registries have the same code. Encoding the options as YAML is the parameter `marshal`; the locks
-- are not modelled.
pub mod Configured
use chihaya.Base.{
  ◌==◌, Bool, Bytes, codes, length, is_some, List, [], ◌∷◌, Option, none, some, Error,
  internal_error, Result, ok, err, panic, ◌>>=◌, if◌then◌else◌,
}
use chihaya.Base.Dict.{Dict, lookup, insert}

abbrev pub err_no_middleware_driver : Error
err_no_middleware_driver = internal_error (codes "middleware driver with that name does not exist")

abbrev pub err_no_store_driver : Error
err_no_store_driver = internal_error (codes "peer store driver with that name does not exist")

-- A driver makes a `V`, a hook or a peer store, from its configuration `C`; `none` is a nil driver.
abbrev pub Driver : Type 0 → Type 0 → Type 0
Driver C V = C → Result V

pub record HookConfig (O : Type 0) : Type 0 where
  pub name : Bytes
  pub options : O

module _ {C V : Type 0} where
  unfoldable pub register_driver :
      Bytes → Option (Driver C V) → Dict (Driver C V) → Result (Dict (Driver C V))
  register_driver name none drivers = panic
  register_driver name (some d) drivers =
      if length name == 0
      then panic
      else if is_some (lookup name drivers)
      then panic
      else ok (insert name d drivers)

  unfoldable pub make : Error → Bytes → C → Dict (Driver C V) → Result V
  make missing name cfg drivers = elim (lookup name drivers) [ none ↦ err missing | some d ↦ d cfg ]

  -- `New` of the hooks.
  unfoldable pub new : Bytes → C → Dict (Driver C V) → Result V
  unfolding make
  new name bytes drivers = make err_no_middleware_driver name bytes drivers

  unfoldable pub new_peer_store : Bytes → C → Dict (Driver C V) → Result V
  unfolding make
  new_peer_store name cfg drivers = make err_no_store_driver name cfg drivers

  -- The hooks that were made, and the error that ended it.
  unfoldable pub hooks_from_configs :
      {O : Type 0}
      → (O → Result C)
      → List (HookConfig O)
      → Dict (Driver C V)
      → List V × Result (Unit {0})
  unfolding new
  hooks_from_configs marshal [] drivers = ([], ok tt)
  hooks_from_configs marshal (cfg ∷ cfgs) drivers =
      let rest = hooks_from_configs marshal cfgs drivers in
      elim (marshal cfg.options >>= λ bytes. new cfg.name bytes drivers) [
        | ok h ↦ (h ∷ rest.0, rest.1)
        | err e ↦ ([], err e)
        | Result.panic ↦ ([], panic)
      ]
