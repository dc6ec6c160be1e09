-- ===== src/Support/Registries/Configured.antt =====
-- Which hooks a configuration gives (middleware/middleware.go).
use chihaya.Base.{
  ◌≡◌, refl, ◌⊎◌, inl, inr, Bytes, bytes_eq, List, [], ◌∷◌, none, some, Error, Result, ok, err,
  panic, ◌>>=◌, Result-cases, if◌then◌else◌, arith,
}
use chihaya.Base.Dict.{Dict, lookup, lookup-insert}
use chihaya.Support.Registries.{Driver, HookConfig, register_driver, make, new, hooks_from_configs}

module _ {C V : Type 0} where
  -- A driver that could be registered is the one that its name stands for, and takes the place of
  -- none; all other names stand for what they stood for.
  pub make-register_driver :
      (missing : Error) (name other : Bytes) (d : Driver C V) (cfg : C)
      (drivers after : Dict (Driver C V))
      → register_driver name (some d) drivers ≡ ok after
      → (lookup name drivers ≡ none)
        × (make missing other cfg after
            ≡ (if bytes_eq name other then d cfg else make missing other cfg drivers))
  unfolding register_driver make
  make-register_driver missing name other d cfg drivers after h =
      (ground arith, ground (arith, lookup-insert name other d drivers))

  module _ {O : Type 0} (marshal : O → Result C) (drivers : Dict (Driver C V)) where
    -- What one entry of a configuration gives.
    abbrev pub hook_of : HookConfig O → Result V
    hook_of cfg = marshal cfg.options >>= λ bytes. new cfg.name bytes drivers

    -- The hooks are those of the first entries, and the outcome is that of all entries or of the entry
    -- behind them.
    abbrev pub AreHooksOf : List (HookConfig O) → List V → Result (Unit {0}) → Type 0
    AreHooksOf [] [] r = r ≡ ok tt
    AreHooksOf [] (h ∷ hs) r = ⊥
    AreHooksOf (cfg ∷ cfgs) [] r =
        ((e : Error) × (hook_of cfg ≡ err e) × (r ≡ err e)) ⊎ ((hook_of cfg ≡ panic) × (r ≡ panic))
    AreHooksOf (cfg ∷ cfgs) (h ∷ hs) r = (hook_of cfg ≡ ok h) × AreHooksOf cfgs hs r

    -- The hooks that come of a configuration are those of its first entries, in their order. Without an
    -- error these are all of its entries; otherwise the entry behind them failed, with that error, or
    -- panicked, and no later entry counts.
    pub hooks_from_configs-AreHooksOf :
        (cfgs : List (HookConfig O))
        → let (hs, r) = hooks_from_configs marshal cfgs drivers in AreHooksOf cfgs hs r
    unfolding hooks_from_configs
    hooks_from_configs-AreHooksOf [] = refl
    hooks_from_configs-AreHooksOf (cfg ∷ cfgs) = elim (Result-cases (hook_of cfg)) [
      | inl (h, e) ↦ rw (e, hooks_from_configs) (e, hooks_from_configs-AreHooksOf cfgs)
      | inr (inl (e, f)) ↦ rw (f, hooks_from_configs) (inl (e, f, refl))
      | inr (inr p) ↦ rw (p, hooks_from_configs) (inr (p, refl))
    ]
