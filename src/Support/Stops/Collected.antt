-- ===== src/Support/Stops/Collected.antt =====
-- What stopping a group gives (pkg/stop/stop.go, middleware/logic.go).
use chihaya.Base.{◌≡◌, List, [], ◌∷◌, Option, none, some}
use chihaya.Middleware.{Hook}
use chihaya.Support.Stops.{Errors, StopFunc, Group}

-- What a channel can give that was ended by `Done`: a first error is not nil.
abbrev pub IsDelivery : Errors → Type 0
IsDelivery [] = Unit {0}
IsDelivery (none ∷ errors) = ⊥
IsDelivery (some e ∷ errors) = Unit {0}

abbrev pub AreDeliveries : List Errors → Type 0
AreDeliveries [] = Unit {0}
AreDeliveries (d ∷ ds) = IsDelivery d × AreDeliveries ds

module _ {S : Type 0} where
  -- Every function runs once, in the order of the list, each on what the last one left; these are
  -- the errors that they give.
  pub data Ran : Group S → S → S → List Errors → Type 0 where
    nothing : {s : S} → Ran [] s s []
    then_next :
        {g : Group S} {s s1 s2 : S} {ds : List Errors} (f : StopFunc S) (d : Errors)
        → f s ≡ (s1, some d)
        → Ran g s1 s2 ds
        → Ran (f ∷ g) s s2 (d ∷ ds)

  -- The functions of the hooks that can be stopped, in the order of the hooks.
  abbrev pub stoppers : (Hook S → Option (StopFunc S)) → List (Hook S) → Group S
  stoppers stopper [] = []
  stoppers stopper (h ∷ hs) = elim (stopper h) [
    | none ↦ stoppers stopper hs
    | some f ↦ f ∷ stoppers stopper hs
  ]
