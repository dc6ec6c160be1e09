-- ===== src/Support/Stops.antt =====
-- Stopping a group of processes (pkg/stop/stop.go), and the hooks of a Logic (`Logic.Stop` of
-- middleware/logic.go).
--
-- A process is stopped by a function on the shared state that returns the errors which its channel
-- will give, or `none` for a nil channel. Every channel gives something in the end, as the interface
-- Stopper asks. The lock of a group is not modelled.
pub mod Collected
use chihaya.Base.{List, [], ◌∷◌, ◌++◌, map, Option, none, some, Error, Result, ok, err, panic}
use chihaya.Middleware.{Hook, Logic}

-- A `[]error`, whose elements may be nil.
abbrev pub Errors : Type 0
Errors = List (Option Error)

-- What Wait gets after `Channel.Done(errs...)`: nothing if there is no first error.
unfoldable pub done : Errors → Errors
done [] = []
done (none ∷ errors) = []
done (some e ∷ errors) = some e ∷ errors

-- What `AlreadyStopped`, a closed channel, gives.
abbrev pub already_stopped : Errors
already_stopped = []

-- All are waited for; `append` of no errors is nothing.
unfoldable pub wait_all : List Errors → Errors
wait_all [] = []
wait_all (errors ∷ rest) = errors ++ wait_all rest

abbrev pub finish : Result (List Errors) → Result Errors
finish (ok channels) = ok (done (wait_all channels))
finish (err e) = err e
finish Result.panic = panic

module _ (S : Type 0) where
  abbrev pub StopFunc : Type 0
  StopFunc = S → S × Option Errors

  abbrev pub Group : Type 0
  Group = List StopFunc

module _ {S : Type 0} where
  abbrev pub new_group : Group S
  new_group = []

  -- `Add` and `AddFunc`: a Stopper is its Stop.
  unfoldable pub add_func : StopFunc S → Group S → Group S
  add_func f g = g ++ f ∷ []

  -- Every process is told to stop, in their order; a nil channel panics.
  unfoldable pub start_all : Group S → S → S × Result (List Errors)
  start_all [] s = (s, ok [])
  start_all (f ∷ g) s =
      let (s1, channel) = f s in
      elim channel [
        | none ↦ (s1, panic)
        | some errors ↦
            let (s2, r) = start_all g s1 in
            (s2, elim r [ ok rest ↦ ok (errors ∷ rest) | err e ↦ err e | Result.panic ↦ panic ])
      ]

  unfoldable pub stop_group : Group S → S → S × Result Errors
  unfolding start_all wait_all done
  stop_group g s = let (s', r) = start_all g s in (s', finish r)

  -- The hooks of a list that are Stoppers; `stopper` is the type assertion.
  unfoldable pub add_stoppers : (Hook S → Option (StopFunc S)) → List (Hook S) → Group S → Group S
  unfolding add_func
  add_stoppers stopper [] g = g
  add_stoppers stopper (h ∷ hs) g = elim (stopper h) [
    | none ↦ add_stoppers stopper hs g
    | some f ↦ add_stoppers stopper hs (add_func f g)
  ]

  unfoldable pub stop_logic : (Hook S → Option (StopFunc S)) → Logic S → S → S × Result Errors
  unfolding add_stoppers stop_group
  stop_logic stopper l s =
      stop_group (add_stoppers stopper l.post_hooks (add_stoppers stopper l.pre_hooks new_group)) s
