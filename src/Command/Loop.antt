-- ===== src/Command/Loop.antt =====
-- The loop of the command (RootRunCmdFunc of cmd/chihaya/main.go). Its signals are the sequence in
-- which `select` takes them; a reload that is once asked for can be taken again at every turn.
pub mod Store
use chihaya.Base.{false, List, [], ◌∷◌, Option, none, some, Error, Result, ok, err, panic}
use chihaya.Command.{Parts, Run, new_run, stop, reload}

pub data Signal : Type 0 where
  reload_signal : Signal
  shutdown_signal : Signal

module _ {W H U O P Y : Type 0} (parts : Parts W H U O P Y) where
  -- A shutdown gives no store.
  abbrev pub ended : W × Run W P × Result (Option P) → W × Run W P × Option (Result (Unit {0}))
  ended (w, r, ok _) = (w, r, some (ok tt))
  ended (w, r, err e) = (w, r, some (err e))
  ended (w, r, Result.panic) = (w, r, some panic)

  -- `none` is a loop that waits for the next signal.
  unfoldable pub root_loop : List Signal → W → Run W P → W × Run W P × Option (Result (Unit {0}))
  root_loop [] w r = (w, r, none)
  root_loop (shutdown_signal ∷ more) w r = ended (stop parts false w r)
  root_loop (reload_signal ∷ more) w r =
      let (w', r', reloaded) = reload parts w r in
      elim reloaded [
        | ok _ ↦ root_loop more w' r'
        | err e ↦ (w', r', some (err e))
        | Result.panic ↦ (w', r', some panic)
      ]

  unfoldable pub root_run : List Signal → W → W × Run W P × Option (Result (Unit {0}))
  unfolding root_loop
  root_run signals w =
      let (w', r, started) = new_run parts w in
      elim started [
        | ok _ ↦ root_loop signals w' r
        | err e ↦ (w', r, some (err e))
        | Result.panic ↦ (w', r, some panic)
      ]
