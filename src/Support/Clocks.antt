-- ===== src/Support/Clocks.antt =====
-- The cached clock (pkg/timecache/timecache.go): an int64 of nanoseconds, the two channels and what
-- happens to them. The ticker gives the times; the package's own cache is one of these.
pub mod Seconds
use chihaya.Base.{
  ℤ, negsuc, ◌+ℤ◌, neg, scale, quot, is_negative, Bool, true, false, List, [], ◌∷◌, Result, ok, err,
  panic, ◌>>=◌, if◌then◌else◌,
}

-- A channel is here whether it is closed.
pub record TimeCache : Type 0 where
  pub clock : ℤ
  pub closed : Bool
  pub running : Bool

unfoldable pub new : ℤ → TimeCache
new now = record { clock = now; closed = false; running = false }

-- The steps of a cache: a call of Run up to its loop, a tick that the loop takes, a call of Stop.
pub data Step : Type 0 where
  run : Step
  tick : ℤ → Step
  stop : Step

-- The loop takes a tick only once Run has started it. Where it finds the cache closed too, it may
-- take either; this is the turn where it takes the tick.
unfoldable pub step : Step → TimeCache → Result TimeCache
step run t = if t.running then panic else ok (record t { running = true })
step (tick now) t = if t.running then ok (record t { clock = now }) else ok t
step stop t = if t.closed then ok t else ok (record t { closed = true })

unfoldable pub steps : List Step → TimeCache → Result TimeCache
unfolding step
steps [] t = ok t
steps (x ∷ xs) t = do t' ← step x t; steps xs t'

abbrev pub now_unix_nano : TimeCache → ℤ
now_unix_nano t = t.clock

-- `sec := nsec / 1e9; nsec -= sec * 1e9; if nsec < 0 { sec-- }`
unfoldable pub unix_seconds : ℤ → ℤ
unix_seconds clock =
    let sec = quot clock 1_000_000_000 in
    let nsec = clock +ℤ neg (scale sec 1_000_000_000) in
    if is_negative nsec then sec +ℤ negsuc 0 else sec

unfoldable pub now_unix : TimeCache → ℤ
unfolding unix_seconds
now_unix t = unix_seconds t.clock
