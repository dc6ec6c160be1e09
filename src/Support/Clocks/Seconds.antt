-- ===== src/Support/Clocks/Seconds.antt =====
-- The whole seconds of the cached clock of pkg/timecache/timecache.go.
use chihaya.Base.{
  ℕ, ◌/◌, ◌^◌, ◌<◌, ◌≡◌, ℤ, pos, negsuc, ◌+ℤ◌, neg, scale, quot, signed64, bits64, arith,
}
use chihaya.Support.Clocks.{TimeCache, unix_seconds, now_unix}

-- The value of an int64.
abbrev pub IsInt64 : ℤ → Type 0
IsInt64 (pos n) = n < 2 ^ 63
IsInt64 (negsuc n) = n < 2 ^ 63

-- The quotient by a positive number, rounded down.
abbrev pub floor_div : ℤ → ℕ → ℤ
floor_div (pos n) d = pos (n / d)
floor_div (negsuc n) d = negsuc (n / d)

unix_seconds-floor_div : (c : ℤ) → IsInt64 c → unix_seconds c ≡ floor_div c 1_000_000_000
unfolding unix_seconds quot scale neg ◌+ℤ◌ signed64 bits64
unix_seconds-floor_div (pos n) h = ground arith
unix_seconds-floor_div (negsuc n) h = ground arith

-- The seconds since the epoch are those of the clock, an int64, rounded down, before the epoch too,
-- where the division of the machine rounds up; nothing overflows on the way.
pub now_unix-floor_div :
    (t : TimeCache) → IsInt64 t.clock → now_unix t ≡ floor_div t.clock 1_000_000_000
unfolding now_unix
now_unix-floor_div t h = unix_seconds-floor_div t.clock h
