-- ===== src/Middleware/Intervals/Ranges.antt =====
-- By how much the interval hook changes a response (middleware/varinterval/varinterval.go).
use chihaya.Base.{
  ℕ, suc, ◌+◌, ◌*◌, ◌^◌, ◌%◌, ◌<◌, ◌≤◌, ◌==◌, ◌||◌, ltb, ◌≡◌, ◌≢◌, ◌⊎◌, inl, inr, ℤ, pos, minus,
  ◌+ℤ◌, scale, signed64, bits64, pos-+ℤ-pos, not, guard, ok, >>=-eq-ok, if◌then◌else◌, arith,
  Bool-cases,
}
use chihaya.Bittorrent.{AnnounceRequest, AnnounceResponse}
use chihaya.Middleware.Intervals.{Config, check_config, is_below, increase, vary}
use chihaya.Middleware.Intervals.Random.{derive_entropy, generate_and_advance, intn, intn-range}

-- The number drawn for the increase.
abbrev pub second_draw : AnnounceRequest → ℕ
second_draw req =
    let (s0, s1) = derive_entropy req in
    let (_, t0, t1) = generate_and_advance s0 s1 in (generate_and_advance t0 t1).0

-- The response with `k` seconds more.
abbrev pub increased : Config → ℕ → ℕ → ℕ → AnnounceResponse → AnnounceResponse
increased cfg i m k resp = record resp {
  interval = pos (i + k * 1_000_000_000);
  min_interval = if cfg.modify_min_interval then pos (m + k * 1_000_000_000) else pos m;
}

check_config-positive : (cfg : Config) → check_config cfg ≡ ok tt → 0 < cfg.max_increase_delta
unfolding check_config
check_config-positive cfg h =
    let (_, _, h') =
      >>=-eq-ok (guard (not ((cfg.numerator == 0) || ltb cfg.denominator cfg.numerator)) _) _ h in
    ground arith

delta_lem :
    (k : ℕ)
    → suc k * 1_000_000_000 < 2 ^ 63
    → scale (pos k +ℤ pos 1) 1_000_000_000 ≡ pos (suc k * 1_000_000_000)
unfolding scale ◌+ℤ◌ signed64 bits64
delta_lem k h = ground arith

first_draw :
    (s0 s1 : ℕ)
    → let (_, t0, t1) = generate_and_advance s0 s1 in
      (v : ℤ) × (intn s0 s1 (2 ^ 24) ≡ ok (v, t0, t1))
first_draw s0 s1 = elim (intn-range s0 s1 (2 ^ 24) (omega arith)) [
  | inl (k, l, e) ↦ (pos k, e)
  | inr (x, e) ↦ (minus (2 ^ 63 % 2 ^ 24), e)
]

increase_lem :
    (cfg : Config) (i m k : ℕ) (resp : AnnounceResponse)
    → resp.interval ≡ pos i
    → resp.min_interval ≡ pos m
    → i + suc k * 1_000_000_000 < 2 ^ 63
    → m + suc k * 1_000_000_000 < 2 ^ 63
    → increase cfg (pos k) resp ≡ increased cfg i m (suc k) resp
unfolding increase
increase_lem cfg i m k resp ei em li lm = simp (
  delta_lem k (omega arith),
  ei,
  em,
  pos-+ℤ-pos i (suc k * 1_000_000_000) li,
  pos-+ℤ-pos m (suc k * 1_000_000_000) lm,
)

-- With a valid configuration, and with intervals that are not negative and leave room for the
-- largest increase in an int64, a response is left alone or its interval grows by at least one second
-- and at most the configured number, and its minimal interval by as much if that is configured.
-- The number drawn for the increase must not be 2^63.
pub vary-range :
    (cfg : Config) (req : AnnounceRequest) (resp : AnnounceResponse) (i m : ℕ)
    → check_config cfg ≡ ok tt
    → resp.interval ≡ pos i
    → resp.min_interval ≡ pos m
    → i + cfg.max_increase_delta * 1_000_000_000 < 2 ^ 63
    → m + cfg.max_increase_delta * 1_000_000_000 < 2 ^ 63
    → second_draw req ≢ 2 ^ 63
    → (vary cfg req resp ≡ ok resp)
      ⊎ ((k : ℕ) × (0 < k)
          × (k ≤ cfg.max_increase_delta)
          × (vary cfg req resp ≡ ok (increased cfg i m k resp)))
unfolding vary
vary-range cfg req resp i m c ei em li lm d =
    let (s0, s1) = derive_entropy req in
    let (x, t0, t1) = generate_and_advance s0 s1 in
    let (v, e) = first_draw s0 s1 in
    elim (Bool-cases ((cfg.numerator == cfg.denominator) || is_below v cfg)) [
      | inr f ↦ inl (simp (e, f))
      | inl f ↦ elim (intn-range t0 t1 cfg.max_increase_delta (check_config-positive cfg c)) [
        | inr (y, _) ↦ absurd (d y)
        | inl (k, l, g) ↦ inr (
          suc k,
          omega arith,
          l,
          simp (e, f, g, increase_lem cfg i m k resp ei em (omega arith) (omega arith)),
        )
      ]
    ]
