-- ===== src/Middleware/Intervals.antt =====
-- The hook that varies the announce interval (middleware/varinterval/varinterval.go), with the
-- generator of middleware/pkg/random. YAML decoding and the registration are not modelled.
--
-- The probability is a float32, here an exact fraction, with 0 for one that is not positive. It is
-- taken to be no NaN. `v / 2^24` for `v` below 2^24 is exact in a float32.
pub mod Random
pub mod Ranges
use chihaya.Base.{
  ℕ, ◌+◌, ◌*◌, ◌^◌, ◌==◌, ltb, ◌||◌, Bool, true, false, codes, ℤ, pos, negsuc, ◌+ℤ◌, scale,
  is_negative, Error, internal_error, Result, ok, err, panic, guard, not, ◌>>=◌, ◌>>◌,
  if◌then◌else◌,
}
use chihaya.Bittorrent.{AnnounceRequest, AnnounceResponse}
use chihaya.Middleware.{Context, Hook}
use chihaya.Middleware.Intervals.Random.{derive_entropy, intn}

-- The probability is `numerator / denominator`; an increase that is not positive is written 0.
pub record Config : Type 0 where
  pub numerator : ℕ
  pub denominator : ℕ
  pub max_increase_delta : ℕ
  pub modify_min_interval : Bool

abbrev pub err_invalid_probability : Error
err_invalid_probability = internal_error (codes "invalid modify_response_probability")

abbrev pub err_invalid_max_increase_delta : Error
err_invalid_max_increase_delta = internal_error (codes "invalid max_increase_delta")

unfoldable pub check_config : Config → Result (Unit {0})
check_config cfg = do
  guard (not ((cfg.numerator == 0) || ltb cfg.denominator cfg.numerator)) err_invalid_probability
  guard (not (cfg.max_increase_delta == 0)) err_invalid_max_increase_delta

-- `p < probability`, for the fraction `p = v / 2^24`; a negative `v` is below it too.
unfoldable pub is_below : ℤ → Config → Bool
is_below (pos v) cfg = ltb (v * cfg.denominator) (cfg.numerator * 2 ^ 24)
is_below (negsuc v) cfg = true

unfoldable pub increase : Config → ℤ → AnnounceResponse → AnnounceResponse
increase cfg v resp =
    let delta = scale (v +ℤ pos 1) 1_000_000_000 in
    record resp {
      interval = resp.interval +ℤ delta;
      min_interval =
          if cfg.modify_min_interval then resp.min_interval +ℤ delta else resp.min_interval;
    }

unfoldable pub vary : Config → AnnounceRequest → AnnounceResponse → Result AnnounceResponse
unfolding is_below increase
vary cfg req resp = do
  let (s0, s1) = derive_entropy req
  (v, t0, t1) ← intn s0 s1 (2 ^ 24)
  if (cfg.numerator == cfg.denominator) || is_below v cfg
      then (do (w, _, _) ← intn t0 t1 cfg.max_increase_delta; ok (increase cfg w resp))
      else ok resp

module _ {S : Type 0} where
  unfoldable pub vary_announce :
      Config
      → S
      → Context
      → AnnounceRequest
      → AnnounceResponse
      → S × Result (Context × AnnounceRequest × AnnounceResponse)
  unfolding vary
  vary_announce cfg s ctx req resp = (s, (do resp' ← vary cfg req resp; ok (ctx, req, resp')))

  -- Scrapes are not altered.
  abbrev pub interval_hook : Config → Hook S
  interval_hook cfg = record {
    handle_announce = vary_announce cfg;
    handle_scrape = λ s ctx req resp. (s, ok (ctx, req, resp));
  }
