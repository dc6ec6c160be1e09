-- ===== src/Udp/Configs.antt =====
-- The configuration of the UDP frontend (Config and Validate of frontend/udp/frontend.go, with the
-- defaults of parser.go). The warnings go to the log and are not modelled.
use chihaya.Base.{ℕ, ◌<◌, ◌==◌, ◌≡◌, Bool, Bytes, length, if◌then◌else◌, arith}
use chihaya.Udp.{ParseOptions}

abbrev pub default_max_num_want : ℕ
default_max_num_want = 100

abbrev pub default_default_num_want : ℕ
default_default_num_want = 50

abbrev pub default_max_scrape_info_hashes : ℕ
default_max_scrape_info_hashes = 50

-- `max_clock_skew` is in nanoseconds.
pub record Config : Type 0 where
  pub addr : Bytes
  pub private_key : Bytes
  pub max_clock_skew : ℕ
  pub enable_request_timing : Bool
  pub parse_options : ParseOptions

-- `x`, or the default for zero; the three limits are unsigned.
abbrev pub or_default : ℕ → ℕ → ℕ
or_default x d = if x == 0 then d else x

-- `generated` stands for the 64 letters and digits that are drawn at random for a missing key.
unfoldable pub validate : Bytes → Config → Config
validate generated cfg = record cfg {
  private_key = if length cfg.private_key == 0 then generated else cfg.private_key;
  parse_options = record (cfg.parse_options) {
    max_num_want = or_default cfg.parse_options.max_num_want default_max_num_want;
    default_num_want = or_default cfg.parse_options.default_num_want default_default_num_want;
    max_scrape_info_hashes =
        or_default cfg.parse_options.max_scrape_info_hashes default_max_scrape_info_hashes;
  };
}

or_default_twice : (x d : ℕ) → 0 < d → or_default (or_default x d) d ≡ or_default x d
or_default_twice x d h = ground arith

key_twice :
    (key generated other : Bytes)
    → 0 < length generated
    → (if length (if length key == 0 then generated else key) == 0
        then other
        else if length key == 0
        then generated
        else key)
      ≡ (if length key == 0 then generated else key)
key_twice key generated other h = ground arith

-- With a generated key that is not empty, a validated configuration has a key and positive limits;
-- to validate it again, with whatever key is generated then, changes nothing.
pub validate-validate :
    (generated other : Bytes) (cfg : Config)
    → 0 < length generated
    → (0 < length (validate generated cfg).private_key)
      × (0 < (validate generated cfg).parse_options.max_num_want)
      × (0 < (validate generated cfg).parse_options.default_num_want)
      × (0 < (validate generated cfg).parse_options.max_scrape_info_hashes)
      × (validate other (validate generated cfg) ≡ validate generated cfg)
unfolding validate
validate-validate generated other cfg h = (
  ground arith,
  ground arith,
  ground arith,
  ground arith,
  simp (
    key_twice cfg.private_key generated other h,
    or_default_twice cfg.parse_options.max_num_want 100 (omega arith),
    or_default_twice cfg.parse_options.default_num_want 50 (omega arith),
    or_default_twice cfg.parse_options.max_scrape_info_hashes 50 (omega arith),
  ),
)
