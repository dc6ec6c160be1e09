-- ===== src/Http/Configs.antt =====
-- The configuration of the HTTP frontend (Config, Validate and the checks of NewFrontend of
-- frontend/http/frontend.go, with the defaults of parser.go). Warnings are not modelled.
use chihaya.Base.{
  ℕ, ℤ, pos, positive_or, ◌==◌, ltb, Bool, not, ◌&&◌, ◌||◌, Bytes, codes, length, List,
  internal_error, Result, ok, guard, ◌>>◌, if◌then◌else◌,
}
use chihaya.Http.{ParseOptions}

-- The timeouts are in nanoseconds.
pub record Config : Type 0 where
  pub addr : Bytes
  pub https_addr : Bytes
  pub read_timeout : ℤ
  pub write_timeout : ℤ
  pub idle_timeout : ℤ
  pub enable_keep_alive : Bool
  pub tls_cert_path : Bytes
  pub tls_key_path : Bytes
  pub announce_routes : List Bytes
  pub scrape_routes : List Bytes
  pub enable_request_timing : Bool
  pub parse_options : ParseOptions

abbrev pub default_read_timeout : ℤ
default_read_timeout = pos 2_000_000_000

abbrev pub default_write_timeout : ℤ
default_write_timeout = pos 2_000_000_000

abbrev pub default_idle_timeout : ℤ
default_idle_timeout = pos 30_000_000_000

abbrev pub default_max_num_want : ℕ
default_max_num_want = 100

abbrev pub default_default_num_want : ℕ
default_default_num_want = 50

abbrev pub default_max_scrape_info_hashes : ℕ
default_max_scrape_info_hashes = 50

-- A limit, or the default for zero; the limits are unsigned.
abbrev pub limit_or : ℕ → ℕ → ℕ
limit_or n d = if n == 0 then d else n

unfoldable pub validate : Config → Config
validate cfg = record cfg {
  read_timeout = positive_or cfg.read_timeout default_read_timeout;
  write_timeout = positive_or cfg.write_timeout default_write_timeout;
  idle_timeout = positive_or cfg.idle_timeout default_idle_timeout;
  parse_options = record (cfg.parse_options) {
    max_num_want = limit_or cfg.parse_options.max_num_want default_max_num_want;
    default_num_want = limit_or cfg.parse_options.default_num_want default_default_num_want;
    max_scrape_info_hashes =
        limit_or cfg.parse_options.max_scrape_info_hashes default_max_scrape_info_hashes;
  };
}

abbrev pub is_empty : Bytes → Bool
is_empty s = length s == 0

-- What `NewFrontend` refuses, given whether the key pair loads: `load` is tls.LoadX509KeyPair.
unfoldable pub check_config : (Bytes → Bytes → Result (Unit {0})) → Config → Result (Unit {0})
check_config load cfg =
    let tls = not (is_empty cfg.tls_cert_path) && not (is_empty cfg.tls_key_path) in
    let https = not (is_empty cfg.https_addr) in
    do
      guard (not (is_empty cfg.addr && is_empty cfg.https_addr))
          (internal_error (codes "must specify addr or https_addr or both"))
      guard (not (ltb (length cfg.announce_routes) 1 || ltb (length cfg.scrape_routes) 1))
          (internal_error (codes "must specify routes"))
      if tls then load cfg.tls_cert_path cfg.tls_key_path else ok tt
      guard (not (https && not tls)) (
          internal_error
            (codes "must specify tls_cert_path and tls_key_path when using https_addr"))
      guard (not (not https && tls)) (
          internal_error
            (codes "must specify https_addr when using tls_cert_path and tls_key_path"))
