-- ===== src/Tests/Starting.antt =====
-- Starting, reloading and stopping on small data, and the clock before the epoch.
use chihaya.Base.{
  ℕ, ◌+◌, ◌≡◌, refl, ap, drop, pos, Bool, Error, Result, Bytes, bytes_eq, codes, List, [], ◌∷◌,
  Option, none, some, negsuc, true, false, client_error, ok, err, arith,
}
use chihaya.Base.Dict.{lookup}
use chihaya.Http.Configs.{validate, check_config}
use chihaya.Http.Configs
use chihaya.Command.{Config, Parts, Run, reload}
use chihaya.Command.Loop.{reload_signal, shutdown_signal, root_loop}
use chihaya.Command.Loop.Store.{Holds, root_loop-Holds}
use chihaya.Http.Serving.{Network, new_frontend, listen_both, listen_https, listen_on}
use chihaya.Http.Serving.Listeners.{Laws, Opens, new_frontend-Opens}
use chihaya.Middleware.{Hook, Logic, new_logic}
use chihaya.Support.Clocks.{now_unix}
use chihaya.Support.Clocks.Seconds.{floor_div, now_unix-floor_div}
use chihaya.Support.Registries.{HookConfig, hooks_from_configs, err_no_middleware_driver}
use chihaya.Support.Registries.Configured.{AreHooksOf, hooks_from_configs-AreHooksOf}
use chihaya.Support.Stops.{Errors, StopFunc, stop_group, stop_logic}

-- Half a second before the epoch.
now_unix-floor_div_example :
    now_unix (record { clock = negsuc 499_999_999; closed = false; running = true })
    ≡ floor_div (negsuc 499_999_999) 1_000_000_000
now_unix-floor_div_example =
    now_unix-floor_div (record { clock = negsuc 499_999_999; closed = false; running = true })
      (omega arith)

abbrev hook : Hook ℕ
hook = record {
  handle_announce = λ s ctx req resp. (s, ok (ctx, req, resp));
  handle_scrape = λ s ctx req resp. (s, ok (ctx, req, resp));
}

abbrev logic : Logic ℕ
logic = record {
  announce_interval = pos 0;
  min_announce_interval = pos 0;
  pre_hooks = hook ∷ [];
  post_hooks = hook ∷ [];
}

abbrev lost : Errors
lost = some (client_error (codes "lost")) ∷ none ∷ []

-- Stopping is counted, and gives two errors of which the second is nil.
abbrev counting : Hook ℕ → Option (StopFunc ℕ)
counting h = some (λ s. (s + 1, some lost))

abbrev configs : List (HookConfig ℕ)
configs = record { name = codes "a"; options = 1 } ∷ record { name = codes "b"; options = 2 } ∷ []

-- The second name is that of no driver.
hooks_from_configs-AreHooksOf_example :
    let (hs, r) =
      hooks_from_configs {C = ℕ} {V = ℕ} {O = ℕ}
        (λ o. ok o)
        configs
        ((codes "a", λ c. ok (c + 10)) ∷ []) in
    AreHooksOf {C = ℕ} {V = ℕ} {O = ℕ} (λ o. ok o) ((codes "a", λ c. ok (c + 10)) ∷ []) configs hs r
hooks_from_configs-AreHooksOf_example =
    hooks_from_configs-AreHooksOf {C = ℕ} {V = ℕ} {O = ℕ} (λ o. ok o)
      ((codes "a", λ c. ok (c + 10)) ∷ []) configs

one_hook :
    hooks_from_configs {C = ℕ} {V = ℕ} {O = ℕ}
      (λ o. ok o)
      configs
      ((codes "a", λ c. ok (c + 10)) ∷ [])
    ≡ (11 ∷ [], err err_no_middleware_driver)
unfolding hooks_from_configs lookup bytes_eq
one_hook = refl

abbrev config : Config ℕ Bytes Bytes ℕ
config = record {
  response_config = record { announce_interval = pos 0; min_announce_interval = pos 0 };
  metrics_addr = codes ":6880";
  http_config = codes ":6969";
  udp_config = [];
  storage_name = codes "memory";
  storage_config = 0;
  pre_hooks = [];
  post_hooks = [];
}

-- A stop adds one to the state.
abbrev quietly : StopFunc ℕ
quietly s = (s + 1, some [])

abbrev parts : Parts ℕ Bytes Bytes ℕ ℕ ℕ
parts = record {
  parse_config_file = λ w. ok config;
  new_metrics = λ addr w. (w, quietly);
  store_drivers = [];
  hook_drivers = [];
  marshal = λ o. ok o;
  store_stop = λ ps. quietly;
  response_hook = λ ps. hook;
  swarm_hook = λ ps. hook;
  stopper = λ h. none;
  http_addr = λ h. h;
  udp_addr = λ u. u;
  http_frontend = λ l cfg w. (w, ok quietly);
  udp_frontend = λ l cfg w. (w, ok quietly);
}

abbrev running : Run ℕ ℕ
running = record { peer_store = some 42; logic = some logic; group = quietly ∷ quietly ∷ [] }

abbrev reloaded : Run ℕ ℕ
reloaded = record { peer_store = some 42; logic = some logic; group = quietly ∷ quietly ∷ [] }

-- The open addresses are the state, and one address is taken.
abbrev listened : Bool → Bytes → List Bytes → List Bytes × Result Bytes
listened true addr n = (n, err (client_error (codes "address already in use")))
listened false addr n = (addr ∷ n, ok addr)

abbrev network : Network (List Bytes) Bytes
network = record {
  listen = λ n addr. listened (bytes_eq addr (codes ":80")) addr n;
  close = λ n l. drop 1 n;
  shutdown = λ srv n. (drop 1 n, none);
}

abbrev frontend_config : Configs.Config
frontend_config = record {
  addr = codes ":6969";
  https_addr = codes ":80";
  read_timeout = pos 0;
  write_timeout = pos 0;
  idle_timeout = pos 0;
  enable_keep_alive = true;
  tls_cert_path = codes "c";
  tls_key_path = codes "k";
  announce_routes = codes "/announce" ∷ [];
  scrape_routes = codes "/scrape" ∷ [];
  enable_request_timing = false;
  parse_options = record {
    allow_ip_spoofing = false;
    real_ip_header = [];
    max_num_want = 0;
    default_num_want = 0;
    max_scrape_info_hashes = 0;
  };
}

-- The second address is taken: the first listener is closed again.
second_is_taken :
    new_frontend network (λ c k. ok tt) frontend_config []
    ≡ ([], err (client_error (codes "address already in use")))
unfolding new_frontend validate check_config listen_both listen_https listen_on bytes_eq
second_is_taken = refl

listened-ok :
    (b : Bool) (addr l : Bytes) (n : List Bytes)
    → (listened b addr n).1 ≡ ok l
    → ((listened b addr n).0 ≡ l ∷ n) × (l ≡ addr)
listened-ok true addr l n h = absurd (grind arith)
listened-ok false addr l n h = (grind arith, grind arith)

listened-err :
    (b : Bool) (addr : Bytes) (x : Error) (n : List Bytes)
    → (listened b addr n).1 ≡ err x
    → (listened b addr n).0 ≡ n
listened-err true addr x n h = refl
listened-err false addr x n h = grind arith

laws : Laws network
laws = record {
  listeners = λ n. n;
  address_of = λ l. l;
  listen_ok = λ n addr l h. listened-ok (bytes_eq addr (codes ":80")) addr l n h;
  listen_err = λ n addr x h. listened-err (bytes_eq addr (codes ":80")) addr x n h;
  close_last = λ n l rest h. ap (λ x. drop 1 x) h;
}

new_frontend-Opens_example :
    Opens network laws
      (validate frontend_config)
      []
      (new_frontend network (λ c k. ok tt) frontend_config [])
new_frontend-Opens_example = new_frontend-Opens network laws (λ c k. ok tt) frontend_config []

abbrev closed : Run ℕ ℕ
closed = record { peer_store = none; logic = some logic; group = quietly ∷ quietly ∷ [] }

-- Two reloads count two stops each, and the shutdown three.
runs_and_ends :
    root_loop parts (reload_signal ∷ reload_signal ∷ shutdown_signal ∷ []) 0 running
    ≡ (7, closed, some (ok tt))
unfolding root_loop reload stop_group stop_logic hooks_from_configs new_logic
runs_and_ends = refl

root_loop-Holds_example :
    Holds parts 42
      (root_loop parts (reload_signal ∷ reload_signal ∷ shutdown_signal ∷ []) 0 running)
root_loop-Holds_example =
    root_loop-Holds parts (reload_signal ∷ reload_signal ∷ shutdown_signal ∷ []) 0 running 42 refl
