-- ===== src/Http/Serving.antt =====
-- Starting and stopping the HTTP frontend (NewFrontend, Stop, handler, serveHTTP and serveHTTPS of
-- frontend/http/frontend.go).
--
-- The network is the parameter `Network` on the shared state, with the shutdown of a server; the
-- loading of the key pair is a parameter too. The goroutines that serve have set their servers when
-- Stop is called. What a server does with a connection is the HTTP library's.
pub mod Listeners
use chihaya.Base.{
  ℤ, ◌==◌, Bool, true, false, not, ◌&&◌, Bytes, length, List, [], ◌∷◌, ◌++◌, map, Option, none,
  some, Error, Result, ok, err, panic, ◌>>=◌, if◌then◌else◌,
}
use chihaya.Http.Configs.{Config, validate, check_config, is_empty}
use chihaya.Support.Stops.{Errors, StopFunc, Group, new_group, add_func, stop_group}

-- What `router.GET` is told.
pub data Route : Type 0 where
  announce_route : Bytes → Route
  scrape_route : Bytes → Route

-- The fields of an http.Server; a timeout that is not set is `none`.
pub record Server : Type 0 where
  pub addr : Bytes
  pub uses_tls : Bool
  pub routes : List Route
  pub read_timeout : ℤ
  pub write_timeout : ℤ
  pub idle_timeout : Option ℤ
  pub keep_alives : Bool

-- `uses_tls` says that there is a tlsCfg.
pub record Frontend : Type 0 where
  pub cfg : Config
  pub uses_tls : Bool

-- net.Listen, Close of a listener, and Shutdown of a server with its error.
pub record Network (N L : Type 0) : Type 0 where
  pub listen : N → Bytes → N × Result L
  pub close : N → L → N
  pub shutdown : Server → N → N × Option Error

unfoldable pub handler : Config → List Route
handler cfg = map announce_route cfg.announce_routes ++ map scrape_route cfg.scrape_routes

unfoldable pub serve_http : Frontend → Server
unfolding handler
serve_http f = record {
  addr = f.cfg.addr;
  uses_tls = false;
  routes = handler f.cfg;
  read_timeout = f.cfg.read_timeout;
  write_timeout = f.cfg.write_timeout;
  idle_timeout = some f.cfg.idle_timeout;
  keep_alives = f.cfg.enable_keep_alive;
}

-- Only here the idle timeout is not set.
unfoldable pub serve_https : Frontend → Server
unfolding handler
serve_https f = record {
  addr = f.cfg.https_addr;
  uses_tls = true;
  routes = handler f.cfg;
  read_timeout = f.cfg.read_timeout;
  write_timeout = f.cfg.write_timeout;
  idle_timeout = none;
  keep_alives = f.cfg.enable_keep_alive;
}

module _ {N L : Type 0} (net : Network N L) where
  -- A listener for an address that is not empty.
  unfoldable pub listen_on : Bytes → N → N × Result (Option L)
  listen_on addr n =
      if is_empty addr
      then (n, ok none)
      else ((net.listen n addr).0, (net.listen n addr).1 >>= λ l. ok (some l))

  abbrev pub close_if : Option L → N → N
  close_if none n = n
  close_if (some l) n = net.close n l

  -- The second listener; where it fails the first is closed.
  unfoldable pub listen_https : Config → Option L → N → N × Result (Option L × Option L)
  unfolding listen_on
  listen_https cfg first n =
      let (n', second) = listen_on cfg.https_addr n in
      elim second [
        | ok l ↦ (n', ok (first, l))
        | err e ↦ (close_if first n', err e)
        | Result.panic ↦ (n', panic)
      ]

  unfoldable pub listen_both : Config → N → N × Result (Option L × Option L)
  unfolding listen_on listen_https
  listen_both cfg n =
      let (n', first) = listen_on cfg.addr n in
      elim first [ ok l ↦ listen_https cfg l n' | err e ↦ (n', err e) | Result.panic ↦ (n', panic) ]

  abbrev pub started :
      Config → N × Result (Option L × Option L) → N × Result (Frontend × Option L × Option L)
  started cfg (n, ok (a, b)) = (
    n,
    ok (
      record {
        cfg = cfg;
        uses_tls = not (is_empty cfg.tls_cert_path) && not (is_empty cfg.tls_key_path);
      },
      a,
      b,
    ),
  )
  started cfg (n, err e) = (n, err e)
  started cfg (n, Result.panic) = (n, panic)

  -- The frontend, and the listeners that it serves.
  unfoldable pub new_frontend :
      (Bytes → Bytes → Result (Unit {0})) → Config → N → N × Result (Frontend × Option L × Option L)
  unfolding listen_both
  new_frontend load provided n =
      let cfg = validate provided in
      elim (check_config load cfg) [
        | ok _ ↦ started cfg (listen_both cfg n)
        | err e ↦ (n, err e)
        | Result.panic ↦ (n, panic)
      ]

  -- `makeStopFunc`: the channel gives the error of Shutdown, if there is one.
  unfoldable pub make_stop_func : Server → StopFunc N
  make_stop_func srv n =
      let (n', e) = net.shutdown srv n in
      elim e [ none ↦ (n', some []) | some x ↦ (n', some (some x ∷ [])) ]

  abbrev pub add_server : Option Server → Group N → Group N
  add_server none g = g
  add_server (some srv) g = add_func (make_stop_func srv) g

  -- `Frontend.Stop`, with the servers that run.
  unfoldable pub stop : Option Server → Option Server → N → N × Result Errors
  unfolding make_stop_func stop_group
  stop srv tls_srv n = stop_group (add_server tls_srv (add_server srv new_group)) n
