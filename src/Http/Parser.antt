-- ===== src/Http/Parser.antt =====
-- Announces and scrapes from HTTP requests (frontend/http/parser.go).
pub mod Announces
use Prim.Native.String.{String}
use chihaya.Base.{
  ℕ, ◌==◌, Bool, true, false, not, ◌&&◌, Bytes, codes, bytes_eq, length, List, [], ◌∷◌, Option,
  none, some, is_some, Error, client_error, internal_error, Result, ok, err, panic, guard, ◌>>=◌,
  ◌>>◌, if◌then◌else◌,
}
use chihaya.Bittorrent.{
  AnnounceRequest, ScrapeRequest, QueryParams, Event, none_event, ipv4, peer_id_from_string,
}
use chihaya.Bittorrent.Events.{new_event}
use chihaya.Bittorrent.Params.{
  parse_url_data, param_string, param_uint, or_empty, err_key_not_found,
}
use chihaya.Bittorrent.Sanitize.{sanitize_announce, sanitize_scrape}
use chihaya.Http.{ParseOptions, Request, Net}

-- What is said of a parameter that is missing or wrong.
abbrev pub failed : String → Error
failed m = client_error (codes m)

-- A client error in place of any error.
abbrev pub or_client_error {ℓ} : {A : Type ℓ} → Result A → String → Result A
or_client_error (ok a) m = ok a
or_client_error (err e) m = err (failed m)
or_client_error Result.panic m = panic

unfoldable pub parse_event : Option Bytes → Result Event
parse_event none = ok none_event
parse_event (some s) = or_client_error (new_event s) "failed to provide valid client event"

unfoldable pub is_compact : Bytes → Bool
is_compact s = not (bytes_eq s []) && not (bytes_eq s (codes "0"))

unfoldable pub only_hash : List Bytes → Result Bytes
only_hash [] = err (failed "no info_hash parameter supplied")
only_hash (h ∷ []) = ok h
only_hash (h ∷ i ∷ hs) = err (failed "multiple info_hash parameters supplied")

unfoldable pub parse_peer_id : Option Bytes → Result Bytes
parse_peer_id none = err (failed "failed to parse parameter: peer_id")
parse_peer_id (some s) = do
  guard (length s == 20) (failed "failed to provide valid peer_id")
  peer_id_from_string s

-- `errors.Is(err, ErrKeyNotFound)`
abbrev is_key_not_found : Error → Bool
is_key_not_found (client_error m) = false
is_key_not_found (internal_error m) =
    bytes_eq m (codes "query: value for the provided key does not exist")

-- The count, and whether it was provided.
unfoldable pub parse_num_want : Result ℕ → Result (ℕ × Bool)
parse_num_want (ok n) = ok (n, true)
parse_num_want (err e) =
    if is_key_not_found e then ok (0, false) else err (failed "failed to parse parameter: numwant")
parse_num_want Result.panic = panic

-- `requestedIP`, without the spoofed addresses.
unfoldable pub connection_ip : Net → Request → ParseOptions → Option Bytes
connection_ip net r opts =
    let named = r.header opts.real_ip_header in
    if not (bytes_eq opts.real_ip_header []) && not (bytes_eq named [])
    then net.parse_ip named
    else elim (net.split_host r.remote_addr) [
      | ok host ↦ net.parse_ip host
      | err e ↦ net.parse_ip []
      | Result.panic ↦ net.parse_ip []
    ]

-- The address, and whether the client provided it.
unfoldable pub requested_ip : Net → Request → QueryParams → ParseOptions → Option Bytes × Bool
unfolding connection_ip param_string
requested_ip net r p opts =
    if opts.allow_ip_spoofing
    then elim (param_string p (codes "ip")) [
      | some s ↦ (net.parse_ip s, true)
      | none ↦ elim (param_string p (codes "ipv4")) [
        | some s ↦ (net.parse_ip s, true)
        | none ↦ elim (param_string p (codes "ipv6")) [
          | some s ↦ (net.parse_ip s, true)
          | none ↦ (connection_ip net r opts, false)
        ]
      ]
    ]
    else (connection_ip net r opts, false)

unfoldable pub parse_announce : Net → Request → ParseOptions → Result AnnounceRequest
unfolding parse_event is_compact only_hash parse_peer_id parse_num_want requested_ip
parse_announce net r opts = do
  qp ← parse_url_data r.request_uri
  let event_str = param_string qp (codes "event")
  event ← parse_event event_str
  info_hash ← only_hash qp.info_hashes
  peer_id ← parse_peer_id (param_string qp (codes "peer_id"))
  left ← or_client_error (param_uint qp (codes "left") 64) "failed to parse parameter: left"
  downloaded ←
      or_client_error (param_uint qp (codes "downloaded") 64)
        "failed to parse parameter: downloaded"
  uploaded ←
      or_client_error (param_uint qp (codes "uploaded") 64) "failed to parse parameter: uploaded"
  num_want ← parse_num_want (param_uint qp (codes "numwant") 32)
  port ← or_client_error (param_uint qp (codes "port") 16) "failed to parse parameter: port"
  let ip = requested_ip net r qp opts
  guard (is_some ip.0) (failed "failed to parse peer IP address")
  sanitize_announce
      (record {
        event = event;
        info_hash = info_hash;
        compact = is_compact (or_empty (param_string qp (codes "compact")));
        event_provided = is_some event_str;
        num_want_provided = num_want.1;
        ip_provided = ip.1;
        num_want = num_want.0;
        left = left;
        downloaded = downloaded;
        uploaded = uploaded;
        peer = record {
          id = peer_id;
          ip = record { ip = ip.0; address_family = ipv4 };
          port = port;
        };
        params = qp;
      })
      opts.max_num_want opts.default_num_want

unfoldable pub parse_scrape : Request → ParseOptions → Result ScrapeRequest
parse_scrape r opts = do
  qp ← parse_url_data r.request_uri
  guard (not (length qp.info_hashes == 0)) (failed "no info_hash parameter supplied")
  ok (
      sanitize_scrape
        (record { address_family = ipv4; info_hashes = qp.info_hashes; params = some qp })
        opts.max_scrape_info_hashes)
