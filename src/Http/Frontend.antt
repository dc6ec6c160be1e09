-- ===== src/Http/Frontend.antt =====
-- The routes of the HTTP frontend (announceRoute and scrapeRoute of frontend/http/frontend.go). A
-- route returns what it wrote, and the call of the tracker logic that it starts with `go`. The
-- measured times are not modelled.
use chihaya.Base.{
  ◌==◌, false, Bytes, length, List, Option, none, some, is_some, Error, Result, ok, err, panic,
  if◌then◌else◌,
}
use chihaya.Bittorrent.{
  AddressFamily, ipv4, ipv6, AnnounceRequest, AnnounceResponse, ScrapeRequest, ScrapeResponse,
}
use chihaya.Bittorrent.Peers.{to4, ip_bytes}
use chihaya.Bittorrent.Sanitize.{err_invalid_ip}
use chihaya.Middleware.{Context, Logic, handle_announce, handle_scrape}
use chihaya.Http.{Request, ParseOptions, Net}
use chihaya.Http.Bencode.{Fields}
use chihaya.Http.Parser.{parse_announce, parse_scrape}
use chihaya.Http.Writer.{write_error, write_announce_response, write_scrape_response}

-- What is left to run after the response.
pub data After : Type 0 where
  no_after : After
  after_announce : Context → AnnounceRequest → AnnounceResponse → After
  after_scrape : Context → ScrapeRequest → ScrapeResponse → After

-- The shared state, the body that was written (a Go panic writes none), and what is to run next.
pub record Served (S : Type 0) : Type 0 where
  pub state : S
  pub body : Result Bytes
  pub after : After

-- `context.Background()` with the parameters of the route.
abbrev pub inject_route_params : List (Bytes × Bytes) → Context
inject_route_params ps = record {
  skip_swarm_interaction = false;
  skip_response_hook = false;
  route_params = ps;
  payload = none;
}

-- The family of a remote address.
unfoldable pub remote_family : Option Bytes → Option AddressFamily
remote_family ip =
    if is_some (to4 (ip_bytes ip))
    then some ipv4
    else if length (ip_bytes ip) == 16
    then some ipv6
    else none

module _ {S : Type 0} (net : Net) (order : Fields → Fields) where
  abbrev pub failed : S → Error → Served S
  failed s e = record { state = s; body = write_error net order e; after = no_after }

  abbrev pub crashed : S → Served S
  crashed s = record { state = s; body = panic; after = no_after }

  -- A response that cannot be written is replaced by an error.
  abbrev pub answer : S → Result Bytes → After → Served S
  answer s (ok b) after = record { state = s; body = ok b; after = after }
  answer s (err e) after = failed s e
  answer s Result.panic after = crashed s

  unfoldable pub announce_route :
      Logic S → S → Request → List (Bytes × Bytes) → ParseOptions → Served S
  announce_route logic s r ps opts = elim (parse_announce net r opts) [
    | err e ↦ failed s e
    | Result.panic ↦ crashed s
    | ok req ↦
        let (s', handled) = handle_announce logic s (inject_route_params ps) req in
        elim handled [
          | err e ↦ failed s' e
          | Result.panic ↦ crashed s'
          | ok (ctx', req', resp) ↦
              answer s' (write_announce_response net order resp) (after_announce ctx' req' resp)
        ]
  ]

  unfoldable pub scrape_as :
      Logic S → S → List (Bytes × Bytes) → ScrapeRequest → AddressFamily → Served S
  scrape_as logic s ps req af =
      let (s', handled) =
        handle_scrape logic s (inject_route_params ps)
          (record { address_family = af; info_hashes = req.info_hashes; params = req.params }) in
      elim handled [
        | err e ↦ failed s' e
        | Result.panic ↦ crashed s'
        | ok (ctx', req', resp) ↦
            answer s' (write_scrape_response net order resp) (after_scrape ctx' req' resp)
      ]

  unfoldable pub scrape_route :
      Logic S → S → Request → List (Bytes × Bytes) → ParseOptions → Served S
  unfolding scrape_as remote_family
  scrape_route logic s r ps opts = elim (parse_scrape r opts) [
    | err e ↦ failed s e
    | Result.panic ↦ crashed s
    | ok req ↦ elim (net.split_host r.remote_addr) [
      | err e ↦ failed s e
      | Result.panic ↦ crashed s
      | ok host ↦ elim (remote_family (net.parse_ip host)) [
        | none ↦ failed s err_invalid_ip
        | some af ↦ scrape_as logic s ps req af
      ]
    ]
  ]
