-- ===== src/Udp/Frontend.antt =====
-- The handler of a UDP packet (handleRequest of frontend/udp/frontend.go). The socket and the
-- goroutines are not modelled: a reply is returned, and so is the call of the tracker logic that
-- the code starts with `go` after it.
pub mod Admission
pub mod Connecting
use chihaya.Base.{
  ℕ, ◌==◌, ltb, Bool, true, false, not, ◌&&◌, Bytes, be, bytes_eq, length, take, drop, Option, none,
  some, Error, Result, ok, err, panic, guard, is_some, if◌then◌else◌,
}
use chihaya.Bittorrent.{
  AnnounceRequest, AnnounceResponse, ScrapeRequest, ScrapeResponse, AddressFamily, ipv4, ipv6,
}
use chihaya.Bittorrent.Peers.{to4, ip_bytes}
use chihaya.Middleware.{Context, Logic, handle_announce, handle_scrape}
use chihaya.Udp.{
  ParseOptions, Request, connect_action_id, announce_action_id, scrape_action_id,
  announce_v6_action_id, initial_connection_id, err_malformed_packet, err_bad_connection_id,
  err_unknown_action,
}
use chihaya.Udp.Parser.{parse_announce, parse_scrape, slice}
use chihaya.Udp.Writer.{write_error, write_announce, write_scrape, write_connection_id}
use chihaya.Udp.ConnectionIds.{generate, validate}

-- What is left to run after the reply.
pub data After : Type 0 where
  no_after : After
  after_announce : Context → AnnounceRequest → AnnounceResponse → After
  after_scrape : Context → ScrapeRequest → ScrapeResponse → After

-- The shared state, the packet sent back, what is to run next, and the error that is returned.
pub record Served (S : Type 0) : Type 0 where
  pub state : S
  pub reply : Option Bytes
  pub after : After
  pub outcome : Result (Unit {0})

-- The family of a source address; any other length panics.
unfoldable pub source_family : Option Bytes → Option AddressFamily
source_family ip =
    if is_some (to4 (ip_bytes ip))
    then some ipv4
    else if length (ip_bytes ip) == 16
    then some ipv6
    else none

abbrev pub is_v6 : AddressFamily → Bool
is_v6 ipv6 = true
is_v6 _ = false

module _ {S : Type 0} where
  abbrev pub crashed : S → Served S
  crashed s = record { state = s; reply = none; after = no_after; outcome = panic }

  abbrev pub dropped : S → Error → Served S
  dropped s e = record { state = s; reply = none; after = no_after; outcome = err e }

  unfoldable pub refused : S → Bytes → Error → Served S
  refused s tx_id e = record {
    state = s;
    reply = some (write_error tx_id e);
    after = no_after;
    outcome = err e;
  }

  unfoldable pub serve_connect : (Bytes → Bytes) → S → Request → ℕ → Served S
  serve_connect mac s r now =
      if not (bytes_eq (take 8 r.packet) initial_connection_id)
      then dropped s err_malformed_packet
      else elim (source_family r.ip) [
        | none ↦ crashed s
        | some af ↦ record {
          state = s;
          reply =
              some (write_connection_id (slice 12 16 r.packet) (generate mac (ip_bytes r.ip) now));
          after = no_after;
          outcome = ok tt;
        }
      ]

  unfoldable pub serve_announce : Logic S → Context → S → Request → Bool → ParseOptions → Served S
  serve_announce logic ctx s r v6_action opts =
      let tx_id = slice 12 16 r.packet in
      elim (parse_announce r v6_action opts) [
        | err e ↦ refused s tx_id e
        | Result.panic ↦ crashed s
        | ok req ↦
            let (s', handled) = handle_announce logic s ctx req in
            elim handled [
              | err e ↦ refused s' tx_id e
              | Result.panic ↦ crashed s'
              | ok (ctx', req', resp) ↦ record {
                state = s';
                reply =
                    some
                      (write_announce tx_id resp v6_action (is_v6 (req'.peer.ip.address_family)));
                after = after_announce ctx' req' resp;
                outcome = ok tt;
              }
            ]
      ]

  unfoldable pub serve_scrape : Logic S → Context → S → Request → ParseOptions → Served S
  serve_scrape logic ctx s r opts =
      let tx_id = slice 12 16 r.packet in
      elim (parse_scrape r opts) [
        | err e ↦ refused s tx_id e
        | Result.panic ↦ crashed s
        | ok req ↦ elim (source_family r.ip) [
          | none ↦ crashed s
          | some af ↦
              let (s', handled) = handle_scrape logic s ctx (record {
                address_family = af;
                info_hashes = req.info_hashes;
                params = req.params;
              }) in
              elim handled [
                | err e ↦ refused s' tx_id e
                | Result.panic ↦ crashed s'
                | ok (ctx', req', resp) ↦ record {
                  state = s';
                  reply = some (write_scrape tx_id resp);
                  after = after_scrape ctx' req' resp;
                  outcome = ok tt;
                }
              ]
        ]
      ]

  -- `mac` is the keyed hash of the tracker's private key, `ctx` is context.Background().
  unfoldable pub handle_request :
      (Bytes → Bytes) → Logic S → Context → S → Request → ℕ → ℕ → ParseOptions → Served S
  unfolding serve_connect serve_announce serve_scrape refused
  handle_request mac logic ctx s r now max_clock_skew opts =
      let conn_id = take 8 r.packet in
      let action_id = be (slice 8 12 r.packet) in
      let tx_id = slice 12 16 r.packet in
      if ltb (length r.packet) 16
      then dropped s err_malformed_packet
      else if not (action_id == connect_action_id)
          && not (validate mac conn_id (ip_bytes r.ip) now max_clock_skew)
      then refused s tx_id err_bad_connection_id
      else if action_id == connect_action_id
      then serve_connect mac s r now
      else if action_id == announce_action_id
      then serve_announce logic ctx s r false opts
      else if action_id == announce_v6_action_id
      then serve_announce logic ctx s r true opts
      else if action_id == scrape_action_id
      then serve_scrape logic ctx s r opts
      else refused s tx_id err_unknown_action
