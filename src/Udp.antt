-- ===== src/Udp.antt =====
-- The UDP frontend (frontend/udp): its constants, requests and options. The child modules model
-- the configuration, parser.go, writer.go, connection_id.go and the handler of frontend.go.
pub mod Configs
pub mod Parser
pub mod Writer
pub mod ConnectionIds
pub mod Frontend
pub mod Serving
pub mod Sockets
use chihaya.Base.{ℕ, Bool, Bytes, codes, List, [], ◌∷◌, Option, Error, client_error}
use chihaya.Bittorrent.{Event, none_event, started, stopped, completed}

abbrev pub connect_action_id : ℕ
connect_action_id = 0

abbrev pub announce_action_id : ℕ
announce_action_id = 1

abbrev pub scrape_action_id : ℕ
scrape_action_id = 2

abbrev pub error_action_id : ℕ
error_action_id = 3

abbrev pub announce_v6_action_id : ℕ
announce_v6_action_id = 4

abbrev pub initial_connection_id : Bytes
initial_connection_id = 0 ∷ 0 ∷ 0x04 ∷ 0x17 ∷ 0x27 ∷ 0x10 ∷ 0x19 ∷ 0x80 ∷ []

abbrev pub event_ids : List Event
event_ids = none_event ∷ completed ∷ started ∷ stopped ∷ []

abbrev pub err_malformed_packet : Error
err_malformed_packet = client_error (codes "malformed packet")

abbrev pub err_malformed_ip : Error
err_malformed_ip = client_error (codes "malformed IP address")

abbrev pub err_malformed_event : Error
err_malformed_event = client_error (codes "malformed event ID")

abbrev pub err_unknown_action : Error
err_unknown_action = client_error (codes "unknown action ID")

abbrev pub err_bad_connection_id : Error
err_bad_connection_id = client_error (codes "bad connection ID")

abbrev pub err_unknown_option_type : Error
err_unknown_option_type = client_error (codes "unknown option type")

pub record ParseOptions : Type 0 where
  pub allow_ip_spoofing : Bool
  pub max_num_want : ℕ
  pub default_num_want : ℕ
  pub max_scrape_info_hashes : ℕ

-- A packet and the address it came from; `none` is a nil address.
pub record Request : Type 0 where
  pub packet : Bytes
  pub ip : Option Bytes
