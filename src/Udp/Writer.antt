-- ===== src/Udp/Writer.antt =====
-- Responses as UDP packets (frontend/udp/writer.go).
pub mod Sizes
use chihaya.Base.{
  bits64, quot, ℕ, ◌/◌, ◌%◌, ◌^◌, Bool, Bytes, codes, put_be, List, [], ◌∷◌, ◌++◌, Error,
  client_error, internal_error, if◌then◌else◌,
}
use chihaya.Bittorrent.{AnnounceResponse, ScrapeResponse, Scrape, Peer}
use chihaya.Bittorrent.Peers.{ip_bytes}
use chihaya.Udp.{
  connect_action_id, announce_action_id, scrape_action_id, error_action_id, announce_v6_action_id,
}

unfoldable pub write_header : Bytes → ℕ → Bytes
write_header tx_id action = put_be 4 action ++ tx_id

-- What the client is told: its own fault as it is, any other as an internal error.
unfoldable pub error_text : Error → Bytes
error_text (client_error m) = m
error_text (internal_error m) = codes "internal error occurred: " ++ m

unfoldable pub write_error : Bytes → Error → Bytes
unfolding write_header error_text
write_error tx_id e = write_header tx_id error_action_id ++ (error_text e ++ 0 ∷ [])

unfoldable pub write_peers : List Peer → Bytes
write_peers [] = []
write_peers (p ∷ ps) = ip_bytes p.ip.ip ++ (put_be 2 p.port ++ write_peers ps)

-- The interval is in whole seconds, as a uint32.
unfoldable pub write_announce : Bytes → AnnounceResponse → Bool → Bool → Bytes
unfolding write_header write_peers
write_announce tx_id resp v6_action v6_peers =
    write_header tx_id (if v6_action then announce_v6_action_id else announce_action_id)
    ++ (put_be 4 (bits64 (quot resp.interval 1_000_000_000) % 2 ^ 32)
        ++ (put_be 4 resp.incomplete
            ++ (put_be 4 resp.complete
                ++ write_peers (if v6_peers then resp.ipv6_peers else resp.ipv4_peers))))

unfoldable pub write_files : List Scrape → Bytes
write_files [] = []
write_files (c ∷ cs) =
    put_be 4 c.complete ++ (put_be 4 c.snatches ++ (put_be 4 c.incomplete ++ write_files cs))

unfoldable pub write_scrape : Bytes → ScrapeResponse → Bytes
unfolding write_header write_files
write_scrape tx_id resp = write_header tx_id scrape_action_id ++ write_files resp.files

unfoldable pub write_connection_id : Bytes → Bytes → Bytes
unfolding write_header
write_connection_id tx_id conn_id = write_header tx_id connect_action_id ++ conn_id
