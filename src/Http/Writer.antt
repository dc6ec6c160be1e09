-- ===== src/Http/Writer.antt =====
-- Responses as bencoded dictionaries (frontend/http/writer.go).
--
-- `order` is the order in which a loop over a map meets its entries, which Go does not fix.
use Prim.Native.String.{String}
use chihaya.Base.{
  ℕ, ◌/◌, ◌%◌, ◌^◌, ◌==◌, Bytes, codes, length, List, [], ◌∷◌, ◌++◌, Error, client_error,
  internal_error, Result, ok, or_panic, ◌>>=◌, if◌then◌else◌,
}
use chihaya.Bittorrent.{AnnounceResponse, ScrapeResponse, Scrape, Peer}
use chihaya.Bittorrent.Peers.{to4, to16, ip_bytes}
use chihaya.Http.{Net}
use chihaya.Http.Bencode.{
  Value, byte_slice, text, uint, duration, list, dict, Items, nil, cons, Fields, end, field,
  marshal,
}
use chihaya.Http.Bencode.Decoder.{put}

-- Only a client error is shown to the client.
unfoldable pub error_message : Error → Bytes
error_message (client_error m) = m
error_message (internal_error m) = codes "internal server error"

-- The high and the low byte of a port.
abbrev pub port_bytes : ℕ → Bytes
port_bytes port = port / 2 ^ 8 % 256 ∷ port % 256 ∷ []

unfoldable pub compact4 : Peer → Result Bytes
compact4 p = do ip ← or_panic (to4 (ip_bytes p.ip.ip)); ok (ip ++ port_bytes p.port)

unfoldable pub compact6 : Peer → Result Bytes
compact6 p = do ip ← or_panic (to16 (ip_bytes p.ip.ip)); ok (ip ++ port_bytes p.port)

-- The loops that append each peer.
unfoldable pub compact_all : (Peer → Result Bytes) → List Peer → Result Bytes
compact_all compact [] = ok []
compact_all compact (p ∷ ps) = do b ← compact p; bs ← compact_all compact ps; ok (b ++ bs)

-- `if len(b) > 0 { bdict[key] = b }`
abbrev pub with_bytes : String → Bytes → Fields → Fields
with_bytes key b fs = if length b == 0 then fs else put (codes key) (byte_slice b) fs

module _ (net : Net) (order : Fields → Fields) where
  unfoldable pub write_error : Error → Result Bytes
  unfolding error_message
  write_error e =
      marshal (dict (order (field (codes "failure reason") (text (error_message e)) end)))

  -- `dict(peer)`
  unfoldable pub peer_dict : Peer → Value
  peer_dict p = dict (
      order (
        field (codes "peer id") (text p.id) (
          field (codes "ip") (text (net.ip_string (ip_bytes p.ip.ip)))
            (field (codes "port") (uint p.port) end))))

  unfoldable pub peer_dicts : List Peer → Items
  unfolding peer_dict
  peer_dicts [] = nil
  peer_dicts (p ∷ ps) = cons (peer_dict p) (peer_dicts ps)

  unfoldable pub response_fields : AnnounceResponse → Fields
  response_fields resp = field (codes "complete") (uint resp.complete) (
      field (codes "incomplete") (uint resp.incomplete) (
        field (codes "interval") (duration resp.interval)
          (field (codes "min interval") (duration resp.min_interval) end)))

  unfoldable pub announce_value : AnnounceResponse → Result Value
  unfolding compact_all compact4 compact6 put response_fields peer_dicts
  announce_value resp =
      let bdict = response_fields resp in
      let compacted = (do
        v4 ← compact_all compact4 resp.ipv4_peers
        v6 ← compact_all compact6 resp.ipv6_peers
        ok (dict (order (with_bytes "peers6" v6 (with_bytes "peers" v4 bdict))))) in
      if resp.compact
      then compacted
      else ok (
          dict (
            order
              (put (codes "peers") (list (peer_dicts (resp.ipv4_peers ++ resp.ipv6_peers))) bdict)))

  unfoldable pub write_announce_response : AnnounceResponse → Result Bytes
  unfolding announce_value
  write_announce_response resp = do v ← announce_value resp; marshal v

  -- The files so far are the first argument: of two scrapes of one infohash the later stays.
  unfoldable pub file_fields : Fields → List Scrape → Fields
  unfolding put
  file_fields acc [] = acc
  file_fields acc (c ∷ cs) =
      file_fields
        (put c.info_hash
          (dict (
            order (
              field (codes "complete") (uint c.complete)
                (field (codes "incomplete") (uint c.incomplete) end))))
          acc)
        cs

  unfoldable pub write_scrape_response : ScrapeResponse → Result Bytes
  unfolding file_fields
  write_scrape_response resp =
      marshal (dict (order (field (codes "files") (dict (order (file_fields end resp.files))) end)))
