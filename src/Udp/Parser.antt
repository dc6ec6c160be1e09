-- ===== src/Udp/Parser.antt =====
-- Announces and scrapes from UDP packets (frontend/udp/parser.go).
pub mod OptionalParameters
pub mod Announces
use chihaya.Base.{
  ℕ, zero, suc, ◌+◌, ◌-◌, ◌%◌, ◌==◌, ltb, leb, Bool, true, false, not, ◌&&◌, Bytes, be, bytes_eq,
  length, get_elem?, get_or, take, drop, List, [], ◌∷◌, ◌++◌, Option, none, some, is_some, Result,
  ok, err, panic, guard, or_panic, ◌>>=◌, ◌>>◌, if◌then◌else◌,
}
use chihaya.Bittorrent.{
  AnnounceRequest, ScrapeRequest, QueryParams, Peer, Ip, ipv4, info_hash_from_bytes,
  peer_id_from_bytes,
}
use chihaya.Bittorrent.Sanitize.{sanitize_announce, sanitize_scrape}
use chihaya.Bittorrent.Params.{parse_url_data}
use chihaya.Udp.{
  Request, ParseOptions, event_ids, err_malformed_packet, err_malformed_event, err_malformed_ip,
  err_unknown_option_type,
}

-- `b[lo:hi]` of a slice that is long enough.
abbrev pub slice : ℕ → ℕ → Bytes → Bytes
slice lo hi b = take (hi - lo) (drop lo b)

-- The loop of `handleOptionalParameters` over what is left of the packet, with the URL data so
-- far. Each round takes at least one byte, so the length of the packet is fuel enough; out of fuel
-- is a panic.
unfoldable pub read_options : ℕ → Bytes → Bytes → Result Bytes
read_options fuel [] buf = ok buf
read_options zero (option ∷ rest) buf = panic
read_options (suc fuel) (option ∷ rest) buf =
    let nop = read_options fuel rest buf in
    let data' : Result Bytes = elim rest [
      | [] ↦ err err_malformed_packet
      | len ∷ body ↦
          let next = read_options fuel (drop len body) (buf ++ take len body) in
          if ltb (length body) len then err err_malformed_packet else next
    ] in
    if option == 0
    then ok buf
    else if option == 1
    then nop
    else if option == 2
    then data'
    else err err_unknown_option_type

unfoldable pub handle_optional_parameters : Bytes → Result QueryParams
unfolding read_options
handle_optional_parameters packet = do
  url ← read_options (length packet) packet []
  parse_url_data url

-- `copy(dst, src)`: as many bytes as both have; a nil slice takes none.
unfoldable pub copy_into : Option Bytes → Bytes → Option Bytes
copy_into none src = none
copy_into (some dst) src = some (take (length dst) src ++ drop (length src) dst)

-- The address that is taken for the peer's.
unfoldable pub announce_ip : Request → Bytes → ParseOptions → Result (Option Bytes)
unfolding copy_into
announce_ip r ip_bytes opts =
    if opts.allow_ip_spoofing
    then ok (copy_into r.ip ip_bytes)
    else if is_some r.ip
    then ok r.ip
    else err err_malformed_ip

unfoldable pub parse_announce : Request → Bool → ParseOptions → Result AnnounceRequest
unfolding announce_ip
parse_announce r v6_action opts = do
  let ip_end : ℕ = 84 + (if v6_action then 16 else 4)
  guard (not (ltb (length r.packet) (ip_end + 10))) err_malformed_packet
  let event_id : ℕ = get_or r.packet 83 0
  guard (ltb event_id (length event_ids)) err_malformed_event
  event ← or_panic (get_elem? event_ids event_id)
  ip ← announce_ip r (slice 84 ip_end r.packet) opts
  params ← handle_optional_parameters (drop (ip_end + 10) r.packet)
  info_hash ← info_hash_from_bytes (slice 16 36 r.packet)
  peer_id ← peer_id_from_bytes (slice 36 56 r.packet)
  sanitize_announce
      (record {
        event = event;
        info_hash = info_hash;
        compact = false;
        event_provided = true;
        num_want_provided = true;
        ip_provided = opts.allow_ip_spoofing;
        num_want = be (slice (ip_end + 4) (ip_end + 8) r.packet);
        left = be (slice 64 72 r.packet);
        downloaded = be (slice 56 64 r.packet);
        uploaded = be (slice 72 80 r.packet);
        peer = record {
          id = peer_id;
          ip = record { ip = ip; address_family = ipv4 };
          port = be (slice (ip_end + 8) (ip_end + 10) r.packet);
        };
        params = params;
      })
      opts.max_num_want opts.default_num_want

-- The loop of `ParseScrape`: twenty bytes a round, so the length is fuel enough.
unfoldable pub read_hashes : ℕ → Bytes → Result (List Bytes)
read_hashes zero b = if leb 20 (length b) then panic else ok []
read_hashes (suc fuel) b =
    let more = (do
      ih ← info_hash_from_bytes (take 20 b)
      ihs ← read_hashes fuel (drop 20 b)
      ok (ih ∷ ihs)) in
    if leb 20 (length b) then more else ok []

unfoldable pub parse_scrape : Request → ParseOptions → Result ScrapeRequest
unfolding read_hashes
parse_scrape r opts = do
  guard (leb 36 (length r.packet)) err_malformed_packet
  let packet = drop 16 r.packet
  guard (length packet % 20 == 0) err_malformed_packet
  ihs ← read_hashes (length packet) packet
  ok (
      sanitize_scrape (record { address_family = ipv4; info_hashes = ihs; params = none })
        opts.max_scrape_info_hashes)
