-- ===== src/Tests/Bencoding.antt =====
-- A response in bencode, and an announce over HTTP.
use chihaya.Base.{
  format_uint, format_int, quot, Bytes, subst, sym, ◌∙◌, ok-injective, ◌^◌, ◌<◌, ◌≤◌, ◌≡◌, ◌≢◌, ◌⊎◌,
  refl, true, false, bytes_eq, codes, [], ◌∷◌, ◌++◌, length, none, some, pos, Result, ok, err,
  ◌>>=◌, arith, take, if◌then◌else◌, parse_uint, parse_int,
}
use chihaya.Base.Dict.{lookup, insert}
use chihaya.Bittorrent.{
  AnnounceRequest, QueryParams, info_hash_from_string, peer_id_from_string, started,
}
use chihaya.Bittorrent.Events.{new_event, to_lower}
use chihaya.Bittorrent.Params.{
  parse_url_data, parse_query, parse_pairs, parse_pair, add_param, cut, pieces, query_unescape,
  param_uint,
}
use chihaya.Bittorrent.Peers.{to4}
use chihaya.Bittorrent.Sanitize.{sanitize_announce, sanitize_ip}
use chihaya.Bittorrent.Sanitize.Bounds.{IsCanonical}
use chihaya.Http.{Net, Request, ParseOptions}
use chihaya.Http.Bencode.{
  Value, byte_slice, uint, duration, list, dict, cons, nil, field, end, marshal,
}
use chihaya.Http.Bencode.Decoder.{read_into, err_short_read, unmarshal_bytes, err_out_of_fuel}
use chihaya.Http.Bencode.Coding.{plain}
use chihaya.Http.Bencode.RoundTrip.{unmarshal-marshal}
use chihaya.Http.Bencode.Termination.{unmarshal_bytes_terminates}
use chihaya.Http.Parser.{parse_announce}
use chihaya.Http.Parser.Announces.{parse_announce-ok}
use chihaya.Tests.{info_hash, alice}

abbrev value : Value
value = dict (
    field (codes "interval") (duration (pos 1_800_000_000_000)) (
      field (codes "peers") (list (cons (byte_slice (10 ∷ 0 ∷ 0 ∷ 1 ∷ [])) (cons (uint 7) nil)))
        end))

written : marshal value ≡ ok (codes "d8:intervali1800e5:peersl4:" ++ 10 ∷ 0 ∷ 0 ∷ 1 ∷ codes "i7eee")
unfolding marshal bytes_eq format_uint format_int quot
written = refl

value_fits : (s : Bytes) → marshal value ≡ ok s → length s ≤ 4096
value_fits s h = subst (λ x. length x ≤ 4096) (ok-injective (sym written ∙ h)) (omega arith)

unmarshal-marshal_example : (marshal value >>= unmarshal_bytes) ≡ ok (plain value)
unmarshal-marshal_example =
    unmarshal-marshal value
      (omega arith, omega arith, (omega arith, (omega arith, (omega arith, tt)), tt)) value_fits

-- Behind "3:" two bytes are left.
short_text : unmarshal_bytes (codes "3:ab") ≡ err err_short_read
unfolding unmarshal_bytes cut parse_int parse_uint
short_text = refl

-- A text of 4095 bytes, when its length has been read: 4091 bytes are in the buffer.
past_the_buffer : (s : Bytes) → read_into 4095 (0 ∷ s, 4091) ≡ err err_short_read
unfolding read_into
past_the_buffer s = refl

unmarshal_bytes_terminates_example : unmarshal_bytes (codes "lllli7e") ≢ err err_out_of_fuel
unmarshal_bytes_terminates_example = unmarshal_bytes_terminates (codes "lllli7e")

-- A negative length is a panic.
negative_length : unmarshal_bytes (codes "-1:") ≡ Result.panic
unfolding unmarshal_bytes cut parse_int
negative_length = refl

abbrev net : Net
net = record {
  parse_ip = λ s. if bytes_eq s (codes "10.0.0.1") then some (10 ∷ 0 ∷ 0 ∷ 1 ∷ []) else none;
  split_host = λ s. ok (take 8 s);
  ip_string = λ ip. codes "10.0.0.1";
}

abbrev request : Request
request = record {
  request_uri =
      codes "/announce?info_hash="
      ++ info_hash
      ++ codes "&peer_id="
      ++ alice.id
      ++ codes "&left=10&downloaded=0&uploaded=0&port=6881&event=started&compact=1";
  remote_addr = codes "10.0.0.1:80";
  header = λ name. [];
}

abbrev options : ParseOptions
options = record {
  allow_ip_spoofing = false;
  real_ip_header = [];
  max_num_want = 100;
  default_num_want = 50;
  max_scrape_info_hashes = 50;
}

abbrev announced : AnnounceRequest
announced = record {
  event = started;
  info_hash = info_hash;
  compact = true;
  event_provided = true;
  num_want_provided = false;
  ip_provided = false;
  num_want = 50;
  left = 10;
  downloaded = 0;
  uploaded = 0;
  peer = alice;
  params = record {
    path = codes "/announce";
    query =
        codes "info_hash="
        ++ info_hash
        ++ codes "&peer_id="
        ++ alice.id
        ++ codes "&left=10&downloaded=0&uploaded=0&port=6881&event=started&compact=1";
    params =
        (codes "peer_id", alice.id)
        ∷ (codes "left", codes "10")
        ∷ (codes "downloaded", codes "0")
        ∷ (codes "uploaded", codes "0")
        ∷ (codes "port", codes "6881")
        ∷ (codes "event", codes "started")
        ∷ (codes "compact", codes "1")
        ∷ [];
    info_hashes = info_hash ∷ [];
  };
}

accepted : parse_announce net request options ≡ ok announced
unfolding parse_announce parse_url_data parse_query parse_pairs pieces cut parse_pair query_unescape
    add_param bytes_eq info_hash_from_string insert to_lower lookup param_uint new_event
    peer_id_from_string sanitize_announce sanitize_ip to4 parse_uint
accepted = refl

parse_announce-ok_example :
    (qp : QueryParams) × (parse_url_data request.request_uri ≡ ok qp)
    × (qp.info_hashes ≡ info_hash ∷ [])
    × (length alice.id ≡ 20)
    × (alice.port ≢ 0)
    × (alice.port < 2 ^ 16)
    × IsCanonical alice.ip
    × ((50 ≡ options.default_num_want) ⊎ (50 ≤ options.max_num_want))
parse_announce-ok_example = parse_announce-ok net request options announced accepted
