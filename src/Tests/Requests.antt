-- ===== src/Tests/Requests.antt =====
-- Requests sanitized and URL data parsed.
use chihaya.Base.{
  ◌≡◌, ◌≢◌, ◌⊎◌, refl, Bytes, codes, [], ◌∷◌, ◌++◌, length, min, none, ok, err, bytes_eq,
}
use chihaya.Bittorrent.{AnnounceRequest, QueryParams, info_hash_from_string}
use chihaya.Bittorrent.Peers.{to4, ip_bytes}
use chihaya.Bittorrent.Sanitize.{
  sanitize_announce, sanitize_num_want, sanitize_ip, err_invalid_port, err_invalid_ip,
}
use chihaya.Bittorrent.Sanitize.Bounds.{
  IsCanonical, sanitize_announce-ok, sanitize_announce-refused,
}
use chihaya.Bittorrent.Params.{
  parse_url_data, parse_query, parse_pairs, parse_pair, add_param, cut, pieces, query_unescape,
}
use chihaya.Bittorrent.Params.Hashes.{parse_url_data-parts, AllHashes}
use chihaya.Base.Dict.{insert}
use chihaya.Bittorrent.Events.{to_lower}
use chihaya.Tests.{announce, alice, info_hash}

-- At most 50 peers are given.
abbrev asked : AnnounceRequest
asked = record (announce 10 alice) { num_want = 50 }

asked_passes :
    sanitize_announce (announce 10 alice) 50 30 ≡ ok (record (announce 10 alice) { num_want = 50 })
unfolding sanitize_announce sanitize_num_want sanitize_ip to4
asked_passes = refl

sanitize_announce-ok_example :
    (alice.port ≢ 0)
    × IsCanonical alice.ip
    × (asked.num_want ≡ min 200 50)
    × (info_hash ≡ info_hash)
    × (alice.id ≡ alice.id)
    × (alice.port ≡ alice.port)
sanitize_announce-ok_example =
    sanitize_announce-ok (announce 10 alice) 50 30 (record (announce 10 alice) { num_want = 50 })
      asked_passes

sanitized_or_refused :
    ((q : AnnounceRequest) × (sanitize_announce (announce 10 alice) 50 30 ≡ ok q))
    ⊎ (((alice.port ≡ 0) × (sanitize_announce (announce 10 alice) 50 30 ≡ err err_invalid_port))
        ⊎ ((to4 (ip_bytes alice.ip.ip) ≡ none)
            × (length (ip_bytes alice.ip.ip) ≢ 16)
            × (sanitize_announce (announce 10 alice) 50 30 ≡ err err_invalid_ip)))
sanitized_or_refused = sanitize_announce-refused (announce 10 alice) 50 30

abbrev url : Bytes
url = codes "/announce?info_hash=" ++ info_hash ++ codes "&Left=%31+"

abbrev parsed : QueryParams
parsed = record {
  path = codes "/announce";
  query = codes "info_hash=" ++ info_hash ++ codes "&Left=%31+";
  params = (codes "left", codes "1 ") ∷ [];
  info_hashes = info_hash ∷ [];
}

url_parses : parse_url_data url ≡ ok parsed
unfolding parse_url_data parse_query parse_pairs pieces cut parse_pair query_unescape add_param
    bytes_eq info_hash_from_string insert to_lower
url_parses = refl

url_in_parts :
    ((url ≡ parsed.path) ⊎ (url ≡ parsed.path ++ b'?' ∷ parsed.query))
    × AllHashes parsed.info_hashes
url_in_parts = parse_url_data-parts url parsed url_parses
