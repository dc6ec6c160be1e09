-- ===== src/Tests/Packets.antt =====
-- Packets of the UDP tracker.
use chihaya.Base.{
  pos, ◌<◌, inl, ◌≡◌, ◌≢◌, refl, true, false, ◌*◌, Bytes, codes, [], ◌∷◌, ◌++◌, replicate, length,
  take, some, ok, panic, be_onto, arith,
}
use chihaya.Bittorrent.Params.{parse_url_data}
use chihaya.Middleware.{Logic}
use chihaya.Memory.{PeerStore}
use chihaya.Udp.{initial_connection_id, ParseOptions, Request}
use chihaya.Udp.Configs
use chihaya.Udp.Configs.{validate-validate}
use chihaya.Udp.ConnectionIds.{second, generate, validate}
use chihaya.Udp.ConnectionIds.Issued.{validate-generate}
use chihaya.Udp.Parser.{
  read_options, handle_optional_parameters, parse_scrape, announce_ip, copy_into,
}
use chihaya.Udp.Parser.OptionalParameters.{
  url_data_options, handle_optional_parameters-chunks, read_options-no_panic,
}
use chihaya.Udp.Parser.Announces.{parse_scrape-hashes, length-announce_ip}
use chihaya.Bittorrent.{AnnounceResponse, ScrapeRequest}
use chihaya.Udp.Frontend.{handle_request, no_after}
use chihaya.Udp.Frontend.Connecting.{handle_request-connect}
use chihaya.Udp.Writer.{write_announce}
use chihaya.Udp.Writer.Sizes.{length-write_announce}
use chihaya.Udp.Frontend.Admission.{handle_request-needs_id}
use chihaya.Tests.{alice, response, bob_ip, info_hash, context}
use chihaya.Bittorrent.Peers.{ip_bytes}
use chihaya.Udp.Serving.{Turn, received, temporary, shorten, serve}
use chihaya.Udp.Serving.Guarded.{serve-needs_id}
use chihaya.Tests.Stores.{one_seeder}

-- A stand-in for the keyed hash: the message, padded to 32 bytes.
abbrev padded : Bytes → Bytes
padded m = take 32 (m ++ replicate 32 0)

abbrev address : Bytes
address = 10 ∷ 0 ∷ 0 ∷ 1 ∷ []

-- Sixty seconds after it was issued, the ID is good.
validate-generate_example :
    validate padded (generate padded address (1000 * second)) address (1060 * second) (10 * second)
    ≡ true
validate-generate_example =
    validate-generate padded address (1000 * second) (1060 * second) (10 * second) (omega arith)

handle_optional_parameters-chunks_example :
    handle_optional_parameters (url_data_options (codes "/ann" ∷ codes "ounce" ∷ []) ++ 0 ∷ 7 ∷ [])
    ≡ parse_url_data (codes "/announce")
handle_optional_parameters-chunks_example =
    handle_optional_parameters-chunks (codes "/ann" ∷ codes "ounce" ∷ []) (7 ∷ [])

options_end : read_options 3 (2 ∷ 9 ∷ 47 ∷ []) [] ≢ panic
options_end = read_options-no_panic 3 (2 ∷ 9 ∷ 47 ∷ []) [] (omega arith)

abbrev options : ParseOptions
options = record {
  allow_ip_spoofing = false;
  max_num_want = 100;
  default_num_want = 50;
  max_scrape_info_hashes = 50;
}

abbrev cut_ip : Bytes
cut_ip = 0x20 ∷ 1 ∷ 0x0d ∷ 0xb8 ∷ []

-- A scrape with a connection ID of zeros.
abbrev forged : Request
forged = record {
  packet = replicate 8 0 ++ (0 ∷ 0 ∷ 0 ∷ 2 ∷ []) ++ replicate 24 1;
  ip = some address;
}

abbrev connecting : Request
connecting = record {
  packet = initial_connection_id ++ (0 ∷ 0 ∷ 0 ∷ 0 ∷ []) ++ 9 ∷ 8 ∷ 7 ∷ 6 ∷ [];
  ip = some address;
}

abbrev no_hooks : Logic PeerStore
no_hooks = record {
  announce_interval = pos 0;
  min_announce_interval = pos 0;
  pre_hooks = [];
  post_hooks = [];
}

forged_invalid : validate padded (take 8 forged.packet) address (1000 * second) 0 ≡ false
unfolding validate be_onto
forged_invalid = refl

forged_served :
    validate padded (take 8 forged.packet) (ip_bytes (some (shorten address))) (1000 * second) 0
    ≡ false
unfolding validate be_onto shorten
forged_served = refl

forged_request :
    ((handle_request padded no_hooks context one_seeder forged (1000 * second) 0 options).state
      ≡ one_seeder)
    × ((handle_request padded no_hooks context one_seeder forged (1000 * second) 0 options).after
        ≡ no_after)
forged_request =
    handle_request-needs_id padded no_hooks context one_seeder forged (1000 * second) 0 options
      forged_invalid

-- A forged packet, a failure and the forged packet again.
abbrev forged_turn : Turn
forged_turn = record {
  closing = false;
  read = received forged.packet address 6881;
  now = 1000 * second;
}

abbrev failing_turn : Turn
failing_turn = record { closing = false; read = temporary; now = 1000 * second }

serve-needs_id_example :
    (serve padded no_hooks context 0 options
      (forged_turn ∷ failing_turn ∷ forged_turn ∷ [])
      one_seeder).state
    ≡ one_seeder
serve-needs_id_example =
    serve-needs_id padded no_hooks context 0 options (forged_turn ∷ failing_turn ∷ forged_turn ∷ [])
      one_seeder (forged_served, (tt, (forged_served, tt)))

scrape_of_one :
    (q : ScrapeRequest) × (parse_scrape
        (record { packet = replicate 16 0 ++ info_hash; ip = some address })
        options
      ≡ ok q)
    × (q.info_hashes ≡ info_hash ∷ [])
scrape_of_one =
    parse_scrape-hashes (replicate 16 0) info_hash [] (some address) options refl (refl, tt)

spoofed : announce_ip forged bob_ip (record options { allow_ip_spoofing = true }) ≡ ok (some cut_ip)
unfolding announce_ip copy_into
spoofed = refl

cut_length : length cut_ip ≡ length address
cut_length =
    length-announce_ip forged bob_ip address cut_ip (record options { allow_ip_spoofing = true })
      refl spoofed

handle_request-connect_example :
    (id : Bytes) × ((handle_request padded no_hooks context one_seeder connecting
        (1000 * second)
        0
        options).reply
      ≡ some (0 ∷ 0 ∷ 0 ∷ 0 ∷ 9 ∷ 8 ∷ 7 ∷ 6 ∷ id))
    × ((handle_request padded no_hooks context one_seeder connecting
          (1000 * second)
          0
          options).state
        ≡ one_seeder)
    × (validate padded id address (1060 * second) 0 ≡ true)
handle_request-connect_example =
    handle_request-connect padded no_hooks context one_seeder (9 ∷ 8 ∷ 7 ∷ 6 ∷ []) address
      (1000 * second) 0 options (1060 * second) refl (inl refl) (omega arith)

abbrev one_peer : AnnounceResponse
one_peer = record response { ipv4_peers = alice ∷ [] }

announce_size : length (write_announce (9 ∷ 8 ∷ 7 ∷ 6 ∷ []) one_peer false false) ≡ 26
announce_size = length-write_announce (9 ∷ 8 ∷ 7 ∷ 6 ∷ []) one_peer false false 4 refl (refl, tt)

-- No key, and no limit but one.
abbrev bare_config : Configs.Config
bare_config = record {
  addr = codes "0.0.0.0:6969";
  private_key = [];
  max_clock_skew = 10 * second;
  enable_request_timing = false;
  parse_options = record options { max_num_want = 0; default_num_want = 0 };
}

validated_twice :
    (0 < length (Configs.validate (codes "abc") bare_config).private_key)
    × (0 < (Configs.validate (codes "abc") bare_config).parse_options.max_num_want)
    × (0 < (Configs.validate (codes "abc") bare_config).parse_options.default_num_want)
    × (0 < (Configs.validate (codes "abc") bare_config).parse_options.max_scrape_info_hashes)
    × (Configs.validate (codes "xyz") (Configs.validate (codes "abc") bare_config)
        ≡ Configs.validate (codes "abc") bare_config)
validated_twice = validate-validate (codes "abc") (codes "xyz") bare_config (omega arith)
