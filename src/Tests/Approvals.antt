-- ===== src/Tests/Approvals.antt =====
-- Announces of Alice through the approval hooks and the interval hook.
use chihaya.Base.{
  ℕ, ◌<◌, ◌≤◌, ◌≡◌, ◌⊎◌, refl, true, false, bytes_eq, codes, [], ◌∷◌, ok, err, arith, be_onto, ◌≢◌,
  ◌^◌, if◌then◌else◌,
}
use chihaya.Bittorrent.{info_hash_from_bytes}
use chihaya.Middleware.Approval.{Config, Lists, new_lists, contains, lets_in, names}
use chihaya.Middleware.Approval.Clients.{
  approve_client, approve_client-lets_in, new_client_lists, read_client_id, err_client_unapproved,
}
use chihaya.Middleware.Approval.Torrents.{
  approve_torrent, approve_torrent-lets_in, new_torrent_lists, read_hash, decode_hex, white, black,
  err_torrent_unapproved,
}
use chihaya.Bittorrent.Clients.{new_client_id}
use chihaya.Middleware.Intervals
use chihaya.Middleware.Intervals.{check_config, vary}
use chihaya.Middleware.Intervals.Random.{derive_entropy, generate_and_advance}
use chihaya.Middleware.Intervals.Ranges.{vary-range, increased, second_draw}
use chihaya.Tests.{info_hash, alice, context, announce, response}

-- Only the client that Bob uses.
abbrev clients : Config
clients = record { whitelist = codes "UT3000" ∷ []; blacklist = [] }

abbrev client_lists : Lists
client_lists = record { approved = codes "UT3000" ∷ []; unapproved = [] }

clients_read : new_client_lists clients ≡ ok client_lists
unfolding new_client_lists new_lists read_client_id contains
clients_read = refl

approve_client-lets_in_example :
    approve_client {S = ℕ} client_lists 7 context (announce 10 alice) response ≡ (
      7,
      (if lets_in read_client_id read_client_id clients (new_client_id alice.id)
          then ok (context, announce 10 alice, response)
          else err err_client_unapproved),
    )
approve_client-lets_in_example =
    approve_client-lets_in {S = ℕ} clients client_lists 7 context (announce 10 alice) response
      clients_read

-- Alice's client is not the one.
alice_refused : lets_in read_client_id read_client_id clients (new_client_id alice.id) ≡ false
unfolding read_client_id new_client_id bytes_eq names
alice_refused = refl

abbrev torrents : Config
torrents = record {
  whitelist = [];
  blacklist = codes "6161616162626262636363636464646465656565" ∷ [];
}

abbrev torrent_lists : Lists
torrent_lists = record { approved = []; unapproved = info_hash ∷ [] }

torrents_read : new_torrent_lists torrents ≡ ok torrent_lists
unfolding new_torrent_lists new_lists read_hash decode_hex info_hash_from_bytes contains
torrents_read = refl

blocked_torrent : approve_torrent {S = ℕ} torrent_lists 7 context (announce 10 alice) response ≡ (
  7,
  (if lets_in white black torrents info_hash
      then ok (context, announce 10 alice, response)
      else err err_torrent_unapproved),
)
blocked_torrent =
    approve_torrent-lets_in {S = ℕ} torrents torrent_lists 7 context (announce 10 alice) response
      torrents_read

-- Half of the responses, by up to a minute.
abbrev half : Intervals.Config
half = record {
  numerator = 1;
  denominator = 2;
  max_increase_delta = 60;
  modify_min_interval = true;
}

valid : check_config half ≡ ok tt
unfolding check_config
valid = refl

drawn : second_draw (announce 10 alice) ≡ 13482444448670684211
unfolding derive_entropy generate_and_advance be_onto
drawn = refl

drawn_ne : second_draw (announce 10 alice) ≢ 2 ^ 63
drawn_ne e = absurd (omega (arith, drawn))

vary-range_example :
    (vary half (announce 10 alice) response ≡ ok response)
    ⊎ ((k : ℕ) × (0 < k)
        × (k ≤ 60)
        × (vary half (announce 10 alice) response ≡ ok (increased half 0 0 k response)))
vary-range_example =
    vary-range half (announce 10 alice) response 0 0 valid refl refl (omega arith) (omega arith)
      drawn_ne
