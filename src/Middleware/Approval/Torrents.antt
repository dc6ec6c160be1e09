-- ===== src/Middleware/Approval/Torrents.antt =====
-- The hook that admits announces by the infohash (middleware/torrentapproval/torrentapproval.go), with
-- `hex.DecodeString` of Go's library. YAML decoding and the registration are not modelled.
use chihaya.Base.{
  ◌==◌, ◌≡◌, ◌*◌, ◌+◌, ◌&&◌, Bytes, codes, length, [], ◌∷◌, ◌++◌, Option, none, some, Error,
  client_error, internal_error, Result, ok, err, ◌>>◌, if◌then◌else◌, arith,
}
use chihaya.Bittorrent.{AnnounceRequest, AnnounceResponse, info_hash_from_bytes}
use chihaya.Bittorrent.Params.{is_hex, unhex}
use chihaya.Middleware.{Context, Hook}
use chihaya.Middleware.Approval.{Config, Lists, new_lists, check, lets_in, check-new_lists}

abbrev pub err_torrent_unapproved : Error
err_torrent_unapproved = client_error (codes "unapproved torrent")

-- Two digits to a byte; `none` for another character or an odd length.
unfoldable pub decode_hex : Bytes → Option Bytes
unfolding is_hex unhex
decode_hex [] = some []
decode_hex (a ∷ []) = none
decode_hex (a ∷ b ∷ s) =
    let rest = decode_hex s in
    if is_hex a && is_hex b
    then elim rest [ none ↦ none | some t ↦ some ((unhex a * 16 + unhex b) ∷ t) ]
    else none

-- The texts of the errors name the list: "whitelist" or "blacklist".
unfoldable pub read_hash : Bytes → Bytes → Result Bytes
unfolding decode_hex
read_hash list s = elim (decode_hex s) [
  | none ↦ err (internal_error (list ++ codes " : invalid hash " ++ s))
  | some b ↦
      if length b == 20
      then info_hash_from_bytes b
      else err (internal_error (list ++ codes " : hash " ++ s ++ codes " is not 20 byes"))
]

abbrev pub white : Bytes → Result Bytes
white = read_hash (codes "whitelist")

abbrev pub black : Bytes → Result Bytes
black = read_hash (codes "blacklist")

unfoldable pub new_torrent_lists : Config → Result Lists
new_torrent_lists cfg = new_lists white black cfg

module _ {S : Type 0} where
  unfoldable pub approve_torrent :
      Lists
      → S
      → Context
      → AnnounceRequest
      → AnnounceResponse
      → S × Result (Context × AnnounceRequest × AnnounceResponse)
  approve_torrent h s ctx req resp =
      (s, (do check err_torrent_unapproved h req.info_hash; ok (ctx, req, resp)))

  -- Scrapes don't require any protection.
  abbrev pub torrent_approval_hook : Lists → Hook S
  torrent_approval_hook h = record {
    handle_announce = approve_torrent h;
    handle_scrape = λ s ctx req resp. (s, ok (ctx, req, resp));
  }

  -- A hook made from a configuration passes an announce on, unchanged, if the configuration lets its
  -- infohash in, and refuses it as "unapproved torrent" otherwise.
  pub approve_torrent-lets_in :
      (cfg : Config) (h : Lists) (s : S) (ctx : Context) (req : AnnounceRequest)
      (resp : AnnounceResponse)
      → new_torrent_lists cfg ≡ ok h
      → approve_torrent h s ctx req resp ≡ (
        s,
        (if lets_in white black cfg req.info_hash
            then ok (ctx, req, resp)
            else err err_torrent_unapproved),
      )
  unfolding new_torrent_lists approve_torrent
  approve_torrent-lets_in cfg h s ctx req resp made =
      rw (check-new_lists white black cfg h err_torrent_unapproved req.info_hash made)
        (ground arith)
