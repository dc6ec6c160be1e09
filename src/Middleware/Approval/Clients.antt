-- ===== src/Middleware/Approval/Clients.antt =====
-- The hook that admits announces by the client software (middleware/clientapproval/clientapproval.go).
-- YAML decoding and the registration of the driver are not modelled.
use chihaya.Base.{
  ◌==◌, ◌≡◌, Bytes, codes, length, ◌++◌, Error, client_error, internal_error, Result, ok, err, ◌>>◌,
  if◌then◌else◌, arith,
}
use chihaya.Bittorrent.{AnnounceRequest, AnnounceResponse}
use chihaya.Bittorrent.Clients.{new_client_id}
use chihaya.Middleware.{Context, Hook}
use chihaya.Middleware.Approval.{Config, Lists, new_lists, check, lets_in, check-new_lists}

abbrev pub err_client_unapproved : Error
err_client_unapproved = client_error (codes "unapproved client")

-- A client ID in a configuration has six bytes.
unfoldable pub read_client_id : Bytes → Result Bytes
read_client_id s =
    if length s == 6
    then ok s
    else err (internal_error (codes "client ID " ++ s ++ codes " must be 6 bytes"))

unfoldable pub new_client_lists : Config → Result Lists
new_client_lists cfg = new_lists read_client_id read_client_id cfg

module _ {S : Type 0} where
  unfoldable pub approve_client :
      Lists
      → S
      → Context
      → AnnounceRequest
      → AnnounceResponse
      → S × Result (Context × AnnounceRequest × AnnounceResponse)
  approve_client h s ctx req resp =
      (s, (do check err_client_unapproved h (new_client_id req.peer.id); ok (ctx, req, resp)))

  -- Scrapes don't require any protection.
  abbrev pub client_approval_hook : Lists → Hook S
  client_approval_hook h = record {
    handle_announce = approve_client h;
    handle_scrape = λ s ctx req resp. (s, ok (ctx, req, resp));
  }

  -- A hook made from a configuration passes an announce on, unchanged, if the configuration lets the
  -- client of its peer ID in, and refuses it as "unapproved client" otherwise.
  pub approve_client-lets_in :
      (cfg : Config) (h : Lists) (s : S) (ctx : Context) (req : AnnounceRequest)
      (resp : AnnounceResponse)
      → new_client_lists cfg ≡ ok h
      → approve_client h s ctx req resp ≡ (
        s,
        (if lets_in read_client_id read_client_id cfg (new_client_id req.peer.id)
            then ok (ctx, req, resp)
            else err err_client_unapproved),
      )
  unfolding new_client_lists approve_client
  approve_client-lets_in cfg h s ctx req resp made =
      rw
        (check-new_lists read_client_id read_client_id cfg h err_client_unapproved
          (new_client_id req.peer.id) made)
        (ground arith)
