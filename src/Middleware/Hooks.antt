-- ===== src/Middleware/Hooks.antt =====
-- The two hooks that are always there (middleware/hooks.go), over any peer store.
pub mod Deletions
pub mod Responses
pub mod Interactions
use chihaya.Base.{
  ℕ, ◌+◌, ◌%◌, ◌^◌, ◌==◌, Bool, true, false, not, ◌&&◌, Bytes, List, [], ◌∷◌, ◌++◌, length, Result,
  ok, err, panic, ◌>>=◌, ◌>>◌, if◌then◌else◌,
}
use chihaya.Bittorrent.{
  AddressFamily, ipv4, ipv6, other_family, Event, none_event, started, stopped, completed,
  other_event, Peer, AnnounceRequest, AnnounceResponse, ScrapeRequest, ScrapeResponse, Scrape,
}
use chihaya.Storage.{PeerStoreOps, is_missing}
use chihaya.Middleware.{Context, Hook}

-- `uint32` increment.
abbrev pub inc32 : ℕ → ℕ
inc32 n = (n + 1) % 2 ^ 32

module _ {S : Type 0} (store : PeerStoreOps S) where
  open store use {
    put_seeder, delete_seeder, put_leecher, delete_leecher, graduate_leecher, announce_peers,
    scrape_swarm,
  }

  -- What a call of the store leaves: a call that fails leaves the state.
  unfoldable pub settle : S → Result S → S × Result (Unit {0})
  settle s (ok s') = (s', ok tt)
  settle s (err e) = (s, err e)
  settle s Result.panic = (s, panic)

  -- A deletion whose failure to find the peer is no error.
  unfoldable pub settle_missing : S → Result S → S × Result (Unit {0})
  settle_missing s (ok s') = (s', ok tt)
  settle_missing s (err e) = if is_missing e then (s, ok tt) else (s, err e)
  settle_missing s Result.panic = (s, panic)

  -- The second deletion of `Stopped`, unless the first has failed.
  unfoldable pub then_delete_leecher :
      AnnounceRequest → S × Result (Unit {0}) → S × Result (Unit {0})
  then_delete_leecher req (s1, ok _) = settle_missing s1 (delete_leecher s1 req.info_hash req.peer)
  then_delete_leecher req (s1, err e) = (s1, err e)
  then_delete_leecher req (s1, Result.panic) = (s1, panic)

  unfoldable pub interact_stopped : S → AnnounceRequest → S × Result (Unit {0})
  interact_stopped s req =
      then_delete_leecher req (settle_missing s (delete_seeder s req.info_hash req.peer))

  -- The four cases of the `switch`, in its order.
  unfoldable pub interact : S → AnnounceRequest → S × Result (Unit {0})
  unfolding settle interact_stopped
  interact s req = elim req.event [
    | stopped ↦ interact_stopped s req
    | completed ↦ settle s (graduate_leecher s req.info_hash req.peer)
    | _ ↦
        if req.left == 0
        then settle s (put_seeder s req.info_hash req.peer)
        else settle s (put_leecher s req.info_hash req.peer)
  ]

  unfoldable pub swarm_interaction_announce :
      S
      → Context
      → AnnounceRequest
      → AnnounceResponse
      → S × Result (Context × AnnounceRequest × AnnounceResponse)
  unfolding interact
  swarm_interaction_announce s ctx req resp =
      if ctx.skip_swarm_interaction
      then (s, ok (ctx, req, resp))
      else (let (s', r) = interact s req in (s', (do r; ok (ctx, req, resp))))

  -- Scrapes have no effect on the swarm.
  abbrev pub swarm_interaction_hook : Hook S
  swarm_interaction_hook = record {
    handle_announce = swarm_interaction_announce;
    handle_scrape = λ s ctx req resp. (s, ok (ctx, req, resp));
  }

  -- The peers of the store, or none where it does not know the swarm.
  unfoldable pub found_peers : S → AnnounceRequest → Result (List Peer)
  found_peers s req = elim (announce_peers s req.info_hash (req.left == 0) req.num_want req.peer) [
    | ok ps ↦ ok ps
    | err e ↦ if is_missing e then ok [] else err e
    | Result.panic ↦ panic
  ]

  -- The announcer itself stands for a swarm with nobody else in it, and is counted.
  unfoldable pub with_self :
      AnnounceRequest → List Peer → AnnounceResponse → List Peer × AnnounceResponse
  with_self req [] resp = (
    req.peer ∷ [],
    if req.left == 0
        then record resp { complete = inc32 resp.complete }
        else record resp { incomplete = inc32 resp.incomplete },
  )
  with_self req (p ∷ ps) resp = (p ∷ ps, resp)

  unfoldable pub set_peers : AddressFamily → List Peer → AnnounceResponse → Result AnnounceResponse
  set_peers ipv4 ps resp = ok (record resp { ipv4_peers = ps })
  set_peers ipv6 ps resp = ok (record resp { ipv6_peers = ps })
  set_peers (other_family n) ps resp = panic

  unfoldable pub append_peers : S → AnnounceRequest → AnnounceResponse → Result AnnounceResponse
  append_peers s req resp = do
    found ← found_peers s req
    let (ps, resp') = with_self req found resp
    set_peers req.peer.ip.address_family ps resp'

  unfoldable pub response_announce :
      S
      → Context
      → AnnounceRequest
      → AnnounceResponse
      → S × Result (Context × AnnounceRequest × AnnounceResponse)
  response_announce s ctx req resp = if ctx.skip_response_hook then (s, ok (ctx, req, resp)) else (
    s,
    (do
      c ← scrape_swarm s req.info_hash req.peer.ip.address_family
      resp' ← append_peers s req (record resp { incomplete = c.incomplete; complete = c.complete })
      ok (ctx, req, resp')),
  )

  -- One scrape for each infohash, in the order of the request.
  unfoldable pub scrape_all : S → AddressFamily → List Bytes → Result (List Scrape)
  scrape_all s af [] = ok []
  scrape_all s af (ih ∷ ihs) = do c ← scrape_swarm s ih af; cs ← scrape_all s af ihs; ok (c ∷ cs)

  unfoldable pub response_scrape :
      S
      → Context
      → ScrapeRequest
      → ScrapeResponse
      → S × Result (Context × ScrapeRequest × ScrapeResponse)
  unfolding scrape_all
  response_scrape s ctx req resp = if ctx.skip_response_hook then (s, ok (ctx, req, resp)) else (
    s,
    (do
      cs ← scrape_all s req.address_family req.info_hashes
      let resp' : ScrapeResponse = record { files = resp.files ++ cs }
      ok (ctx, req, resp')),
  )

  abbrev pub response_hook : Hook S
  response_hook = record { handle_announce = response_announce; handle_scrape = response_scrape }
