-- ===== src/Middleware.antt =====
-- The tracker logic: chains of hooks (middleware/logic.go and the interface of
-- middleware/hooks.go). `S` is the state that hooks share, the peer store first of all.
--
-- A hook gets the request and the response by pointer, so it returns both; what it did to the
-- shared state stays done when it fails. The log is not modelled.
pub mod Hooks
pub mod Chains
pub mod Approval
pub mod Intervals
pub mod Limits
pub mod Brokers
pub mod Passkeys
pub mod Tokens
pub mod Traffic
use chihaya.Base.{ℤ, Bool, Bytes, Option, List, [], ◌∷◌, ◌++◌, Result, ok, err, panic}
use chihaya.Bittorrent.{AnnounceRequest, AnnounceResponse, ScrapeRequest, ScrapeResponse}

-- `passkeyapproval.Payload`: what a decrypted credential holds. The two fields of any type are
-- here the texts that `fmt` prints for them, `none` where they are nil.
pub record Payload : Type 0 where
  pub passkey : Bytes
  pub timestamp : ℤ
  pub fd : Option Bytes
  pub pd : Option Bytes

-- The values of a context.Context that the tracker sets and reads.
pub record Context : Type 0 where
  pub skip_swarm_interaction : Bool
  pub skip_response_hook : Bool
  pub route_params : List (Bytes × Bytes)
  pub payload : Option Payload

module _ (S : Type 0) where
  pub record Hook : Type 0 where
    pub handle_announce :
        S
        → Context
        → AnnounceRequest
        → AnnounceResponse
        → S × Result (Context × AnnounceRequest × AnnounceResponse)
    pub handle_scrape :
        S
        → Context
        → ScrapeRequest
        → ScrapeResponse
        → S × Result (Context × ScrapeRequest × ScrapeResponse)

  pub record ResponseConfig : Type 0 where
    pub announce_interval : ℤ
    pub min_announce_interval : ℤ

  pub record Logic : Type 0 where
    pub announce_interval : ℤ
    pub min_announce_interval : ℤ
    pub pre_hooks : List Hook
    pub post_hooks : List Hook

module _ {S : Type 0} where
  -- `NewLogic`: the response hook comes after the configured pre-hooks, the swarm interaction after
  -- the configured post-hooks.
  unfoldable pub new_logic :
      ResponseConfig S → Hook S → Hook S → List (Hook S) → List (Hook S) → Logic S
  new_logic cfg response_hook swarm_hook pre_hooks post_hooks = record {
    announce_interval = cfg.announce_interval;
    min_announce_interval = cfg.min_announce_interval;
    pre_hooks = pre_hooks ++ response_hook ∷ [];
    post_hooks = post_hooks ++ swarm_hook ∷ [];
  }

  -- The next hook sees what the last one left; an error ends the chain.
  unfoldable pub run_announce_hooks :
      List (Hook S)
      → S
      → Context
      → AnnounceRequest
      → AnnounceResponse
      → S × Result (Context × AnnounceRequest × AnnounceResponse)
  run_announce_hooks [] s ctx req resp = (s, ok (ctx, req, resp))
  run_announce_hooks (h ∷ hs) s ctx req resp =
      let (s', r) = h.handle_announce s ctx req resp in
      elim r [
        | ok (ctx', req', resp') ↦ run_announce_hooks hs s' ctx' req' resp'
        | err e ↦ (s', err e)
        | Result.panic ↦ (s', panic)
      ]

  unfoldable pub run_scrape_hooks :
      List (Hook S)
      → S
      → Context
      → ScrapeRequest
      → ScrapeResponse
      → S × Result (Context × ScrapeRequest × ScrapeResponse)
  run_scrape_hooks [] s ctx req resp = (s, ok (ctx, req, resp))
  run_scrape_hooks (h ∷ hs) s ctx req resp =
      let (s', r) = h.handle_scrape s ctx req resp in
      elim r [
        | ok (ctx', req', resp') ↦ run_scrape_hooks hs s' ctx' req' resp'
        | err e ↦ (s', err e)
        | Result.panic ↦ (s', panic)
      ]

  unfoldable pub handle_announce :
      Logic S
      → S
      → Context
      → AnnounceRequest
      → S × Result (Context × AnnounceRequest × AnnounceResponse)
  handle_announce l s ctx req = run_announce_hooks l.pre_hooks s ctx req (record {
    interval = l.announce_interval;
    min_interval = l.min_announce_interval;
    compact = req.compact;
    complete = 0;
    incomplete = 0;
    ipv4_peers = [];
    ipv6_peers = [];
  })

  -- An error of a post-hook is only logged.
  unfoldable pub after_announce : Logic S → S → Context → AnnounceRequest → AnnounceResponse → S
  after_announce l s ctx req resp = (run_announce_hooks l.post_hooks s ctx req resp).0

  unfoldable pub handle_scrape :
      Logic S → S → Context → ScrapeRequest → S × Result (Context × ScrapeRequest × ScrapeResponse)
  handle_scrape l s ctx req = run_scrape_hooks l.pre_hooks s ctx req (record { files = [] })

  unfoldable pub after_scrape : Logic S → S → Context → ScrapeRequest → ScrapeResponse → S
  after_scrape l s ctx req resp = (run_scrape_hooks l.post_hooks s ctx req resp).0
