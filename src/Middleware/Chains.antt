-- ===== src/Middleware/Chains.antt =====
-- How a chain of hooks goes on and ends.
use chihaya.Base.{◌≡◌, refl, sym, ap, ◌∙◌, List, [], ◌∷◌, ◌++◌, Result, ok, err, panic}
use chihaya.Bittorrent.{AnnounceRequest, AnnounceResponse}
use chihaya.Middleware.{
  Context, Hook, ResponseConfig, run_announce_hooks, new_logic, handle_announce, after_announce,
}

module _ {S : Type 0} where
  -- What follows a chain that has ended so.
  abbrev pub go_on :
      S × Result (Context × AnnounceRequest × AnnounceResponse)
      → (S
          → Context
          → AnnounceRequest
          → AnnounceResponse
          → S × Result (Context × AnnounceRequest × AnnounceResponse))
      → S × Result (Context × AnnounceRequest × AnnounceResponse)
  go_on (s, ok (ctx, req, resp)) k = k s ctx req resp
  go_on (s, err e) k = (s, err e)
  go_on (s, Result.panic) k = (s, panic)

  run_hook :
      (hs ks : List (Hook S)) (o : S × Result (Context × AnnounceRequest × AnnounceResponse))
      → ((s : S) (ctx : Context) (req : AnnounceRequest) (resp : AnnounceResponse)
          → run_announce_hooks (hs ++ ks) s ctx req resp
            ≡ go_on (run_announce_hooks hs s ctx req resp) (run_announce_hooks ks))
      → go_on o (run_announce_hooks (hs ++ ks))
        ≡ go_on (go_on o (run_announce_hooks hs)) (run_announce_hooks ks)
  run_hook hs ks (s, ok (ctx, req, resp)) ih = ih s ctx req resp
  run_hook hs ks (s, err e) ih = refl
  run_hook hs ks (s, Result.panic) ih = refl

  run_cons :
      (h : Hook S) (hs : List (Hook S)) (s : S) (ctx : Context) (req : AnnounceRequest)
      (resp : AnnounceResponse)
      → run_announce_hooks (h ∷ hs) s ctx req resp
        ≡ go_on (h.handle_announce s ctx req resp) (run_announce_hooks hs)
  unfolding run_announce_hooks
  run_cons h hs s ctx req resp = split (h.handle_announce s ctx req resp)
    where
      split :
          (o : S × Result (Context × AnnounceRequest × AnnounceResponse))
          → elim (o.1) [
            | ok (ctx', req', resp') ↦ run_announce_hooks hs o.0 ctx' req' resp'
            | err e ↦ (o.0, err e)
            | Result.panic ↦ (o.0, panic)
          ]
            ≡ go_on o (run_announce_hooks hs)
      split (s', ok (a, b, c)) = refl
      split (s', err e) = refl
      split (s', Result.panic) = refl

  -- A chain in two parts: the second part starts where the first left state, context, request and
  -- response, and does not run at all once the first has failed.
  pub run_announce_hooks-append :
      (hs ks : List (Hook S)) (s : S) (ctx : Context) (req : AnnounceRequest)
      (resp : AnnounceResponse)
      → run_announce_hooks (hs ++ ks) s ctx req resp
        ≡ go_on (run_announce_hooks hs s ctx req resp) (run_announce_hooks ks)
  run_announce_hooks-append [] ks s ctx req resp = unfold run_announce_hooks in refl
  run_announce_hooks-append (h ∷ hs) ks s ctx req resp =
      run_cons h (hs ++ ks) s ctx req resp
      ∙ run_hook hs ks (h.handle_announce s ctx req resp) (run_announce_hooks-append hs ks)
      ∙ ap (λ o. go_on o (run_announce_hooks ks)) (sym (run_cons h hs s ctx req resp))

  run_one :
      (h : Hook S) (s : S) (ctx : Context) (req : AnnounceRequest) (resp : AnnounceResponse)
      → run_announce_hooks (h ∷ []) s ctx req resp ≡ h.handle_announce s ctx req resp
  run_one h s ctx req resp = run_cons h [] s ctx req resp ∙ done (h.handle_announce s ctx req resp)
    where
      done :
          (o : S × Result (Context × AnnounceRequest × AnnounceResponse))
          → go_on o (run_announce_hooks []) ≡ o
      done (s', ok (a, b, c)) = unfold run_announce_hooks in refl
      done (s', err e) = refl
      done (s', Result.panic) = refl

  go_on_one :
      (h : Hook S) (o : S × Result (Context × AnnounceRequest × AnnounceResponse))
      → go_on o (run_announce_hooks (h ∷ [])) ≡ go_on o h.handle_announce
  go_on_one h (s, ok (ctx, req, resp)) = run_one h s ctx req resp
  go_on_one h (s, err e) = refl
  go_on_one h (s, Result.panic) = refl

  run_last :
      (hs : List (Hook S)) (h : Hook S) (s : S) (ctx : Context) (req : AnnounceRequest)
      (resp : AnnounceResponse)
      → run_announce_hooks (hs ++ h ∷ []) s ctx req resp
        ≡ go_on (run_announce_hooks hs s ctx req resp) h.handle_announce
  run_last hs h s ctx req resp =
      run_announce_hooks-append hs (h ∷ []) s ctx req resp
      ∙ go_on_one h (run_announce_hooks hs s ctx req resp)

  -- The logic answers an announce by the configured pre-hooks and then the response hook, which
  -- does not run once a pre-hook has failed; what follows the answer is the configured post-hooks
  -- and then the swarm interaction, by the same rule.
  pub new_logic-order :
      (cfg : ResponseConfig S) (response_hook swarm_hook : Hook S) (pre post : List (Hook S))
      (s : S) (ctx : Context) (req : AnnounceRequest) (resp : AnnounceResponse)
      → let l = new_logic cfg response_hook swarm_hook pre post in
        (handle_announce l s ctx req
          ≡ go_on
              (run_announce_hooks pre s ctx req (record {
                interval = cfg.announce_interval;
                min_interval = cfg.min_announce_interval;
                compact = req.compact;
                complete = 0;
                incomplete = 0;
                ipv4_peers = [];
                ipv6_peers = [];
              }))
              response_hook.handle_announce)
        × (after_announce l s ctx req resp
            ≡ (go_on (run_announce_hooks post s ctx req resp) swarm_hook.handle_announce).0)
  unfolding new_logic handle_announce after_announce
  new_logic-order cfg response_hook swarm_hook pre post s ctx req resp = (
    run_last pre response_hook s ctx req (record {
      interval = cfg.announce_interval;
      min_interval = cfg.min_announce_interval;
      compact = req.compact;
      complete = 0;
      incomplete = 0;
      ipv4_peers = [];
      ipv6_peers = [];
    }),
    ap (λ o. o.0) (run_last post swarm_hook s ctx req resp),
  )
