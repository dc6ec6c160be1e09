-- ===== src/Middleware/Hooks/Responses.antt =====
-- What the response hook answers.
use chihaya.Base.{
  ◌==◌, ◌≡◌, ◌⊎◌, inl, inr, true, Error, err, Result-cases, Bool-cases, ap, ap₂, ◌∙◌, sym, false,
  not, ◌&&◌, Bytes, List, [], ◌∷◌, length, Result, ok, if◌then◌else◌, arith, ◌>>=◌, >>=-eq-ok,
  ok-injective, map,
}
use chihaya.Bittorrent.{
  AddressFamily, ipv4, ipv6, other_family, Peer, AnnounceRequest, AnnounceResponse, Scrape,
}
use chihaya.Storage.{PeerStoreOps, is_missing}
use chihaya.Middleware.{Context}
use chihaya.Middleware.Hooks.{
  found_peers, with_self, set_peers, append_peers, response_announce, scrape_all, inc32,
}

-- The peers of a response for one family.
unfoldable pub peers_for : AddressFamily → AnnounceResponse → List Peer
peers_for ipv4 resp = resp.ipv4_peers
peers_for ipv6 resp = resp.ipv6_peers
peers_for (other_family n) resp = []

module _ {S : Type 0} (store : PeerStoreOps S) where
  -- The answer of the store to the announcer.
  abbrev pub told : AnnounceRequest → S → Result (List Peer)
  told req s = store.announce_peers s req.info_hash (req.left == 0) req.num_want req.peer

  -- The peers are the answer of the store; or they are none, and it does not know the swarm.
  abbrev pub FoundIn : AnnounceRequest → S → List Peer → Type 0
  FoundIn req s ps =
      (told req s ≡ ok ps)
      ⊎ ((ps ≡ []) × (e : Error) × (told req s ≡ err e) × (is_missing e ≡ true))

  found_peers-FoundIn :
      (s : S) (req : AnnounceRequest) (ps : List Peer)
      → found_peers store s req ≡ ok ps
      → FoundIn req s ps
  unfolding found_peers
  found_peers-FoundIn s req ps h = elim (Result-cases (told req s)) [
    | inl (qs, e) ↦ inl (ground arith)
    | inr (inl (x, e)) ↦ elim (Bool-cases (is_missing x)) [
      | inl m ↦ inr (ground arith, x, e, m)
      | inr m ↦ absurd (ground arith)
    ]
    | inr (inr e) ↦ absurd (ground arith)
  ]

  answered :
      (req : AnnounceRequest) (af : AddressFamily) (ps : List Peer) (resp a : AnnounceResponse)
      → set_peers store af (with_self store req ps resp).0 (with_self store req ps resp).1 ≡ ok a
      → (peers_for af a ≡ (if length ps == 0 then req.peer ∷ [] else ps))
        × (a.complete
            ≡ (if (length ps == 0) && (req.left == 0) then inc32 resp.complete else resp.complete))
        × (a.incomplete ≡ (
            if (length ps == 0) && not (req.left == 0)
            then inc32 resp.incomplete
            else resp.incomplete))
  unfolding set_peers with_self peers_for
  answered req ipv4 [] resp a e = ground arith
  answered req ipv6 [] resp a e = ground arith
  answered req ipv4 (p ∷ ps) resp a e = ground arith
  answered req ipv6 (p ∷ ps) resp a e = ground arith
  answered req (other_family n) ps resp a e = cc

  hook_runs :
      (s : S) (ctx : Context) (req : AnnounceRequest) (resp : AnnounceResponse)
      → ctx.skip_response_hook ≡ false
      → (response_announce store s ctx req resp).1 ≡ (do
        c ← store.scrape_swarm s req.info_hash req.peer.ip.address_family
        resp' ←
            append_peers store s req
              (record resp { incomplete = c.incomplete; complete = c.complete })
        ok (ctx, req, resp'))
  unfolding response_announce
  hook_runs s ctx req resp h = rw h

  -- Unless it is to be skipped, a successful run of the response hook leaves the context and the
  -- request alone, and its peers for the announcer's family are those that the store
  -- answers, in its order, or the announcer alone where it answers none or does not know the swarm. The
  -- counts are those of the scrape, with the
  -- announcer counted in where it stands for itself.
  pub response_announce-ok :
      (s : S) (ctx : Context) (req : AnnounceRequest) (resp : AnnounceResponse)
      (out : Context × AnnounceRequest × AnnounceResponse)
      → ctx.skip_response_hook ≡ false
      → (response_announce store s ctx req resp).1 ≡ ok out
      → (c : Scrape) × (ps : List Peer) × (store.scrape_swarm s req.info_hash
            req.peer.ip.address_family
          ≡ ok c)
        × FoundIn req s ps
        × (out.0 ≡ ctx)
        × (out.1 ≡ req)
        × (peers_for req.peer.ip.address_family out.2
            ≡ (if length ps == 0 then req.peer ∷ [] else ps))
        × (out.2.complete
            ≡ (if (length ps == 0) && (req.left == 0) then inc32 c.complete else c.complete))
        × (out.2.incomplete ≡ (
            if (length ps == 0) && not (req.left == 0) then inc32 c.incomplete else c.incomplete))
  unfolding append_peers
  response_announce-ok s ctx req resp out h e =
      let run = hook_runs s ctx req resp h in
      let (c, e₁, h₁) =
        >>=-eq-ok (store.scrape_swarm s req.info_hash req.peer.ip.address_family) _ (sym run ∙ e) in
      let (a, e₂, h₂) = >>=-eq-ok (append_peers store s req _) _ h₁ in
      let (ps, e₃, h₃) = >>=-eq-ok (found_peers store s req) _ e₂ in
      let is = ok-injective h₂ in
      let found_ones = found_peers-FoundIn s req ps e₃ in
      let answer = answered req req.peer.ip.address_family ps _ a h₃ in
      (
        c,
        ps,
        e₁,
        found_ones,
        ap (λ x. x.0) (sym is),
        ap (λ x. x.1) (sym is),
        ap (λ x. peers_for req.peer.ip.address_family x.2) (sym is) ∙ answer.0,
        ap (λ x. x.2.complete) (sym is) ∙ answer.1,
        ap (λ x. x.2.incomplete) (sym is) ∙ answer.2,
      )

  -- Over a store whose scrapes name the infohash that was asked for, a successful scrape answers
  -- each infohash of the request, in the order of the request.
  pub scrape_all-order :
      (s : S) (af : AddressFamily) (ihs : List Bytes) (cs : List Scrape)
      → ((ih : Bytes) (c : Scrape) → store.scrape_swarm s ih af ≡ ok c → c.info_hash ≡ ih)
      → scrape_all store s af ihs ≡ ok cs
      → map (λ c. c.info_hash) cs ≡ ihs
  unfolding scrape_all
  scrape_all-order s af [] cs same h = ap (map (λ c. c.info_hash)) (sym (ok-injective h))
  scrape_all-order s af (ih ∷ ihs) cs same h =
      let (c, e, h₁) = >>=-eq-ok (store.scrape_swarm s ih af) _ h in
      let (rest, f, h₂) = >>=-eq-ok (scrape_all store s af ihs) _ h₁ in
      ap (map (λ c. c.info_hash)) (sym (ok-injective h₂))
      ∙ ap₂ ◌∷◌ (same ih c e) (scrape_all-order s af ihs rest same f)
