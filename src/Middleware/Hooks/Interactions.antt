-- ===== src/Middleware/Hooks/Interactions.antt =====
-- What an announce does to the in-memory store.
use chihaya.Base.{
  ℕ, ◌==◌, ◌≡◌, refl, ap, ◌∙◌, Bool, true, false, Bytes, Option, none, some, Result, ok,
  if◌then◌else◌, Bool-cases, inl, inr,
}
use chihaya.Bittorrent.{
  AddressFamily, Event, none_event, started, stopped, completed, other_event, AnnounceRequest,
  AnnounceResponse,
}
use chihaya.Memory.{PeerStore}
use chihaya.Memory.Operations.{put_seeder, put_leecher, graduate_leecher}
use chihaya.Memory.Operations.Index.{IsSharded}
use chihaya.Memory.Operations.Refinement.{
  seeder_time, leecher_time, is_entry, put_seeder-refines, put_leecher-refines,
  graduate_leecher-refines,
}
use chihaya.Memory.Interface.{memory_store}
use chihaya.Memory.Announce.{Orders}
use chihaya.Middleware.Hooks.Deletions.{deleted_seeder, deleted_leecher}
use chihaya.Middleware.{Context}
use chihaya.Middleware.Hooks.{
  interact, interact_stopped, then_delete_leecher, settle, swarm_interaction_announce,
}

-- What an announce makes of the announcer's own time as a seeder, and as a leecher.
unfoldable pub new_seeder_time : Event → ℕ → ℕ → Option ℕ → Option ℕ
new_seeder_time stopped left now old = none
new_seeder_time completed left now old = some now
new_seeder_time _ left now old = if left == 0 then some now else old

unfoldable pub new_leecher_time : Event → ℕ → ℕ → Option ℕ → Option ℕ
new_leecher_time stopped left now old = none
new_leecher_time completed left now old = none
new_leecher_time _ left now old = if left == 0 then old else some now

either {ℓ} : {A : Type ℓ} (b : Bool) (a : A) → a ≡ (if b then a else a)
either true a = refl
either false a = refl

module _ (order : Orders) (ps : PeerStore) (r : IsSharded ps) (o : ps.closed ≡ false)
    (req : AnnounceRequest) (j : Bytes) (af : AddressFamily) (qk : Bytes) where
  abbrev mine : Bool
  mine = is_entry req.info_hash req.peer j af qk

  -- The outcome of an announce, for one event.
  abbrev Effect : PeerStore × Result (Unit {0}) → Event → Type 0
  Effect (q, x) e =
      (x ≡ ok tt)
      × (seeder_time q j af qk ≡ (
          if mine
          then new_seeder_time e req.left ps.clock (seeder_time ps j af qk)
          else seeder_time ps j af qk))
      × (leecher_time q j af qk ≡ (
          if mine
          then new_leecher_time e req.left ps.clock (leecher_time ps j af qk)
          else leecher_time ps j af qk))

  completed-Effect :
      Effect (settle (memory_store order) ps (graduate_leecher ps req.info_hash req.peer)) completed
  unfolding settle new_seeder_time new_leecher_time
  completed-Effect =
      let (q, e, s, l) = graduate_leecher-refines ps r o req.info_hash req.peer j af qk in
      rw (e, settle) (refl, s, l)

  -- An announce of no event, or of the start.
  plain-Effect :
      let (q, x) =
        if req.left == 0
        then settle (memory_store order) ps (put_seeder ps req.info_hash req.peer)
        else settle (memory_store order) ps (put_leecher ps req.info_hash req.peer) in
      (x ≡ ok tt)
      × (seeder_time q j af qk ≡ (
          if mine
          then (if req.left == 0 then some ps.clock else seeder_time ps j af qk)
          else seeder_time ps j af qk))
      × (leecher_time q j af qk ≡ (
          if mine
          then (if req.left == 0 then leecher_time ps j af qk else some ps.clock)
          else leecher_time ps j af qk))
  unfolding settle
  plain-Effect = elim (Bool-cases (req.left == 0)) [
    | inl z ↦
        let (q, e, s, l) = put_seeder-refines ps r o req.info_hash req.peer j af qk in
        rw (z, e, settle) (refl, s, l ∙ either mine (leecher_time ps j af qk))
    | inr z ↦
        let (q, e, l, s) = put_leecher-refines ps r o req.info_hash req.peer j af qk in
        rw (z, e, settle) (refl, s ∙ either mine (seeder_time ps j af qk), l)
  ]

  stopped-Effect : Effect (interact_stopped (memory_store order) ps req) stopped
  unfolding interact_stopped then_delete_leecher new_seeder_time new_leecher_time
  stopped-Effect =
      let (q1, e1, r1, o1, t1) = deleted_seeder order ps r o req.info_hash req.peer in
      let (q2, e2, r2, o2, t2) = deleted_leecher order q1 r1 o1 req.info_hash req.peer in
      let (s1, l1) = t1 j af qk in
      let (l2, s2) = t2 j af qk in
      let both : interact_stopped (memory_store order) ps req ≡ (q2, ok tt) =
        ap (then_delete_leecher (memory_store order) req) e1 ∙ e2 in
      rw both (refl, s2 ∙ s1, l2 ∙ ap (λ x. if mine then none else x) l1)

  interact-Effect : (e : Event) → req.event ≡ e → Effect (interact (memory_store order) ps req) e
  unfolding interact new_seeder_time new_leecher_time
  interact-Effect stopped h = rw (h, interact) stopped-Effect
  interact-Effect completed h = rw (h, interact) completed-Effect
  interact-Effect none_event h = rw (h, interact) plain-Effect
  interact-Effect started h = rw (h, interact) plain-Effect
  interact-Effect (other_event n) h = rw (h, interact) plain-Effect

  -- Unless it is to be skipped, the hook over an open in-memory store with `IsSharded` records an
  -- announce without an error, for its announcer alone: it forgets a peer that stopped, makes a
  -- seeder of one that completed, and refreshes any other as a seeder if nothing is left to
  -- download and as a leecher if something is.
  pub swarm_interaction-effect :
      (ctx : Context) (resp : AnnounceResponse)
      → ctx.skip_swarm_interaction ≡ false
      → let (q, x) = swarm_interaction_announce (memory_store order) ps ctx req resp in
        (x ≡ ok (ctx, req, resp))
        × (seeder_time q j af qk ≡ (
            if mine
            then new_seeder_time req.event req.left ps.clock (seeder_time ps j af qk)
            else seeder_time ps j af qk))
        × (leecher_time q j af qk ≡ (
            if mine
            then new_leecher_time req.event req.left ps.clock (leecher_time ps j af qk)
            else leecher_time ps j af qk))
  unfolding swarm_interaction_announce
  swarm_interaction-effect ctx resp h =
      let (e, s, l) = interact-Effect req.event refl in
      rw h (rw (e, swarm_interaction_announce) (refl, s, l))
