-- ===== src/Memory/Announce/Loops.antt =====
-- The loops of `AnnouncePeers` against one list of candidates.
use chihaya.Base.{
  ℕ, zero, suc, ◌-◌, ◌==◌, ltb, ◌≡◌, refl, ap, ◌∙◌, sym, fun_ext, Bool, true, false, Bytes,
  bytes_eq, List, [], ◌∷◌, ◌++◌, take, length, append-nil, append_assoc, Result, ok, err, ◌>>=◌,
  if◌then◌else◌, arith, Bool-cases, ==_iff, >>=_assoc, inl, inr,
}
use chihaya.Bittorrent.{Peer}
use chihaya.Memory.Keys.{decode_peer_key}
use chihaya.Memory.Announce.{Picked, pick_peer, append_peers, append_others, if_wanted}

-- Every key decoded, or the first panic.
unfoldable pub decode_all : List Bytes → Result (List Peer)
decode_all [] = ok []
decode_all (pk ∷ pks) = do p ← decode_peer_key pk; ps ← decode_all pks; ok (p ∷ ps)

-- The keys that are not the announcer's own.
unfoldable pub others : Bytes → List Bytes → List Bytes
others own [] = []
others own (pk ∷ pks) = let rest = others own pks in if bytes_eq pk own then rest else pk ∷ rest

abbrev pub when : Bool → List Bytes → List Bytes
when true ks = ks
when false ks = []

pick_peer_full :
    (f : Picked → Result Picked) (pk : Bytes) (r : Picked)
    → r.num_want ≡ 0
    → pick_peer f pk r ≡ ok r
unfolding pick_peer
pick_peer_full f pk r h = ground arith

pub append_peers_full : (ks : List Bytes) (r : Picked) → r.num_want ≡ 0 → append_peers ks r ≡ ok r
unfolding append_peers
append_peers_full [] r h = refl
append_peers_full (pk ∷ pks) r h = pick_peer_full (append_peers pks) pk r h

pub append_others_lem :
    (own : Bytes) (ks : List Bytes) (r : Picked)
    → append_others own ks r ≡ append_peers (others own ks) r
unfolding append_others append_peers others
append_others_lem own [] r = refl
append_others_lem own (pk ∷ pks) r = elim (Bool-cases (bytes_eq pk own)) [
  | inl e ↦ rw (e, append_others) (append_others_lem own pks r)
  | inr e ↦ rw (e, append_others) (ap (λ f. pick_peer f pk r) (fun_ext (append_others_lem own pks)))
]

-- A loop that goes on with `g` after its list is a loop and then `g`.
pick_peer->>= :
    (f g : Picked → Result Picked) (pk : Bytes) (r : Picked)
    → (r.num_want ≡ 0 → g r ≡ ok r)
    → pick_peer (λ x. f x >>= g) pk r ≡ (pick_peer f pk r >>= g)
unfolding pick_peer
pick_peer->>= f g pk r full = elim (Bool-cases (r.num_want == 0)) [
  | inl e ↦ rw (e, pick_peer) (sym (full ((==_iff _ _).0 e)))
  | inr e ↦ rw (e, pick_peer) (>>=_assoc (decode_peer_key pk) _ g)
]

pub append_peers-append :
    (ks ls : List Bytes) (r : Picked)
    → append_peers (ks ++ ls) r ≡ (append_peers ks r >>= append_peers ls)
unfolding append_peers
append_peers-append [] ls r = refl
append_peers-append (k ∷ ks) ls r =
    ap (λ f. pick_peer f k r) (fun_ext (append_peers-append ks ls))
    ∙ pick_peer->>= (append_peers ks) (append_peers ls) k r (append_peers_full ls r)

pub if_wanted_lem :
    (exists : Bool) (ks : List Bytes) (r : Picked)
    → if_wanted exists (append_peers ks) r ≡ append_peers (when exists ks) r
if_wanted_lem true ks r = elim (Bool-cases (ltb 0 r.num_want)) [
  | inl e ↦ unfold if_wanted in rw (e, if_wanted)
  | inr e ↦ unfold if_wanted in rw (e, if_wanted) (sym (append_peers_full ks r (ground arith)))
]
if_wanted_lem false ks r = elim (Bool-cases (ltb 0 r.num_want)) [
  | inl e ↦ unfold if_wanted append_peers in rw (e, if_wanted)
  | inr e ↦ unfold if_wanted append_peers in rw (e, if_wanted)
]

-- One decoded key in front of the others.
decode_first :
    (m : Result Peer) (ms : Result (List Peer)) (acc : List Peer) (n : ℕ)
    → (m >>= λ p. ms >>= λ ps. ok (record { peers = (acc ++ p ∷ []) ++ ps; num_want = n })) ≡ (
        (m >>= λ p. ms >>= λ ps. ok (p ∷ ps)) >>= λ ps.
        ok (let r : Picked = record { peers = acc ++ ps; num_want = n } in r))
decode_first (ok p) (ok ps) acc n =
    ap (λ qs. ok (let r : Picked = record { peers = qs; num_want = n } in r))
      (append_assoc acc (p ∷ []) ps)
decode_first (ok p) (err e) acc n = refl
decode_first (ok p) Result.panic acc n = refl
decode_first (err e) ms acc n = refl
decode_first Result.panic ms acc n = refl

pick_peer_more :
    (f : Picked → Result Picked) (pk : Bytes) (acc : List Peer) (n : ℕ)
    → pick_peer f pk (record { peers = acc; num_want = suc n })
      ≡ (decode_peer_key pk >>= λ p. f (record { peers = acc ++ p ∷ []; num_want = n }))
unfolding pick_peer
pick_peer_more f pk acc n =
    let some_wanted : (suc n == 0) ≡ false = ground arith in
    let one_less : suc n - 1 ≡ n = omega arith in rw (some_wanted, pick_peer, one_less)

-- A loop decodes the first keys, as many as are wanted.
pub append_peers_lem :
    (ks : List Bytes) (n : ℕ) (acc : List Peer)
    → append_peers ks (record { peers = acc; num_want = n }) ≡ (
        decode_all (take n ks) >>= λ ps.
        ok (record { peers = acc ++ ps; num_want = n - length ks }))
unfolding append_peers decode_all
append_peers_lem [] zero acc = ground (arith, append-nil acc)
append_peers_lem [] (suc n) acc = ground (arith, append-nil acc)
append_peers_lem (k ∷ ks) zero acc =
    pick_peer_full (append_peers ks) k (record { peers = acc; num_want = 0 }) refl
    ∙ ground (arith, append-nil acc)
append_peers_lem (k ∷ ks) (suc n) acc =
    let one_less : suc n - suc (length ks) ≡ n - length ks = omega arith in
    pick_peer_more (append_peers ks) k acc n
    ∙ ap (λ f. decode_peer_key k >>= f) (fun_ext (λ p. append_peers_lem ks n (acc ++ p ∷ [])))
    ∙ decode_first (decode_peer_key k) (decode_all (take n ks)) acc (n - length ks)
    ∙ rw one_less

-- A loop that runs only if more are wanted, and then another.
pub wanted_then :
    (exists : Bool) (loop : Picked → Result Picked) (ks ls : List Bytes)
    → loop ≡ append_peers ks
    → (λ (r : Picked). if_wanted exists loop r >>= append_peers ls)
      ≡ append_peers (when exists ks ++ ls)
wanted_then exists loop ks ls e =
    fun_ext λ r. rw (e, if_wanted_lem exists ks r) (sym (append_peers-append (when exists ks) ls r))
