-- ===== src/Middleware/Limits/Uniqueness.antt =====
-- What the limit of middleware/peerlimit/peerlimit.go keeps true of the sets.
use chihaya.Base.{
  ℤ, ◌==◌, ◌≡◌, ◌⊎◌, refl, sym, subst, ◌∙◌, Bool, true, false, not, ◌&&◌, Bytes, bytes_eq,
  bytes_eq_iff, length, List, [], ◌∷◌, ok, err, format_hex, quot, if◌then◌else◌, Bool-cases, inl,
  inr, arith,
}
use chihaya.Bittorrent.{AnnounceRequest, AnnounceResponse}
use chihaya.Middleware.{Context}
use chihaya.Middleware.Approval.{contains}
use chihaya.Middleware.Limits.{
  Config, SetServer, err_limit_reached, passkey_of, limit_key, other_member, is_stopped,
  limit_announce,
}

-- A server that answers, between the expiries of its sets.
pub record Laws {S : Type 0} (server : SetServer S) : Type 0 where
  pub has : S → Bytes → Bytes → Bool
  pub listed : S → Bytes → List Bytes
  pub smembers_lists : (s : S) (k : Bytes) → server.smembers s k ≡ ok (listed s k)
  pub listed_has : (s : S) (k m : Bytes) → contains m (listed s k) ≡ has s k m
  pub srem_has :
      (s : S) (k m j n : Bytes)
      → has (server.srem s k m).0 j n ≡ (if bytes_eq k j && bytes_eq m n then false else has s j n)
  pub sadd_has :
      (s : S) (k m : Bytes) (t : ℤ) (j n : Bytes)
      → has (server.sadd s k m t).0 j n ≡ (if bytes_eq k j && bytes_eq m n then true else has s j n)

-- All members of a list are the one.
other_member-lem :
    (id : Bytes) (ms : List Bytes) (m : Bytes)
    → other_member id ms ≡ false
    → contains m ms ≡ true
    → m ≡ id
unfolding other_member contains
other_member-lem id [] m o c = cc
other_member-lem id (x ∷ ms) m o c =
    ground (arith, bytes_eq_iff x id, bytes_eq_iff x m, other_member-lem id ms m)

kept : (b d : Bool) → (if b then false else d) ≡ true → d ≡ true
kept true d h = cc
kept false d h = h

added :
    (b c d : Bool) → (if b && c then true else d) ≡ true → ((b ≡ true) × (c ≡ true)) ⊎ (d ≡ true)
added true true d h = inl (refl, refl)
added true false d h = inr h
added false c d h = inr h

elsewhere : (b c d : Bool) → b ≡ false → (if b && c then true else d) ≡ true → d ≡ true
elsewhere true c d e h = cc
elsewhere false c d e h = h

module _ {S : Type 0} (server : SetServer S) (laws : Laws server) where
  open laws use {has, listed, smembers_lists, listed_has, srem_has, sadd_has}

  -- No set has two members.
  abbrev pub IsLimited : S → Type 0
  IsLimited s = (k m n : Bytes) → has s k m ≡ true → has s k n ≡ true → m ≡ n

  srem-IsLimited : (s : S) (k m : Bytes) → IsLimited s → IsLimited (server.srem s k m).0
  srem-IsLimited s k m l j a b p q =
      let before : (n : Bytes) → has (server.srem s k m).0 j n ≡ true → has s j n ≡ true =
        λ n h. kept (bytes_eq k j && bytes_eq m n) (has s j n) (sym (srem_has s k m j n) ∙ h) in
      l j a b (before a p) (before b q)

  -- Behind a check that no other member is there, the peer is the only one.
  sadd_only :
      (s : S) (k m : Bytes) (t : ℤ) (n : Bytes)
      → other_member m (listed s k) ≡ false
      → has (server.sadd s k m t).0 k n ≡ true
      → n ≡ m
  sadd_only s k m t n o h =
      elim (added (bytes_eq k k) (bytes_eq m n) (has s k n) (sym (sadd_has s k m t k n) ∙ h)) [
        | inl (_, e) ↦ sym ((bytes_eq_iff m n).0 e)
        | inr e ↦ other_member-lem m (listed s k) n o (listed_has s k n ∙ e)
      ]

  sadd-IsLimited :
      (s : S) (k m : Bytes) (t : ℤ)
      → other_member m (listed s k) ≡ false
      → IsLimited s
      → IsLimited (server.sadd s k m t).0
  sadd-IsLimited s k m t o l j a b p q = elim (Bool-cases (bytes_eq k j)) [
    | inl e ↦
        let same : j ≡ k = sym ((bytes_eq_iff k j).0 e) in
        let only : (n : Bytes) → has (server.sadd s k m t).0 j n ≡ true → n ≡ m = λ n h.
          sadd_only s k m t n o (subst (λ x. has (server.sadd s k m t).0 x n ≡ true) same h) in
        only a p ∙ sym (only b q)
    | inr e ↦
        let before : (n : Bytes) → has (server.sadd s k m t).0 j n ≡ true → has s j n ≡ true =
          λ n h.
            elsewhere (bytes_eq k j) (bytes_eq m n) (has s j n) e
              (sym (sadd_has s k m t j n) ∙ h) in
        l j a b (before a p) (before b q)
  ]

  -- Over a server that answers, every announce keeps it so that no set has two members, and it is
  -- refused exactly if the hook has a broker and finds a passkey, the announce is not a stop, and the
  -- set of the passkey and the torrent lists another peer.
  pub limit_announce-IsLimited :
      (cfg : Config) (s : S) (ctx : Context) (req : AnnounceRequest) (resp : AnnounceResponse)
      → IsLimited s
      → let passkey = passkey_of ctx req in
        let r = limit_announce server cfg s ctx req resp in
        IsLimited r.0
        × (r.1 ≡ (
            if not (length cfg.redis_broker == 0)
              && not (length passkey == 0)
              && not (is_stopped req.event)
              && other_member
                  (format_hex req.peer.id)
                  (listed s (limit_key cfg passkey req.info_hash))
            then err err_limit_reached
            else ok (ctx, req, resp)))
  unfolding limit_announce
  limit_announce-IsLimited cfg s ctx req resp l =
      let passkey = passkey_of ctx req in
      let key = limit_key cfg passkey req.info_hash in
      let id = format_hex req.peer.id in
      elim (Bool-cases (length cfg.redis_broker == 0)) [
        | inl e ↦ rw e (l, refl)
        | inr e ↦ elim (Bool-cases (length passkey == 0)) [
          | inl f ↦ rw (e, f) (l, refl)
          | inr f ↦ elim (Bool-cases (is_stopped req.event)) [
            | inl g ↦ rw (e, f, g) (srem-IsLimited s key id l, refl)
            | inr g ↦ elim (Bool-cases (other_member id (listed s key))) [
              | inl h ↦ rw (e, f, g, smembers_lists s key, h) (l, refl)
              | inr h ↦
                  rw (e, f, g, smembers_lists s key, h)
                    (sadd-IsLimited s key id (quot cfg.peer_lifetime 1_000_000_000) h l, refl)
            ]
          ]
        ]
      ]
