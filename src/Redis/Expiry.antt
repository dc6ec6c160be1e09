-- ===== src/Redis/Expiry.antt =====
-- Which fields of a swarm the garbage collection deletes (collectGarbage of
-- storage/redis/peer_store.go), over a server that answers.
use chihaya.Base.{
  ◌≡◌, refl, ap, sym, ◌∙◌, Bool, true, false, ◌&&◌, ◌||◌, Bytes, bytes_eq, List, [], ◌∷◌, Option,
  none, some, is_some, ok, or_panic, get_elem?, ℤ, pos, ◌+ℤ◌, parse_int, if◌then◌else◌, Bool-cases,
  inl, inr,
}
use chihaya.Bittorrent.{Peer}
use chihaya.Redis.{decode_peer_key}
use chihaya.Redis.Servers.{hdel, Server, Laws}
use chihaya.Redis.Operations.{Method, run, lift, ◌>>=◌}
use chihaya.Redis.Collection.{at_most, read_time, delete_expired}
use chihaya.Redis.Runs.{next, run_lem}

-- A field of a swarm with its value, and what they stand for.
pub record Entry : Type 0 where
  pub key : Bytes
  pub value : Bytes
  pub peer : Peer
  pub time : ℤ

abbrev pub IsRead : Entry → Type 0
IsRead e = (decode_peer_key e.key ≡ ok e.peer) × (parse_int e.value ≡ some e.time)

abbrev pub AllRead : List Entry → Type 0
AllRead [] = Unit {0}
AllRead (e ∷ es) = IsRead e × AllRead es

-- The reply of HGETALL.
abbrev pub flat : List Entry → List Bytes
flat [] = []
flat (e ∷ es) = e.key ∷ e.value ∷ flat es

-- Some entry of the field is not after the cutoff.
abbrev pub is_old : ℤ → Bytes → List Entry → Bool
is_old cutoff f [] = false
is_old cutoff f (e ∷ es) = (at_most e.time cutoff && bytes_eq e.key f) || is_old cutoff f es

pub none_old : (b : Bool) (x : Option Bytes) → (if b && false then none else x) ≡ x
none_old true x = refl
none_old false x = refl

twice_without :
    (b c d : Bool) (x : Option Bytes)
    → (if b && d then none else (if b && c then none else x)) ≡ (if b && (c || d) then none else x)
twice_without true true true x = refl
twice_without true true false x = refl
twice_without true false d x = refl
twice_without false c d x = refl

module _ {V : Type 0} (server : Server V) (laws : Laws server) where
  open laws use {fields, counters, exec_replies, exec_fields, exec_counters}

  unfoldable pub gone : Bytes → Bytes → V → ℤ
  gone ih f v = if is_some (fields v ih f) then pos 1 else pos 0

  -- The parts of a turn of the loop.
  abbrev counted_on : Bytes → ℤ → ℤ → List Bytes → List ℤ → Method V ℤ
  counted_on ih cutoff removed rest reply = lift (or_panic (get_elem? reply 0)) >>= λ n.
      delete_expired server ih cutoff (removed +ℤ n) rest

  abbrev delete_old : Bytes → ℤ → ℤ → Entry → List Bytes → Method V ℤ
  delete_old ih cutoff removed e rest = lift (decode_peer_key e.key) >>= λ _.
      run server (hdel ih e.key ∷ []) >>= counted_on ih cutoff removed rest

  abbrev choose : Bool → Method V ℤ → Method V ℤ → Method V ℤ
  choose b m k = elim b as (λ _. Method V ℤ) [ true ↦ m | false ↦ k ]

  abbrev branch : Bytes → ℤ → ℤ → Entry → List Bytes → ℤ → Method V ℤ
  branch ih cutoff removed e rest mtime =
      choose (at_most mtime cutoff) (delete_old ih cutoff removed e rest)
        (delete_expired server ih cutoff removed rest)

  pub delete_one :
      (ih : Bytes) (cutoff removed : ℤ) (e : Entry) (rest : List Bytes) (v : V)
      → IsRead e
      → at_most e.time cutoff ≡ true
      → delete_expired server ih cutoff removed (e.key ∷ e.value ∷ rest) v
        ≡ delete_expired server ih cutoff
            (removed +ℤ gone ih e.key v)
            rest
            (server.exec v (hdel ih e.key ∷ [])).0
  unfolding delete_expired gone
  delete_one ih cutoff removed e rest v r o =
      ap (λ x. next (branch ih cutoff removed e rest) (v, read_time x)) r.1
      ∙ ap
          (λ b.
            choose b (delete_old ih cutoff removed e rest)
              (delete_expired server ih cutoff removed rest) v)
          o
      ∙ ap
          (λ x.
            next (λ _. run server (hdel ih e.key ∷ []) >>= counted_on ih cutoff removed rest)
              (v, x))
          r.0
      ∙ ap (next (counted_on ih cutoff removed rest)) (run_lem server laws (hdel ih e.key ∷ []) v)

  pub keep_one :
      (ih : Bytes) (cutoff removed : ℤ) (e : Entry) (rest : List Bytes) (v : V)
      → IsRead e
      → at_most e.time cutoff ≡ false
      → delete_expired server ih cutoff removed (e.key ∷ e.value ∷ rest) v
        ≡ delete_expired server ih cutoff removed rest v
  unfolding delete_expired
  keep_one ih cutoff removed e rest v r o =
      ap (λ x. next (branch ih cutoff removed e rest) (v, read_time x)) r.1
      ∙ ap
          (λ b.
            choose b (delete_old ih cutoff removed e rest)
              (delete_expired server ih cutoff removed rest) v)
          o

  -- Over a server that answers, and with fields that are keys of peers and values that are times, the
  -- loop over a swarm's fields succeeds and deletes the fields whose time is not after the cutoff. It
  -- leaves all other fields and all counters.
  pub delete_expired-is_old :
      (ih : Bytes) (cutoff removed : ℤ) (es : List Entry) (v : V) (j g k : Bytes)
      → AllRead es
      → let r = delete_expired server ih cutoff removed (flat es) v in
        ((n : ℤ) × (r.1 ≡ ok n))
        × (fields r.0 j g ≡ (if bytes_eq ih j && is_old cutoff g es then none else fields v j g))
        × (counters r.0 k ≡ counters v k)
  delete_expired-is_old ih cutoff removed [] v j g k a =
      unfold delete_expired in
      ((removed, refl), sym (none_old (bytes_eq ih j) (fields v j g)), refl)
  delete_expired-is_old ih cutoff removed (e ∷ es) v j g k a =
      elim (Bool-cases (at_most e.time cutoff)) [
        | inl o ↦
            let w = (server.exec v (hdel ih e.key ∷ [])).0 in
            let rest =
              delete_expired-is_old ih cutoff (removed +ℤ gone ih e.key v) es w j g k a.1 in
            rw (delete_one ih cutoff removed e (flat es) v a.0 o, o)
              (
                rest.0,
                rest.1
                    ∙ ap (λ x. if bytes_eq ih j && is_old cutoff g es then none else x)
                        (exec_fields v (hdel ih e.key ∷ []) j g)
                    ∙ twice_without (bytes_eq ih j) (bytes_eq e.key g) (is_old cutoff g es)
                        (fields v j g),
                rest.2 ∙ exec_counters v (hdel ih e.key ∷ []) k,
              )
        | inr o ↦
            let rest = delete_expired-is_old ih cutoff removed es v j g k a.1 in
            rw (keep_one ih cutoff removed e (flat es) v a.0 o, o) rest
      ]
