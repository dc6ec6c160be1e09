-- ===== src/Redis/Sweeps.antt =====
-- How many peers the garbage collection removes from a swarm (collectGarbage of
-- storage/redis/peer_store.go), over a server that answers.
pub mod Emptied
pub mod Whole
use chihaya.Base.{
  ℕ, ◌+◌, ◌^◌, ◌≡◌, refl, ap, ◌∙◌, sym, Bool, true, false, ◌&&◌, Bytes, bytes_eq, length, List, [],
  ◌∷◌, Option, none, is_some, ok, ℤ, pos, ◌+ℤ◌, pos-+ℤ-pos, ◌<◌, if◌then◌else◌, Bool-cases, inl,
  inr, arith,
}
use chihaya.Redis.Servers.{hdel, Server, Laws}
use chihaya.Redis.Collection.{at_most, delete_expired}
use chihaya.Redis.Expiry.{Entry, AllRead, flat, none_old, gone, delete_one, keep_one}

abbrev pub IsNew : Bytes → List Entry → Type 0
IsNew k [] = Unit {0}
IsNew k (e ∷ es) = (bytes_eq k e.key ≡ false) × IsNew k es

-- The entries are fields of the hash, each once.
abbrev pub Listed : (Bytes → Option Bytes) → List Entry → Type 0
Listed h [] = Unit {0}
Listed h (e ∷ es) = (is_some (h e.key) ≡ true) × IsNew e.key es × Listed h es

abbrev pub count_old : ℤ → List Entry → ℕ
count_old cutoff [] = 0
count_old cutoff (e ∷ es) =
    if at_most e.time cutoff then count_old cutoff es + 1 else count_old cutoff es

Listed-other :
    (k : Bytes) (h h' : Bytes → Option Bytes) (es : List Entry)
    → ((g : Bytes) → bytes_eq k g ≡ false → h' g ≡ h g)
    → IsNew k es
    → Listed h es
    → Listed h' es
Listed-other k h h' [] same n l = tt
Listed-other k h h' (e ∷ es) same n l =
    (ap is_some (same e.key n.0) ∙ l.0, l.1, Listed-other k h h' es same n.1 l.2)

module _ {V : Type 0} (server : Server V) (laws : Laws server) where
  open laws use {fields, exec_fields}

  other_fields :
      (ih k : Bytes) (v : V) (g : Bytes)
      → bytes_eq k g ≡ false
      → fields (server.exec v (hdel ih k ∷ [])).0 ih g ≡ fields v ih g
  other_fields ih k v g n =
      exec_fields v (hdel ih k ∷ []) ih g
      ∙ ap (λ b. if bytes_eq ih ih && b then none else fields v ih g) n
      ∙ none_old (bytes_eq ih ih) (fields v ih g)

  gone-listed :
      (ih k : Bytes) (v : V) → is_some (fields v ih k) ≡ true → gone server laws ih k v ≡ pos 1
  unfolding gone
  gone-listed ih k v h = rw h refl

  -- Over a server that answers, for a reply of HGETALL with each field once, whose fields are keys of
  -- peers and whose values are times, the loop counts the fields that are not after the cutoff.
  pub delete_expired-count_old :
      (ih : Bytes) (cutoff : ℤ) (m : ℕ) (es : List Entry) (v : V)
      → AllRead es
      → Listed (fields v ih) es
      → m + length es < 2 ^ 63
      → (delete_expired server ih cutoff (pos m) (flat es) v).1 ≡ ok (pos (m + count_old cutoff es))
  delete_expired-count_old ih cutoff m [] v a l b =
      unfold delete_expired in ap (λ x. ok (pos x)) (omega arith)
  delete_expired-count_old ih cutoff m (e ∷ es) v a l b =
      elim (Bool-cases (at_most e.time cutoff)) [
        | inl o ↦
            let w = (server.exec v (hdel ih e.key ∷ [])).0 in
            let rest =
              delete_expired-count_old ih cutoff (m + 1) es w a.1
                (Listed-other e.key (fields v ih) (fields w ih) es (other_fields ih e.key v) l.1
                  l.2)
                (omega arith) in
            let one : pos m +ℤ gone server laws ih e.key v ≡ pos (m + 1) =
              ap (λ x. pos m +ℤ x) (gone-listed ih e.key v l.0) ∙ pos-+ℤ-pos m 1 (omega arith) in
            rw (delete_one server laws ih cutoff (pos m) e (flat es) v a.0 o, one, o)
              (rest ∙ ap (λ x. ok (pos x)) (omega arith))
        | inr o ↦
            rw (keep_one server laws ih cutoff (pos m) e (flat es) v a.0 o, o)
              (delete_expired-count_old ih cutoff m es v a.1 l.2 (omega arith))
      ]
