-- ===== src/Redis/Runs.antt =====
-- The methods that write (storage/redis/peer_store.go) over a server that answers: the commands that
-- each sends, and which counters it changes.
use chihaya.Base.{
  ℕ, ◌≡◌, refl, ap, ◌∙◌, Bool, true, false, not, ◌&&◌, Bytes, bytes_eq, List, [], ◌∷◌, ◌++◌,
  get_elem?, none, some, is_some, Result, ok, err, or_panic, ℤ, pos, ◌+ℤ◌, format_uint, format_hex,
  if◌then◌else◌, arith,
}
use chihaya.Bittorrent.{Peer}
use chihaya.Memory.{err_resource_does_not_exist}
use chihaya.Redis.{
  Store, new_peer_key, family_name, leecher_infohash_key, seeder_infohash_key, infohash_count_key,
  seeder_count_key, leecher_count_key,
}
use chihaya.Redis.Servers.{Command, hset, hdel, add_to, incr, decr, Server, Fields, replies, Laws}
use chihaya.Redis.Operations.{
  Method, run, lift, ◌>>=◌, ◌>>◌, is_one, is_zero, if_one, put_seeder, delete_from,
  graduate_leecher,
}

-- A field that is set, and one that is removed.
abbrev pub with_field : Bytes → Bytes → Bytes → Fields → Fields
with_field k f x m j g = if bytes_eq k j && bytes_eq f g then some x else m j g

abbrev pub without_field : Bytes → Bytes → Fields → Fields
without_field k f m j g = if bytes_eq k j && bytes_eq f g then none else m j g

-- A counter that is changed if a test holds.
abbrev pub count_if : Bool → Bytes → Bytes → ℤ → ℤ → ℤ
count_if b k j n x = if b && bytes_eq k j then x +ℤ n else x

is_one-new : (b : Bool) → is_one (if b then pos 0 else pos 1) ≡ not b
is_one-new true = refl
is_one-new false = refl

is_one-gone : (b : Bool) → is_one (if b then pos 1 else pos 0) ≡ b
is_one-gone true = refl
is_one-gone false = refl

pub longer_ne : (a b c : Bytes) (x : ℕ) → bytes_eq (a ++ x ∷ b ++ c) a ≡ false
unfolding bytes_eq
longer_ne [] b c x = refl
longer_ne (y ∷ a) b c x = ground (arith, longer_ne a b c x)

-- What `>>=` does with the state and the result of its first method.
abbrev pub next : {V A B : Type 0} → (A → Method V B) → V × Result A → V × Result B
next k q = elim q.1 [ ok x ↦ k x q.0 | err e ↦ (q.0, err e) | Result.panic ↦ (q.0, Result.panic) ]

module _ {V : Type 0} (server : Server V) (laws : Laws server) where
  open laws use {fields, counters, exec_replies, exec_fields, exec_counters}

  -- The state of the server after one more command, if a test holds.
  unfoldable pub after : Bool → Command → V → V
  after b c w = if b then (server.exec w (c ∷ [])).0 else w

  then_lem :
      {A B : Type 0} (m : Method V A) (k : A → Method V B) (v w : V) (x : A)
      → m v ≡ (w, ok x)
      → (m >>= k) v ≡ k x w
  then_lem m k v w x h = ap (next k) h

  pub run_lem :
      (cs : List Command) (v : V)
      → run server cs v ≡ ((server.exec v cs).0, ok (replies cs (fields v) (counters v)))
  run_lem cs v = ap (λ r. ((server.exec v cs).0, r)) (exec_replies v cs)

  pub run_if :
      (b : Bool) (c : Command) (w : V)
      → (if b then (run server (c ∷ []) >>= λ _. lift (ok tt)) else lift (ok tt)) w
        ≡ (after b c w, ok tt)
  unfolding after
  run_if true c w = then_lem (run server (c ∷ [])) (λ _. lift (ok tt)) w _ _ (run_lem (c ∷ []) w)
  run_if false c w = refl

  if_one_lem :
      (reply : List ℤ) (i : ℕ) (n : ℤ) (b : Bool) (c : Command) (w : V)
      → get_elem? reply i ≡ some n
      → is_one n ≡ b
      → if_one server reply i c w ≡ (after b c w, ok tt)
  unfolding if_one
  if_one_lem reply i n b c w h e =
      let k : ℤ → Method V (Unit {0}) =
        λ x. if is_one x then (run server (c ∷ []) >>= λ _. lift (ok tt)) else lift (ok tt) in
      ap (λ x. next k (w, or_panic x)) h ∙ run_if (is_one n) c w ∙ ap (λ x. (after x c w, ok tt)) e

  pub after-fields :
      (b : Bool) (k : Bytes) (d : ℤ) (w : V) (j g : Bytes)
      → fields (after b (add_to k d) w) j g ≡ fields w j g
  unfolding after
  after-fields true k d w j g = exec_fields w (add_to k d ∷ []) j g
  after-fields false k d w j g = refl

  pub after-counters :
      (b : Bool) (k : Bytes) (d : ℤ) (w : V) (j : Bytes)
      → counters (after b (add_to k d) w) j ≡ count_if b k j d (counters w j)
  unfolding after
  after-counters true k d w j = exec_counters w (add_to k d ∷ []) j
  after-counters false k d w j = refl

  -- A sum for a reply that is 1, and the rest of the method.
  if_one_then :
      (reply : List ℤ) (i : ℕ) (n : ℤ) (b : Bool) (c : Command) (m : Method V (Unit {0})) (w : V)
      → get_elem? reply i ≡ some n
      → is_one n ≡ b
      → (if_one server reply i c >> m) w ≡ m (after b c w)
  if_one_then reply i n b c m w h e = ap (next (λ _. m)) (if_one_lem reply i n b c w h e)

  pub put_seeder_run :
      (st : Store) (ih : Bytes) (p : Peer) (af : Bytes) (v : V)
      → st.closed ≡ false
      → family_name p.ip.address_family ≡ ok af
      → let key = seeder_infohash_key af (format_hex ih) in
        let ct = format_uint st.clock in
        put_seeder server st ih p v ≡ (
          after
              (not (is_some (with_field key (new_peer_key p) ct (fields v) af key)))
              (incr (infohash_count_key af))
              (after
                (not (is_some (fields v key (new_peer_key p))))
                (incr (seeder_count_key af))
                (server.exec v (hset key (new_peer_key p) ct ∷ hset af key ct ∷ [])).0),
          ok tt,
        )
  unfolding put_seeder
  put_seeder_run st ih p af v o f =
      let key = seeder_infohash_key af (format_hex ih) in
      let ct = format_uint st.clock in
      let cs = hset key (new_peer_key p) ct ∷ hset af key ct ∷ [] in
      let count_seeder = incr (seeder_count_key af) in
      let count_infohash = incr (infohash_count_key af) in
      let reply = replies cs (fields v) (counters v) in
      rw (f, o)
        (ap (next (λ r. if_one server r 0 count_seeder >> if_one server r 1 count_infohash))
            (run_lem cs v)
          ∙ if_one_then reply 0 _ _ count_seeder (if_one server reply 1 count_infohash) _ refl
              (is_one-new _)
          ∙ if_one_lem reply 1 _ _ count_infohash _ refl (is_one-new _))

  pub graduate_leecher_run :
      (st : Store) (ih : Bytes) (p : Peer) (af : Bytes) (v : V)
      → st.closed ≡ false
      → family_name p.ip.address_family ≡ ok af
      → let l_key = leecher_infohash_key af (format_hex ih) in
        let s_key = seeder_infohash_key af (format_hex ih) in
        let pk = new_peer_key p in
        let ct = format_uint st.clock in
        let less = without_field l_key pk (fields v) in
        graduate_leecher server st ih p v ≡ (
          after
              (not (is_some (with_field s_key pk ct less af s_key)))
              (incr (infohash_count_key af))
              (after (not (is_some (less s_key pk))) (incr (seeder_count_key af)) (
                after
                  (is_some (fields v l_key pk))
                  (decr (leecher_count_key af))
                  (server.exec v (hdel l_key pk ∷ hset s_key pk ct ∷ hset af s_key ct ∷ [])).0)),
          ok tt,
        )
  unfolding graduate_leecher
  graduate_leecher_run st ih p af v o f =
      let l_key = leecher_infohash_key af (format_hex ih) in
      let s_key = seeder_infohash_key af (format_hex ih) in
      let pk = new_peer_key p in
      let ct = format_uint st.clock in
      let cs = hdel l_key pk ∷ hset s_key pk ct ∷ hset af s_key ct ∷ [] in
      let count_leecher = decr (leecher_count_key af) in
      let count_seeder = incr (seeder_count_key af) in
      let count_infohash = incr (infohash_count_key af) in
      let reply = replies cs (fields v) (counters v) in
      let last = if_one server reply 2 count_infohash in
      rw (f, o)
        (ap
            (next (λ r.
              if_one server r 0 count_leecher
              >> (if_one server r 1 count_seeder >> if_one server r 2 count_infohash)))
            (run_lem cs v)
          ∙ if_one_then reply 0 _ _ count_leecher (if_one server reply 1 count_seeder >> last) _
              refl (is_one-gone _)
          ∙ if_one_then reply 1 _ _ count_seeder last _ refl (is_one-new _)
          ∙ if_one_lem reply 2 _ _ count_infohash _ refl (is_one-new _))

  settle :
      (b : Bool) (counter : Bytes) (w : V)
      → (if is_zero (if b then pos 1 else pos 0)
            then lift (err err_resource_does_not_exist)
            else (run server (decr counter ∷ []) >>= λ _. lift (ok tt)))
          w
        ≡ (after b (decr counter) w, if b then ok tt else err err_resource_does_not_exist)
  unfolding after
  settle true counter w = run_if true (decr counter) w
  settle false counter w = refl

  pub delete_from_run :
      (key pk counter : Bytes) (v : V)
      → let found = is_some (fields v key pk) in
        delete_from server key pk counter v ≡ (
          after found (decr counter) (server.exec v (hdel key pk ∷ [])).0,
          if found then ok tt else err err_resource_does_not_exist,
        )
  unfolding delete_from
  delete_from_run key pk counter v =
      let k : List ℤ → Method V (Unit {0}) = λ reply.
        (lift (or_panic (get_elem? reply 0)) >>= λ n.
        if is_zero n
        then lift (err err_resource_does_not_exist)
        else (run server (decr counter ∷ []) >>= λ _. lift (ok tt))) in
      ap (next k) (run_lem (hdel key pk ∷ []) v)
      ∙ settle (is_some (fields v key pk)) counter (server.exec v (hdel key pk ∷ [])).0
