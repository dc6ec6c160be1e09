-- ===== src/Redis/Sweeps/Emptied.antt =====
-- What becomes of a swarm that may be empty (the transaction at the end of collectGarbage of
-- storage/redis/peer_store.go), over a server that answers.
use chihaya.Base.{
  ℕ, ◌==◌, ◌≡◌, refl, ap, ◌∙◌, sym, Bool, true, false, ◌&&◌, Bytes, bytes_eq, List, [], ◌∷◌, Option,
  none, is_some, Result, ok, pos, neg, if◌then◌else◌, err, panic,
}
use chihaya.Redis.{infohash_count_key}
use chihaya.Redis.Servers.{
  Command, hdel, decr, Server, Laws, Fields, Counters, all_fields, all_counters,
}
use chihaya.Redis.Operations.{Method, run, ◌>>=◌}
use chihaya.Redis.Collection.{is_seeder_key, attempt, read, drop_empty}
use chihaya.Redis.Runs.{next, run_lem, count_if}

-- No field, or some field.
abbrev pub IsEmpty : Bool → (Bytes → Option Bytes) → Type 0
IsEmpty true h = (f : Bytes) → h f ≡ none
IsEmpty false h = (f : Bytes) × (is_some (h f) ≡ true)

pub IsEmpty-after :
    (b : Bool) (h h' : Bytes → Option Bytes)
    → ((g : Bytes) → h g ≡ h' g)
    → IsEmpty b h
    → IsEmpty b h'
IsEmpty-after true h h' e i = λ f. sym (e f) ∙ i f
IsEmpty-after false h h' e (f, i) = (f, ap is_some (sym (e f)) ∙ i)

-- WATCH and UNWATCH answer and change no data, and HLEN is zero for a hash that has no field.
pub record WatchLaws {V : Type 0} (server : Server V) (laws : Laws server) : Type 0 where
  pub watch_ok : (v : V) (k : Bytes) → (server.watch v k).1 ≡ ok tt
  pub watch_fields :
      (v : V) (k j g : Bytes) → laws.fields (server.watch v k).0 j g ≡ laws.fields v j g
  pub watch_counters :
      (v : V) (k j : Bytes) → laws.counters (server.watch v k).0 j ≡ laws.counters v j
  pub unwatch_ok : (v : V) → (server.unwatch v).1 ≡ ok tt
  pub unwatch_fields :
      (v : V) (j g : Bytes) → laws.fields (server.unwatch v).0 j g ≡ laws.fields v j g
  pub unwatch_counters :
      (v : V) (j : Bytes) → laws.counters (server.unwatch v).0 j ≡ laws.counters v j
  pub hlen_ok :
      (v : V) (k : Bytes) → (n : ℕ) × (server.hlen v k ≡ ok n) × IsEmpty (n == 0) (laws.fields v k)

-- An empty swarm's field, and the infohash that is one less where it is one of seeders.
abbrev removal : Bytes → Bytes → Bool → List Command
removal group ih b = hdel group ih ∷ (if b then decr (infohash_count_key group) ∷ [] else [])

removal-fields :
    (group ih : Bytes) (b : Bool) (m : Fields) (j g : Bytes)
    → all_fields (removal group ih b) m j g
      ≡ (if bytes_eq group j && bytes_eq ih g then none else m j g)
removal-fields group ih true m j g = refl
removal-fields group ih false m j g = refl

removal-counters :
    (group ih : Bytes) (b : Bool) (c : Counters) (k : Bytes)
    → all_counters (removal group ih b) c k
      ≡ count_if b (infohash_count_key group) k (neg (pos 1)) (c k)
removal-counters group ih true c k = refl
removal-counters group ih false c k = refl

module _ {V : Type 0} (server : Server V) (laws : Laws server)
    (watches : WatchLaws server laws) where
  open laws use {fields, counters, exec_replies, exec_fields, exec_counters}
  open watches use {
    watch_ok, watch_fields, watch_counters, unwatch_ok, unwatch_fields, unwatch_counters, hlen_ok,
  }

  -- The outcome of a method in which the swarm was found empty, or not.
  abbrev pub Drops : Bytes → Bytes → Bool → V → V × Result (Unit {0}) → Type 0
  Drops group ih empty v r =
      (r.1 ≡ ok tt)
      × ((j g : Bytes)
          → fields r.0 j g
            ≡ (if empty && (bytes_eq group j && bytes_eq ih g) then none else fields v j g))
      × ((k : Bytes)
          → counters r.0 k
            ≡ count_if (empty && is_seeder_key ih) (infohash_count_key group) k (neg (pos 1))
                (counters v k))

  attempt_ok :
      {A : Type 0} (m : Method V A) (v w : V) (x : A)
      → m v ≡ (w, ok x)
      → attempt server m v ≡ (w, ok tt)
  attempt_ok m v w x h =
      ap
        (λ o. elim (o.1) as (λ _. V × Result (Unit {0})) [
          | ok y ↦ (o.0, ok tt)
          | err e ↦ (o.0, ok tt)
          | Result.panic ↦ (o.0, panic)
        ])
        h

  remove-Drops :
      (group ih : Bytes) (v : V)
      → Drops group ih true v (attempt server (run server (removal group ih (is_seeder_key ih))) v)
  remove-Drops group ih v =
      let cs = removal group ih (is_seeder_key ih) in
      rw (attempt_ok (run server cs) v _ _ (run_lem server laws cs v)) (
        refl,
        λ j g. exec_fields v cs j g ∙ removal-fields group ih (is_seeder_key ih) (fields v) j g,
        λ k. exec_counters v cs k ∙ removal-counters group ih (is_seeder_key ih) (counters v) k,
      )

  unwatch-Drops :
      (group ih : Bytes) (v : V) → Drops group ih false v (attempt server server.unwatch v)
  unwatch-Drops group ih v =
      rw (attempt_ok server.unwatch v _ tt (ap (λ r. ((server.unwatch v).0, r)) (unwatch_ok v)))
        (refl, unwatch_fields v, unwatch_counters v)

  -- What follows WATCH and HLEN.
  abbrev settled : Bytes → Bytes → Bool → Method V (Unit {0})
  settled group ih empty =
      if empty
      then attempt server (run server (removal group ih (is_seeder_key ih)))
      else attempt server server.unwatch

  settled-Drops :
      (group ih : Bytes) (empty : Bool) (v : V) → Drops group ih empty v (settled group ih empty v)
  settled-Drops group ih true v = remove-Drops group ih v
  settled-Drops group ih false v = unwatch-Drops group ih v

  after_watch :
      (group ih : Bytes) (empty : Bool) (v : V) (r : V × Result (Unit {0}))
      → Drops group ih empty (server.watch v ih).0 r
      → Drops group ih empty v r
  after_watch group ih empty v r (a, b, c) = (
    a,
    λ j g.
        b j g
        ∙ ap (λ x. if empty && (bytes_eq group j && bytes_eq ih g) then none else x)
            (watch_fields v ih j g),
    λ k.
        c k
        ∙ ap (count_if (empty && is_seeder_key ih) (infohash_count_key group) k (neg (pos 1)))
            (watch_counters v ih k),
  )

  drop_empty_run :
      (group ih : Bytes) (v : V) (n : ℕ)
      → server.hlen (server.watch v ih).0 ih ≡ ok n
      → drop_empty server group ih v ≡ settled group ih (n == 0) (server.watch v ih).0
  unfolding drop_empty
  drop_empty_run group ih v n h =
      let w = (server.watch v ih).0 in
      let found : ℕ → Method V (Unit {0}) = λ m. settled group ih (m == 0) in
      ap (λ x. next (λ _. read server (λ u. server.hlen u ih) >>= found) (w, x)) (watch_ok v ih)
      ∙ ap (λ x. next found (w, x)) h

  -- The swarm of a hash that is found empty is taken out of its family, and where it is one of seeders
  -- there is one infohash less; else nothing changes.
  pub drop_empty-Drops :
      (group ih : Bytes) (v : V)
      → (empty : Bool) × IsEmpty empty (fields v ih)
        × Drops group ih empty v (drop_empty server group ih v)
  drop_empty-Drops group ih v =
      let w = (server.watch v ih).0 in
      let (n, h, e) = hlen_ok w ih in
      (
        n == 0,
        IsEmpty-after (n == 0) (fields w ih) (fields v ih) (watch_fields v ih ih) e,
        rw (drop_empty_run group ih v n h)
            (after_watch group ih (n == 0) v _ (settled-Drops group ih (n == 0) w)),
      )
