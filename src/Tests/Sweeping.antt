-- ===== src/Tests/Sweeping.antt =====
-- A Redis server that holds rows, and the garbage collection of one swarm on it.
use chihaya.Base.{
  ℕ, ◌==◌, ◌≡◌, refl, ap, subst, suc, ◌∙◌, sym, fun_ext, Bool, true, false, ◌&&◌, Bytes, bytes_eq,
  bytes_eq_iff, bytes_eq_refl, format_hex, put_be, parse_int, codes, List, [], ◌∷◌, length, Option,
  none, some, is_some, ok, pos, neg, ◌+ℤ◌, if◌then◌else◌, Bool-cases, inl, inr, arith, ltb,
}
use chihaya.Bittorrent.{peer_id_from_string}
use chihaya.Bittorrent.Peers.{to4}
use chihaya.Memory.Keys.{new_peer_key, decode_peer_key}
use chihaya.Redis.{infohash_count_key, leecher_count_key}
use chihaya.Redis.Servers.{
  Command, hset, hdel, add_to, Server, Fields, Counters, fields_after, counters_after, all_fields,
  all_counters, replies, Laws,
}
use chihaya.Redis.Collection.{collect_swarm, is_seeder_key}
use chihaya.Redis.Runs.{count_if}
use chihaya.Redis.Expiry.{flat, is_old}
use chihaya.Redis.Sweeps.{count_old}
use chihaya.Redis.Sweeps.Emptied.{IsEmpty, IsEmpty-after, WatchLaws}
use chihaya.Redis.Sweeps.Whole.{kept, peers_key, collect_swarm-effect}
use chihaya.Tests.Redis.{af, l_key, pk, entry, key_read, time_read}

-- A field of a hash.
record Row : Type 0 where
  hash : Bytes
  field : Bytes
  value : Bytes

abbrev find : List Row → Fields
find [] j g = none
find (r ∷ rs) j g = if bytes_eq r.hash j && bytes_eq r.field g then some r.value else find rs j g

abbrev remove : Bytes → Bytes → List Row → List Row
remove k f [] = []
remove k f (r ∷ rs) =
    let rest = remove k f rs in if bytes_eq r.hash k && bytes_eq r.field f then rest else r ∷ rest

abbrev rows_of : Bytes → List Row → List Row
rows_of k [] = []
rows_of k (r ∷ rs) = let rest = rows_of k rs in if bytes_eq r.hash k then r ∷ rest else rest

abbrev texts : List Row → List Bytes
texts [] = []
texts (r ∷ rs) = r.field ∷ r.value ∷ texts rs

abbrev names : List Row → List Bytes
names [] = []
names (r ∷ rs) = r.field ∷ names rs

record Memory : Type 0 where
  rows : List Row
  counts : Counters

abbrev step : Command → Memory → Memory
step (hset k f x) v = record v {
  rows = record { hash = k; field = f; value = x } ∷ remove k f v.rows;
}
step (hdel k f) v = record v { rows = remove k f v.rows }
step (add_to k n) v = record v { counts = counters_after (add_to k n) v.counts }

abbrev steps : List Command → Memory → Memory
steps [] v = v
steps (c ∷ cs) v = steps cs (step c v)

abbrev server : Server Memory
server = record {
  exec = λ v cs. (steps cs v, ok (replies cs (find v.rows) v.counts));
  hkeys = λ v k. ok (names (rows_of k v.rows));
  hlen = λ v k. ok (length (rows_of k v.rows));
  hgetall = λ v k. ok (texts (rows_of k v.rows));
  get = λ v k. ok (some (v.counts k));
  watch = λ v k. (v, ok tt);
  unwatch = λ v. (v, ok tt);
}

if-same : {A : Type 0} (b : Bool) (x : A) → (if b then x else x) ≡ x
if-same true x = refl
if-same false x = refl

both :
    (a b c d : Bytes) (x y : Bool)
    → bytes_eq a b ≡ x
    → bytes_eq c d ≡ y
    → (x && y) ≡ true
    → (a ≡ b) × (c ≡ d)
both a b c d true true e f h = ((bytes_eq_iff a b).0 e, (bytes_eq_iff c d).0 f)
both a b c d true false e f h = absurd (grind arith)
both a b c d false y e f h = absurd (grind arith)

-- A row that is kept, behind which the rest is as asked.
keep :
    (p q : Bool) (x y z : Option Bytes)
    → ((p ≡ true) → (q ≡ true) → false ≡ true)
    → z ≡ (if q then none else y)
    → (if p then x else z) ≡ (if q then none else if p then x else y)
keep true true x y z n e = absurd (grind (arith, n refl refl))
keep true false x y z n e = refl
keep false q x y z n e = e

-- A row that is dropped.
drop_row :
    (q : Bool) (x y z : Option Bytes)
    → z ≡ (if q then none else y)
    → z ≡ (if q then none else if q then x else y)
drop_row true x y z e = e
drop_row false x y z e = e

find-remove :
    (k f : Bytes) (rs : List Row) (j g : Bytes)
    → find (remove k f rs) j g ≡ (if bytes_eq k j && bytes_eq f g then none else find rs j g)
find-remove k f [] j g = sym (if-same (bytes_eq k j && bytes_eq f g) none)
find-remove k f (r ∷ rs) j g =
    let rest = find-remove k f rs j g in
    elim (Bool-cases (bytes_eq r.hash k && bytes_eq r.field f)) [
      | inl e ↦
          let (a, b) =
            both r.hash k r.field f (bytes_eq r.hash k) (bytes_eq r.field f) refl refl e in
          rw (e, a, b) (drop_row (bytes_eq k j && bytes_eq f g) (some r.value) (find rs j g) _ rest)
      | inr e ↦ rw e (
          keep (bytes_eq r.hash j && bytes_eq r.field g) (bytes_eq k j && bytes_eq f g)
            (some r.value) (find rs j g) _
            (λ p q.
              let (a, b) = both r.hash j r.field g _ _ refl refl p in
              let (c, d) = both k j f g _ _ refl refl q in
              sym e ∙ rw (a, b, c, d, bytes_eq_refl j, bytes_eq_refl g) refl)
            rest)
    ]

shadow :
    (q : Bool) (x y z : Option Bytes)
    → z ≡ (if q then none else y)
    → (if q then x else z) ≡ (if q then x else y)
shadow true x y z e = refl
shadow false x y z e = e

step-find : (c : Command) (v : Memory) → find (step c v).rows ≡ fields_after c (find v.rows)
step-find (hset k f x) v = fun_ext (λ j. fun_ext (λ g.
    shadow (bytes_eq k j && bytes_eq f g) (some x) (find v.rows j g) _
      (find-remove k f v.rows j g)))
step-find (hdel k f) v = fun_ext (λ j. fun_ext (λ g. find-remove k f v.rows j g))
step-find (add_to k n) v = refl

step-counts : (c : Command) (v : Memory) → (step c v).counts ≡ counters_after c v.counts
step-counts (hset k f x) v = refl
step-counts (hdel k f) v = refl
step-counts (add_to k n) v = refl

steps-find : (cs : List Command) (v : Memory) → find (steps cs v).rows ≡ all_fields cs (find v.rows)
steps-find [] v = refl
steps-find (c ∷ cs) v = steps-find cs (step c v) ∙ ap (all_fields cs) (step-find c v)

steps-counts : (cs : List Command) (v : Memory) → (steps cs v).counts ≡ all_counters cs v.counts
steps-counts [] v = refl
steps-counts (c ∷ cs) v = steps-counts cs (step c v) ∙ ap (all_counters cs) (step-counts c v)

abbrev laws : Laws server
laws = record {
  fields = λ v. find v.rows;
  counters = λ v. v.counts;
  exec_replies = λ v cs. refl;
  exec_fields = λ v cs k f. ap (λ m. m k f) (steps-find cs v);
  exec_counters = λ v cs k. ap (λ c. c k) (steps-counts cs v);
}

not_zero : (n : ℕ) → (suc n == 0) ≡ false
not_zero n = ground arith

some_field :
    (r : Row) (rs : List Row) (h : Bytes → Option Bytes) (f : Bytes)
    → is_some (h f) ≡ true
    → IsEmpty (length (r ∷ rs) == 0) h
some_field r rs h f e = subst (λ b. IsEmpty b h) (sym (not_zero (length rs))) (f, e)

rows_of-IsEmpty : (k : Bytes) (rs : List Row) → IsEmpty (length (rows_of k rs) == 0) (find rs k)
rows_of-IsEmpty k [] = λ f. refl
rows_of-IsEmpty k (r ∷ rs) = elim (Bool-cases (bytes_eq r.hash k)) [
  | inl e ↦
      rw e
        (some_field r (rows_of k rs) (find (r ∷ rs) k) r.field (rw (e, bytes_eq_refl r.field) refl))
  | inr e ↦ rw e (
      IsEmpty-after (length (rows_of k rs) == 0) (find rs k) (find (r ∷ rs) k) (λ g. rw e refl)
        (rows_of-IsEmpty k rs))
]

watches : WatchLaws server laws
watches = record {
  watch_ok = λ v k. refl;
  watch_fields = λ v k j g. refl;
  watch_counters = λ v k j. refl;
  unwatch_ok = λ v. refl;
  unwatch_fields = λ v j g. refl;
  unwatch_counters = λ v j. refl;
  hlen_ok = λ v k. (length (rows_of k v.rows), refl, rows_of-IsEmpty k v.rows);
}

-- One leecher in one swarm.
abbrev one_leecher : Memory
one_leecher = record {
  rows = record { hash = l_key; field = pk; value = codes "5" } ∷ [];
  counts = λ k. pos 1;
}

listed : server.hgetall one_leecher l_key ≡ ok (flat (entry ∷ []))
unfolding bytes_eq
listed = rw (bytes_eq_refl l_key) refl

is_listed : is_some (find one_leecher.rows l_key pk) ≡ true
is_listed = rw (bytes_eq_refl l_key, bytes_eq_refl pk) refl

collect_swarm-effect_example :
    let r = collect_swarm server af (pos 5) l_key one_leecher in
    (r.1 ≡ ok tt)
    × (empty : Bool) × IsEmpty empty (kept (pos 5) (entry ∷ []) (find one_leecher.rows l_key))
    × ((j g : Bytes)
        → find (r.0).rows j g ≡ (
            if empty && (bytes_eq af j && bytes_eq l_key g)
            then none
            else if bytes_eq l_key j && is_old (pos 5) g (entry ∷ [])
            then none
            else find one_leecher.rows j g))
    × ((k : Bytes)
        → (r.0).counts k
          ≡ count_if (empty && is_seeder_key l_key) (infohash_count_key af) k (neg (pos 1)) (
              count_if
                (ltb 0 (count_old (pos 5) (entry ∷ [])))
                (peers_key af l_key)
                k
                (neg (pos (count_old (pos 5) (entry ∷ []))))
                (one_leecher.counts k)))
collect_swarm-effect_example =
    collect_swarm-effect server laws watches af l_key (pos 5) (entry ∷ []) one_leecher listed
      ((key_read, time_read), tt) (is_listed, tt, tt) (omega arith)

-- The leecher is gone, and is taken from the leechers.
collected :
    let r = collect_swarm server af (pos 5) l_key one_leecher in
    ((r.0).rows ≡ []) × ((r.0).counts (leecher_count_key af) ≡ pos 0)
unfolding collect_swarm bytes_eq format_hex new_peer_key put_be parse_int decode_peer_key
    peer_id_from_string to4 ◌+ℤ◌ neg
collected = (refl, refl)
