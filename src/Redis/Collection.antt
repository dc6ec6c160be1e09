-- ===== src/Redis/Collection.antt =====
-- The garbage collection and the counts for the metrics (collectGarbage and populateProm of
-- storage/redis/peer_store.go). Times and the log are not modelled, but for the peer that is decoded
-- for the log.
use chihaya.Base.{
  ◌==◌, ltb, leb, Bool, true, false, ◌&&◌, Bytes, codes, List, [], ◌∷◌, length, get_or, get_elem?,
  Option, none, some, Error, internal_error, Result, ok, err, panic, or_panic, ℤ, pos, negsuc, ◌+ℤ◌,
  neg, parse_int, if◌then◌else◌,
}
use chihaya.Redis.{Store, decode_peer_key, infohash_count_key, seeder_count_key, leecher_count_key}
use chihaya.Redis.Servers.{hdel, add_to, decr, Server}
use chihaya.Redis.Operations.{Method, ◌>>=◌, ◌>>◌, lift, run}

abbrev pub groups : List Bytes
groups = codes "IPv4" ∷ codes "IPv6" ∷ []

-- The errors of `strconv.ParseInt` are one here.
abbrev pub err_parse_int : Error
err_parse_int = internal_error (codes "strconv.ParseInt")

abbrev pub read_time : Option ℤ → Result ℤ
read_time none = err err_parse_int
read_time (some t) = ok t

-- `a <= b`, and `a > 0`, on int64.
unfoldable pub at_most : ℤ → ℤ → Bool
at_most (pos a) (pos b) = leb a b
at_most (pos a) (negsuc b) = false
at_most (negsuc a) (pos b) = true
at_most (negsuc a) (negsuc b) = leb b a

abbrev pub is_positive : ℤ → Bool
is_positive (pos n) = ltb 0 n
is_positive (negsuc n) = false

abbrev pub is_seeder_key : Bytes → Bool
is_seeder_key ih = ltb 5 (length ih) && get_or ih 5 0 == b'S'

-- What a client library replies where there is no such key counts as zero; so does an error.
abbrev pub counted : Result (Option ℤ) → ℤ
counted (ok (some n)) = n
counted (ok none) = pos 0
counted (err e) = pos 0
counted Result.panic = pos 0

module _ {V : Type 0} (server : Server V) where
  -- A read of the server.
  abbrev pub read : {A : Type 0} → (V → Result A) → Method V A
  read f v = (v, f v)

  -- An error is logged and nothing more.
  abbrev pub attempt : {A : Type 0} → Method V A → Method V (Unit {0})
  attempt m v =
      let (w, r) = m v in
      elim r [ ok x ↦ (w, ok tt) | err e ↦ (w, ok tt) | Result.panic ↦ (w, panic) ]

  -- The loop over the fields and the values of a hash: those that are old are deleted, and counted.
  unfoldable pub delete_expired : Bytes → ℤ → ℤ → List Bytes → Method V ℤ
  unfolding at_most
  delete_expired ih cutoff removed [] = lift (ok removed)
  delete_expired ih cutoff removed (pk ∷ []) = lift (ok removed)
  delete_expired ih cutoff removed (pk ∷ value ∷ rest) = do
    mtime ← lift (read_time (parse_int value))
    elim (at_most mtime cutoff) [
      | true ↦ do
        _ ← lift (decode_peer_key pk)
        reply ← run server (hdel ih pk ∷ [])
        n ← lift (or_panic (get_elem? reply 0))
        delete_expired ih cutoff (removed +ℤ n) rest
      | false ↦ delete_expired ih cutoff removed rest
    ]

  -- An empty swarm is taken out of its group; only a swarm of seeders is counted as an infohash.
  unfoldable pub drop_empty : Bytes → Bytes → Method V (Unit {0})
  drop_empty group ih = do
    (λ v. server.watch v ih)
    n ← read (λ v. server.hlen v ih)
    if n == 0
        then attempt (
            run server (
              hdel group ih
              ∷ (if is_seeder_key ih then decr (infohash_count_key group) ∷ [] else [])))
        else attempt (λ v. server.unwatch v)

  unfoldable pub collect_swarm : Bytes → ℤ → Bytes → Method V (Unit {0})
  unfolding delete_expired drop_empty
  collect_swarm group cutoff ih = do
    entries ← read (λ v. server.hgetall v ih)
    removed ← delete_expired ih cutoff (pos 0) entries
    let counter = (if is_seeder_key ih then seeder_count_key group else leecher_count_key group)
    (if is_positive removed
        then (do _ ← run server (add_to counter (neg removed) ∷ []); lift (ok tt))
        else lift (ok tt))
    drop_empty group ih

  unfoldable pub collect_swarms : Bytes → ℤ → List Bytes → Method V (Unit {0})
  unfolding collect_swarm
  collect_swarms group cutoff [] = lift (ok tt)
  collect_swarms group cutoff (ih ∷ ihs) = do
    collect_swarm group cutoff ih
    collect_swarms group cutoff ihs

  unfoldable pub collect_groups : ℤ → List Bytes → Method V (Unit {0})
  unfolding collect_swarms
  collect_groups cutoff [] = lift (ok tt)
  collect_groups cutoff (group ∷ more) = do
    ihs ← read (λ v. server.hkeys v group)
    collect_swarms group cutoff ihs
    collect_groups cutoff more

  unfoldable pub collect_garbage : Store → ℤ → Method V (Unit {0})
  unfolding collect_groups
  collect_garbage st cutoff = if st.closed then lift (ok tt) else collect_groups cutoff groups

  -- The numbers of infohashes, seeders and leechers.
  unfoldable pub prom_totals : V → List Bytes → ℤ × ℤ × ℤ
  prom_totals v [] = (pos 0, pos 0, pos 0)
  prom_totals v (group ∷ more) =
      let (i, s, l) = prom_totals v more in
      (
        counted (server.get v (infohash_count_key group)) +ℤ i,
        counted (server.get v (seeder_count_key group)) +ℤ s,
        counted (server.get v (leecher_count_key group)) +ℤ l,
      )
