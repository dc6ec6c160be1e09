-- ===== src/Redis/Sweeps/Whole.antt =====
-- The visit of the garbage collection to one swarm as a whole (collectGarbage of
-- storage/redis/peer_store.go), over a server that answers.
use chihaya.Base.{
  ◌<◌, ◌^◌, ◌≡◌, ap, ◌∙◌, Bool, ltb, ◌&&◌, Bytes, bytes_eq, bytes_eq_refl, length, List, [], ◌∷◌,
  Option, none, ok, ℤ, pos, neg, if◌then◌else◌, arith,
}
use chihaya.Redis.{infohash_count_key, seeder_count_key, leecher_count_key}
use chihaya.Redis.Servers.{add_to, Server, Laws}
use chihaya.Redis.Operations.{Method, run, lift, ◌>>=◌, ◌>>◌}
use chihaya.Redis.Collection.{is_seeder_key, is_positive, drop_empty, delete_expired, collect_swarm}
use chihaya.Redis.Runs.{next, run_if, after, after-fields, after-counters, count_if}
use chihaya.Redis.Expiry.{Entry, AllRead, flat, is_old, delete_expired-is_old}
use chihaya.Redis.Sweeps.{Listed, count_old, delete_expired-count_old}
use chihaya.Redis.Sweeps.Emptied.{IsEmpty, IsEmpty-after, WatchLaws, drop_empty-Drops}

abbrev pub peers_key : Bytes → Bytes → Bytes
peers_key group ih = if is_seeder_key ih then seeder_count_key group else leecher_count_key group

-- A hash without the fields that are old.
abbrev pub kept : ℤ → List Entry → (Bytes → Option Bytes) → Bytes → Option Bytes
kept cutoff es h g = if is_old cutoff g es then none else h g

module _ {V : Type 0} (server : Server V) (laws : Laws server)
    (watches : WatchLaws server laws) where
  open laws use {fields, counters}

  -- The state when the old fields are gone and subtracted.
  abbrev deleted : Bytes → ℤ → Bytes → List Entry → V → V
  deleted group cutoff ih es v =
      after server laws (ltb 0 (count_old cutoff es))
        (add_to (peers_key group ih) (neg (pos (count_old cutoff es))))
        (delete_expired server ih cutoff (pos 0) (flat es) v).0

  collect_swarm_run :
      (group ih : Bytes) (cutoff : ℤ) (es : List Entry) (v : V)
      → server.hgetall v ih ≡ ok (flat es)
      → AllRead es
      → Listed (fields v ih) es
      → length es < 2 ^ 63
      → collect_swarm server group cutoff ih v
        ≡ drop_empty server group ih (deleted group cutoff ih es v)
  unfolding collect_swarm
  collect_swarm_run group ih cutoff es v h a l b =
      let w = (delete_expired server ih cutoff (pos 0) (flat es) v).0 in
      let subtract : ℤ → Method V (Unit {0}) = λ n.
        (if is_positive n
          then (run server (add_to (peers_key group ih) (neg n) ∷ []) >>= λ _. lift (ok tt))
          else lift (ok tt))
        >> drop_empty server group ih in
      ap
        (λ x. next (λ entries. delete_expired server ih cutoff (pos 0) entries >>= subtract) (v, x))
        h
      ∙ ap (λ x. next subtract (w, x))
          (delete_expired-count_old server laws ih cutoff 0 es v a l (omega arith))
      ∙ ap (λ x. next subtract (w, ok (pos x))) (omega arith)
      ∙ ap (next (λ _. drop_empty server group ih))
          (run_if server laws (ltb 0 (count_old cutoff es)) _ w)

  deleted-fields :
      (group ih : Bytes) (cutoff : ℤ) (es : List Entry) (v : V) (j g : Bytes)
      → AllRead es
      → fields (deleted group cutoff ih es v) j g
        ≡ (if bytes_eq ih j && is_old cutoff g es then none else fields v j g)
  deleted-fields group ih cutoff es v j g a =
      after-fields server laws (ltb 0 (count_old cutoff es)) (peers_key group ih) _ _ j g
      ∙ (delete_expired-is_old server laws ih cutoff (pos 0) es v j g g a).1

  deleted-counters :
      (group ih : Bytes) (cutoff : ℤ) (es : List Entry) (v : V) (k : Bytes)
      → AllRead es
      → counters (deleted group cutoff ih es v) k
        ≡ count_if
            (ltb 0 (count_old cutoff es))
            (peers_key group ih)
            k
            (neg (pos (count_old cutoff es)))
            (counters v k)
  deleted-counters group ih cutoff es v k a =
      after-counters server laws (ltb 0 (count_old cutoff es)) (peers_key group ih) _ _ k
      ∙ ap
          (count_if (ltb 0 (count_old cutoff es)) (peers_key group ih) k
            (neg (pos (count_old cutoff es))))
          (delete_expired-is_old server laws ih cutoff (pos 0) es v k k k a).2

  -- Over a server that answers and that no other client uses, the visit to a swarm whose hash has
  -- fewer than 2^63 fields, each once in the reply of HGETALL, keys of peers with times, succeeds. It
  -- deletes the fields that are not after the cutoff, and takes their number from the family's seeders
  -- or leechers. If then no field is left, it takes the swarm out of the family, and one from the
  -- family's infohashes if the swarm is one of seeders. All other fields and counters are left.
  pub collect_swarm-effect :
      (group ih : Bytes) (cutoff : ℤ) (es : List Entry) (v : V)
      → server.hgetall v ih ≡ ok (flat es)
      → AllRead es
      → Listed (fields v ih) es
      → length es < 2 ^ 63
      → let removed = count_old cutoff es in
        let r = collect_swarm server group cutoff ih v in
        (r.1 ≡ ok tt)
        × (empty : Bool) × IsEmpty empty (kept cutoff es (fields v ih))
        × ((j g : Bytes)
            → fields r.0 j g ≡ (
                if empty && (bytes_eq group j && bytes_eq ih g)
                then none
                else if bytes_eq ih j && is_old cutoff g es
                then none
                else fields v j g))
        × ((k : Bytes)
            → counters r.0 k
              ≡ count_if (empty && is_seeder_key ih) (infohash_count_key group) k (neg (pos 1)) (
                  count_if
                    (ltb 0 removed)
                    (peers_key group ih)
                    k
                    (neg (pos removed))
                    (counters v k)))
  collect_swarm-effect group ih cutoff es v h a l b =
      let w = deleted group cutoff ih es v in
      let (empty, e, d) = drop_empty-Drops server laws watches group ih w in
      rw (collect_swarm_run group ih cutoff es v h a l b) (
        d.0,
        empty,
        IsEmpty-after empty (fields w ih) (kept cutoff es (fields v ih))
            (λ g.
              deleted-fields group ih cutoff es v ih g a
              ∙ ap (λ b. if b && is_old cutoff g es then none else fields v ih g)
                  (bytes_eq_refl ih))
            e,
        λ j g.
            d.1 j g
            ∙ ap (λ x. if empty && (bytes_eq group j && bytes_eq ih g) then none else x)
                (deleted-fields group ih cutoff es v j g a),
        λ k.
            d.2 k
            ∙ ap (count_if (empty && is_seeder_key ih) (infohash_count_key group) k (neg (pos 1)))
                (deleted-counters group ih cutoff es v k a),
      )
