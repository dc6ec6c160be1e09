-- ===== src/Memory/Operations/Steps.antt =====
-- The store as a transition system. Every critical section is one step, so a run is any
-- interleaving of the methods with each other, with the clock, and with a collection of garbage.
use chihaya.Base.{
  assert, >>=-eq-ok, not, ℕ, ◌≡◌, refl, ◌∙◌, true, Bytes, List, [], ◌∷◌, zero, suc, map, get_or,
  set, length-set, replicate, sym, subst, ok-injective, if-eq-ok, Result, ok, err, panic, arith,
  Bool-cases, inl, inr, length-map,
}
use chihaya.Bittorrent.{Peer}
use chihaya.Memory.{PeerShard, PeerStore, empty_shard}
use chihaya.Memory.Keys.{new_peer_key}
use chihaya.Memory.Shards.{
  put_seeder_in, put_leecher_in, delete_seeder_in, delete_leecher_in, graduate_leecher_in,
  collect_in,
}
use chihaya.Memory.Shards.Times.{delete_seeder_in_lem, delete_leecher_in_lem}
use chihaya.Memory.Shards.Invariant.{ShardInv}
use chihaya.Memory.Shards.Invariant.Occupancy.{
  empty_shard-ShardInv, put_seeder_in-ShardInv, put_leecher_in-ShardInv,
  graduate_leecher_in-ShardInv, without_seeder-ShardInv, without_leecher-ShardInv,
  collect_in-ShardInv,
}
use chihaya.Memory.Operations.{
  put_seeder, put_leecher, delete_seeder, delete_leecher, graduate_leecher, with_shard,
  replace_shard, stop,
}
use chihaya.Memory.Operations.Index.{IsSharded, index_of, shard_at}
use chihaya.Memory.Operations.Writes.{with_shard_lem}
use chihaya.Memory.Operations.Collecting.{AllShards, AllShards-get_or}

pub data Step (ps q : PeerStore) : Type 0 where
  puts_seeder : (ih : Bytes) (p : Peer) → put_seeder ps ih p ≡ ok q → Step ps q
  puts_leecher : (ih : Bytes) (p : Peer) → put_leecher ps ih p ≡ ok q → Step ps q
  deletes_seeder : (ih : Bytes) (p : Peer) → delete_seeder ps ih p ≡ ok q → Step ps q
  deletes_leecher : (ih : Bytes) (p : Peer) → delete_leecher ps ih p ≡ ok q → Step ps q
  graduates : (ih : Bytes) (p : Peer) → graduate_leecher ps ih p ≡ ok q → Step ps q
  -- One swarm of the shard number i, as a running collection comes to it.
  collects :
      (cutoff i : ℕ) (ih : Bytes)
      → q ≡ record ps {
        shards = set ps.shards i (collect_in cutoff ih (get_or ps.shards i empty_shard));
      }
      → Step ps q
  ticks : (now : ℕ) → q ≡ record ps { clock = now } → Step ps q
  stops : stop ps ≡ ok q → Step ps q

pub data Reach (ps : PeerStore) : PeerStore → Type 0 where
  here : Reach ps ps
  next : {q t : PeerStore} → Reach ps q → Step q t → Reach ps t

-- What every state of a run satisfies.
pub record StoreInv (ps : PeerStore) : Type 0 where
  pub sharded : IsSharded ps
  pub shards_ok : AllShards ps.shards

AllShards-set :
    (ss : List PeerShard) (i : ℕ) (s : PeerShard)
    → ShardInv s
    → AllShards ss
    → AllShards (set ss i s)
AllShards-set [] i s h hs = tt
AllShards-set (t ∷ ss) zero s h hs = (h, hs.1)
AllShards-set (t ∷ ss) (suc i) s h hs = (hs.0, AllShards-set ss i s h hs.1)

set-StoreInv :
    (ps : PeerStore) (i : ℕ) (s : PeerShard)
    → ShardInv s
    → StoreInv ps
    → StoreInv (record ps { shards = set ps.shards i s })
set-StoreInv ps i s h v = record {
  sharded = record {
    some_shards = rw (length-set ps.shards i s) v.sharded.some_shards;
    even = rw (length-set ps.shards i s) v.sharded.even;
    fits = rw (length-set ps.shards i s) v.sharded.fits;
  };
  shards_ok = AllShards-set ps.shards i s h v.shards_ok;
}

replace_shard_ok :
    (ps : PeerStore) (i : ℕ) (r : Result PeerShard) {q : PeerStore}
    → replace_shard ps i r ≡ ok q
    → (t : PeerShard) × (r ≡ ok t) × (record ps { shards = set ps.shards i t } ≡ q)
unfolding replace_shard
replace_shard_ok ps i (ok t) e = (t, refl, ok-injective e)
replace_shard_ok ps i (err x) e = cc
replace_shard_ok ps i Result.panic e = cc

pub with_shard_closed :
    (ps : PeerStore) (ih : Bytes) (p : Peer) (f : PeerShard → Result PeerShard)
    → ps.closed ≡ true
    → with_shard ps ih p f ≡ panic
unfolding with_shard
with_shard_closed ps ih p f c = ground arith

-- A method that keeps the invariant of its shard keeps that of the store.
with_shard-StoreInv :
    (ps : PeerStore) (ih : Bytes) (p : Peer) (f : PeerShard → Result PeerShard) (q : PeerStore)
    → ((s t : PeerShard) → ShardInv s → f s ≡ ok t → ShardInv t)
    → StoreInv ps
    → with_shard ps ih p f ≡ ok q
    → StoreInv q
with_shard-StoreInv ps ih p f q keep v e = elim (Bool-cases ps.closed) [
  | inl c ↦ absurd (cc (with_shard_closed ps ih p f c))
  | inr o ↦
      let at = shard_at ps ih p.ip.address_family in
      let i = index_of ps ih p.ip.address_family in
      let (t, made, is) =
        replace_shard_ok ps i (f at) (sym (with_shard_lem ps ih p f v.sharded o) ∙ e) in
      subst StoreInv is
        (set-StoreInv ps i t (keep at t (AllShards-get_or ps.shards i v.shards_ok) made) v)
]

pub replicate-AllShards : (n : ℕ) → AllShards (replicate n empty_shard)
replicate-AllShards zero = tt
replicate-AllShards (suc n) = (empty_shard-ShardInv, replicate-AllShards n)

emptied-AllShards : (ss : List PeerShard) → AllShards (map (λ _. empty_shard) ss)
emptied-AllShards [] = tt
emptied-AllShards (s ∷ ss) = (empty_shard-ShardInv, emptied-AllShards ss)

delete_seeder_in-ShardInv :
    (ih pk : Bytes) (s t : PeerShard) → ShardInv s → delete_seeder_in ih pk s ≡ ok t → ShardInv t
delete_seeder_in-ShardInv ih pk s t v e =
    let (there, is) = if-eq-ok _ _ (sym (delete_seeder_in_lem ih pk s) ∙ e) in
    subst ShardInv is (without_seeder-ShardInv ih pk s v there)

delete_leecher_in-ShardInv :
    (ih pk : Bytes) (s t : PeerShard) → ShardInv s → delete_leecher_in ih pk s ≡ ok t → ShardInv t
delete_leecher_in-ShardInv ih pk s t v e =
    let (there, is) = if-eq-ok _ _ (sym (delete_leecher_in_lem ih pk s) ∙ e) in
    subst ShardInv is (without_leecher-ShardInv ih pk s v there)

-- Each step keeps the invariant.
pub Step-StoreInv : {ps q : PeerStore} → Step ps q → StoreInv ps → StoreInv q
unfolding put_seeder put_leecher delete_seeder delete_leecher graduate_leecher stop
Step-StoreInv {ps} {q} (puts_seeder ih p e) v =
    let pk = new_peer_key p in
    with_shard-StoreInv ps ih p (λ s. ok (put_seeder_in ih pk ps.clock s)) q
      (λ s t h d. subst ShardInv (ok-injective d) (put_seeder_in-ShardInv ih pk ps.clock s h)) v e
Step-StoreInv {ps} {q} (puts_leecher ih p e) v =
    let pk = new_peer_key p in
    with_shard-StoreInv ps ih p (λ s. ok (put_leecher_in ih pk ps.clock s)) q
      (λ s t h d. subst ShardInv (ok-injective d) (put_leecher_in-ShardInv ih pk ps.clock s h)) v e
Step-StoreInv {ps} {q} (deletes_seeder ih p e) v =
    let pk = new_peer_key p in
    with_shard-StoreInv ps ih p (delete_seeder_in ih pk) q (delete_seeder_in-ShardInv ih pk) v e
Step-StoreInv {ps} {q} (deletes_leecher ih p e) v =
    let pk = new_peer_key p in
    with_shard-StoreInv ps ih p (delete_leecher_in ih pk) q (delete_leecher_in-ShardInv ih pk) v e
Step-StoreInv {ps} {q} (graduates ih p e) v =
    let pk = new_peer_key p in
    with_shard-StoreInv ps ih p (λ s. ok (graduate_leecher_in ih pk ps.clock s)) q
      (λ s t h d. subst ShardInv (ok-injective d) (graduate_leecher_in-ShardInv ih pk ps.clock s h))
      v e
Step-StoreInv {ps} (collects cutoff i ih e) v = subst StoreInv (sym e) (
    set-StoreInv ps i _ (collect_in-ShardInv cutoff ih _ (AllShards-get_or ps.shards i v.shards_ok))
      v)
Step-StoreInv (ticks now e) v = subst StoreInv (sym e) (record {
  sharded = record {
    some_shards = v.sharded.some_shards;
    even = v.sharded.even;
    fits = v.sharded.fits;
  };
  shards_ok = v.shards_ok;
})
Step-StoreInv {ps} (stops e) v =
    let (_, _, is) = >>=-eq-ok (assert (not ps.closed)) _ e in
    subst StoreInv (ok-injective is) (record {
      sharded = record {
        some_shards =
            rw (length-map (λ (_ : PeerShard). empty_shard) ps.shards) v.sharded.some_shards;
        even = rw (length-map (λ (_ : PeerShard). empty_shard) ps.shards) v.sharded.even;
        fits = rw (length-map (λ (_ : PeerShard). empty_shard) ps.shards) v.sharded.fits;
      };
      shards_ok = emptied-AllShards ps.shards;
    })
