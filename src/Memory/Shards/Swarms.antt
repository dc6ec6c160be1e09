-- ===== src/Memory/Shards/Swarms.antt =====
-- How the changes of a shard's map read back, swarm by swarm.
use chihaya.Base.{
  ◌≡◌, refl, true, Bytes, bytes_eq, bytes_eq_iff, List, [], ◌∷◌, length, if◌then◌else◌, arith,
}
use chihaya.Base.Dict.{Dict, insert, lookup-insert, lookup-delete, insert_twice}
use chihaya.Memory.{Swarm, PeerShard, empty_swarm}
use chihaya.Memory.Shards.{swarm_of, ensure_swarm, is_empty_swarm, store_swarm}

pub swarm_of-insert :
    (ih j : Bytes) (w : Swarm) (m : Dict Swarm)
    → swarm_of j (insert ih w m) ≡ (if bytes_eq ih j then w else swarm_of j m)
unfolding swarm_of
swarm_of-insert ih j w m = ground (arith, lookup-insert ih j w m)

pub swarm_of-ensure_swarm :
    (ih j : Bytes) (s : PeerShard) → swarm_of j (ensure_swarm ih s).swarms ≡ swarm_of j s.swarms
unfolding swarm_of ensure_swarm
swarm_of-ensure_swarm ih j s =
    ground (arith, bytes_eq_iff ih j, lookup-insert ih j empty_swarm s.swarms)

length-eq-zero {ℓ} : {A : Type ℓ} (xs : List A) → length xs ≡ 0 → xs ≡ []
length-eq-zero [] h = refl
length-eq-zero (x ∷ xs) h = absurd (omega arith)

pub is_empty_swarm-eq : (w : Swarm) → is_empty_swarm w ≡ true → w ≡ empty_swarm
unfolding is_empty_swarm
is_empty_swarm-eq w h = ground (arith, length-eq-zero w.seeders, length-eq-zero w.leechers)

pub swarm_of-store_swarm :
    (ih j : Bytes) (w : Swarm) (m : Dict Swarm)
    → swarm_of j (store_swarm ih w m) ≡ (if bytes_eq ih j then w else swarm_of j m)
unfolding swarm_of store_swarm
swarm_of-store_swarm ih j w m =
    ground (arith, lookup-insert ih j w m, lookup-delete ih j (insert ih w m), is_empty_swarm-eq w)

-- After `ensure_swarm` the write that follows covers the swarm that was made.
pub insert-ensure_swarm :
    (ih : Bytes) (w : Swarm) (s : PeerShard)
    → insert ih w (ensure_swarm ih s).swarms ≡ insert ih w s.swarms
unfolding ensure_swarm
insert-ensure_swarm ih w s = ground (arith, insert_twice ih w empty_swarm s.swarms)
