-- ===== src/Memory/Announce/Selection.antt =====
-- Which peers `AnnouncePeers` returns: the first that are wanted of one list of candidates.
use chihaya.Base.{
  ℕ, ◌-◌, ◌≡◌, refl, ap, ◌∙◌, sym, fun_ext, Bool, true, false, not, ◌&&◌, Bytes, List, [], ◌++◌,
  take, length, is_some, Result, Error, ok, err, ◌>>=◌, if◌then◌else◌,
}
use chihaya.Base.Dict.{lookup, keys}
use chihaya.Bittorrent.{AddressFamily, ipv4, ipv6, other_family, Peer}
use chihaya.Memory.{Swarm, PeerShard, PeerStore, err_resource_does_not_exist}
use chihaya.Memory.Keys.{new_peer_key}
use chihaya.Memory.Shards.{swarm_of}
use chihaya.Memory.Operations.Index.{IsSharded, shard_at, shard_for_lem}
use chihaya.Memory.Announce.{
  Orders, Picked, append_peers, append_others, if_wanted, pick_for_seeder, pick_for_leecher,
  pick_dual, pick_families, announce_peers,
}
use chihaya.Memory.Announce.Loops.{
  decode_all, others, when, append_others_lem, append_peers-append, if_wanted_lem, append_peers_lem,
  wanted_then,
}

-- The family whose shard comes first for an announcer, and the other one.
abbrev pub first_family : AddressFamily → AddressFamily
first_family ipv4 = ipv4
first_family ipv6 = ipv6
first_family (other_family n) = ipv6

abbrev pub second_family : AddressFamily → AddressFamily
second_family ipv4 = ipv6
second_family ipv6 = ipv4
second_family (other_family n) = ipv4

only_peers :
    (m : Result (List Peer)) (k : ℕ)
    → (m >>= (λ ps. ok (let r : Picked = record { peers = [] ++ ps; num_want = k } in r)) >>= λ x.
        ok x.peers)
      ≡ m
only_peers (ok ps) k = refl
only_peers (err e) k = refl
only_peers Result.panic k = refl

pub peers_of :
    (b : Bool) (ks : List Bytes) (n : ℕ) (e : Error)
    → ((if b then err e else append_peers ks (record { peers = []; num_want = n })) >>= λ x.
        ok x.peers)
      ≡ (if b then err e else decode_all (take n ks))
peers_of true ks n e = refl
peers_of false ks n e =
    rw (append_peers_lem ks n []) (only_peers (decode_all (take n ks)) (n - length ks))

module _ (order : Orders) where
  -- For a seeder: the leechers of both shards. For a leecher: the seeders of both, the leechers of
  -- the first but for the announcer itself, and the leechers of the second.
  unfoldable pub candidates : Bytes → PeerShard → PeerShard → Bool → Bytes → List Bytes
  candidates ih same other true own =
      when (is_some (lookup ih same.swarms)) (order 3 (keys (swarm_of ih same.swarms).leechers))
      ++ when (is_some (lookup ih other.swarms))
          (order 4 (keys (swarm_of ih other.swarms).leechers))
  candidates ih same other false own =
      when (is_some (lookup ih same.swarms)) (order 5 (keys (swarm_of ih same.swarms).seeders))
      ++ (when (is_some (lookup ih other.swarms))
            (order 6 (keys (swarm_of ih other.swarms).seeders))
          ++ (when (is_some (lookup ih same.swarms))
                (others own (order 7 (keys (swarm_of ih same.swarms).leechers)))
              ++ when (is_some (lookup ih other.swarms))
                  (order 8 (keys (swarm_of ih other.swarms).leechers))))

  if_append :
      (b : Bool) (ks : List Bytes) (r : Picked)
      → (if b then append_peers ks r else ok r) ≡ append_peers (when b ks) r
  unfolding append_peers
  if_append true ks r = refl
  if_append false ks r = refl

  pick_for_seeder_lem :
      (w v : Swarm) (b c : Bool) (r : Picked)
      → pick_for_seeder order w b v c r
        ≡ append_peers (when b (order 3 (keys w.leechers)) ++ when c (order 4 (keys v.leechers))) r
  unfolding pick_for_seeder
  pick_for_seeder_lem w v b c r = rw (if_append b (order 3 (keys w.leechers)) r) (
      rw (fun_ext (if_wanted_lem c (order 4 (keys v.leechers)))) (
        sym (
          append_peers-append (when b (order 3 (keys w.leechers)))
            (when c (order 4 (keys v.leechers))) r)))

  pick_for_leecher_lem :
      (w v : Swarm) (b c : Bool) (own : Bytes) (r : Picked)
      → pick_for_leecher order w b v c own r
        ≡ append_peers
            (when b (order 5 (keys w.seeders))
              ++ (when c (order 6 (keys v.seeders))
                  ++ (when b (others own (order 7 (keys w.leechers)))
                      ++ when c (order 8 (keys v.leechers)))))
            r
  unfolding pick_for_leecher
  pick_for_leecher_lem w v b c own r =
      let ks5 = order 5 (keys w.seeders) in
      let ks6 = order 6 (keys v.seeders) in
      let ks7 = order 7 (keys w.leechers) in
      let ks8 = order 8 (keys v.leechers) in
      let ls8 = when c ks8 in
      let ls7 = when b (others own ks7) ++ ls8 in
      let first = if b then append_peers ks5 r else ok r in
      ap
        (λ g. first >>= λ r1.
          if_wanted c (append_peers ks6) r1 >>= λ r2. if_wanted b (append_others own ks7) r2 >>= g)
        (fun_ext (if_wanted_lem c ks8))
      ∙ ap (λ g. first >>= λ r1. if_wanted c (append_peers ks6) r1 >>= g)
          (wanted_then b (append_others own ks7) (others own ks7) ls8
            (fun_ext (append_others_lem own ks7)))
      ∙ ap (λ g. first >>= g) (wanted_then c (append_peers ks6) ks6 ls7 refl)
      ∙ rw (if_append b ks5 r) (sym (append_peers-append (when b ks5) (when c ks6 ++ ls7) r))

  pick_dual_lem :
      (ih : Bytes) (same other : PeerShard) (seeder : Bool) (n : ℕ) (own : Bytes)
      → pick_dual order ih same other seeder n own ≡ (
          if not (is_some (lookup ih same.swarms)) && not (is_some (lookup ih other.swarms))
          then err err_resource_does_not_exist
          else append_peers
              (candidates ih same other seeder own)
              (record { peers = []; num_want = n }))
  unfolding pick_dual candidates
  pick_dual_lem ih same other true n own = rw (
      pick_for_seeder_lem (swarm_of ih same.swarms) (swarm_of ih other.swarms)
        (is_some (lookup ih same.swarms)) (is_some (lookup ih other.swarms))
        (record { peers = []; num_want = n }))
  pick_dual_lem ih same other false n own = rw (
      pick_for_leecher_lem (swarm_of ih same.swarms) (swarm_of ih other.swarms)
        (is_some (lookup ih same.swarms)) (is_some (lookup ih other.swarms)) own
        (record { peers = []; num_want = n }))

  pick_families_lem :
      (ih : Bytes) (ps : PeerStore) (af : AddressFamily) (seeder : Bool) (n : ℕ) (own : Bytes)
      → pick_families order ih (shard_at ps ih ipv4) (shard_at ps ih ipv6) af seeder n own
        ≡ pick_dual order ih
            (shard_at ps ih (first_family af))
            (shard_at ps ih (second_family af))
            seeder
            n
            own
  unfolding pick_families
  pick_families_lem ih ps ipv4 seeder n own = refl
  pick_families_lem ih ps ipv6 seeder n own = refl
  pick_families_lem ih ps (other_family k) seeder n own = refl

  announce_dual :
      (ps : PeerStore) (ih : Bytes) (seeder : Bool) (n : ℕ) (p : Peer)
      → IsSharded ps
      → ps.closed ≡ false
      → ps.cfg.enable_dual_stack_peers ≡ true
      → announce_peers order ps ih seeder n p ≡ (
          pick_families order ih
            (shard_at ps ih ipv4)
            (shard_at ps ih ipv6)
            p.ip.address_family
            seeder
            n
            (new_peer_key p)
          >>= λ x. ok x.peers)
  unfolding announce_peers
  announce_dual ps ih seeder n p r o d =
      simp (o, d, shard_for_lem ps r ih ipv4, shard_for_lem ps r ih ipv6)

  -- With dual-stack peers, an open store with `IsSharded` answers an announce with the first `n`
  -- of the candidates of both families, decoded, and with "resource does not exist" if neither
  -- family has the swarm.
  pub announce_peers-candidates :
      (ps : PeerStore) (ih : Bytes) (seeder : Bool) (n : ℕ) (p : Peer)
      → IsSharded ps
      → ps.closed ≡ false
      → ps.cfg.enable_dual_stack_peers ≡ true
      → let same = shard_at ps ih (first_family p.ip.address_family) in
        let other = shard_at ps ih (second_family p.ip.address_family) in
        announce_peers order ps ih seeder n p ≡ (
          if not (is_some (lookup ih same.swarms)) && not (is_some (lookup ih other.swarms))
          then err err_resource_does_not_exist
          else decode_all (take n (candidates ih same other seeder (new_peer_key p))))
  unfolding announce_peers
  announce_peers-candidates ps ih seeder n p r o d =
      let af = p.ip.address_family in
      let same = shard_at ps ih (first_family af) in
      let other = shard_at ps ih (second_family af) in
      announce_dual ps ih seeder n p r o d
      ∙ ap (λ m. m >>= λ x. ok x.peers)
          (pick_families_lem ih ps af seeder n (new_peer_key p)
            ∙ pick_dual_lem ih same other seeder n (new_peer_key p))
      ∙ peers_of (not (is_some (lookup ih same.swarms)) && not (is_some (lookup ih other.swarms)))
          (candidates ih same other seeder (new_peer_key p)) n err_resource_does_not_exist
