-- ===== src/Memory/Announce/Scrapes.antt =====
-- The counts that `ScrapeSwarm` reports, and the number of peers of an announce.
use chihaya.Base.{
  ℕ, ◌+◌, ◌%◌, ◌^◌, ◌≡◌, sym, ◌∙◌, Bool, true, false, Bytes, List, [], ◌∷◌, length, min, take,
  length-take, ok, >>=-eq-ok, arith, ok-injective, else-eq-ok, suc, ap,
}
use chihaya.Bittorrent.{AddressFamily, ipv4, ipv6, Peer}
use chihaya.Memory.{PeerStore}
use chihaya.Memory.Keys.{new_peer_key, decode_peer_key}
use chihaya.Memory.Shards.{swarm_of}
use chihaya.Memory.Operations.Index.{IsSharded, shard_at, shard_for_lem}
use chihaya.Memory.Announce.{scrape_swarm, announce_peers, Orders}
use chihaya.Memory.Announce.Loops.{decode_all}
use chihaya.Memory.Announce.Selection.{
  candidates, announce_peers-candidates, first_family, second_family,
}

-- With dual-stack peers, a scrape of an open store with `IsSharded` reports, in uint32, the
-- seeders and the leechers of both families together, whichever family asks.
pub scrape_swarm-both :
    (ps : PeerStore) (ih : Bytes) (af : AddressFamily)
    → IsSharded ps
    → ps.closed ≡ false
    → ps.cfg.enable_dual_stack_peers ≡ true
    → let v4 = swarm_of ih (shard_at ps ih ipv4).swarms in
      let v6 = swarm_of ih (shard_at ps ih ipv6).swarms in
      scrape_swarm ps ih af
      ≡ ok (record {
        info_hash = ih;
        snatches = 0;
        complete = (length v4.seeders + length v6.seeders) % 2 ^ 32;
        incomplete = (length v4.leechers + length v6.leechers) % 2 ^ 32;
      })
unfolding scrape_swarm
scrape_swarm-both ps ih af r o d =
    simp (o, d, shard_for_lem ps r ih ipv4, shard_for_lem ps r ih ipv6) (ground arith)

length-decode_all :
    (ks : List Bytes) (ps : List Peer) → decode_all ks ≡ ok ps → length ps ≡ length ks
unfolding decode_all
length-decode_all [] ps h = ground arith
length-decode_all (k ∷ ks) ps h =
    let (p, _, h₁) = >>=-eq-ok (decode_peer_key k) _ h in
    let (qs, e, h₂) = >>=-eq-ok (decode_all ks) _ h₁ in
    ap length (sym (ok-injective h₂)) ∙ ap suc (length-decode_all ks qs e)

-- With dual-stack peers, a successful answer of an open store with `IsSharded` has as many peers
-- as were wanted, or all the candidates if those are fewer.
pub length-announce_peers :
    (order : Orders) (ps : PeerStore) (ih : Bytes) (seeder : Bool) (n : ℕ) (p : Peer)
    (found : List Peer)
    → IsSharded ps
    → ps.closed ≡ false
    → ps.cfg.enable_dual_stack_peers ≡ true
    → announce_peers order ps ih seeder n p ≡ ok found
    → length found
      ≡ min n (
          length (
            candidates order ih
              (shard_at ps ih (first_family p.ip.address_family))
              (shard_at ps ih (second_family p.ip.address_family))
              seeder
              (new_peer_key p)))
length-announce_peers order ps ih seeder n p found r o d h =
    let ks =
      candidates order ih (shard_at ps ih (first_family p.ip.address_family))
        (shard_at ps ih (second_family p.ip.address_family)) seeder (new_peer_key p) in
    let (_, e) =
      else-eq-ok _ _ (sym (announce_peers-candidates order ps ih seeder n p r o d) ∙ h) in
    length-decode_all (take n ks) found e ∙ length-take n ks
