-- ===== src/Memory/Announce/Counted.antt =====
-- What `PutSeeder` changes of the counts that `ScrapeSwarm` reports
-- (storage/memory/peer_store.go).
use chihaya.Base.{
  ℕ, ◌+◌, ◌%◌, ◌^◌, ◌≡◌, ap, ap₂, ◌∙◌, ◌/◌, be, take, get_or, Bool, true, false, ◌&&◌, Bytes,
  bytes_eq, bytes_eq_iff, length, is_some, ok, if◌then◌else◌, arith, Bool-cases, inl, inr,
}
use chihaya.Base.Dict.{insert, length-insert}
use chihaya.Bittorrent.{AddressFamily, ipv4, ipv6, Peer, Scrape}
use chihaya.Memory.{Swarm, PeerShard, PeerStore, empty_shard}
use chihaya.Memory.Keys.{new_peer_key}
use chihaya.Memory.Shards.{swarm_of, set_seeder, put_seeder_in}
use chihaya.Memory.Shards.Swarms.{swarm_of-insert}
use chihaya.Memory.Shards.Times.{seeder_time_in}
use chihaya.Memory.Shards.Invariant.{put_seeder_in_lem}
use chihaya.Memory.Operations.{put_seeder, replace_shard, is_ipv6}
use chihaya.Memory.Operations.Index.{IsSharded, shard_at, family_eq}
use chihaya.Memory.Operations.Writes.{written, written-IsSharded, with_shard_lem, written_read}
use chihaya.Memory.Operations.Refinement.{seeder_time}
use chihaya.Memory.Announce.{scrape_swarm}
use chihaya.Memory.Announce.Scrapes.{scrape_swarm-both}

abbrev seeders_in : Bytes → PeerShard → ℕ
seeders_in j s = length (swarm_of j s.swarms).seeders

abbrev leechers_in : Bytes → PeerShard → ℕ
leechers_in j s = length (swarm_of j s.swarms).leechers

-- One for a peer that was no seeder yet.
abbrev pub newcomer : PeerStore → Bytes → Peer → ℕ
newcomer ps ih p = if is_some (seeder_time ps ih p.ip.address_family (new_peer_key p)) then 0 else 1

module _ (ih pk : Bytes) (now : ℕ) (s : PeerShard) (j : Bytes) where
  abbrev with_seeder : Swarm
  with_seeder = record (swarm_of ih s.swarms) {
    seeders = insert pk now (swarm_of ih s.swarms).seeders;
  }

  set_seeder-count : seeders_in j (set_seeder ih pk now s) ≡ (
      if bytes_eq ih j
      then seeders_in ih s + (if is_some (seeder_time_in s ih pk) then 0 else 1)
      else seeders_in j s)
  unfolding set_seeder
  set_seeder-count = ground (
    arith,
    length-insert pk now (swarm_of ih s.swarms).seeders,
    swarm_of-insert ih j with_seeder s.swarms,
  )

  set_seeder-leechers : leechers_in j (set_seeder ih pk now s) ≡ leechers_in j s
  unfolding set_seeder
  set_seeder-leechers = ground (arith, bytes_eq_iff ih j, swarm_of-insert ih j with_seeder s.swarms)

module _ (ps : PeerStore) (r : IsSharded ps) (ih : Bytes) (p : Peer) (j : Bytes)
    (af : AddressFamily) where
  abbrev after : PeerStore
  after =
      written ps ih p.ip.address_family
        (put_seeder_in ih (new_peer_key p) ps.clock (shard_at ps ih p.ip.address_family))

  after-seeders : seeders_in j (shard_at after j af) ≡ (
      if bytes_eq ih j && family_eq p.ip.address_family af
      then seeders_in ih (shard_at ps ih p.ip.address_family) + newcomer ps ih p
      else seeders_in j (shard_at ps j af))
  after-seeders =
      written_read ps ih j p.ip.address_family af _ (seeders_in j) (bytes_eq ih j) _ r
        (ap (seeders_in j) (put_seeder_in_lem ih (new_peer_key p) ps.clock _)
          ∙ set_seeder-count ih (new_peer_key p) ps.clock _ j)
        (λ e. e)

  after-leechers : leechers_in j (shard_at after j af) ≡ leechers_in j (shard_at ps j af)
  after-leechers =
      written_read ps ih j p.ip.address_family af _ (leechers_in j) false 0 r
        (ap (leechers_in j) (put_seeder_in_lem ih (new_peer_key p) ps.clock _)
          ∙ set_seeder-leechers ih (new_peer_key p) ps.clock _ j)
        (λ e. cc)

  -- The families share a half of the shards.
  same_count :
      (bytes_eq ih j && family_eq p.ip.address_family af) ≡ true
      → seeders_in ih (shard_at ps ih p.ip.address_family) ≡ seeders_in j (shard_at ps j af)
  same_count h =
      let hash : ih ≡ j = (bytes_eq_iff ih j).0 (ground arith) in
      let family : is_ipv6 p.ip.address_family ≡ is_ipv6 af = ground arith in
      ap (λ k. seeders_in k (shard_at ps k p.ip.address_family)) hash
      ∙ ap
          (λ b. seeders_in j (
            get_or ps.shards
              (be (take 4 j) % (length ps.shards / 2) + (if b then length ps.shards / 2 else 0))
              empty_shard))
          family

  after_seeders :
      seeders_in j (shard_at after j af)
      ≡ seeders_in j (shard_at ps j af)
        + (if bytes_eq ih j && family_eq p.ip.address_family af then newcomer ps ih p else 0)
  after_seeders = elim (Bool-cases (bytes_eq ih j && family_eq p.ip.address_family af)) [
    | inl e ↦ after-seeders ∙ rw e (ap (λ n. n + newcomer ps ih p) (same_count e))
    | inr e ↦ after-seeders ∙ rw e (omega arith)
  ]

-- A peer is of one of the two families.
either_family :
    (b : Bool) (af : AddressFamily) (n : ℕ)
    → (if b && family_eq af ipv4 then n else 0) + (if b && family_eq af ipv6 then n else 0)
      ≡ (if b then n else 0)
unfolding is_ipv6
either_family b af n = ground arith

added_mod : (a b x y : ℕ) → ((a + x) + (b + y)) % 2 ^ 32 ≡ ((a + b) % 2 ^ 32 + (x + y)) % 2 ^ 32
added_mod a b x y = omega arith

-- In an open store with `IsSharded` and dual-stack peers, a scrape counts one seeder more than before
-- a `PutSeeder` if that was for its infohash and the peer was no seeder of it, and else as many; and as
-- many leechers, in uint32. The write and both scrapes succeed, whichever families scrape and whichever
-- the peer has.
pub put_seeder-counted :
    (ps : PeerStore) (ih : Bytes) (p : Peer) (j : Bytes) (af af' : AddressFamily)
    → IsSharded ps
    → ps.closed ≡ false
    → ps.cfg.enable_dual_stack_peers ≡ true
    → (q : PeerStore) × (c : Scrape) × (d : Scrape) × (put_seeder ps ih p ≡ ok q)
      × (scrape_swarm ps j af ≡ ok c)
      × (scrape_swarm q j af' ≡ ok d)
      × (d.complete ≡ (c.complete + (if bytes_eq ih j then newcomer ps ih p else 0)) % 2 ^ 32)
      × (d.incomplete ≡ c.incomplete)
unfolding put_seeder replace_shard
put_seeder-counted ps ih p j af af' r o d =
    let q = after ps r ih p j af in
    (
      q,
      _,
      _,
      with_shard_lem ps ih p (λ t. ok (put_seeder_in ih (new_peer_key p) ps.clock t)) r o,
      scrape_swarm-both ps j af r o d,
      scrape_swarm-both q j af' (written-IsSharded ps ih p.ip.address_family _ r) o d,
      ap₂ (λ x y. (x + y) % 2 ^ 32) (after_seeders ps r ih p j ipv4)
            (after_seeders ps r ih p j ipv6)
          ∙ added_mod _ _ _ _
          ∙ ap
              (λ n.
                ((seeders_in j (shard_at ps j ipv4) + seeders_in j (shard_at ps j ipv6)) % 2 ^ 32
                  + n)
                % 2 ^ 32)
              (either_family (bytes_eq ih j) p.ip.address_family (newcomer ps ih p)),
      ap₂ (λ x y. (x + y) % 2 ^ 32) (after-leechers ps r ih p j ipv4)
          (after-leechers ps r ih p j ipv6),
    )
