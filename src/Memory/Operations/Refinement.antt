-- ===== src/Memory/Operations/Refinement.antt =====
-- The store refines a pair of partial functions: the time of the last announce of each seeder and
-- each leecher, by infohash, family of addresses and peer key.
use chihaya.Base.{
  ℕ, ◌≡◌, Bool, true, false, ◌&&◌, Bytes, bytes_eq, Option, none, some, is_some, ok, err,
  if◌then◌else◌, arith,
}
use chihaya.Bittorrent.{AddressFamily, Peer}
use chihaya.Memory.{PeerShard, PeerStore, err_resource_does_not_exist}
use chihaya.Memory.Keys.{new_peer_key}
use chihaya.Memory.Shards.{
  put_seeder_in, put_leecher_in, delete_seeder_in, delete_leecher_in, graduate_leecher_in,
}
use chihaya.Memory.Shards.Times.{
  seeder_time_in, leecher_time_in, same_in, put_seeder_in-times, put_leecher_in-times,
  graduate_leecher_in-times, without_seeder, without_leecher, delete_seeder_in_lem,
  delete_leecher_in_lem, without_seeder-times, without_leecher-times,
}
use chihaya.Memory.Operations.{
  put_seeder, put_leecher, delete_seeder, delete_leecher, graduate_leecher, replace_shard,
}
use chihaya.Memory.Operations.Index.{IsSharded, shard_at, family_eq}
use chihaya.Memory.Operations.Writes.{written, with_shard_lem, written_read}

abbrev pub seeder_time : PeerStore → Bytes → AddressFamily → Bytes → Option ℕ
seeder_time ps ih af pk = seeder_time_in (shard_at ps ih af) ih pk

abbrev pub leecher_time : PeerStore → Bytes → AddressFamily → Bytes → Option ℕ
leecher_time ps ih af pk = leecher_time_in (shard_at ps ih af) ih pk

-- The entry of peer `p` in swarm `ih` is the one at `j`, `af` and `qk`.
abbrev pub is_entry : Bytes → Peer → Bytes → AddressFamily → Bytes → Bool
is_entry ih p j af qk = same_in ih (new_peer_key p) j qk && family_eq p.ip.address_family af

same_in-hash : (ih pk j qk : Bytes) → same_in ih pk j qk ≡ true → bytes_eq ih j ≡ true
same_in-hash ih pk j qk h = ground arith

module _ (ps : PeerStore) (r : IsSharded ps) (ih : Bytes) (p : Peer) (j : Bytes)
    (af : AddressFamily) (qk : Bytes) (s : PeerShard) where
  pub seeders_read :
      (x : Option ℕ)
      → seeder_time_in s j qk ≡ (
          if same_in ih (new_peer_key p) j qk
          then x
          else seeder_time_in (shard_at ps ih p.ip.address_family) j qk)
      → seeder_time (written ps ih p.ip.address_family s) j af qk
        ≡ (if is_entry ih p j af qk then x else seeder_time ps j af qk)
  seeders_read x h =
      written_read ps ih j p.ip.address_family af s (λ t. seeder_time_in t j qk) _ x r h
        (same_in-hash ih (new_peer_key p) j qk)

  pub leechers_read :
      (x : Option ℕ)
      → leecher_time_in s j qk ≡ (
          if same_in ih (new_peer_key p) j qk
          then x
          else leecher_time_in (shard_at ps ih p.ip.address_family) j qk)
      → leecher_time (written ps ih p.ip.address_family s) j af qk
        ≡ (if is_entry ih p j af qk then x else leecher_time ps j af qk)
  leechers_read x h =
      written_read ps ih j p.ip.address_family af s (λ t. leecher_time_in t j qk) _ x r h
        (same_in-hash ih (new_peer_key p) j qk)

  pub seeders_kept :
      seeder_time_in s j qk ≡ seeder_time_in (shard_at ps ih p.ip.address_family) j qk
      → seeder_time (written ps ih p.ip.address_family s) j af qk ≡ seeder_time ps j af qk
  seeders_kept h =
      written_read ps ih j p.ip.address_family af s (λ t. seeder_time_in t j qk) false none r h
        (λ e. cc)

  pub leechers_kept :
      leecher_time_in s j qk ≡ leecher_time_in (shard_at ps ih p.ip.address_family) j qk
      → leecher_time (written ps ih p.ip.address_family s) j af qk ≡ leecher_time ps j af qk
  leechers_kept h =
      written_read ps ih j p.ip.address_family af s (λ t. leecher_time_in t j qk) false none r h
        (λ e. cc)

module _ (ps : PeerStore) (r : IsSharded ps) (o : ps.closed ≡ false) (ih : Bytes) (p : Peer)
    (j : Bytes) (af : AddressFamily) (qk : Bytes) where
  abbrev pub at : PeerShard
  at = shard_at ps ih p.ip.address_family

  abbrev pub pk : Bytes
  pk = new_peer_key p

  -- In an open store with `IsSharded`, `PutSeeder` succeeds, sets the announce time of one seeder
  -- to the clock and changes no other time.
  pub put_seeder-refines :
      (q : PeerStore) × (put_seeder ps ih p ≡ ok q)
      × (seeder_time q j af qk
          ≡ (if is_entry ih p j af qk then some ps.clock else seeder_time ps j af qk))
      × (leecher_time q j af qk ≡ leecher_time ps j af qk)
  unfolding put_seeder replace_shard
  put_seeder-refines =
      let times = put_seeder_in-times ih pk ps.clock at j qk in
      (
        written ps ih p.ip.address_family (put_seeder_in ih pk ps.clock at),
        with_shard_lem ps ih p (λ t. ok (put_seeder_in ih pk ps.clock t)) r o,
        seeders_read ps r ih p j af qk _ (some ps.clock) times.0,
        leechers_kept ps r ih p j af qk _ times.1,
      )

  -- In an open store with `IsSharded`, `PutLeecher` succeeds, sets the announce time of one
  -- leecher to the clock and changes no other time.
  pub put_leecher-refines :
      (q : PeerStore) × (put_leecher ps ih p ≡ ok q)
      × (leecher_time q j af qk
          ≡ (if is_entry ih p j af qk then some ps.clock else leecher_time ps j af qk))
      × (seeder_time q j af qk ≡ seeder_time ps j af qk)
  unfolding put_leecher replace_shard
  put_leecher-refines =
      let times = put_leecher_in-times ih pk ps.clock at j qk in
      (
        written ps ih p.ip.address_family (put_leecher_in ih pk ps.clock at),
        with_shard_lem ps ih p (λ t. ok (put_leecher_in ih pk ps.clock t)) r o,
        leechers_read ps r ih p j af qk _ (some ps.clock) times.0,
        seeders_kept ps r ih p j af qk _ times.1,
      )

  -- In an open store with `IsSharded`, `GraduateLeecher` succeeds, takes the peer out of the
  -- leechers, sets its time as a seeder to the clock, and changes no other time.
  pub graduate_leecher-refines :
      (q : PeerStore) × (graduate_leecher ps ih p ≡ ok q)
      × (seeder_time q j af qk
          ≡ (if is_entry ih p j af qk then some ps.clock else seeder_time ps j af qk))
      × (leecher_time q j af qk ≡ (if is_entry ih p j af qk then none else leecher_time ps j af qk))
  unfolding graduate_leecher replace_shard
  graduate_leecher-refines =
      let times = graduate_leecher_in-times ih pk ps.clock at j qk in
      (
        written ps ih p.ip.address_family (graduate_leecher_in ih pk ps.clock at),
        with_shard_lem ps ih p (λ t. ok (graduate_leecher_in ih pk ps.clock t)) r o,
        seeders_read ps r ih p j af qk _ (some ps.clock) times.0,
        leechers_read ps r ih p j af qk _ none times.1,
      )

  pub delete_seeder_lem : delete_seeder ps ih p ≡ (
      if is_some (seeder_time ps ih p.ip.address_family (new_peer_key p))
      then ok (written ps ih p.ip.address_family (without_seeder ih pk at))
      else err err_resource_does_not_exist)
  unfolding delete_seeder replace_shard
  delete_seeder_lem =
      ground
        (arith, with_shard_lem ps ih p (delete_seeder_in ih pk) r o, delete_seeder_in_lem ih pk at)

  -- In an open store with `IsSharded`, `DeleteSeeder` fails with "resource does not exist" if the
  -- peer is no seeder of the swarm; otherwise it takes that seeder out and changes no other time.
  pub delete_seeder-refines :
      (q : PeerStore) × (delete_seeder ps ih p ≡ (
        if is_some (seeder_time ps ih p.ip.address_family (new_peer_key p))
        then ok q
        else err err_resource_does_not_exist))
      × (seeder_time q j af qk ≡ (if is_entry ih p j af qk then none else seeder_time ps j af qk))
      × (leecher_time q j af qk ≡ leecher_time ps j af qk)
  delete_seeder-refines =
      let times = without_seeder-times ih pk at j qk in
      (
        written ps ih p.ip.address_family (without_seeder ih pk at),
        delete_seeder_lem,
        seeders_read ps r ih p j af qk _ none times.0,
        leechers_kept ps r ih p j af qk _ times.1,
      )

  pub delete_leecher_lem : delete_leecher ps ih p ≡ (
      if is_some (leecher_time ps ih p.ip.address_family (new_peer_key p))
      then ok (written ps ih p.ip.address_family (without_leecher ih pk at))
      else err err_resource_does_not_exist)
  unfolding delete_leecher replace_shard
  delete_leecher_lem =
      ground (
        arith,
        with_shard_lem ps ih p (delete_leecher_in ih pk) r o,
        delete_leecher_in_lem ih pk at,
      )

  -- In an open store with `IsSharded`, `DeleteLeecher` fails with "resource does not exist" if
  -- the peer is no leecher of the swarm; otherwise it takes that leecher out and changes no other
  -- time.
  pub delete_leecher-refines :
      (q : PeerStore) × (delete_leecher ps ih p ≡ (
        if is_some (leecher_time ps ih p.ip.address_family (new_peer_key p))
        then ok q
        else err err_resource_does_not_exist))
      × (leecher_time q j af qk ≡ (if is_entry ih p j af qk then none else leecher_time ps j af qk))
      × (seeder_time q j af qk ≡ seeder_time ps j af qk)
  delete_leecher-refines =
      let times = without_leecher-times ih pk at j qk in
      (
        written ps ih p.ip.address_family (without_leecher ih pk at),
        delete_leecher_lem,
        leechers_read ps r ih p j af qk _ none times.0,
        seeders_kept ps r ih p j af qk _ times.1,
      )
