-- ===== src/Memory/Operations.antt =====
-- The methods of the store: the closed check, the choice of a shard, and the critical section.
pub mod Index
pub mod Writes
pub mod Refinement
pub mod Collecting
pub mod Steps
pub mod Reachable
use chihaya.Base.{
  ℕ, ◌+◌, ◌*◌, ◌/◌, ◌%◌, ◌^◌, ◌==◌, Bool, not, Bytes, be, take, List, [], ◌∷◌, map, length,
  get_elem?, set, Result, ok, err, panic, guard, assert, or_panic, ◌>>=◌, ◌>>◌, if◌then◌else◌, true,
  false,
}
use chihaya.Base.Dict.{keys, lookup}
use chihaya.Bittorrent.{AddressFamily, ipv4, ipv6, other_family, Peer, Scrape}
use chihaya.Memory.{Swarm, PeerShard, PeerStore, Config, empty_shard}
use chihaya.Memory.Keys.{new_peer_key}
use chihaya.Memory.Shards.{
  put_seeder_in, put_leecher_in, delete_seeder_in, delete_leecher_in, graduate_leecher_in,
  collect_all, swarm_of,
}

unfoldable pub is_ipv6 : AddressFamily → Bool
is_ipv6 ipv4 = false
is_ipv6 ipv6 = true
is_ipv6 (other_family n) = false

-- In uint32. The first half of the shards is for IPv4 and the second for IPv6; a modulus of zero
-- panics.
unfoldable pub shard_index : PeerStore → Bytes → AddressFamily → Result ℕ
unfolding is_ipv6
shard_index ps info_hash af =
    let half = (length ps.shards % 2 ^ 32) / 2 in
    let idx = be (take 4 info_hash) % half in
    if half == 0
    then panic
    else ok (if is_ipv6 af then (idx + (length ps.shards / 2) % 2 ^ 32) % 2 ^ 32 else idx)

unfoldable pub shard_for : PeerStore → Bytes → AddressFamily → Result PeerShard
shard_for ps ih af = do i ← shard_index ps ih af; or_panic (get_elem? ps.shards i)

unfoldable pub replace_shard : PeerStore → ℕ → Result PeerShard → Result PeerStore
replace_shard ps i r = do s ← r; ok (record ps { shards = set ps.shards i s })

-- The frame of the writing methods: the closed check, then the shard under its lock.
unfoldable pub with_shard :
    PeerStore → Bytes → Peer → (PeerShard → Result PeerShard) → Result PeerStore
unfolding replace_shard
with_shard ps ih p f = do
  assert (not ps.closed)
  i ← shard_index ps ih p.ip.address_family
  s ← or_panic (get_elem? ps.shards i)
  replace_shard ps i (f s)

unfoldable pub put_seeder : PeerStore → Bytes → Peer → Result PeerStore
unfolding with_shard
put_seeder ps ih p = with_shard ps ih p (λ s. ok (put_seeder_in ih (new_peer_key p) ps.clock s))

unfoldable pub delete_seeder : PeerStore → Bytes → Peer → Result PeerStore
unfolding with_shard
delete_seeder ps ih p = with_shard ps ih p (delete_seeder_in ih (new_peer_key p))

unfoldable pub put_leecher : PeerStore → Bytes → Peer → Result PeerStore
unfolding with_shard
put_leecher ps ih p = with_shard ps ih p (λ s. ok (put_leecher_in ih (new_peer_key p) ps.clock s))

unfoldable pub delete_leecher : PeerStore → Bytes → Peer → Result PeerStore
unfolding with_shard
delete_leecher ps ih p = with_shard ps ih p (delete_leecher_in ih (new_peer_key p))

unfoldable pub graduate_leecher : PeerStore → Bytes → Peer → Result PeerStore
unfolding with_shard
graduate_leecher ps ih p =
    with_shard ps ih p (λ s. ok (graduate_leecher_in ih (new_peer_key p) ps.clock s))

-- `populateProm`: the sums that are posted, in uint64.
unfoldable pub prom_totals : List PeerShard → ℕ × ℕ × ℕ
prom_totals [] = (0, 0, 0)
prom_totals (s ∷ ss) =
    let rest = prom_totals ss in
    (
      (length s.swarms + rest.0) % 2 ^ 64,
      (s.num_seeders + rest.1) % 2 ^ 64,
      (s.num_leechers + rest.2) % 2 ^ 64,
    )

-- A collection with no other operation in between. (`Steps` has the interleavings.)
unfoldable pub collect_garbage : PeerStore → ℕ → PeerStore
collect_garbage ps cutoff =
    if ps.closed
    then ps
    else record ps { shards = map (λ s. collect_all cutoff (keys s.swarms) s) ps.shards }

-- `Stop`: closed for good, and every shard emptied. To close a closed channel is a panic.
unfoldable pub stop : PeerStore → Result PeerStore
stop ps = do
  assert (not ps.closed)
  ok (record ps { closed = true; shards = map (λ _. empty_shard) ps.shards })
