-- ===== src/Tests/Stores.antt =====
-- Runs of the in-memory peer store.
use chihaya.Base.{
  ◌+◌, ◌≡◌, refl, true, false, [], ◌∷◌, length, min, none, some, is_some, ok, err, if◌then◌else◌,
  ◌%◌, ◌^◌, arith, inl, inr, ◌↔◌, put_be, be_onto, bytes_eq,
}
use chihaya.Base.Dict.{lookup, insert}
use chihaya.Bittorrent.{Scrape, ipv4, ipv6, peer_id_from_string}
use chihaya.Bittorrent.Peers.{peer_equal, to4}
use chihaya.Memory.{PeerStore, empty_shard, err_resource_does_not_exist, inc64}
use chihaya.Memory.Configs.{new, validate}
use chihaya.Memory.Keys.{new_peer_key, decode_peer_key}
use chihaya.Memory.Keys.Equality.{peer_equal-new_peer_key}
use chihaya.Memory.Keys.RoundTrip.{decode_peer_key-new_peer_key}
use chihaya.Memory.Shards.{put_seeder_in, set_seeder, ensure_swarm, swarm_of}
use chihaya.Memory.Shards.Times.{fresh}
use chihaya.Memory.Shards.Counts.{total, seeders_of, leechers_of}
use chihaya.Bittorrent.Sanitize.Bounds.{IsCanonical}
use chihaya.Memory.Operations.{
  put_seeder, delete_seeder, put_leecher, delete_leecher, graduate_leecher, collect_garbage, stop,
  with_shard, replace_shard, shard_index, is_ipv6, prom_totals,
}
use chihaya.Memory.Operations.Index.{IsSharded, shard_at}
use chihaya.Memory.Operations.Refinement.{
  seeder_time, leecher_time, put_seeder-refines, put_leecher-refines, graduate_leecher-refines,
  delete_seeder-refines, delete_leecher-refines,
}
use chihaya.Memory.Operations.Collecting.{collect_garbage-refines}
use chihaya.Memory.Operations.Steps.{ticks, puts_seeder, here, next, StoreInv}
use chihaya.Memory.Operations.Reachable.{
  reachable_invariant, sum_over, prom_totals-sum, IsShut, stop-IsShut,
}
use chihaya.Memory.Announce.{announce_peers, scrape_swarm}
use chihaya.Memory.Announce.Loops.{decode_all}
use chihaya.Memory.Announce.Selection.{announce_peers-candidates, candidates}
use chihaya.Memory.Announce.Counted.{newcomer, put_seeder-counted}
use chihaya.Memory.Announce.Scrapes.{scrape_swarm-both, length-announce_peers}
use chihaya.Tests.{info_hash, alice, bob, bob_ip, config, in_order}

-- A new store after Alice announced as a seeder at time 100.
abbrev pub one_seeder : PeerStore
one_seeder = record (new config 100) {
  shards =
      record {
        swarms =
            (info_hash, record { seeders = (new_peer_key alice, 100) ∷ []; leechers = [] }) ∷ [];
        num_seeders = 1;
        num_leechers = 0;
      }
      ∷ empty_shard
      ∷ [];
}

announced : put_seeder (new config 100) info_hash alice ≡ ok one_seeder
unfolding put_seeder with_shard replace_shard shard_index is_ipv6 put_seeder_in set_seeder
    ensure_swarm swarm_of lookup insert inc64 new validate be_onto put_be new_peer_key bytes_eq
announced = refl

shard_count_fits : (validate config).shard_count ≡ 1
unfolding validate
shard_count_fits = refl

reachable_invariant_example : StoreInv one_seeder
reachable_invariant_example =
    reachable_invariant config 100 one_seeder (omega (arith, shard_count_fits))
      (next here (puts_seeder info_hash alice announced))

pub one_seeder-StoreInv : StoreInv one_seeder
one_seeder-StoreInv =
    reachable_invariant config 100 one_seeder (omega (arith, shard_count_fits))
      (next here (puts_seeder info_hash alice announced))

pub one_seeder-IsSharded : IsSharded one_seeder
one_seeder-IsSharded = one_seeder-StoreInv.sharded

pub one_seeder_open : one_seeder.closed ≡ false
unfolding new
one_seeder_open = refl

pub one_seeder_dual : one_seeder.cfg.enable_dual_stack_peers ≡ true
unfolding new validate
one_seeder_dual = refl

put_seeder-refines_example :
    (q : PeerStore) × (put_seeder one_seeder info_hash bob ≡ ok q)
    × (seeder_time q info_hash ipv6 (new_peer_key bob) ≡ some one_seeder.clock)
    × (leecher_time q info_hash ipv6 (new_peer_key bob)
        ≡ leecher_time one_seeder info_hash ipv6 (new_peer_key bob))
unfolding new_peer_key bytes_eq put_be is_ipv6
put_seeder-refines_example =
    put_seeder-refines one_seeder one_seeder-IsSharded one_seeder_open info_hash bob info_hash ipv6
      (new_peer_key bob)

stored_leecher :
    (q : PeerStore) × (put_leecher one_seeder info_hash bob ≡ ok q)
    × (leecher_time q info_hash ipv6 (new_peer_key bob) ≡ some one_seeder.clock)
    × (seeder_time q info_hash ipv6 (new_peer_key bob)
        ≡ seeder_time one_seeder info_hash ipv6 (new_peer_key bob))
unfolding new_peer_key bytes_eq put_be is_ipv6
stored_leecher =
    put_leecher-refines one_seeder one_seeder-IsSharded one_seeder_open info_hash bob info_hash ipv6
      (new_peer_key bob)

graduate_leecher-refines_example :
    (q : PeerStore) × (graduate_leecher one_seeder info_hash bob ≡ ok q)
    × (seeder_time q info_hash ipv6 (new_peer_key bob) ≡ some one_seeder.clock)
    × (leecher_time q info_hash ipv6 (new_peer_key bob) ≡ none)
unfolding new_peer_key bytes_eq put_be is_ipv6
graduate_leecher-refines_example =
    graduate_leecher-refines one_seeder one_seeder-IsSharded one_seeder_open info_hash bob info_hash
      ipv6 (new_peer_key bob)

delete_seeder-refines_example :
    (q : PeerStore) × (delete_seeder one_seeder info_hash alice ≡ (
      if is_some (seeder_time one_seeder info_hash ipv4 (new_peer_key alice))
      then ok q
      else err err_resource_does_not_exist))
    × (seeder_time q info_hash ipv4 (new_peer_key alice) ≡ none)
    × (leecher_time q info_hash ipv4 (new_peer_key alice)
        ≡ leecher_time one_seeder info_hash ipv4 (new_peer_key alice))
unfolding new_peer_key bytes_eq put_be is_ipv6
delete_seeder-refines_example =
    delete_seeder-refines one_seeder one_seeder-IsSharded one_seeder_open info_hash alice info_hash
      ipv4 (new_peer_key alice)

deleted_leecher :
    (q : PeerStore) × (delete_leecher one_seeder info_hash bob ≡ (
      if is_some (leecher_time one_seeder info_hash ipv6 (new_peer_key bob))
      then ok q
      else err err_resource_does_not_exist))
    × (leecher_time q info_hash ipv6 (new_peer_key bob) ≡ none)
    × (seeder_time q info_hash ipv6 (new_peer_key bob)
        ≡ seeder_time one_seeder info_hash ipv6 (new_peer_key bob))
unfolding new_peer_key bytes_eq put_be is_ipv6
deleted_leecher =
    delete_leecher-refines one_seeder one_seeder-IsSharded one_seeder_open info_hash bob info_hash
      ipv6 (new_peer_key bob)

collect_garbage-refines_example :
    (seeder_time (collect_garbage one_seeder 100) info_hash ipv4 (new_peer_key alice)
      ≡ fresh 100 (seeder_time one_seeder info_hash ipv4 (new_peer_key alice)))
    × (leecher_time (collect_garbage one_seeder 100) info_hash ipv4 (new_peer_key alice)
        ≡ fresh 100 (leecher_time one_seeder info_hash ipv4 (new_peer_key alice)))
collect_garbage-refines_example =
    collect_garbage-refines one_seeder 100 info_hash ipv4 (new_peer_key alice)
      one_seeder-StoreInv.shards_ok one_seeder_open

posted_totals : prom_totals one_seeder.shards ≡ (
  sum_over (λ s. length s.swarms) one_seeder.shards % 2 ^ 64,
  sum_over (λ s. total seeders_of s.swarms) one_seeder.shards % 2 ^ 64,
  sum_over (λ s. total leechers_of s.swarms) one_seeder.shards % 2 ^ 64,
)
posted_totals = prom_totals-sum one_seeder.shards one_seeder-StoreInv.shards_ok

abbrev stopped_store : PeerStore
stopped_store = record one_seeder { closed = true; shards = empty_shard ∷ empty_shard ∷ [] }

stops_once : stop one_seeder ≡ ok stopped_store
unfolding stop new
stops_once = refl

-- Five nanoseconds after it was stopped.
stop-IsShut_example : IsShut in_order (record stopped_store { clock = 105 }) info_hash alice 50 100
stop-IsShut_example =
    stop-IsShut in_order one_seeder stopped_store (record stopped_store { clock = 105 }) info_hash
      alice 50 100 stops_once (next here (ticks 105 refl))

-- A leecher over IPv6 is given the seeder over IPv4.
announce_peers-candidates_example :
    announce_peers in_order one_seeder info_hash false 50 bob ≡ ok (alice ∷ [])
unfolding lookup be_onto is_ipv6 bytes_eq decode_all candidates put_be swarm_of decode_peer_key
    new_peer_key to4 peer_id_from_string
announce_peers-candidates_example =
    announce_peers-candidates in_order one_seeder info_hash false 50 bob one_seeder-IsSharded
      one_seeder_open one_seeder_dual

counted_peers :
    length (alice ∷ [])
    ≡ min 50 (
        length (
          candidates in_order info_hash
            (shard_at one_seeder info_hash ipv6)
            (shard_at one_seeder info_hash ipv4)
            false
            (new_peer_key bob)))
counted_peers =
    length-announce_peers in_order one_seeder info_hash false 50 bob (alice ∷ [])
      one_seeder-IsSharded one_seeder_open one_seeder_dual announce_peers-candidates_example

both_families :
    scrape_swarm one_seeder info_hash ipv6
    ≡ ok (record { info_hash = info_hash; snatches = 0; complete = 1; incomplete = 0 })
unfolding swarm_of lookup bytes_eq is_ipv6 be_onto
both_families =
    scrape_swarm-both one_seeder info_hash ipv6 one_seeder-IsSharded one_seeder_open one_seeder_dual

-- Bob becomes a seeder over IPv6; the scrapes are those of IPv4.
put_seeder-counted_example :
    (q : PeerStore) × (c : Scrape) × (d : Scrape) × (put_seeder one_seeder info_hash bob ≡ ok q)
    × (scrape_swarm one_seeder info_hash ipv4 ≡ ok c)
    × (scrape_swarm q info_hash ipv4 ≡ ok d)
    × (d.complete
        ≡ (c.complete
            + (if bytes_eq info_hash info_hash then newcomer one_seeder info_hash bob else 0))
          % 2 ^ 32)
    × (d.incomplete ≡ c.incomplete)
put_seeder-counted_example =
    put_seeder-counted one_seeder info_hash bob info_hash ipv4 ipv4 one_seeder-IsSharded
      one_seeder_open one_seeder_dual

bob_is_new : newcomer one_seeder info_hash bob ≡ 1
unfolding new lookup be_onto is_ipv6 bytes_eq swarm_of new_peer_key put_be
bob_is_new = refl

alice-IsCanonical : IsCanonical alice.ip
alice-IsCanonical = inl (10 ∷ 0 ∷ 0 ∷ 1 ∷ [], refl, refl, refl)

decode_peer_key-new_peer_key_example : decode_peer_key (new_peer_key alice) ≡ ok alice
decode_peer_key-new_peer_key_example =
    decode_peer_key-new_peer_key alice refl (omega arith) alice-IsCanonical

bob-IsCanonical : IsCanonical bob.ip
unfolding to4 bytes_eq
bob-IsCanonical = inr (bob_ip, refl, refl, refl, refl)

one_key : (peer_equal alice bob ≡ true) ↔ (new_peer_key alice ≡ new_peer_key bob)
one_key =
    peer_equal-new_peer_key alice bob refl refl (omega arith) (omega arith) alice-IsCanonical
      bob-IsCanonical
