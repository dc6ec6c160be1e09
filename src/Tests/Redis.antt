-- ===== src/Tests/Redis.antt =====
-- A Redis server in memory, and announces over it.
use chihaya.Base.{
  ℤ, be_onto, Option, some, parse_int, ◌+ℤ◌, ◌==◌, ◌≡◌, refl, true, false, not, ◌&&◌, Bytes,
  bytes_eq, codes, List, [], ◌∷◌, ◌++◌, length, take, none, is_some, ok, err, pos, neg, format_hex,
  format_uint, if◌then◌else◌, put_be,
}
use chihaya.Memory.{err_resource_does_not_exist}
use chihaya.Memory.Announce.Loops.{decode_all}
use chihaya.Memory.Keys.{new_peer_key, decode_peer_key}
use chihaya.Bittorrent.{peer_id_from_string}
use chihaya.Bittorrent.Peers.{to4}
use chihaya.Redis.{
  Store, family_name, leecher_infohash_key, seeder_infohash_key, leecher_count_key,
  seeder_count_key, infohash_count_key,
}
use chihaya.Redis.Servers.{
  Command, hset, hdel, add_to, Server, Fields, Counters, all_fields, all_counters, replies, Laws,
}
use chihaya.Redis.Operations.{put_leecher, delete_seeder, graduate_leecher}
use chihaya.Redis.Runs.{with_field, without_field, count_if}
use chihaya.Redis.Announce.{announce_peers, announce_peers-all}
use chihaya.Redis.Collection.{collect_garbage, delete_expired}
use chihaya.Redis.Expiry.{Entry, flat, is_old, delete_expired-is_old}
use chihaya.Redis.Effects.{delete_seeder_effect, graduate_leecher_effect}
use chihaya.Tests.{info_hash, alice}

-- The names of the fields of each hash, in the order in which they came.
abbrev Names : Type 0
Names = Bytes → List Bytes

abbrev without : Bytes → List Bytes → List Bytes
without f [] = []
without f (g ∷ gs) = let rest = without f gs in if bytes_eq f g then rest else g ∷ rest

abbrev names_after : Command → Fields → Names → Names
names_after (hset k f x) m ns j =
    if bytes_eq k j && not (is_some (m k f)) then ns j ++ f ∷ [] else ns j
names_after (hdel k f) m ns j = if bytes_eq k j then without f (ns j) else ns j
names_after (add_to k n) m ns j = ns j

abbrev all_names : List Command → Fields → Names → Names
all_names [] m ns = ns
all_names (c ∷ cs) m ns = all_names cs (all_fields (c ∷ []) m) (names_after c m ns)

record Memory : Type 0 where
  hashes : Fields
  counts : Counters
  names : Names

abbrev entries : (Bytes → Option Bytes) → List Bytes → List Bytes
entries h [] = []
entries h (f ∷ fs) = elim (h f) [ none ↦ entries h fs | some x ↦ f ∷ x ∷ entries h fs ]

abbrev server : Server Memory
server = record {
  exec = λ v cs. (
    record {
      hashes = all_fields cs v.hashes;
      counts = all_counters cs v.counts;
      names = all_names cs v.hashes v.names;
    },
    ok (replies cs v.hashes v.counts),
  );
  hkeys = λ v k. ok (v.names k);
  hlen = λ v k. ok (length (v.names k));
  hgetall = λ v k. ok (entries (v.hashes k) (v.names k));
  get = λ v k. ok (some (v.counts k));
  watch = λ v k. (v, ok tt);
  unwatch = λ v. (v, ok tt);
}

abbrev laws : Laws server
laws = record {
  fields = λ v. v.hashes;
  counters = λ v. v.counts;
  exec_replies = λ v cs. refl;
  exec_fields = λ v cs k f. refl;
  exec_counters = λ v cs k. refl;
}

abbrev store : Store
store = record { closed = false; clock = 5 }

abbrev nothing : Memory
nothing = record { hashes = λ k f. none; counts = λ k. pos 0; names = λ k. [] }

-- Alice has announced as a leecher.
abbrev one_leecher : Memory
one_leecher = (put_leecher server store info_hash alice nothing).0

abbrev pub af : Bytes
af = codes "IPv4"

abbrev pub pk : Bytes
pk = new_peer_key alice

family : family_name alice.ip.address_family ≡ ok af
unfolding family_name
family = refl

abbrev pub l_key : Bytes
l_key = leecher_infohash_key af (format_hex info_hash)

abbrev s_key : Bytes
s_key = seeder_infohash_key af (format_hex info_hash)

leechers_listed : server.hkeys one_leecher l_key ≡ ok (pk ∷ [])
unfolding put_leecher family_name format_hex bytes_eq new_peer_key put_be
leechers_listed = refl

seeders_listed : server.hkeys one_leecher s_key ≡ ok []
unfolding put_leecher family_name format_hex bytes_eq new_peer_key put_be
seeders_listed = refl

-- Alice is told of herself.
announce_peers-all_example : announce_peers server store one_leecher info_hash false 50 alice ≡ (
    if (length (pk ∷ []) == 0) && true
    then err err_resource_does_not_exist
    else decode_all (take 50 (pk ∷ [])))
announce_peers-all_example =
    announce_peers-all server store one_leecher info_hash false 50 alice af (pk ∷ []) [] refl family
      leechers_listed seeders_listed

delete_seeder_effect_example :
    let r = delete_seeder server store info_hash alice one_leecher in
    let found = is_some (one_leecher.hashes s_key pk) in
    (r.1 ≡ (if found then ok tt else err err_resource_does_not_exist))
    × ((r.0).hashes s_key pk ≡ without_field s_key pk one_leecher.hashes s_key pk)
    × ((r.0).counts (seeder_count_key af)
        ≡ count_if found
            (seeder_count_key af)
            (seeder_count_key af)
            (neg (pos 1))
            (one_leecher.counts (seeder_count_key af)))
delete_seeder_effect_example =
    delete_seeder_effect server laws store info_hash alice af one_leecher s_key pk
      (seeder_count_key af) refl family

graduate_leecher_effect_example :
    let r = graduate_leecher server store info_hash alice one_leecher in
    let ct = format_uint 5 in
    let m = one_leecher.hashes in
    (r.1 ≡ ok tt)
    × ((r.0).hashes s_key pk
        ≡ with_field af s_key ct (with_field s_key pk ct (without_field l_key pk m)) s_key pk)
    × ((r.0).counts (leecher_count_key af)
        ≡ count_if
            (not (is_some (m af s_key)))
            (infohash_count_key af)
            (leecher_count_key af)
            (pos 1)
            (count_if
              (not (is_some (m s_key pk)))
              (seeder_count_key af)
              (leecher_count_key af)
              (pos 1)
              (count_if
                (is_some (m l_key pk))
                (leecher_count_key af)
                (leecher_count_key af)
                (neg (pos 1))
                (one_leecher.counts (leecher_count_key af)))))
graduate_leecher_effect_example =
    graduate_leecher_effect server laws store info_hash alice af one_leecher s_key pk
      (leecher_count_key af) refl family

-- A collection later than Alice's announce forgets her, and the swarm.
collected : Memory
collected = (collect_garbage server store (pos 5) one_leecher).0

collected_leechers : collected.names l_key ≡ []
unfolding collected collect_garbage put_leecher family_name format_hex bytes_eq new_peer_key put_be
    parse_int format_uint decode_peer_key peer_id_from_string to4 ◌+ℤ◌
collected_leechers = refl

abbrev pub entry : Entry
entry = record { key = pk; value = codes "5"; peer = alice; time = pos 5 }

pub key_read : decode_peer_key pk ≡ ok alice
unfolding decode_peer_key new_peer_key put_be peer_id_from_string to4 be_onto
key_read = refl

pub time_read : parse_int (codes "5") ≡ some (pos 5)
unfolding parse_int
time_read = refl

old_entry :
    let r = delete_expired server l_key (pos 5) (pos 0) (flat (entry ∷ [])) one_leecher in
    ((n : ℤ) × (r.1 ≡ ok n))
    × ((r.0).hashes l_key pk ≡ (
        if bytes_eq l_key l_key && is_old (pos 5) pk (entry ∷ [])
        then none
        else one_leecher.hashes l_key pk))
    × ((r.0).counts (leecher_count_key af) ≡ one_leecher.counts (leecher_count_key af))
old_entry =
    delete_expired-is_old server laws l_key (pos 5) (pos 0) (entry ∷ []) one_leecher l_key pk
      (leecher_count_key af) ((key_read, time_read), tt)
