-- ===== src/Redis/Effects.antt =====
-- What the methods that write (storage/redis/peer_store.go) do to the fields and the counters of a
-- server that answers.
use chihaya.Base.{
  ◌≡◌, refl, ap, ◌∙◌, Bool, false, not, Bytes, bytes_eq, codes, [], ◌∷◌, is_some, ok, err, ℤ, pos,
  neg, format_uint, format_hex, if◌then◌else◌, arith,
}
use chihaya.Bittorrent.{Peer}
use chihaya.Memory.{err_resource_does_not_exist}
use chihaya.Redis.{
  Store, new_peer_key, family_name, leecher_infohash_key, seeder_infohash_key, infohash_count_key,
  seeder_count_key, leecher_count_key,
}
use chihaya.Redis.Servers.{hset, hdel, add_to, decr, Server, Laws}
use chihaya.Redis.Operations.{put_seeder, delete_seeder, graduate_leecher}
use chihaya.Redis.Runs.{
  with_field, without_field, count_if, longer_ne, after, after-fields, after-counters,
  put_seeder_run, graduate_leecher_run, delete_from_run,
}

-- The hash of a swarm is not the hash of its family.
seeder_key_ne : (af ih : Bytes) → bytes_eq (seeder_infohash_key af ih) af ≡ false
seeder_key_ne af ih = longer_ne af (codes "S_") ih b'_'

leecher_key_ne : (af ih : Bytes) → bytes_eq (leecher_infohash_key af ih) af ≡ false
leecher_key_ne af ih = longer_ne af (codes "L_") ih b'_'

leecher_seeder_ne :
    (af ih : Bytes) → bytes_eq (leecher_infohash_key af ih) (seeder_infohash_key af ih) ≡ false
unfolding bytes_eq
leecher_seeder_ne [] ih = refl
leecher_seeder_ne (x ∷ af) ih = ground (arith, leecher_seeder_ne af ih)

module _ {V : Type 0} (server : Server V) (laws : Laws server) where
  open laws use {fields, counters, exec_replies, exec_fields, exec_counters}

  after_twice-fields :
      (b c : Bool) (k l : Bytes) (d e : ℤ) (w : V) (j g : Bytes)
      → fields (after server laws b (add_to k d) (after server laws c (add_to l e) w)) j g
        ≡ fields w j g
  after_twice-fields b c k l d e w j g =
      after-fields server laws b k d (after server laws c (add_to l e) w) j g
      ∙ after-fields server laws c l e w j g

  after_twice-counters :
      (b c : Bool) (k l : Bytes) (d e : ℤ) (w : V) (j : Bytes)
      → counters (after server laws b (add_to k d) (after server laws c (add_to l e) w)) j
        ≡ count_if b k j d (count_if c l j e (counters w j))
  after_twice-counters b c k l d e w j =
      after-counters server laws b k d (after server laws c (add_to l e) w) j
      ∙ ap (count_if b k j d) (after-counters server laws c l e w j)

  -- Over a server that answers, on an open store and for a peer of IPv4 or IPv6, `PutSeeder`
  -- succeeds: it sets the peer's field of the swarm's seeders and the swarm's field of the family to
  -- the time, leaves all other fields, and adds one to the family's seeders if the peer was none, and
  -- one to its infohashes if the swarm was none of them.
  pub put_seeder_effect :
      (st : Store) (ih : Bytes) (p : Peer) (af : Bytes) (v : V) (j g k : Bytes)
      → st.closed ≡ false
      → family_name p.ip.address_family ≡ ok af
      → let key = seeder_infohash_key af (format_hex ih) in
        let pk = new_peer_key p in
        let ct = format_uint st.clock in
        let r = put_seeder server st ih p v in
        (r.1 ≡ ok tt)
        × (fields r.0 j g ≡ with_field af key ct (with_field key pk ct (fields v)) j g)
        × (counters r.0 k
            ≡ count_if (not (is_some (fields v af key))) (infohash_count_key af) k (pos 1) (
                count_if
                  (not (is_some (fields v key pk)))
                  (seeder_count_key af)
                  k
                  (pos 1)
                  (counters v k)))
  put_seeder_effect st ih p af v j g k o f =
      let key = seeder_infohash_key af (format_hex ih) in
      let pk = new_peer_key p in
      let ct = format_uint st.clock in
      let cs = hset key pk ct ∷ hset af key ct ∷ [] in
      let w = (server.exec v cs).0 in
      let new_peer = not (is_some (fields v key pk)) in
      let new_swarm = not (is_some (fields v af key)) in
      rw (put_seeder_run server laws st ih p af v o f, seeder_key_ne af (format_hex ih))
        (
          refl,
          after_twice-fields _ _ _ _ (pos 1) (pos 1) w j g ∙ exec_fields v cs j g,
          after_twice-counters _ _ _ _ (pos 1) (pos 1) w k
              ∙ ap
                  (λ x.
                    count_if new_swarm (infohash_count_key af) k (pos 1)
                      (count_if new_peer (seeder_count_key af) k (pos 1) x))
                  (exec_counters v cs k),
        )

  -- Over a server that answers, on an open store and for a peer of IPv4 or IPv6, `DeleteSeeder`
  -- removes the peer's field of the swarm's seeders and no other. If there was such a field, it
  -- succeeds and takes one from the family's seeders; else it fails with "resource does not exist"
  -- and changes no counter.
  pub delete_seeder_effect :
      (st : Store) (ih : Bytes) (p : Peer) (af : Bytes) (v : V) (j g k : Bytes)
      → st.closed ≡ false
      → family_name p.ip.address_family ≡ ok af
      → let key = seeder_infohash_key af (format_hex ih) in
        let pk = new_peer_key p in
        let found = is_some (fields v key pk) in
        let r = delete_seeder server st ih p v in
        (r.1 ≡ (if found then ok tt else err err_resource_does_not_exist))
        × (fields r.0 j g ≡ without_field key pk (fields v) j g)
        × (counters r.0 k ≡ count_if found (seeder_count_key af) k (neg (pos 1)) (counters v k))
  unfolding delete_seeder
  delete_seeder_effect st ih p af v j g k o f =
      let key = seeder_infohash_key af (format_hex ih) in
      let pk = new_peer_key p in
      let found = is_some (fields v key pk) in
      let cs = hdel key pk ∷ [] in
      let w = (server.exec v cs).0 in
      rw (f, o, delete_from_run server laws key pk (seeder_count_key af) v)
        (
          refl,
          after-fields server laws found (seeder_count_key af) (neg (pos 1)) w j g
              ∙ exec_fields v cs j g,
          after-counters server laws found (seeder_count_key af) (neg (pos 1)) w k
              ∙ ap (count_if found (seeder_count_key af) k (neg (pos 1))) (exec_counters v cs k),
        )

  -- Over a server that answers, on an open store and for a peer of IPv4 or IPv6, `GraduateLeecher`
  -- succeeds: the peer's field of the swarm's leechers is gone, its field of the seeders and the
  -- swarm's field of the family have the time, and all other fields are left. It takes one from the
  -- family's leechers if the peer was one, and adds one to the family's seeders if the peer was none,
  -- and one to its infohashes if the swarm was none of them.
  pub graduate_leecher_effect :
      (st : Store) (ih : Bytes) (p : Peer) (af : Bytes) (v : V) (j g k : Bytes)
      → st.closed ≡ false
      → family_name p.ip.address_family ≡ ok af
      → let l_key = leecher_infohash_key af (format_hex ih) in
        let s_key = seeder_infohash_key af (format_hex ih) in
        let pk = new_peer_key p in
        let ct = format_uint st.clock in
        let r = graduate_leecher server st ih p v in
        (r.1 ≡ ok tt)
        × (fields r.0 j g
            ≡ with_field af s_key ct
                (with_field s_key pk ct (without_field l_key pk (fields v)))
                j
                g)
        × (counters r.0 k
            ≡ count_if (not (is_some (fields v af s_key))) (infohash_count_key af) k (pos 1) (
                count_if (not (is_some (fields v s_key pk))) (seeder_count_key af) k (pos 1) (
                  count_if
                    (is_some (fields v l_key pk))
                    (leecher_count_key af)
                    k
                    (neg (pos 1))
                    (counters v k))))
  graduate_leecher_effect st ih p af v j g k o f =
      let l_key = leecher_infohash_key af (format_hex ih) in
      let s_key = seeder_infohash_key af (format_hex ih) in
      let pk = new_peer_key p in
      let ct = format_uint st.clock in
      let cs = hdel l_key pk ∷ hset s_key pk ct ∷ hset af s_key ct ∷ [] in
      let w = (server.exec v cs).0 in
      let was_leecher = is_some (fields v l_key pk) in
      let new_peer = not (is_some (fields v s_key pk)) in
      let new_swarm = not (is_some (fields v af s_key)) in
      let w1 = after server laws was_leecher (decr (leecher_count_key af)) w in
      rw
        (
          graduate_leecher_run server laws st ih p af v o f,
          seeder_key_ne af (format_hex ih),
          leecher_key_ne af (format_hex ih),
          leecher_seeder_ne af (format_hex ih),
        )
        (
          refl,
          after_twice-fields new_swarm new_peer _ _ (pos 1) (pos 1) w1 j g
              ∙ after-fields server laws was_leecher (leecher_count_key af) (neg (pos 1)) w j g
              ∙ exec_fields v cs j g,
          after_twice-counters new_swarm new_peer _ _ (pos 1) (pos 1) w1 k
              ∙ ap
                  (λ x.
                    count_if new_swarm (infohash_count_key af) k (pos 1)
                      (count_if new_peer (seeder_count_key af) k (pos 1) x))
                  (after-counters server laws was_leecher (leecher_count_key af) (neg (pos 1)) w k
                    ∙ ap (count_if was_leecher (leecher_count_key af) k (neg (pos 1)))
                        (exec_counters v cs k)),
        )
