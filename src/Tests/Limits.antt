-- ===== src/Tests/Limits.antt =====
-- A server of sets in memory, and an announce of Bob while Alice's peer holds the place.
use chihaya.Base.{
  pos, ◌==◌, ◌≡◌, refl, Bool, true, false, not, ◌&&◌, Bytes, bytes_eq, bytes_eq_iff, codes, length,
  List, [], ◌∷◌, ok, err, format_hex, if◌then◌else◌, arith,
}
use chihaya.Middleware.Approval.{contains}
use chihaya.Middleware.Limits.{
  Config, SetServer, err_limit_reached, limit_announce, other_member, passkey_of,
}
use chihaya.Middleware.Limits.Uniqueness.{Laws, IsLimited, limit_announce-IsLimited}
use chihaya.Tests.{on_route, alice, bob, announce, response}

abbrev Sets : Type 0
Sets = Bytes → List Bytes

abbrev without : Bytes → List Bytes → List Bytes
without m [] = []
without m (x ∷ xs) = let rest = without m xs in if bytes_eq m x then rest else x ∷ rest

abbrev server : SetServer Sets
server = record {
  srem = λ s k m. ((λ j. if bytes_eq k j then without m (s j) else s j), ok tt);
  smembers = λ s k. ok (s k);
  sadd = λ s k m t. ((λ j. if bytes_eq k j then m ∷ s j else s j), ok tt);
}

contains-without :
    (m n : Bytes) (xs : List Bytes)
    → contains n (without m xs) ≡ (if bytes_eq m n then false else contains n xs)
unfolding contains
contains-without m n [] = ground arith
contains-without m n (x ∷ xs) =
    ground (arith, bytes_eq_iff m x, bytes_eq_iff m n, bytes_eq_iff x n, contains-without m n xs)

removed :
    (b : Bool) (m n : Bytes) (xs : List Bytes)
    → contains n (if b then without m xs else xs)
      ≡ (if b && bytes_eq m n then false else contains n xs)
removed true m n xs = contains-without m n xs
removed false m n xs = refl

added :
    (b : Bool) (m n : Bytes) (xs : List Bytes)
    → contains n (if b then m ∷ xs else xs) ≡ (if b && bytes_eq m n then true else contains n xs)
unfolding contains
added true m n xs = ground arith
added false m n xs = refl

abbrev laws : Laws server
laws = record {
  has = λ s k m. contains m (s k);
  listed = λ s k. s k;
  smembers_lists = λ s k. refl;
  listed_has = λ s k m. refl;
  srem_has = λ s k m j n. removed (bytes_eq k j) m n (s j);
  sadd_has = λ s k m t j n. added (bytes_eq k j) m n (s j);
}

abbrev config : Config
config = record {
  redis_broker = codes "redis://localhost/0";
  limit_key_prefix = codes "tracker:limit";
  peer_lifetime = pos 1_800_000_000_000;
}

abbrev taken : Sets
taken = λ k. format_hex alice.id ∷ []

taken-IsLimited : IsLimited server laws taken
unfolding contains
taken-IsLimited k m n p q =
    ground (arith, bytes_eq_iff (format_hex alice.id) m, bytes_eq_iff (format_hex alice.id) n)

limit_announce-IsLimited_example :
    let passkey = passkey_of on_route (announce 10 bob) in
    let r = limit_announce server config taken on_route (announce 10 bob) response in
    IsLimited server laws r.0
    × (r.1 ≡ (
        if not (length config.redis_broker == 0)
          && not (length passkey == 0)
          && true
          && other_member (format_hex bob.id) (format_hex alice.id ∷ [])
        then err err_limit_reached
        else ok (on_route, announce 10 bob, response)))
limit_announce-IsLimited_example =
    limit_announce-IsLimited server laws config taken on_route (announce 10 bob) response
      taken-IsLimited
