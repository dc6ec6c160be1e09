-- ===== src/Redis/Operations.antt =====
-- The methods that write (storage/redis/peer_store.go). What a method did to the server stays done
-- when a later command of it fails.
use chihaya.Base.{
  ℕ, ◌==◌, Bool, false, not, Bytes, List, [], ◌∷◌, get_elem?, Result, ok, err, panic, assert,
  or_panic, ℤ, pos, negsuc, format_uint, format_hex, if◌then◌else◌,
}
use chihaya.Bittorrent.{Peer}
use chihaya.Memory.{err_resource_does_not_exist}
use chihaya.Redis.{
  Store, new_peer_key, family_name, leecher_infohash_key, seeder_infohash_key, infohash_count_key,
  seeder_count_key, leecher_count_key,
}
use chihaya.Redis.Servers.{Command, hset, hdel, incr, decr, Server}

-- A method on the state of the server.
abbrev pub Method : Type 0 → Type 0 → Type 0
Method V A = V → V × Result A

infixl 5 ◌>>=◌ ◌>>◌
abbrev pub ◌>>=◌ : {V A B : Type 0} → Method V A → (A → Method V B) → Method V B
◌>>=◌ m k v =
    let (w, r) = m v in elim r [ ok x ↦ k x w | err e ↦ (w, err e) | Result.panic ↦ (w, panic) ]

abbrev pub ◌>>◌ : {V B : Type 0} → Method V (Unit {0}) → Method V B → Method V B
m >> k = m >>= λ _. k

abbrev pub lift : {V A : Type 0} → Result A → Method V A
lift r v = (v, r)

abbrev pub is_one : ℤ → Bool
is_one (pos n) = n == 1
is_one (negsuc n) = false

abbrev pub is_zero : ℤ → Bool
is_zero (pos n) = n == 0
is_zero (negsuc n) = false

module _ {V : Type 0} (server : Server V) where
  -- One command, or the commands between MULTI and EXEC.
  abbrev pub run : List Command → Method V (List ℤ)
  run cs v = server.exec v cs

  -- `if reply[i] == 1 { conn.Do(…) }`
  unfoldable pub if_one : List ℤ → ℕ → Command → Method V (Unit {0})
  if_one reply i c = do
    n ← lift (or_panic (get_elem? reply i))
    if is_one n then (do _ ← run (c ∷ []); lift (ok tt)) else lift (ok tt)

  -- The key of a hash, and its counters.
  unfoldable pub put_seeder : Store → Bytes → Peer → Method V (Unit {0})
  unfolding if_one
  put_seeder st ih p = do
    af ← lift (family_name p.ip.address_family)
    lift (assert (not st.closed))
    let key = seeder_infohash_key af (format_hex ih)
    let ct = format_uint st.clock
    reply ← run (hset key (new_peer_key p) ct ∷ hset af key ct ∷ [])
    if_one reply 0 (incr (seeder_count_key af))
    if_one reply 1 (incr (infohash_count_key af))

  unfoldable pub put_leecher : Store → Bytes → Peer → Method V (Unit {0})
  unfolding if_one
  put_leecher st ih p = do
    af ← lift (family_name p.ip.address_family)
    lift (assert (not st.closed))
    let key = leecher_infohash_key af (format_hex ih)
    let ct = format_uint st.clock
    reply ← run (hset key (new_peer_key p) ct ∷ hset af key ct ∷ [])
    if_one reply 0 (incr (leecher_count_key af))

  -- `HDEL`, and the counter lowered if a field is gone.
  unfoldable pub delete_from : Bytes → Bytes → Bytes → Method V (Unit {0})
  delete_from key pk counter = do
    reply ← run (hdel key pk ∷ [])
    n ← lift (or_panic (get_elem? reply 0))
    if is_zero n
        then lift (err err_resource_does_not_exist)
        else (do _ ← run (decr counter ∷ []); lift (ok tt))

  unfoldable pub delete_seeder : Store → Bytes → Peer → Method V (Unit {0})
  unfolding delete_from
  delete_seeder st ih p = do
    af ← lift (family_name p.ip.address_family)
    lift (assert (not st.closed))
    delete_from (seeder_infohash_key af (format_hex ih)) (new_peer_key p) (seeder_count_key af)

  unfoldable pub delete_leecher : Store → Bytes → Peer → Method V (Unit {0})
  unfolding delete_from
  delete_leecher st ih p = do
    af ← lift (family_name p.ip.address_family)
    lift (assert (not st.closed))
    delete_from (leecher_infohash_key af (format_hex ih)) (new_peer_key p) (leecher_count_key af)

  unfoldable pub graduate_leecher : Store → Bytes → Peer → Method V (Unit {0})
  unfolding if_one
  graduate_leecher st ih p = do
    af ← lift (family_name p.ip.address_family)
    lift (assert (not st.closed))
    let l_key = leecher_infohash_key af (format_hex ih)
    let s_key = seeder_infohash_key af (format_hex ih)
    let pk = new_peer_key p
    let ct = format_uint st.clock
    reply ← run (hdel l_key pk ∷ hset s_key pk ct ∷ hset af s_key ct ∷ [])
    if_one reply 0 (decr (leecher_count_key af))
    if_one reply 1 (incr (seeder_count_key af))
    if_one reply 2 (incr (infohash_count_key af))
