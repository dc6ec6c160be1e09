-- ===== src/Middleware/Hooks/Deletions.antt =====
-- The deletions of an announce that stops, where a missing peer is no error.
use chihaya.Base.{
  ℕ, ◌<◌, ◌≡◌, refl, ap, subst, false, Bytes, bytes_eq, bytes_eq_iff, List, [], ◌∷◌, zero, suc,
  length, get_or, set, none, Option-cases, ok, if◌then◌else◌, arith, inl, inr,
}
use chihaya.Bittorrent.{AddressFamily, Peer}
use chihaya.Storage.{is_missing}
use chihaya.Memory.{PeerStore, PeerShard, empty_shard}
use chihaya.Memory.Keys.{new_peer_key}
use chihaya.Memory.Shards.Times.{
  seeder_time_in, leecher_time_in, same_in, without_seeder, without_leecher, without_seeder-times,
  without_leecher-times,
}
use chihaya.Memory.Operations.{delete_seeder, delete_leecher}
use chihaya.Memory.Operations.Index.{IsSharded, shard_at, index_of, index_of-lt}
use chihaya.Memory.Operations.Writes.{written, written-IsSharded}
use chihaya.Memory.Operations.Refinement.{
  seeder_time, leecher_time, is_entry, delete_seeder_lem, delete_leecher_lem, seeders_read,
  leechers_read, seeders_kept, leechers_kept,
}
use chihaya.Memory.Interface.{memory_store}
use chihaya.Memory.Announce.{Orders}
use chihaya.Middleware.Hooks.{settle_missing}

set-get_or {ℓ} :
    {A : Type ℓ} (xs : List A) (i : ℕ) (d : A) → i < length xs → set xs i (get_or xs i d) ≡ xs
set-get_or [] i d h = elim h [ ]
set-get_or (x ∷ xs) zero d h = refl
set-get_or (x ∷ xs) (suc i) d h = ap (◌∷◌ x) (set-get_or xs i d (omega arith))

-- Writing the shard that is there changes nothing.
written_same :
    (ps : PeerStore)
    → IsSharded ps
    → (ih : Bytes) (af : AddressFamily) → written ps ih af (shard_at ps ih af) ≡ ps
written_same ps r ih af =
    ap (λ (ss : List PeerShard). record ps { shards = ss })
      (set-get_or ps.shards (index_of ps ih af) empty_shard (index_of-lt ps r ih af))

module _ (order : Orders) (ps : PeerStore) (r : IsSharded ps) (o : ps.closed ≡ false) (ih : Bytes)
    (p : Peer) where
  absent_seeder :
      seeder_time ps ih p.ip.address_family (new_peer_key p) ≡ none
      → (j : Bytes) (qk : Bytes)
      → seeder_time_in (shard_at ps ih p.ip.address_family) j qk ≡ (
          if same_in ih (new_peer_key p) j qk
          then none
          else seeder_time_in (shard_at ps ih p.ip.address_family) j qk)
  absent_seeder h j qk = ground (arith, bytes_eq_iff ih j, bytes_eq_iff (new_peer_key p) qk)

  -- Whether or not the seeder was there, it is gone, and nothing else has changed.
  pub deleted_seeder :
      (q : PeerStore) × (settle_missing (memory_store order) ps (delete_seeder ps ih p)
        ≡ (q, ok tt))
      × IsSharded q
      × (q.closed ≡ false)
      × ((j : Bytes) (af : AddressFamily) (qk : Bytes)
          → (seeder_time q j af qk
              ≡ (if is_entry ih p j af qk then none else seeder_time ps j af qk))
            × (leecher_time q j af qk ≡ leecher_time ps j af qk))
  unfolding settle_missing is_missing bytes_eq
  deleted_seeder =
      let af0 = p.ip.address_family in
      let here = shard_at ps ih af0 in
      elim (Option-cases (seeder_time ps ih af0 (new_peer_key p))) [
        | inr (t, e) ↦ (
          written ps ih af0 (without_seeder ih (new_peer_key p) here),
          rw (delete_seeder_lem ps r o ih p ih af0 ih, e),
          written-IsSharded ps ih af0 _ r,
          o,
          λ j af qk.
              let times = without_seeder-times ih (new_peer_key p) here j qk in
              (
                seeders_read ps r ih p j af qk _ none times.0,
                leechers_kept ps r ih p j af qk _ times.1,
              ),
        )
        | inl e ↦ (
          ps,
          rw (delete_seeder_lem ps r o ih p ih af0 ih, e),
          r,
          o,
          λ j af qk. (
            subst
                (λ (q : PeerStore).
                  seeder_time q j af qk
                  ≡ (if is_entry ih p j af qk then none else seeder_time ps j af qk))
                (written_same ps r ih af0)
                (seeders_read ps r ih p j af qk here none (absent_seeder e j qk)),
            refl,
          ),
        )
      ]

module _ (order : Orders) (ps : PeerStore) (r : IsSharded ps) (o : ps.closed ≡ false) (ih : Bytes)
    (p : Peer) where
  absent_leecher :
      leecher_time ps ih p.ip.address_family (new_peer_key p) ≡ none
      → (j : Bytes) (qk : Bytes)
      → leecher_time_in (shard_at ps ih p.ip.address_family) j qk ≡ (
          if same_in ih (new_peer_key p) j qk
          then none
          else leecher_time_in (shard_at ps ih p.ip.address_family) j qk)
  absent_leecher h j qk = ground (arith, bytes_eq_iff ih j, bytes_eq_iff (new_peer_key p) qk)

  -- Whether or not the leecher was there, it is gone, and nothing else has changed.
  pub deleted_leecher :
      (q : PeerStore) × (settle_missing (memory_store order) ps (delete_leecher ps ih p)
        ≡ (q, ok tt))
      × IsSharded q
      × (q.closed ≡ false)
      × ((j : Bytes) (af : AddressFamily) (qk : Bytes)
          → (leecher_time q j af qk
              ≡ (if is_entry ih p j af qk then none else leecher_time ps j af qk))
            × (seeder_time q j af qk ≡ seeder_time ps j af qk))
  unfolding settle_missing is_missing bytes_eq
  deleted_leecher =
      let af0 = p.ip.address_family in
      let here = shard_at ps ih af0 in
      elim (Option-cases (leecher_time ps ih af0 (new_peer_key p))) [
        | inr (t, e) ↦ (
          written ps ih af0 (without_leecher ih (new_peer_key p) here),
          rw (delete_leecher_lem ps r o ih p ih af0 ih, e),
          written-IsSharded ps ih af0 _ r,
          o,
          λ j af qk.
              let times = without_leecher-times ih (new_peer_key p) here j qk in
              (
                leechers_read ps r ih p j af qk _ none times.0,
                seeders_kept ps r ih p j af qk _ times.1,
              ),
        )
        | inl e ↦ (
          ps,
          rw (delete_leecher_lem ps r o ih p ih af0 ih, e),
          r,
          o,
          λ j af qk. (
            subst
                (λ (q : PeerStore).
                  leecher_time q j af qk
                  ≡ (if is_entry ih p j af qk then none else leecher_time ps j af qk))
                (written_same ps r ih af0)
                (leechers_read ps r ih p j af qk here none (absent_leecher e j qk)),
            refl,
          ),
        )
      ]
