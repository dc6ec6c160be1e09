-- ===== src/Memory/Operations/Writes.antt =====
-- A write to one shard, read back at any shard.
use chihaya.Base.{
  ◌==◌, ◌≡◌, refl, ◌∙◌, ap, Bool, true, false, ◌&&◌, Bytes, bytes_eq, set, get_or, length-set,
  Bool-cases, ==_iff, inl, inr, Result, if◌then◌else◌, arith,
}
use chihaya.Bittorrent.{AddressFamily, Peer}
use chihaya.Memory.{PeerShard, PeerStore, empty_shard}
use chihaya.Memory.Operations.{with_shard, replace_shard}
use chihaya.Memory.Operations.Index.{
  IsSharded, index_of, shard_at, family_eq, index_of-lt, shard_index_lem, index_of-family,
  get_elem?-get_or, get_or-set,
}

abbrev pub written : PeerStore → Bytes → AddressFamily → PeerShard → PeerStore
written ps ih af s = record ps { shards = set ps.shards (index_of ps ih af) s }

pub written-IsSharded :
    (ps : PeerStore) (ih : Bytes) (af : AddressFamily) (s : PeerShard)
    → IsSharded ps
    → IsSharded (written ps ih af s)
written-IsSharded ps ih af s r = record {
  some_shards = rw (length-set ps.shards (index_of ps ih af) s) r.some_shards;
  even = rw (length-set ps.shards (index_of ps ih af) s) r.even;
  fits = rw (length-set ps.shards (index_of ps ih af) s) r.fits;
}

-- An open store runs the critical section on the shard of the infohash and the peer's family.
pub with_shard_lem :
    (ps : PeerStore) (ih : Bytes) (p : Peer) (f : PeerShard → Result PeerShard)
    → IsSharded ps
    → ps.closed ≡ false
    → with_shard ps ih p f
      ≡ replace_shard ps
          (index_of ps ih p.ip.address_family)
          (f (shard_at ps ih p.ip.address_family))
unfolding with_shard
with_shard_lem ps ih p f r o = ground (
  arith,
  shard_index_lem ps r ih p.ip.address_family,
  get_elem?-get_or ps.shards (index_of ps ih p.ip.address_family) empty_shard
      (index_of-lt ps r ih p.ip.address_family),
)

-- What `g` reads of the written shard decides what it reads of the store.
pub written_read {ℓ} :
    {X : Type ℓ} (ps : PeerStore) (ih j : Bytes) (af af' : AddressFamily) (s : PeerShard)
    (g : PeerShard → X) (b : Bool) (x : X)
    → IsSharded ps
    → g s ≡ (if b then x else g (shard_at ps ih af))
    → (b ≡ true → bytes_eq ih j ≡ true)
    → g (shard_at (written ps ih af s) j af')
      ≡ (if b && family_eq af af' then x else g (shard_at ps j af'))
written_read ps ih j af af' s g true x r h e =
    rw
      (
        length-set ps.shards (index_of ps ih af) s,
        get_or-set ps.shards (index_of ps ih af) (index_of ps j af') s empty_shard
            (index_of-lt ps r ih af),
        index_of-family ps r ih af j af' (e refl),
      )
      (elim (Bool-cases (family_eq af af')) [ inl y ↦ rw y h | inr y ↦ rw y ])
written_read ps ih j af af' s g false x r h e =
    let read =
      get_or-set ps.shards (index_of ps ih af) (index_of ps j af') s empty_shard
        (index_of-lt ps r ih af) in
    elim (Bool-cases (index_of ps ih af == index_of ps j af')) [
      | inl y ↦
          rw (length-set ps.shards (index_of ps ih af) s, read, y)
            (h ∙ ap (λ k. g (get_or ps.shards k empty_shard)) ((==_iff _ _).0 y))
      | inr y ↦ rw (length-set ps.shards (index_of ps ih af) s, read, y)
    ]
