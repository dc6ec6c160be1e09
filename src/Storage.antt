-- ===== src/Storage.antt =====
-- The interface of peer stores (storage/storage.go): `S` is the state behind it.
use chihaya.Base.{
  ℕ, Bool, false, Bytes, bytes_eq, codes, List, Result, Error, client_error, internal_error,
}
use chihaya.Bittorrent.{AddressFamily, Peer, Scrape}

pub record PeerStoreOps (S : Type 0) : Type 0 where
  pub put_seeder : S → Bytes → Peer → Result S
  pub delete_seeder : S → Bytes → Peer → Result S
  pub put_leecher : S → Bytes → Peer → Result S
  pub delete_leecher : S → Bytes → Peer → Result S
  pub graduate_leecher : S → Bytes → Peer → Result S
  pub announce_peers : S → Bytes → Bool → ℕ → Peer → Result (List Peer)
  pub scrape_swarm : S → Bytes → AddressFamily → Result Scrape

-- `errors.Is(err, storage.ErrResourceDoesNotExist)`, a comparison of the texts of client errors.
unfoldable pub is_missing : Error → Bool
is_missing (client_error m) = bytes_eq m (codes "resource does not exist")
is_missing (internal_error m) = false
