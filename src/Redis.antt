-- ===== src/Redis.antt =====
-- The peer store in Redis (storage/redis/peer_store.go): its state and the keys it uses. The child
-- modules hold the operations and their proofs.
--
-- The server is not part of the program: it is the interface `Server` of Redis/Servers, with its
-- documented behaviour as laws. A connection that fails is an error of a command.
pub mod Servers
pub mod Operations
pub mod Announce
pub mod Collection
pub mod Configs
pub mod Backends
pub mod Runs
pub mod Effects
pub mod Expiry
pub mod Sweeps
use chihaya.Base.{ℕ, Bool, Bytes, codes, ◌++◌, Error, internal_error, Result, ok, panic, format_hex}
use chihaya.Bittorrent.{AddressFamily, ipv4, ipv6, other_family, Peer}
use chihaya.Memory.Keys

-- What the methods read of the store besides the server, which is their state: whether the store is
-- closed, and the clock.
pub record Store : Type 0 where
  pub closed : Bool
  pub clock : ℕ

-- The keys of peers are those of the in-memory store, by the same code.
abbrev pub new_peer_key : Peer → Bytes
new_peer_key = Keys.new_peer_key

abbrev pub decode_peer_key : Bytes → Result Peer
decode_peer_key = Keys.decode_peer_key

-- `AddressFamily.String`, which panics for any other family.
unfoldable pub family_name : AddressFamily → Result Bytes
family_name ipv4 = ok (codes "IPv4")
family_name ipv6 = ok (codes "IPv6")
family_name (other_family n) = panic

-- `ih` is the infohash in hexadecimal digits.
abbrev pub leecher_infohash_key : Bytes → Bytes → Bytes
leecher_infohash_key af ih = af ++ codes "_L_" ++ ih

abbrev pub seeder_infohash_key : Bytes → Bytes → Bytes
seeder_infohash_key af ih = af ++ codes "_S_" ++ ih

abbrev pub infohash_count_key : Bytes → Bytes
infohash_count_key af = af ++ codes "_infohash_count"

abbrev pub seeder_count_key : Bytes → Bytes
seeder_count_key af = af ++ codes "_S_count"

abbrev pub leecher_count_key : Bytes → Bytes
leecher_count_key af = af ++ codes "_L_count"
