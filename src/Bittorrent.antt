-- ===== src/Bittorrent.antt =====
-- Package bittorrent: the data shared by the frontends, the middleware and the peer stores
-- (bittorrent/bittorrent.go). Its child modules model event.go, client_id.go, sanitize.go and
-- params.go.
pub mod Events
pub mod Clients
pub mod Sanitize
pub mod Params
pub mod Peers
use chihaya.Base.{
  ℤ, ℕ, ◌==◌, ◌&&◌, Bool, Bytes, bytes_eq, List, Option, length, Result, ok, panic, if◌then◌else◌,
}

-- uint8 with two named values.
pub data AddressFamily : Type 0 where
  ipv4 : AddressFamily
  ipv6 : AddressFamily
  other_family : ℕ → AddressFamily

-- `ip` is a net.IP; `none` stands for nil.
pub record Ip : Type 0 where
  pub ip : Option Bytes
  pub address_family : AddressFamily

-- A PeerID is 20 bytes.
pub record Peer : Type 0 where
  pub id : Bytes
  pub ip : Ip
  pub port : ℕ

-- uint8 with four named values.
pub data Event : Type 0 where
  none_event started stopped completed : Event
  other_event : ℕ → Event

-- bittorrent.Params is what the two frontends parse from a URL.
pub record QueryParams : Type 0 where
  pub path : Bytes
  pub query : Bytes
  pub params : List (Bytes × Bytes)
  pub info_hashes : List Bytes

pub record AnnounceRequest : Type 0 where
  pub event : Event
  pub info_hash : Bytes
  pub compact : Bool
  pub event_provided : Bool
  pub num_want_provided : Bool
  pub ip_provided : Bool
  pub num_want : ℕ
  pub left : ℕ
  pub downloaded : ℕ
  pub uploaded : ℕ
  pub peer : Peer
  pub params : QueryParams

-- Intervals are time.Durations, in nanoseconds.
pub record AnnounceResponse : Type 0 where
  pub compact : Bool
  pub complete : ℕ
  pub incomplete : ℕ
  pub interval : ℤ
  pub min_interval : ℤ
  pub ipv4_peers : List Peer
  pub ipv6_peers : List Peer

pub record ScrapeRequest : Type 0 where
  pub address_family : AddressFamily
  pub info_hashes : List Bytes
  pub params : Option QueryParams

pub record Scrape : Type 0 where
  pub info_hash : Bytes
  pub snatches : ℕ
  pub complete : ℕ
  pub incomplete : ℕ

pub record ScrapeResponse : Type 0 where
  pub files : List Scrape

unfoldable pub peer_id_from_bytes : Bytes → Result Bytes
peer_id_from_bytes b = if length b == 20 then ok b else panic

unfoldable pub peer_id_from_string : Bytes → Result Bytes
peer_id_from_string s = if length s == 20 then ok s else panic

unfoldable pub info_hash_from_bytes : Bytes → Result Bytes
info_hash_from_bytes b = if length b == 20 then ok b else panic

unfoldable pub info_hash_from_string : Bytes → Result Bytes
info_hash_from_string s = if length s == 20 then ok s else panic
