-- ===== src/Tests.antt =====
-- Runs of the program on small data, and the theorems applied to them. This file holds the data: a
-- store with two shards and one swarm, two peers and their requests.
pub mod Stores
pub mod Requests
pub mod Hooks
pub mod Packets
pub mod Approvals
pub mod Bencoding
pub mod Redis
pub mod Sweeping
pub mod Brokers
pub mod Limits
pub mod Passkeys
pub mod Tokens
pub mod Traffic
pub mod Starting
use chihaya.Base.{pos, ℕ, Bytes, codes, List, [], ◌∷◌, ◌++◌, Option, none, some, true, false}
use chihaya.Bittorrent.{
  Ip, ipv4, ipv6, Peer, Event, started, AnnounceRequest, AnnounceResponse, QueryParams,
}
use chihaya.Memory.{Config, PeerStore, PeerShard, Swarm}
use chihaya.Memory.Configs.{new}
use chihaya.Memory.Keys.{new_peer_key}
use chihaya.Memory.Announce.{Orders}
use chihaya.Middleware.{Context}

abbrev pub info_hash : Bytes
info_hash = codes "aaaabbbbccccddddeeee"

abbrev pub alice : Peer
alice = record {
  id = codes "-TR2820-abcdefghijkl";
  ip = record { ip = some (10 ∷ 0 ∷ 0 ∷ 1 ∷ []); address_family = ipv4 };
  port = 6881;
}

abbrev pub bob_ip : Bytes
bob_ip = 0x20 ∷ 1 ∷ 0x0d ∷ 0xb8 ∷ 0 ∷ 0 ∷ 0 ∷ 0 ∷ 0 ∷ 0 ∷ 0 ∷ 0 ∷ 0 ∷ 0 ∷ 0 ∷ 1 ∷ []

abbrev pub bob : Peer
bob = record {
  id = codes "-UT3000-abcdefghijkl";
  ip = record { ip = some bob_ip; address_family = ipv6 };
  port = 51413;
}

-- One shard for each family.
abbrev pub config : Config
config = record {
  garbage_collection_interval = 0;
  prometheus_reporting_interval = 0;
  peer_lifetime = 0;
  shard_count = 1;
  enable_dual_stack_peers = false;
}

abbrev pub in_order : Orders
in_order = λ i pks. pks

abbrev pub context : Context
context = record {
  skip_swarm_interaction = false;
  skip_response_hook = false;
  route_params = [];
  payload = none;
}

-- The route named the passkey.
abbrev pub on_route : Context
on_route = record {
  skip_swarm_interaction = false;
  skip_response_hook = false;
  route_params = (codes "passkey", codes "k1") ∷ [];
  payload = none;
}

abbrev pub no_params : QueryParams
no_params = record { path = []; query = []; params = []; info_hashes = [] }

abbrev pub announce : ℕ → Peer → AnnounceRequest
announce left peer = record {
  event = started;
  info_hash = info_hash;
  compact = true;
  event_provided = true;
  num_want_provided = true;
  ip_provided = false;
  num_want = 200;
  left = left;
  downloaded = 0;
  uploaded = 0;
  peer = peer;
  params = no_params;
}

abbrev pub response : AnnounceResponse
response = record {
  compact = true;
  complete = 0;
  incomplete = 0;
  interval = pos 0;
  min_interval = pos 0;
  ipv4_peers = [];
  ipv6_peers = [];
}
