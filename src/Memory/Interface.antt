-- ===== src/Memory/Interface.antt =====
-- The in-memory store behind the interface of peer stores.
use chihaya.Storage.{PeerStoreOps}
use chihaya.Memory.{PeerStore}
use chihaya.Memory.Operations.{
  put_seeder, delete_seeder, put_leecher, delete_leecher, graduate_leecher,
}
use chihaya.Memory.Announce.{Orders, announce_peers, scrape_swarm}

abbrev pub memory_store : Orders → PeerStoreOps PeerStore
memory_store order = record {
  put_seeder = put_seeder;
  delete_seeder = delete_seeder;
  put_leecher = put_leecher;
  delete_leecher = delete_leecher;
  graduate_leecher = graduate_leecher;
  announce_peers = announce_peers order;
  scrape_swarm = scrape_swarm;
}
