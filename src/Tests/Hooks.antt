-- ===== src/Tests/Hooks.antt =====
-- Announces and scrapes through the hooks, over the store of one seeder.
use chihaya.Base.{
  pos, ℕ, ◌≡◌, refl, sym, ap, ◌∙◌, Bool, true, false, not, ◌&&◌, ◌==◌, Bytes, List, [], ◌∷◌, ◌++◌,
  length, map, none, some, Result, ok, err, panic, ok-injective, if◌then◌else◌, bytes_eq, put_be,
  be_onto,
}
use chihaya.Bittorrent.{AnnounceResponse, Scrape, Peer, ipv4, ipv6}
use chihaya.Memory.{PeerStore}
use chihaya.Memory.Keys.{new_peer_key}
use chihaya.Memory.Operations.{is_ipv6}
use chihaya.Memory.Operations.Refinement.{seeder_time, leecher_time}
use chihaya.Memory.Announce.{announce_peers, scrape_swarm}
use chihaya.Memory.Announce.Scrapes.{scrape_swarm-both}
use chihaya.Memory.Interface.{memory_store}
use chihaya.Middleware.{
  Hook, ResponseConfig, Logic, new_logic, run_announce_hooks, handle_announce, after_announce,
}
use chihaya.Middleware.Chains.{go_on, run_announce_hooks-append, new_logic-order}
use chihaya.Middleware.Hooks.{
  swarm_interaction_announce, swarm_interaction_hook, response_announce, response_hook, scrape_all,
  found_peers, inc32, with_self, set_peers, append_peers,
}
use chihaya.Middleware.Hooks.Interactions.{
  swarm_interaction-effect, new_seeder_time, new_leecher_time,
}
use chihaya.Middleware.Hooks.Responses.{response_announce-ok, FoundIn, scrape_all-order, peers_for}
use chihaya.Tests.{info_hash, alice, bob, in_order, context, announce, response}
use chihaya.Tests.Stores.{one_seeder, one_seeder-IsSharded, one_seeder_open, one_seeder_dual}

-- Bob starts with ten bytes to go: he becomes a leecher.
swarm_interaction-effect_example :
    let (q, x) =
      swarm_interaction_announce
        (memory_store in_order)
        one_seeder
        context
        (announce 10 bob)
        response in
    (x ≡ ok (context, announce 10 bob, response))
    × (seeder_time q info_hash ipv6 (new_peer_key bob)
        ≡ seeder_time one_seeder info_hash ipv6 (new_peer_key bob))
    × (leecher_time q info_hash ipv6 (new_peer_key bob) ≡ some one_seeder.clock)
unfolding new_peer_key bytes_eq put_be is_ipv6 new_seeder_time new_leecher_time
swarm_interaction-effect_example =
    swarm_interaction-effect in_order one_seeder one_seeder-IsSharded one_seeder_open
      (announce 10 bob) info_hash ipv6 (new_peer_key bob) context response refl

abbrev hooks : List (Hook PeerStore)
hooks = response_hook (memory_store in_order) ∷ []

abbrev more_hooks : List (Hook PeerStore)
more_hooks = swarm_interaction_hook (memory_store in_order) ∷ []

chain_in_two :
    run_announce_hooks (hooks ++ more_hooks) one_seeder context (announce 10 bob) response
    ≡ go_on
        (run_announce_hooks hooks one_seeder context (announce 10 bob) response)
        (run_announce_hooks more_hooks)
chain_in_two =
    run_announce_hooks-append hooks more_hooks one_seeder context (announce 10 bob) response

abbrev intervals : ResponseConfig PeerStore
intervals = record { announce_interval = pos 1800; min_announce_interval = pos 900 }

abbrev logic : Logic PeerStore
logic =
    new_logic intervals (response_hook (memory_store in_order))
      (swarm_interaction_hook (memory_store in_order)) [] []

ordered_hooks :
    (handle_announce logic one_seeder context (announce 10 bob)
      ≡ response_announce
          (memory_store in_order)
          one_seeder
          context
          (announce 10 bob)
          (record response { interval = pos 1800; min_interval = pos 900 }))
    × (after_announce logic one_seeder context (announce 10 bob) response
        ≡ (swarm_interaction_announce
            (memory_store in_order)
            one_seeder
            context
            (announce 10 bob)
            response).0)
unfolding run_announce_hooks
ordered_hooks =
    new_logic-order intervals (response_hook (memory_store in_order))
      (swarm_interaction_hook (memory_store in_order)) [] [] one_seeder context (announce 10 bob)
      response

-- Alice is the only seeder; she has one ID and is given the answer of a seeder who is alone.
abbrev alone : AnnounceResponse
alone = record response { complete = 2; ipv4_peers = alice ∷ [] }

answered :
    (response_announce (memory_store in_order) one_seeder context (announce 0 alice) response).1
    ≡ ok (context, announce 0 alice, alone)
unfolding response_announce scrape_swarm append_peers found_peers announce_peers set_peers with_self
    chihaya.Memory.Configs.new chihaya.Memory.Operations.shard_for
    chihaya.Memory.Operations.shard_index be_onto chihaya.Base.Dict.lookup bytes_eq
    chihaya.Memory.Announce.append_peers chihaya.Memory.Shards.swarm_of
    chihaya.Memory.Announce.if_wanted
answered = refl

response_announce-ok_example :
    (c : Scrape) × (ps : List Peer) × (scrape_swarm one_seeder info_hash ipv4 ≡ ok c)
    × FoundIn (memory_store in_order) (announce 0 alice) one_seeder ps
    × (context ≡ context)
    × (announce 0 alice ≡ announce 0 alice)
    × (alice ∷ [] ≡ (if length ps == 0 then alice ∷ [] else ps))
    × (alone.complete ≡ (if (length ps == 0) && true then inc32 c.complete else c.complete))
    × (alone.incomplete ≡ (if (length ps == 0) && false then inc32 c.incomplete else c.incomplete))
unfolding peers_for
response_announce-ok_example =
    response_announce-ok (memory_store in_order) one_seeder context (announce 0 alice) response
      (context, announce 0 alice, alone) refl answered

scraped_hash : (ih : Bytes) (c : Scrape) → scrape_swarm one_seeder ih ipv4 ≡ ok c → c.info_hash ≡ ih
scraped_hash ih c h =
    ap (λ x. x.info_hash)
      (ok-injective (
        sym h
        ∙ scrape_swarm-both one_seeder ih ipv4 one_seeder-IsSharded one_seeder_open
            one_seeder_dual))

abbrev one_scrape : Scrape
one_scrape = record { info_hash = info_hash; snatches = 0; complete = 1; incomplete = 0 }

all_scraped :
    scrape_all (memory_store in_order) one_seeder ipv4 (info_hash ∷ []) ≡ ok (one_scrape ∷ [])
unfolding scrape_all scrape_swarm chihaya.Memory.Configs.new chihaya.Memory.Operations.shard_for
    chihaya.Memory.Operations.shard_index be_onto chihaya.Base.Dict.lookup bytes_eq
    chihaya.Memory.Shards.swarm_of
all_scraped = refl

scraped_in_order : map (λ c. c.info_hash) (one_scrape ∷ []) ≡ info_hash ∷ []
scraped_in_order =
    scrape_all-order (memory_store in_order) one_seeder ipv4 (info_hash ∷ []) (one_scrape ∷ [])
      scraped_hash all_scraped
