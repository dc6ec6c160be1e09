-- ===== src/Lib.antt =====
-- Chihaya, a BitTorrent tracker: its peer stores in memory and in Redis, its hooks, and its UDP and
-- HTTP frontends.
--
-- A frontend parses a request, and the tracker logic runs it through a chain of hooks. The last hook
-- before the response asks the peer store for peers; after the response the swarm interaction hook
-- records the announce in the store.
--
-- Which file models which part:
--   * Bittorrent and its children: bittorrent/. Bittorrent has the types and the ID constructors,
--     Events event.go, Clients client_id.go, Peers the equality of peers, Sanitize sanitize.go and
--     Params params.go.
--   * Storage: the interface PeerStore of storage/storage.go as the record PeerStoreOps.
--   * Memory and its children: storage/memory/peer_store.go. Configs has Validate and New; Keys has
--     newPeerKey and decodePeerKey; Shards has what each method does to a shard under its lock;
--     Operations has the methods, such as put_seeder for PutSeeder; Announce has AnnouncePeers and
--     ScrapeSwarm; Interface fills the record of Storage. Operations/Steps has the runs.
--   * Middleware: middleware/logic.go. Middleware/Hooks: the two hooks of middleware/hooks.go, over
--     any store. Middleware/Approval: the hooks of middleware/clientapproval and
--     middleware/torrentapproval. Middleware/Intervals: the hook of middleware/varinterval, with the
--     generator of middleware/pkg/random. Middleware/Limits: the hook of middleware/peerlimit.
--     Middleware/Passkeys: the hook of middleware/passkeyapproval. Middleware/Tokens: those of
--     middleware/jwt and middleware/jwtoptional. Middleware/Traffic: the hook of
--     middleware/trafficpush. Middleware/Brokers: the parseRedisURL that three of them have.
--   * Redis and its children: storage/redis/peer_store.go. Servers is the interface of a Redis
--     server; Operations has the methods that write, Announce AnnouncePeers and ScrapeSwarm,
--     Collection collectGarbage and populateProm, Configs Validate and New, and Backends the file
--     redis.go; Runs, Effects, Expiry and Sweeps say what the methods do to a server.
--   * Udp and its children: frontend/udp/. Configs has the configuration of frontend.go, Parser
--     parser.go, Writer writer.go, ConnectionIds connection_id.go, Frontend the function
--     handleRequest of frontend.go, Serving its loop and Sockets its start and stop.
--   * Http and its children: frontend/http/. Parser has parser.go, Writer writer.go, Configs and
--     Frontend the configuration and the routes of frontend.go, Serving its start and stop, Bencode
--     the package bencode, whose decoder is Bencode/Decoder.
--   * Support: Stops is pkg/stop and the Stop of middleware/logic.go, Clocks pkg/timecache, Registries
--     the registries of drivers of middleware/middleware.go and storage/storage.go.
--   * Command: the Run of cmd/chihaya/main.go and, in Loop, the loop of its command, with the
--     configuration of config.go.
--   * Base: numbers, decimal text, lists, bytes, association lists and results. Tests: runs on small data.
--
-- How the code is represented:
--   * Bytes are lists of numbers; an integer of w bits wraps by % 2 ^ w where the code computes with
--     it. A Go map is an association list, and the order in which a loop visits it is a parameter.
--   * A result is a value, an error or a panic. A method that changes the store returns the new one.
--   * A mutex makes a critical section one step. `Step` lists the steps: a writing method, the visit
--     of a garbage collection to one swarm, a tick of the clock, and Stop. `collect_garbage` is a
--     collection that nothing interrupts.
--   * Stop is one step: that the store is closed before its shards are emptied is not seen.
--   * Times are nanoseconds as natural numbers. A configuration value that is not positive is 0.
--   * Announce intervals and the timeouts of the HTTP frontend are integers with the range of an int64.
--     The probability of the interval hook, a float32, is an exact fraction and no NaN.
--   * A Redis server is a parameter: commands that it runs one after another, with their documented
--     replies and effects as the record `Laws`. A connection that fails is an error of a command. The
--     sets of the peer limit are a server of the same kind.
--   * An HTTP request is what the code reads of it; `net.ParseIP`, `net.SplitHostPort` and the text
--     of an address are parameters. A bencoded dictionary lists its entries in the order in which a
--     loop over the Go map meets them, which is a parameter of the writer.
--   * The bencode decoder runs over a reader with a buffer of 4096 bytes, on twice the number of bytes
--     of its input as fuel; running out of fuel is an error of the model.
--   * The keyed hash of connection IDs is the parameter `mac`.
--   * What handleRequest starts with `go` after its reply is returned as a value.
--   * `read_options` and `read_hashes` run on the length of the packet as fuel; each round takes at
--     least one byte, and running out of fuel is a panic.
--
--   * Sealed credentials, tokens and the keys that sign them belong to libraries: `Sealing` and `Jose`
--     are what the hooks use of them. A request to the site's service is what it gives back.
--   * A process that is stopped gives its errors in the end; a channel is the errors that it gives.
--   * The loop of the UDP frontend handles each packet before it reads the next one.
--
-- Not modelled: other clients of Redis between the commands of one method, the idle connections of
-- its pool, the background loops of the stores and hooks, what an HTTP server does with a connection
-- and its router, the command line, YAML, logs, and metrics but for the sums of populateProm.
pub mod Base
pub mod Bittorrent
pub mod Memory
pub mod Storage
pub mod Middleware
pub mod Udp
pub mod Http
pub mod Redis
pub mod Support
pub mod Command
pub mod Tests
