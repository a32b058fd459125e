-- ===== src/Lib.antt =====
-- The parts of golang-gin-rpc that carry its own logic, as executable definitions, and what holds of
-- them.
--
-- Kernel models the plugin kernel (pkg/kernel). Plugins register in a Registry (registry.go), which
-- keeps a map and the order of registration. The loader (loader.go) takes the registered plugins,
-- leaves out those that the configuration disables or whose Configure opts out, checks that the
-- dependencies of the others are there, and sorts them. The application starts them in that order,
-- undoes a start that fails, and stops them in the reverse order.
--   Kernel/Registry.antt  Register, MustRegister, Plugins, Get, Reset, and the service locator
--   Kernel/Sort.antt      sortSliceStable
--   Kernel/Topo.antt      topoSort: the two maps, the loop over the queue, the names on a cycle
--   Kernel/Loader.antt    Build, registered, isEnabled, dedupe
--   Kernel/App.antt       Start, Stop, rollbackLocked, findPlugin
-- A Go map is an association list and its visiting order an argument (Visits), so that the theorems
-- hold of every order. The loop of topoSort runs on fuel, one more than the number of plugins, which
-- is enough: topo_sort_correct and build_correct say that it ends. What the methods of a plugin
-- return are arguments.
--
-- Breaker models plugins/circuitbreaker/circuitbreaker.go: the state machine with its counters and
-- generations, Execute with panics, fallback and overlapping requests (Breaker/System.antt), the
-- group, the health check and the HTTP middleware (Breaker/Execute.antt). Counters wrap at 32 bits
-- and the generation at 64.
-- DbBreaker models plugins/db/circuitbreaker/breaker.go, whose counters wrap at 32 bits. Its methods
-- run without interruption here; the interleavings of their atomic steps are not modelled.
-- Scheduler models plugins/scheduler/scheduler.go: adding and removing tasks, the test that a tick
-- makes of each task, and the goroutine that runs it, as steps in any order.
-- RateLimit models plugins/ratelimit/token_bucket.go and memory_fixed_window.go: Allow with the buckets
-- that it makes and refills (RateLimit/TokenBucket.antt, RateLimit/FixedWindow.antt), and the cleanup
-- that both make of their maps (RateLimit/Cleanup.antt), whose loop runs on fuel, the number of
-- buckets: each turn deletes one.
-- Websocket models plugins/websocket/session.go, the replay buffer of a session (Websocket/Replay.antt),
-- and room.go, the rooms, their members and the eviction of empty ones (Websocket/Rooms.antt).
-- Aoi models plugins/gameserver/aoi/aoi.go: a grid of cells that an entity enters, moves in and leaves,
-- and the queries of what is around (Aoi.antt).
-- Actor models the mailbox of plugins/actor/mailbox.go and the backoff of supervision.go, the time that
-- an actor waits before each restart.
-- Bloom models plugins/bloomfilter/bloomfilter.go over any two hashes of the data.
-- Migration models plugins/db/migration/migrator.go. The database is the recorded versions and a state
-- of its own; what its statements do to that state (Engine), which calls fail, and whether the database
-- takes back what a transaction that is not committed did to it (Link), are parameters.
-- Rbac models plugins/rbac/rbac.go: a map from roles to sets of permissions.
-- Balancer models plugins/loadbalancer: the targets stand in a store, since the caller and the balancer
-- share them; a weighted choice reads one random number, which is an argument.
-- Discovery models plugins/discovery: loadbalancer.go (Discovery.antt, its trackers in
-- Discovery/Tracking.antt, the registry of balancers and the selector in Discovery/Selector.antt),
-- static.go (Discovery/Static.antt) and manager.go (Discovery/Manager.antt, Discovery/Watcher.antt).
-- The manager calls a registry, which is a parameter (Backend) that the static one or any other fills.
-- Orm models plugins/db/orm: dialect.go and the placeholders (Orm.antt), where_builder.go
-- (Orm/Where.antt), select_builder.go (Orm/Query.antt), update_builder.go (Orm/Columns.antt),
-- delete_builder.go (Orm/Delete.antt), and the inserts of rows of insert_builder.go
-- (Orm/Insert.antt). Orm/Fill.antt is what the database reads of a statement and its arguments, and
-- Orm/Clause.antt what the calls on a WHERE builder say. A text is a list of words, names and
-- placeholders, so that what the builders do to question marks and $n is exact, as long as no word or
-- name holds one of its own; the quoting of names and the spaces are left out.
-- Base holds what they share: Boolean tests on numbers, equality of keys, lists, association lists,
-- counting and shuffles.
--
-- Not modelled: logging, metrics and tracing, the transports (HTTP, gRPC, WebSocket, message
-- brokers), the drivers of databases and caches, the clients of Consul, etcd, Nacos and ZooKeeper, the
-- scaffolding command and the services generated from it, which are calls of other libraries or text
-- templates; and, though they are logic of the program's own, the schema builder
-- and the transactions of the ORM, the failover cache, the route matching of the gateway, and the
-- loop of an actor and the actor system.
pub mod Base
pub mod Kernel
pub mod Breaker
pub mod DbBreaker
pub mod Scheduler
pub mod RateLimit
pub mod Bloom
pub mod Actor
pub mod Websocket
pub mod Aoi
pub mod Migration
pub mod Rbac
pub mod Balancer
pub mod Discovery
pub mod Orm
