-- ===== src/Lib.antt =====
-- rss2msg: feeds are polled, their new and changed items become change events, and each event is
-- delivered to every configured sink.
--
-- How the program works. A scheduler keeps one loop per feed (internal/scheduler), for the feeds that
-- its sources contribute (internal/feedsource) and, in a fleet, for those that this instance owns
-- (internal/assign). A tick of a loop runs the feed's pipeline (cmd/rss2msg/pipeline.go): take the
-- feed's lease, fetch the feed with a retry, find the items that are new or differ from the stored
-- state (internal/feed/detector.go), deliver each change to every branch, and record the change as
-- seen if no branch dropped it. A branch is a sink under a retry with an optional dead-letter sink
-- (internal/sink/retrywrap.go over internal/retry); a composite sink (internal/sink/composite) is a
-- sink of such branches. The state store (internal/state) remembers items and feed validators.
--
-- Which file models which part:
--   Prelude     Boolean tests, lists, byte strings, 64-bit integers and maps
--   Errors      internal/feed/errors.go and Go's wrapped and joined errors
--   Retry       internal/retry/retry.go: `Do` is `run`, `delayFor` is `delay_for`
--   Model       internal/model/change.go: `Change`, `ContentHash`, `IdentityKey`; Model/Space is
--               what Go's strings.Fields and strings.TrimSpace do with white space in UTF-8
--   State       internal/state/state.go and internal/state/sqlite/sqlite.go: tables as lists of rows
--   World       the environment's answers, and the world that the code acts on
--   Sink        internal/sink/retrywrap.go and internal/sink/composite/composite.go
--   Feed        internal/feed/detector.go
--   Pipeline    cmd/rss2msg/pipeline.go: `RunOnce` is `run_once`
--   Assign      internal/assign/assign.go
--   Source      internal/feedsource/aggregator.go and snapshot.go; Source/Spec is source.go
--   Schedule    internal/scheduler/dynamic.go: the `reconcile` closure and the loop of `ServeDynamic`
--   Fetcher     internal/feed/fetcher.go: `Fetch` is `fetch_feed`
--   Cosmos      internal/coord/cosmosdb/cosmosdb.go: documents with etags, one request at a time
--   Redis       internal/coord/redis/redis.go: the renewed lease; Redis/Membership is membership.go
--   Coord       internal/coord/dynamodb/dynamodb.go: the lease table and its conditional writes
--   Ownership   internal/scheduler/ownerprovider.go: `Heartbeat`, and `Desired` as `owned_feeds`
--   SinkGraph   the checks of internal/config/validate.go on names, dead letters and composites
--   FeedCheck   the checks of internal/config/validate.go on the declared feeds
--   Config      the checks of internal/config/validate.go on stores, coordinators, the sinks' drivers,
--               feed sinks, feed sources and services, as lists of checks of which the first to fail
--               is reported
--   Http        the requests and replies of the handlers
--   HttpAuth    internal/httpauth/httpauth.go, and `authenticate` of internal/sink/feed/auth.go
--   FeedSink    internal/sink/feed: Store is store_memory.go, Proxy is proxy.go, Render is render.go
--               and id.go, and Serve is the handler of server.go
--   Admin       internal/admin: the middleware, and the prune, poll and reconcile of handlers.go;
--               Admin/Views is what it shows of feeds and members
--   Wire        `wrapSink` and `linkComposites` of cmd/rss2msg/wire.go
--   Cleanup     internal/statecleanup/statecleanup.go
--   Health      the probe handlers of internal/health/health.go
-- The modules below each of these are named for what they prove; Tests has concrete inputs.
--
-- State and effects. Stateful code passes its state on: the world has the database, a count of the
-- questions put to the environment, and the trace of what happened to sinks and leases. Everything
-- outside the code (sinks, feed servers, the database driver, the coordinator, random numbers,
-- time, and which case of a `select` is taken) is a field of `Env` and may answer differently each
-- time it is asked. SHA-256, the 64-bit digest of the assignment, RFC 3339 formatting and the
-- building of a pipeline are parameters, and so are Go's package net on addresses, net/url, the
-- XML that github.com/gorilla/feeds writes, the time format of HTTP, and the order in which the
-- runtime ranges over the feed sink's map, and which keys the SCAN of a Redis cluster goes over.
-- An instant is a natural number of nanoseconds, with 0 for Go's zero time; the clock of a Redis
-- server is in milliseconds; a duration is a signed 64-bit integer, and the backoff shift wraps as
-- Go's does. A string is the list of its bytes.
--
-- Fuel. The retry loop is bounded by MaxAttempts, as in the source, and has no other fuel. The
-- loops over white space take the length of the string as fuel, and each round consumes a byte.
-- The search for a cycle of composites has one round more than there are composites, which is
-- proved enough. Linking sinks into publishers unfolds the pointers of the source to a given
-- depth, and for checked sinks of which none has a composite as its dead letter some depth is
-- proved enough. A publisher in Sink is such a finite tree. A circle of links through a dead
-- letter has no such depth; Wire/Follow cuts it at any depth.
--
-- Not modelled: the sink drivers, the other state stores and coordinators, which call client
-- libraries; telemetry; the status and health of the admin API; the feed sink's SQL stores, MCP
-- surface and listeners; reading the configuration, the checks on Sentry and PostHog, and the rest
-- of the wiring; goroutines, which the schedulers start around the code modelled here. Elsewhere a
-- map is gone through in the order of its keys' insertion, where Go's order is arbitrary. The
-- headers of a feed are a list.
pub mod Prelude
pub mod Errors
pub mod Retry
pub mod Model
pub mod State
pub mod World
mod Tests
pub mod Schedule
pub mod Source
pub mod Pipeline
pub mod Feed
pub mod Fetcher
pub mod Sink
pub mod Assign
pub mod SinkGraph
pub mod FeedCheck
pub mod Config
pub mod Cleanup
pub mod Health
pub mod Http
pub mod HttpAuth
pub mod FeedSink
pub mod Wire
pub mod Admin
pub mod Coord
pub mod Cosmos
pub mod Redis
pub mod Ownership
