-- ===== src/Lib.antt =====
-- API Time Machine: an HTTP and gRPC service over an event store in Postgres. A command reads the
-- latest version of its aggregate, checks it, and in one transaction inserts an event and an
-- outbox row and writes a row of a read model; queries read the read models, or replay the events
-- up to a version or an instant from the latest snapshot; background jobs publish the outbox and
-- build snapshots.
--
-- State. World.antt (with World/Unchanged.antt, the actions that change no table) holds the
-- tables as lists and association lists, the sequences behind their ids, the clock, and a list of
-- faults: every call of the driver that can fail takes one entry of it, so that theorems about
-- errors cover a failure of any call. Actions pass the world and return a value or an error; a
-- transaction that ends with an error restores the tables and not the sequences. The goroutine
-- that takes a user's snapshot runs where it is started.
--
-- Files, by the code they model:
-- - Domain.antt, Result.antt: internal/domain/event.go and internal/domain/aggregates.go, with
--   errors as values.
-- - Json.antt: the documents that encoding/json writes and reads, parsed; an instant is a
--   constructor of its own. A field of a stored document is looked up under its name, as JSONB
--   has each key once; the body of a request is read as encoding/json does, without regard to
--   case and with each member of a name in its turn.
-- - Aggregate.antt, Aggregate/User.antt, Aggregate/Product.antt, Aggregate/Order.antt with
--   Aggregate/Order/Payloads.antt: Apply, the payloads and the snapshots of
--   internal/user/aggregate.go, internal/product/aggregate.go and internal/order/aggregate.go,
--   and the interface of internal/replay/engine.go to them.
-- - EventStore.antt, SnapshotStore.antt: internal/eventstore/store.go and
--   internal/snapshot/store.go; each function of the source is a function in snake case.
-- - Projection.antt: internal/projection/user.go and internal/projection/catalog.go.
-- - Commands.antt: internal/platform/commands.go; Commands/Interleaving.antt has the commands of
--   several clients as steps, Commands/Commit.antt the write of one of them.
-- - Service.antt and its children: internal/user/service.go, internal/product/service.go,
--   internal/order/service.go.
-- - Replay.antt: internal/replay/engine.go; Replay/Reference.antt has the replay without
--   snapshots, Replay/Prefix.antt the rows of a log up to a version, Replay/History.antt and
--   Replay/Committed.antt replays after commands.
-- - Diff.antt: internal/diff/engine.go and the ToMap methods. The time.Location of an instant
--   matters only here; it is a parameter, by the request and the side of the comparison (Server
--   in Api.antt), since it depends on where a state was read from.
-- - Worker/Outbox.antt, Worker/Builder.antt: one pass of each job of internal/worker/outbox.go;
--   Worker/Warmer.antt: one pass of internal/worker/cache_warmer.go; Worker/Outbox/Finish.antt
--   has passes one after the other, Worker/Loops.antt the Run methods. Worker/Life.antt and its
--   children have the snapshot builder beside the commands, as steps.
-- - RateLimit.antt: internal/api/ratelimit.go; RateLimit/Client.antt has the key of a client.
-- - Auth.antt: internal/auth/jwt.go, with Parse in Auth/Token.antt; golang-jwt is a parameter.
-- - Text.antt, Text/Decimal.antt, Text/Instant.antt: what the program uses of Go's strconv and of
--   time.Parse for RFC 3339.
-- - Query.antt: internal/temporal/query.go, whose statements internal/api/helpers.go repeats.
-- - Api.antt: internal/api/helpers.go, what the handlers share; Api/Reads.antt has the parts of
--   the handlers that read, Api/Encode.antt the answers' documents.
-- - Api/Users.antt: internal/api/users.go; Api/Products.antt and Api/Orders.antt:
--   internal/api/catalog.go; a handler of the source is a function from the server and the
--   request to an action on the world.
-- - Api/Routes.antt: internal/api/server.go, the table of the routes with their guards and the
--   handler that issues tokens; Api/Router.antt is the router with the limiter and the
--   authentication in front of the routes.
-- - Cache.antt: internal/cache/redis.go; a key is a list of code points, and Redis is a
--   parameter.
-- - Grpc.antt: internal/grpc/server.go.
-- - Migrate.antt: pkg/migrate/migrate.go.
-- - Config.antt: configs/config.go.
-- - Start.antt: cmd/api/main.go, with InitTracing of internal/observability/metrics.go and the
--   functions of internal/cache/redis.go and internal/grpc/server.go that it calls; the trace of
--   what is opened, started and closed is part of the state.
-- - Prelude.antt and its children: shared lemmas on lists, integers, sorted lists and tables;
--   Prelude/Compact.antt has the idiom of a filter that writes into the slice it reads.
-- - Examples.antt and its children: runs on small tables.
--
-- Numbers. int64 is a signed integer over the native numbers, and sums and products are wrapped
-- at 64 bits where the source adds or multiplies. The sequences of Postgres fail past 2^63 - 1.
-- Every loop is structural recursion; only the digits of a number n are written by a count of n +
-- 1 rounds, which is enough because each round divides by 10, and Text/Decimal.antt reads them
-- back. Instants are counted in ticks from the zero time of Go, which is 0.
--
-- Concurrency. Postgres runs the inserts into one unique index one after the other, so a command
-- is two steps, the read of the version and the write with its commit, and between them other
-- commands may do theirs. A snapshot of the builder is two steps as well, the replay and the
-- save, each with any commands in between.
--
-- Not modelled: the texts of errors, contexts and time-outs, the metrics and logs, the generated
-- gRPC code, the intervals of the tickers, the choice of a route by chi, time.ParseDuration, the
-- web page, and which object main hands to which constructor.
pub mod Prelude
pub mod Result
pub mod Json
pub mod Domain
pub mod Aggregate
pub mod World
pub mod EventStore
pub mod SnapshotStore
pub mod Projection
pub mod Commands
pub mod Service
pub mod Replay
pub mod Diff
pub mod Worker
pub mod RateLimit
pub mod Text
pub mod Query
pub mod Auth
pub mod Api
pub mod Cache
pub mod Grpc
pub mod Migrate
pub mod Config
pub mod Start
pub mod Examples
