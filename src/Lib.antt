-- ===== src/Lib.antt =====
-- The server of yop-pms, a hotel's property management system.
--
-- A handler turns an HTTP request into a call of a method of `booking.Service`, behind a middleware
-- that lets a request run once for its Idempotency-Key; the method opens a transaction, issues
-- generated statements against PostgreSQL, and commits; workers sweep the same tables. Free rooms are
-- counted behind a cache in Redis. Events that a transaction leaves in the outbox are claimed by an
-- engine, which runs their handlers with retries. A listener receives PostgreSQL's notifications and
-- passes them on to a hub, which sends them to the browsers.
--
-- Which file is about which code:
--   Status.antt, Status/    internal/booking/state_machine.go and the enumerations of types.go
--   Calendar.antt, Calendar/  internal/platform/util/time.go and range.go
--   Store.antt              the tables (internal/store/models.go), the context of a request
--                           (internal/platform/helpers/context.go) and the errors
--                           (internal/platform/apierror, internal/booking/errors.go)
--   Store/Tx.antt           `ExecuteTx` of internal/platform/db/tx.go, with `MapPostgresError`
--   Store/Reservations.antt, Items.antt, Ledger.antt, Events.antt
--                           the statements of internal/store/*.sql.go, one function each
--   Booking.antt, Booking/  internal/booking: Lifecycle and Batch (service_lifecycle.go), Create and
--                           Confirm (service_create.go, service_read.go), Update (service_update.go),
--                           Inventory (service_helpers.go), Response (include.go), Workers
--                           (workers.go), Listing (service_read.go) with Sorting and Pages
--   Booking/Outcome/        the requests, by what they leave
--   Store/Keeps/, Booking/Keeps/  facts about the tables, from statements up to requests
--   Service.antt, Service/  the service as a sequence of requests and workers' transactions
--   Redis.antt, Redis/      the commands of the Redis server, an interface with laws, and a table
--                           that has them
--   Availability.antt, Availability/  internal/booking/availability.go: the counts, the cache, and
--                           its eviction, that after a creation included (service_create.go)
--   Idempotency.antt, Idempotency/  internal/platform/middleware/idempotency.go: Capture (the writer
--                           that keeps a response), Guard (the whole of it), Held (its looks at a key),
--                           Replays (one request after another), Exclusion (requests at once)
--   Gateway.antt, Gateway/  the requests that write, over HTTP: Front (auth.go, ifmatch.go and
--                           permission.go of internal/platform/middleware, internal/booking/router.go),
--                           Handlers and Reads (create.go, update.go, lifecycle.go of internal/booking),
--                           Effects (what they do to the tables), Replay (the order of cmd/server/api.go)
--   Validation.antt, Validation/  internal/platform/validation/validate.go: the check of a field, and
--                           Payload (the walk over a struct) with Walks (what it accepts)
--   Outbox.antt, Outbox/    internal/platform/worker: enqueueing, claims, settlements, backoff
--   Listener.antt, Listener/  internal/platform/events/listener.go
--   Realtime.antt, Realtime/  internal/platform/realtime/hub.go
--   Cache.antt, Cache/      internal/platform/cache: the client (cache.go) with ReadThrough (GetOrSet), and
--                           Invalidation (invalidation.go) with Evictions, Described and Changes (what it is to
--                           evict, and what it leaves)
--   ConstraintSync.antt, ConstraintSync/  cmd/tools/sync-constraints: Parens and Clause (parse.go), Collect
--                           (main.go), Yaml (write_yaml.go), Typescript (write_ts.go); Reader is
--                           internal/platform/constraints, which reads the file that the tool writes
--   RtmCheck.antt, RtmCheck/  cmd/tools/rtmcheck: the scan of test files, and Report (the lists and main)
--   Prelude.antt, Prelude/  tests, lists, maps from texts, and tables as lists of rows
--
-- The state of the service is `Db`: each table a list of rows, read and written by a condition as
-- SQL's WHERE does. A chain of statements is a function of type `Tx`, which passes the tables on and
-- stops at the first error; a method `X` of the Go service is `x`, and `x_tx` is the function that it
-- hands to `ExecuteTx`. UUIDs are numbers with uuid.Nil as 0, instants are numbers of nanoseconds, and
-- dates are numbers of days.
--
-- What the service takes from outside comes in with the record `Env`: the clock, the UUIDs that the
-- database draws, midnight in the property's time zone, the rooms that other transactions hold
-- locked, and `fault`, which lets the database refuse any statement. A theorem that takes an `Env`
-- holds for all of these. PostgreSQL's unique and exclusion constraints and its row checks are part
-- of the statements, after the migrations; that primary keys are unique is a hypothesis where a
-- theorem uses it. Row-level security is the condition on the property in each statement. Redis, the
-- codecs for JSON and base64, SHA-256, uuid.Parse, and the parsing of numbers and bodies are
-- parameters, as are the regular expressions of the tools and the decoder of YAML; what a theorem needs
-- of them is a hypothesis, which the examples meet.
--
-- Transactions run one after the other: an interleaving of the statements of two of them is not
-- modelled. The requests under Idempotency-Keys, the clients of the hub, and the claims of the outbox
-- come in any order. Loops are recursions on the lists that they run over: the ticks of a wait, the
-- notifications of a connection, the connections of the listener, the rows and files of the tools,
-- the replies to a scan. The loop over the nights of a stay runs on fuel, the day number of its end: a
-- round moves one day on, and none starts at or after the end. Taking the parentheses off a clause has
-- its length for fuel: a round makes it shorter.
--
-- Not modelled: the texts of answers; that a read on the pool has no property set for the policies on
-- rows; tickers, heartbeats and goroutines as such; configuration, logging and telemetry; the web
-- client. Generated columns and triggers of the migrations are left to `fault`. Counters are not
-- bounded, where the code has int32.
pub mod Prelude
pub mod Status
pub mod Calendar
pub mod Store
pub mod Booking
pub mod Service
pub mod Outbox
pub mod Redis
pub mod Availability
pub mod Idempotency
pub mod Realtime
pub mod Listener
pub mod Gateway
pub mod Validation
pub mod ConstraintSync
pub mod RtmCheck
pub mod Cache
