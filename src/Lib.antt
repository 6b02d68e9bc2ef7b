-- ===== src/Lib.antt =====
-- Verification of the distributed job scheduler: its worker side (claiming, dispatching, executing
-- and retrying jobs, cron), its service side (jobs, queues, sessions, organizations,
-- projects), and its HTTP API.
--
-- The parts. A client enqueues a job through the job service, which reads the queue for its defaults
-- and inserts a row. A worker node runs a dispatcher, which on each tick visits the active queues in
-- order, claims a batch of due jobs in one transaction, and submits them to a pool of goroutines.
-- A goroutine executes a job with the handler of its type and writes the outcome: succeeded, pending
-- again at the time of the backoff, or dead. Beside it the node reclaims the jobs of nodes that are
-- gone, promotes scheduled jobs, and fires cron jobs under a lock of Redis. Users log in for an access
-- token and a refresh token; organizations and projects hold the queues. The API sends each request
-- through the middleware of its path to a handler, which calls a service and answers.
--
-- The files, and the code that each is about:
--   Domain, Store     backend/internal/domain: the structs; backend/migrations: the tables
--   Errors            backend/internal/platform/errors/errors.go; RespondError of middleware/auth.go
--   Exec              the monad of the operations: a store, errors, calls that may not be answered
--   Retry             backend/pkg/retry/backoff.go (NextDelay is next_delay, NextRunAt next_run_at)
--   JobRepo           backend/internal/repository/postgres/job.go (Updates: the single statements;
--                     Claim: ClaimBatch, as claim_batch)
--   QueueRepo         backend/internal/repository/postgres/queue.go
--   JobService        backend/internal/service/job/service.go
--   QueueService      backend/internal/service/queue/service.go
--   UserRepo          backend/internal/repository/postgres/user.go
--   Lock              backend/pkg/lock/lock.go, on the client of platform/cache/cache.go
--   Access            backend/internal/middleware/auth.go: the role checks; Bearer: AuthRequired
--   AuthService       backend/internal/service/auth/service.go (Tokens: token.go)
--   OrgRepo, OrgService           backend/internal/repository/postgres/org.go, service/org/service.go
--   ProjectRepo, ProjectService   backend/internal/repository/postgres/project.go,
--                     service/project/service.go
--   Cascade           what a DELETE takes with it, after the references of backend/migrations
--   CronRepo, CronService         backend/internal/repository/postgres/cron.go, service/cron/cron.go
--   WorkerRepo        backend/internal/repository/postgres/worker.go
--   Lifecycle         the states of backend/internal/domain/job/job.go as moves, and the operations of
--                     repository/postgres/job.go that make them
--   Connections       the loops of backend/internal/platform/cache/cache.go and platform/db/db.go
--   BatchRepo, BatchService   backend/internal/repository/postgres/batch.go, service/batch/batch.go
--   Worker            backend/internal/worker: Registry, Executor, Pool, Dispatcher, CronEngine,
--                     Node (Start of service.go), and the ticks of reaper.go, scheduler.go and
--                     heartbeater.go in Loops
--   ExecLog, Metrics  backend/internal/repository/postgres/execlog.go and metrics.go
--   Hub               backend/internal/handler/ws/ws.go
--   Summary           backend/internal/service/ai/ai.go
--   Validator         backend/pkg/validator/validator.go; validate of internal/config/config.go
--   Api               backend/internal/handler: a module per handler; Reports: execlog.go, metrics.go;
--                     Routes: the RegisterRoutes and part 9 of cmd/api/main.go; Serve: a request on
--                     its way through the middleware; Origins: joinStrings of cmd/api/main.go
--   Base, Text, Sorting, Tables   shared helpers: tests, lists, integers, rows of a table
--   Examples          concrete tables and runs
-- A function keeps its name, in small letters: MarkDead is mark_dead.
--
-- How the code is modelled. A table is a list of rows, and a statement a function on the tables that
-- returns a result or an error; an INSERT meets the constraints of the migration. `down n` says
-- whether the n-th call fails to reach the server. Values from outside are arguments: uuid.New() (the
-- first number), time.Now() and NOW(), the rows that other transactions hold locked, the readings of
-- the counter of the pool, the collation of the database, for the backoff the floating-point product
-- and the random draws, for the tokens and keys the random bytes, and for the connections what the
-- servers answer. The code of other packages is a parameter: bcrypt, JWT, SHA-256, the parser of
-- cron expressions, the functions that make a text small; for the requests the parser of UUIDs, the
-- reading and the validation of a body, and the HTTP framework's matching of paths, of which theorems
-- assume what it documents for an application without CaseSensitive and StrictRouting.
-- A nil slice of tags is `none`, and is written as NULL.
-- Identifiers are numbers, and an instant is a number of nanoseconds.
-- Go's int is an integer without bound, but a time.Duration is an int64 whose operations wrap. Rows
-- that tie in an ORDER BY keep the order of the table. A pool is a machine whose events are the atomic
-- steps of its goroutines, so a run is any interleaving. The loops of the
-- code are recursions on lists or on the number of attempts that is left; rounds is given
-- a number of rounds, and decimal is given at least as many steps as it writes digits.
--
-- What is not modelled: log lines; the widths of columns; the details of an error; JSON below a map
-- of texts; a panic or a timeout inside a handler (a handler returns nil or a message); the isolation
-- of two transactions that overlap, other than by locked rows; tickers and waits. The reading
-- of the configuration, the struct tags of requests, the middleware of libraries (compression, CORS,
-- the rate limit), the pings of a socket, and the trigger of the database that sets updated_at to
-- NOW() whatever the code gives are not part of it.
pub mod Base
pub mod Retry
pub mod Sorting
pub mod Tables
pub mod Errors
pub mod Exec
pub mod Domain
pub mod Store
pub mod JobRepo
pub mod Worker
pub mod QueueRepo
pub mod JobService
pub mod QueueService
pub mod Text
pub mod Examples
pub mod UserRepo
pub mod BatchRepo
pub mod BatchService
pub mod Access
pub mod Lock
pub mod CronRepo
pub mod CronService
pub mod WorkerRepo
pub mod AuthService
pub mod Cascade
pub mod OrgRepo
pub mod OrgService
pub mod ProjectRepo
pub mod ProjectService
pub mod Lifecycle
pub mod Connections
pub mod Validator
pub mod ExecLog
pub mod Metrics
pub mod Api
pub mod Summary
pub mod Hub
