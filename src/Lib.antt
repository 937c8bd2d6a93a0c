-- ===== src/Lib.antt =====
-- pauli: a monitor that indexes the consensus layer of an Ethereum chain into PostgreSQL. This
-- library models its Go code and proves what the parts promise to each other.
--
-- The parts. Two runners drive chains of steps (internal/monitor/runner/engine.go): the realtime
-- runner follows the head and queues jobs for a pool of workers, the backfill runner fills gaps
-- slot by slot and epoch by epoch on its own goroutine. Both call the indexers of
-- internal/monitor/steps/indexing, which fetch from a beacon node and an execution node and save
-- through the repository of internal/storage/postgres. The table indexer_progress says which slots
-- and epochs are done; it is what the runners share. An HTTP API reads the tables.
--
-- Which file models what:
--   Common, Text, Exec: shared numbers, lists, byte strings (strings, strconv) and Go's
--     value-or-error calls over a state, with rules for what holds after a chain of calls.
--   Storage: the rows and tables (internal/storage/models.go) and one statement sent to the server.
--     Storage/Progress: internal/storage/postgres/indexer_progress.go (markProgress, isProgress,
--     maxProgress, FirstUnindexedSlot, FirstUnindexedEpoch). Storage/Records and Storage/Blocks: the
--     upserts of internal/storage/postgres/repository.go; Storage/Reads, with its SyncCommittee: the
--     queries of the same file, from GetValidatorSnapshots to CountSnapshots. Storage/Connection:
--     internal/storage/postgres/client.go and internal/store/factory.go.
--   Migrations: internal/storage/postgres/migrations.go.
--   Config: internal/config/config.go and api_config.go, from the parsed YAML on; Config/Network:
--     blockchain_network.go.
--   Beacon, Beacon/Client: the values and methods of internal/beacon that the indexers call
--     (types.go, rewards.go, http_error.go). Beacon/Transport: doRequest of client.go, with its
--     retries. Beacon/Validators: the chunked requests of validators.go. Beacon/Node: the
--     queries of the node's own state (validators.go). Beacon/Numbers: Uint64Str and Int64Str of
--     types.go. Beacon/Duties: duties.go, the queries of single validators and the maps by index.
--     Beacon/Requests: the rest of client.go, from NewClient to get and post.
--   Backoff: pkg/backoff/backoff.go.
--   Execution: internal/execution/priority_fees.go. Execution/Hex: hexbig.go. Execution/Client:
--     client.go, from NewClient to PriorityFeesWeiDecimalString.
--   Indexing: internal/monitor/steps/indexing; Indexing/Blocks is IndexBlockAtSlot (block.go,
--     sync_rewards.go), Indexing/Epochs is IndexEpochAtBoundary (epoch.go).
--   Engine: internal/monitor/runner/engine.go, the loop over any runner's state.
--   Backfill: internal/monitor/steps/backfill (SlotPass.Run, EpochPass.Run); Backfill/Runner:
--     internal/monitor/runner/backfill/runner.go, and Backfill/Runner/Driver its hooks for the loop.
--   Realtime: internal/monitor/steps/realtime, steps/env.go, steps/job.go, runner/realtime.
--   Queue: internal/monitor/queue/pool.go, a relation of what each goroutine can do next: a call of
--     Enqueue, a worker, Stop. Monitor: internal/monitor/monitor.go and utility.go, what Start does
--     before it launches the goroutines (Monitor/Startup) and the goroutines over the pool.
--   Api: internal/api/handlers (parse.go, rewards.go, snapshots.go, validators.go). Api/Router:
--     internal/api/router.go and handlers/health.go, the routes with their handlers.
--   Commands: what cmd/pauli/main.go and cmd/pauli-backfill/main.go share; Commands/Monitor and
--     Commands/Backfill are the two, from the parsed file and the flags to the end of the process.
--   Tests: concrete runs.
--
-- State. A World is the tables and the number of exchanges with outside systems so far. What a
-- node, a pool or the database server answers is a function of that number, so an answer may
-- differ from call to call. A statement may be answered, refused, or executed with its answer lost;
-- a batch is one transaction. A uint64 that no BIGINT holds is refused by the driver. uint64 sums
-- wrap where the source adds them. ORDER BY is a sort by the keys of the clause, and rows with equal
-- keys stay in the table's order. The migrations run on a schema, a type with a function for what a
-- statement does to it, and a transaction works on a copy that its commit puts in place; in the
-- commands that schema has the indexer's tables, so a migration may change them.
--
-- Loops. The chunked scan runs on fuel to / 8192 + 1: each round but the last moves its start on by
-- 8192. The batches run on fuel for the number of records, of which each round takes 500; the
-- requests for validators likewise, by 100. Numbers are printed on fuel 20 in decimal and 16 in
-- hexadecimal, the most digits that a uint64 has. The retries of a request run on what maxRetries
-- leaves. A pass runs its fixed number of rounds. The engine's loop has no bound:
-- `run` takes the number of rounds, and what is said of it holds for every number.
--
-- Concurrency. The steps of a runner and the body of a job are modelled as they run by themselves;
-- the realtime chain sees the pool as a queue that accepts or refuses a job. In Queue and Monitor the
-- steps of the goroutines interleave in any order; a runner stands in at most one call of Enqueue. Jobs
-- of several workers and the backfill runner interleaving on the database are not modelled.
--
-- Not modelled: YAML, JSON, SQL text, HTTP, gin's matching of paths, SHA-256, pgxpool and the
-- PostgreSQL driver (libraries); logging (internal/logsetup) and the directive that embeds the
-- migrations (sql/embed.go). Floating numbers and random numbers of the backoff's delays are given. The
-- commands run as if no signal came before their end, and their deferred calls are skipped where
-- log.Fatal ends the process. cmd/devnet-equivocate is a test tool for a development network that
-- shares no code with the monitor.
pub mod Common
pub mod Text
pub mod Exec
pub mod Storage
pub mod Queue
pub mod Monitor
pub mod Migrations
pub mod Config
pub mod Beacon
pub mod Engine
pub mod Indexing
pub mod Backfill
pub mod Realtime
pub mod Execution
pub mod Api
pub mod Tests
pub mod Backoff
pub mod Commands
