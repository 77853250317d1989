-- ===== src/Lib.antt =====
-- PingMesh: nodes probe services, send the results to a coordinator, and the coordinator decides by a
-- quorum of the nodes whether a service is down, keeps an incident for it, and notifies channels.
--
-- How the parts meet. The coordinator (internal/agent) reads the monitors and the nodes from the
-- store (internal/store), counts for each node the run of failures of a monitor, asks the quorum
-- rule, and has the incident manager (internal/consensus) open, confirm or resolve an incident; after
-- a stored change the dispatcher (internal/alert) starts a goroutine for each enabled channel. Nodes
-- come in by one-time tokens (internal/cluster) through the peer API, and users through the CLI API
-- (internal/api).
--
-- Which file models what:
--   Prelude      shared types, Boolean tests, lists, integers, sorting and the order of texts
--   Model        internal/model/types.go, internal/config/config.go: one record for each struct, with
--                the field names of the source in snake_case
--   Db           internal/store/migrations.go: the tables with their keys and references (Db.Schema),
--                the rows and their conversion (Db.Rows), lookup and update by key (Db.Table), and the
--                conversions read back (Db.Codec)
--   World        the surroundings: the database, the clock, UUIDs, faults of the engine, and the
--                goroutines that wait; `Act` is code that changes them, `exec` is one SQL statement
--   Store        internal/store/sqlite.go, one function for each method and the statement it runs;
--                Store.Calls has every method of internal/store/store.go as a call
--   Consensus    internal/consensus/evaluator.go and incident.go; Lifecycle and Sound say what the
--                operations make of the incidents
--   Alert        internal/alert/alert.go: dispatch and delivery (Dispatch), webhooks and mail, and what
--                the history says of a webhook (Receipt); Wire is what is taken from libraries
--   Cluster      internal/cluster/cluster.go, join.go and peer_client.go
--   Checker      internal/checker: from the answers of the network to the outcome of a check, one module
--                for each file (tcp.go and icmp.go in Checker.Reach), and the registry
--   Scheduler    internal/agent/scheduler.go: the maps (Scheduler.Table), the goroutines as a step
--                relation (Scheduler.Loops), and one check with its attempts (Scheduler.Check)
--   Agent        internal/agent/agent.go: evaluateConsensus (Agent.Evaluate), pushConfigSync and
--                applyConfigSync (Agent.Sync), and the other loops (Agent.Periodic)
--   Api          internal/api/peer_handlers.go and cli_handlers.go, a handler from its decoded body to
--                its answer; Api.Url is how the query of a URL is read
--   System       a node as a whole: the loops that Run of internal/agent/agent.go starts, the routes of
--                internal/api and the goroutines, as events in any order
--   Settings     internal/config/config.go: the settings in their file, on a disk of files
--   Cli          internal/cli/init.go, join.go and token.go: the commands that set a node up, as steps on
--                the disk and the database, the first error of which ends the command (Cli.Steps)
--   Logbuf       internal/logbuf/logbuf.go: the ring of log lines, and the bounded list it stands for
--   Tests        a program in a fixed state, to which the theorems are applied
--
-- Choices. A statement succeeds and changes the database, or fails, by a constraint or by a fault that
-- an argument decides for each statement, and leaves it. Statements are atomic; the code between two of
-- them is one sequence, so calls of other goroutines in between are not modelled. Where a query leaves
-- the order of equal keys open, the order is an argument that is only known to sort. A pointer to an
-- incident that a method changes is the changed incident beside the error. int and int64 are integers,
-- and a difference of times wraps at 64 bits; a latency is in microseconds, as the store keeps it, and a size in
-- bytes. Text is compared by code points, as the engine's BINARY collation does. No loop needs fuel: each follows
-- a list or counts down. Log lines are left out.
--
-- The scheduler's goroutines are interleaved step by step, since its guard is about them; a ticker's
-- channel holds one tick. In System each event runs to its end before the next. A probe of the network
-- is what the client of the protocol answers, as an argument that may differ for each attempt; the
-- contexts of Go only make such an answer an error.
--
-- Not modelled: certificates; HTTP, SMTP and HMAC themselves (what they answer is an argument), JSON (a
-- body is its decoded value, or the decoder's error), the commands that only call the CLI API and print
-- what it answers, the web interface, and the tickers' times.
pub mod Prelude
pub mod Model
pub mod Db
pub mod World
pub mod Store
pub mod Consensus
pub mod Alert
pub mod Cluster
pub mod Agent
pub mod Api
pub mod System
pub mod Logbuf
pub mod Checker
pub mod Scheduler
pub mod Settings
pub mod Cli
pub mod Tests
