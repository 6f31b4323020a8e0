-- ===== src/Lib.antt =====
-- The durable request repository of stock_research_llm_orchestrator: its state, its operations and
-- what they guarantee over any history; the publisher of raw responses over it; and the offline
-- request coordinator with the bindings of its sources.
--
-- The program prepares evidence for stock research. Every external request that it makes goes through
-- `ProductionRequestRepository` of src/stock_research_llm_orchestrator/requests/storage.py, a SQLite
-- database of seventeen tables. A logical request is admitted (it leads a single flight or follows
-- one), queued, claimed, gated, sent as physical attempts, its raw response published, and its result
-- recorded and delivered. One owner at a time holds the runtime lease: each operation that writes
-- for an owner is fenced by the lease's generation, and another owner may recover an expired lease.
-- The record types are those of requests/production.py, beside storage.py. The transport of
-- requests/transport.py is its client, and so is `RawArtifactPublisher` of requests/raw_artifacts.py,
-- which stages a response's files, verifies them, renames their directory into place and commits the
-- publication, and which after a crash repairs or fails what was left pending.
--
-- Beside it stands `Coordinator` of requests/coordinator.py, which makes offline attempts, in memory
-- only: it paces the calls of a transport by the limits of a source, which `bind_source` of
-- requests/models.py takes from an approval and a profile of the configuration.
--
-- Parts and files:
--   Prelude     Boolean tests, lists, and SQL's statements as functions on a table's rows
--   Schema      `_create_schema`: the tables as lists of records, the closed vocabularies, the codes
--   Tx          one `with _connect(...)` block: reads and writes the database, may raise, commits
--               or rolls back; `_verify_schema`; Tx.Keeps has the rules for invariants of blocks
--   Tables      SELECT by primary key
--   Lease       `_assert_fence`, `acquire_lease`, `heartbeat_lease`, `release_lease`,
--               `validate_fence`
--   Requests    `add_logical_request`, `_insert_logical_request`, `_persist_logical_result`,
--               `_cancel_logical`, and the three event appenders
--   Queue       `enqueue_logical_request`, `claim_next_queued`, `assert_claimed_logical_request`
--   Attempts    `add_physical_attempt`, `reserve_next_physical_attempt`,
--               `discard_reserved_attempt`, `mark_physical_attempt_started`
--   Gates       `acquire_gates`, `release_gates`, `record_retry_after`, `record_unknown_outcome`,
--               `_finish_gate_reservation`, `_release_gate_occupancy`
--   Flights     `admit_logical_request`, `cancel_admitted_request`, `complete_logical_request`,
--               `finalize_logical_request`, `_finish_single_flight`,
--               `_reconcile_terminal_flights`, `_cancel_started_flight`
--   Publications  the raw publication lifecycle and `committed_raw_references`
--   Recovery    `recover_expired_lease`, `_validate_recovery_state`, `_recover_gate_reservations`
--   Runtime     one command for each public method that writes or is fenced, histories of
--               commands, and the properties that hold over every history; Runtime.Units groups
--               the statements by the tables that they write, and Runtime.Walk shows that
--               what every statement keeps, every history keeps; Runtime.Examples applies
--               the properties
--   Sources     the approvals and profiles of contracts/detailed_analysis/v1/policies.py with their
--               validators; Sources.Binding has `bind_source` and `SourceBinding.limits`
--   Coordinator   `Coordinator.attempt`: Coordinator.Events is the event contract, Gates the state
--               and the four waits, Results what an attempt receives and returns, Begin and Finish the
--               attempt before and after its sending, Attempts the whole, with the attempts that
--               its transport makes meanwhile
--   Artifacts   the publisher: Artifacts.Disk has the bundles and `_verify_staged_bundle`, Io its
--               calls of the operating system and the repository, Paths the path of a reference and its
--               pattern, Publish and Reconcile the methods;
--               Rules, States and Calls are rules for what its code keeps, Exact, Rows and Settled
--               are about single statements, Kept, Replayed, Repaired and Reconciled about its
--               methods, Succeeds about calls without failures, History about sequences of calls
--               and Again about a repeated call
--   The modules below a part hold its larger operations (Gates.Policy, Acquire, Finish;
--   Flights.Admit, Results, Reconcile, Cancel) and what is proved of it alone (Gates.Counts, Capacity,
--   Blocked; Queue.Bounds, Order, Claims, Tasks, Fairness, Rejected; Attempts.Sequence;
--   Publications.Reference). Those below Runtime are named for what they are about:
--   Fencing, Stale and Held for leases, Interrupted and Released for recovery, Results,
--   Agreement and Delivery for results, Cooldown, Published, Refusals, Recorded and Audit; those
--   below Coordinator too: Pace, Sound and Rates for the limits, Windows and Waits for the wait that
--   a blocked attempt reports, Ready, Reentry, Cooldown and Audit.
--
-- How the code is read:
--   - A table is the list of its rows in the order of insertion, and a SELECT without ORDER BY reads
--     them in that order. UPDATE, DELETE, COUNT, EXISTS and ORDER BY are functions on the list.
--   - PRIMARY KEY, UNIQUE, CHECK and FOREIGN KEY constraints are tests before an INSERT. A failed test
--     is a `sqlite3.Error`, which the operation's handler turns into its own code.
--   - A block's writes are visible to it at once and last if it ends; a raise restores the database.
--     `queue_full` and the refusal of a gate are raised after the block has ended.
--   - Identifiers, hashes, fingerprints and instants are naturals: the code only compares them, but
--     for the path of a bundle.
--     Instants and durations count microseconds, as datetime does; `isoformat` of UTC instants
--     keeps their order. The range of datetime is not modelled, so sums do not overflow.
--   - Arguments have passed their pydantic models, and so has the path that `_raw_reference` reads,
--     which a commit took from a reference; the references that the publisher builds are validated.
--     Clocks are UTC; a delay of `record_retry_after` that is negative or not finite is `none`.
--   - The file is exclusive to the process while a block runs (BEGIN IMMEDIATE), so a history is
--     a sequence of operations, from any owners in any order.
--   - Loops run over lists that a SELECT has returned, by structural recursion; no fuel is needed.
--   - The coordinator's monotonic times are naturals in microseconds, with exact sums, where the code
--     has floats. Its clocks and identifier factories do not call it back; its transport may.
--   - Each call that the publisher makes of the operating system or of the repository takes a fate
--     off a list: it works, it fails, or the process dies in it. Every schedule of failures and
--     crashes is such a list. A file whose writing fails is cut short. The check of a path's kind
--     does not fail. SHA-256, the text of an identifier, of which the path in a reference is made,
--     and the source's validator are parameters; the pattern of that path is the code's. A JSON file is the value written to it. Nothing else changes the disk.
--
-- Not modelled: the migrations from older schema versions, the checks of directories and file modes,
-- the reads that return columns unchanged (`queue_events` and its like), and the clients of
-- the repository.
pub mod Prelude
pub mod Schema
pub mod Tx
pub mod Tables
pub mod Lease
pub mod Requests
pub mod Queue
pub mod Attempts
pub mod Gates
pub mod Flights
pub mod Publications
pub mod Recovery
pub mod Runtime
pub mod Artifacts
pub mod Sources
pub mod Coordinator
