-- ===== src/Lib.antt =====
-- Covey, an embedded coordination store for software agents: agents register sessions, an
-- orchestrator submits meta-tasks and subtasks, and agents claim subtasks under a fence and a
-- lease, work on them and record outcomes. Every mutation is one write transaction on a SQLite
-- store and is idempotent under a key that the caller chooses.
--
-- The parts, and the files that model them:
--   Model/State, Errors, Rows   src/model/state.rs, src/error.rs and the rows of
--     src/model/records.rs: enumerations with the source's constructors, errors, one record per
--     table row, and `Store`, the tables as lists of rows, oldest first.
--   Common/Tests, Tables        Boolean tests, and the reading of `SELECT`, `UPDATE` and `INSERT` as
--     `find`, `select`, `count`, `update_where` and `insert`.
--   Txn, Txn/Idempotent         src/store.rs and src/schema.rs: actions thread the store and may fail;
--     `with_write_tx` rolls back, `with_idempotent_mutation` records and replays answers,
--     `advance_lease_clock` moves the lease clock, `append_event` writes the event log.
--   Txn/Triples                 assertions about actions and the rules that prove them.
--   Validators, Validators/Transitions   src/validators.rs and the row loaders of src/queries.rs.
--   Dependencies                DEPENDENCY_SATISFIED_SQL and `subtask_dependencies_satisfied` of
--     src/store.rs; Dependencies/Chains and Depth relate the chain query to
--     chains of rows.
--   Lifecycle/Creating          src/ops/workflow/create.rs.
--   Lifecycle/Claiming, Holding src/ops/workflow/lifecycle.rs: `claim_subtask`, and `start_subtask`,
--     `abandon_subtask`, `release_claim`, `renew_claim`.
--   Lifecycle/Completing        src/ops/workflow/completion.rs, and
--     `resolve_reservation_overlap_conflicts` of src/overlap.rs.
--   Lifecycle/Statements       the statements that several operations share.
--   Lifecycle/Selecting         `ordered_claim_candidate` of src/store.rs; Selecting/Minimum reads
--     `ORDER BY ... LIMIT 1`, Selecting/Eligible says what may be
--     selected apart from the queries, and Selecting/Fair is about the choice.
--   Lifecycle/Following         the repair follow-ups of src/ops/workflow/artifact_review.rs, with
--     Following/Inherited and Revived about them.
--   Lifecycle/ClaimingNext      `claim_next_for_route` of src/ops/workflow/lifecycle.rs;
--     Lifecycle/Taking is about what it hands out.
--   Reviews                     `publish_artifact`, `request_review` and `decide_review` of
--     src/ops/workflow/artifact_review.rs, with the guards of src/validators.rs that they use;
--     Reviews/Enqueuing is `enqueue_approved_subtask_for_apply_tx` of src/ops/queue.rs.
--   Queue                       `enqueue_for_apply` of src/ops/queue.rs.
--   Paths                       the strings, normal form, ancestor keys and prefix ranges of
--     src/overlap.rs. A text that is taken apart is the list of its code points.
--   Reservations                src/ops/reservation.rs, the overlap queries of src/overlap.rs as
--     predicates on rows, and `ReservationScope` of src/model/records.rs. A failed `expect` is the
--     outcome `panicked`, since unwinding drops the transaction as an error does.
--   Lifecycle/Deduping          about the dependency list of Lifecycle/Creating.
--   MetaTasks, Sessions, Maintenance   src/ops/meta_task.rs, session.rs and maintenance.rs.
--   Calls                       histories: lists of calls, each one write transaction. Writers are
--     serialised by the connection's mutex and immediate transactions, so a history is a sequence.
--   Invariant                   what the tables hold between calls.
--   Log                         what a call appends, and what a retry returns.
--   Fencing                     claims that ended or ran out of their lease.
--   Witnesses                   concrete stores and runs.
--
-- How the state corresponds. Identifiers, digests, keys and texts are numbers where the operations
-- only compare them, in the order of the texts; the scope keys of reservations are taken apart and
-- are lists of code points. The types of src/model/types.rs bound their lengths and reject blank idempotency
-- keys, so `ensure_length` on them and `validate_idempotency_key` cannot fail and have no counterpart.
-- Times are milliseconds without an upper bound, where the source has `i64`, and the wall clock's
-- reading and the identifiers that `make_id` draws are arguments of the operations. An insertion
-- under a taken primary key is `database_error`. Foreign keys and the schema's partial unique indexes
-- are not assumed. `serde_json` is a parameter: `Codec` with the law that it reads back what it
-- wrote; a request arrives as its hash. The payload of an event and the tracing of operations are left
-- out. A system event's object label, "stale" or "expired", is the number 0.
--
-- Fuel: `followup_chain` gets as many links as there are follow-up rows: a chain from a row need not
-- come back to it, so after the first link it is one over fewer rows. Nothing else runs on fuel.
--
-- Histories hold neither `claim_next_for_route` nor the calls on reservations, reviews and the queue.
--
-- Not modelled: the OpenSpec scopes of subtasks, so `decide_review` and the repair follow-ups are those
-- of subtasks without one; the permissive landing of src/ops/workflow/artifact_review.rs, the rest of
-- src/ops/queue.rs and src/config.rs, which are further parts of the same store; src/ops/repoops.rs, vcs_*.rs, operator_blocker.rs, prose_intake.rs, src/ops/import
-- and src/proof_apply.rs, which record or drive outside systems; views, serialisation, migrations
-- and the command line.
pub mod Common
pub mod Model
pub mod Paths
pub mod Txn
pub mod Validators
pub mod Dependencies
pub mod Lifecycle
pub mod MetaTasks
pub mod Sessions
pub mod Maintenance
pub mod Reservations
pub mod Reviews
pub mod Queue
pub mod Calls
pub mod Invariant
pub mod Log
pub mod Fencing
mod Witnesses
