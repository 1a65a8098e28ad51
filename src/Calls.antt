-- ===== src/Calls.antt =====
-- A history of the store: calls of the operations on `Covey` (src/lib.rs), one write transaction
-- after the other, as SQLite's immediate transactions order them.
use covey.Common.{ℕ, List, [], ◌∷◌}
use covey.Model.Rows.{Store, AttemptOutcome}
use covey.Txn.{after}
use covey.Txn.Idempotent.{Codec, Mutation}
use covey.Lifecycle.Creating.{CreateWorkSubtaskReq, create_work_subtask}
use covey.Lifecycle.Claiming.{ClaimResult, ClaimSubtaskReq, claim_subtask}
use covey.Lifecycle.Holding.{ClaimRef, start_subtask, abandon_subtask, release_claim, renew_claim}
use covey.Lifecycle.Completing.{OutcomeInput, record_direct_outcome}
use covey.MetaTasks.{SubmitMetaTaskReq, submit_meta_task, CancelMetaTaskReq, cancel_meta_task}
use covey.Sessions.{RegisterSessionReq, SessionHandle, register_session, heartbeat, exit_session}
use covey.Maintenance.{reap_stale_sessions, expire_old_claims, expire_old_reservations}

-- The response types that are written to idempotency records.
pub record Codecs : Type 0 where
  pub of_unit : Codec (Unit {0})
  pub of_id : Codec ℕ
  pub of_handle : Codec SessionHandle
  pub of_claim : Codec ClaimResult
  pub of_outcome : Codec AttemptOutcome

-- The requests that mutate under an idempotency key, with the identifier that `make_id` draws for
-- those that need one. An outcome is `finish_subtask`, `retry_subtask` or `fail_subtask`.
pub data Request : Type 0 where
  registers : RegisterSessionReq → ℕ → Request
  heartbeats exits : ℕ → Request
  submits : SubmitMetaTaskReq → ℕ → Request
  cancels : CancelMetaTaskReq → Request
  creates : CreateWorkSubtaskReq → ℕ → Request
  claims_one : ClaimSubtaskReq → ℕ → Request
  starts abandons releases : ClaimRef → Request
  renews : ClaimRef → ℕ → Request
  records_outcome : OutcomeInput → Request

-- One call and the wall clock's reading. `reap_stale_sessions` has its threshold first.
pub data Call : Type 0 where
  mutates : Mutation → ℕ → Request → Call
  reaps : ℕ → ℕ → Call
  expires_claims expires_reservations : ℕ → Call

unfoldable pub perform : Codecs → Mutation → ℕ → Request → Store → Store
perform c m now (registers req token) s = after (register_session c.of_handle m req token now s)
perform c m now (heartbeats token) s = after (heartbeat c.of_unit m token now s)
perform c m now (exits token) s = after (exit_session c.of_unit m token now s)
perform c m now (submits req id) s = after (submit_meta_task c.of_id m req id now s)
perform c m now (cancels req) s = after (cancel_meta_task c.of_unit m req now s)
perform c m now (creates req id) s = after (create_work_subtask c.of_id m req id now s)
perform c m now (claims_one req id) s = after (claim_subtask c.of_claim m req id now s)
perform c m now (starts req) s = after (start_subtask c.of_unit m req now s)
perform c m now (abandons req) s = after (abandon_subtask c.of_unit m req now s)
perform c m now (releases req) s = after (release_claim c.of_unit m req now s)
perform c m now (renews req extend) s = after (renew_claim c.of_claim m req extend now s)
perform c m now (records_outcome input) s = after (record_direct_outcome c.of_outcome m input now s)

unfoldable pub step : Codecs → Call → Store → Store
unfolding perform
step c (mutates m now request) s = perform c m now request s
step c (reaps threshold now) s = after (reap_stale_sessions threshold now s)
step c (expires_claims now) s = after (expire_old_claims now s)
step c (expires_reservations now) s = after (expire_old_reservations now s)

-- The store after the calls, the first one first.
unfoldable pub run : Codecs → List Call → Store → Store
run c [] s = s
run c (call ∷ calls) s = run c calls (step c call s)
