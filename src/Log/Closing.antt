-- ===== src/Log/Closing.antt =====
-- The events of the other operations of src/ops: sessions, meta-tasks, creation, holding, outcomes.
use covey.Common.{ℕ, List}
use covey.Model.State.{MetaTaskState}
use covey.Model.Rows.{
  Session, Subtask, Claim, Review, Event, EventType, IdempotencyRecord, OutcomeRow,
  session_registered, session_heartbeat, session_exited, meta_task_submitted, meta_task_cancelled,
  work_subtask_created, subtask_started, subtask_abandoned, claim_released, claim_renewed,
}
use covey.Txn.Triples.{Keeps, Keeps-modify, Triple-bind}
use covey.Lifecycle.Creating.{
  CreateWorkSubtaskReq, create_work_subtask_tx, insert_work_subtask, insert_fence_counter,
  insert_subtask_dependencies, insert_dependency, normalize_subtask_dependencies,
}
use covey.Lifecycle.Holding.{
  ClaimRef, begin_review, start_review, start_subtask_body, abandon_subtask_body,
  release_claim_body, renew_claim_body,
}
use covey.Lifecycle.Completing.{
  OutcomeInput, resolve_reservation_overlap_conflicts, release_active_reservations, insert_outcome,
  check_outcome, record_direct_outcome_tx,
}
use covey.MetaTasks.{
  write_meta_state, refresh_meta_task_state, SubmitMetaTaskReq, submit_meta_task_tx,
  CancelMetaTaskReq, revoke_claim, cancel_queue_items, cancel_meta_task_body,
}
use covey.Sessions.{
  RegisterSessionReq, insert_session, register_session_body, heartbeat_body, exit_session_body,
  expire_exited_claim, expire_held_claims_for_exited_session,
}
use covey.Log.Statements.{Log, log_rules}
use covey.Log.Operations.{Appends, appends_rules, Log-after}

module _ {es : List Event} {rs : List IdempotencyRecord} {tick : ℕ} where
  begin_review-Log :
      (r : Review) (id token now : ℕ) → Keeps (Log es rs tick) (begin_review r id token now)
  unfolding begin_review
  begin_review-Log r id token now = search log_rules

  start_review-Log : (id token now : ℕ) → Keeps (Log es rs tick) (start_review id token now)
  unfolding start_review
  start_review-Log id token now = search (log_rules, begin_review-Log)

  write_meta_state-Log :
      (id : ℕ) (desired : MetaTaskState) (now : ℕ)
      → Keeps (Log es rs tick) (write_meta_state id desired now)
  unfolding write_meta_state
  write_meta_state-Log id desired now = search (log_rules, Keeps-modify)

  refresh_meta_task_state-Log :
      (id now : ℕ) → Keeps (Log es rs tick) (refresh_meta_task_state id now)
  unfolding refresh_meta_task_state
  refresh_meta_task_state-Log id now = search (log_rules, write_meta_state-Log)

  pub resolve_conflicts-Log :
      (now id : ℕ) → Keeps (Log es rs tick) (resolve_reservation_overlap_conflicts now id)
  unfolding resolve_reservation_overlap_conflicts
  resolve_conflicts-Log now id = search (log_rules, Keeps-modify)

  release_active_reservations-Log :
      (id now : ℕ) → Keeps (Log es rs tick) (release_active_reservations id now)
  unfolding release_active_reservations
  release_active_reservations-Log id now = search (log_rules, resolve_conflicts-Log)

  insert_outcome-Log : (row : OutcomeRow) → Keeps (Log es rs tick) (insert_outcome row)
  unfolding insert_outcome
  insert_outcome-Log row = search (log_rules, Keeps-modify)

  check_outcome-Log :
      (input : OutcomeInput) (r : Subtask) → Keeps (Log es rs tick) (check_outcome input r)
  unfolding check_outcome
  check_outcome-Log input r = search log_rules

  insert_session-Log : (row : Session) → Keeps (Log es rs tick) (insert_session row)
  unfolding insert_session
  insert_session-Log row = search (log_rules, Keeps-modify)

  expire_exited_claim-Log :
      (now : ℕ) (claim : Claim) → Keeps (Log es rs tick) (expire_exited_claim now claim)
  unfolding expire_exited_claim
  expire_exited_claim-Log now claim = search log_rules

  expire_held_claims-Log :
      (token now : ℕ) → Keeps (Log es rs tick) (expire_held_claims_for_exited_session token now)
  unfolding expire_held_claims_for_exited_session
  expire_held_claims-Log token now = search (log_rules, expire_exited_claim-Log)

  revoke_claim-Log : (now : ℕ) (claim : Claim) → Keeps (Log es rs tick) (revoke_claim now claim)
  unfolding revoke_claim
  revoke_claim-Log now claim = search (log_rules, Keeps-modify)

  cancel_queue_items-Log : (id now : ℕ) → Keeps (Log es rs tick) (cancel_queue_items id now)
  unfolding cancel_queue_items
  cancel_queue_items-Log id now = search (log_rules, Keeps-modify)

  insert_fence_counter-Log : (t : ℕ) → Keeps (Log es rs tick) (insert_fence_counter t)
  unfolding insert_fence_counter
  insert_fence_counter-Log t = search (log_rules, Keeps-modify)

  insert_dependency-Log : (id d : ℕ) → Keeps (Log es rs tick) (insert_dependency id d)
  unfolding insert_dependency
  insert_dependency-Log id d = search (log_rules, Keeps-modify)

  insert_subtask_dependencies-Log :
      (id : ℕ) (ds : List ℕ) → Keeps (Log es rs tick) (insert_subtask_dependencies id ds)
  unfolding insert_subtask_dependencies normalize_subtask_dependencies
  insert_subtask_dependencies-Log id ds = search (log_rules, insert_dependency-Log) depth 9

ruleset parts_log = (
  appends_rules, log_rules, Keeps-modify, start_review-Log, refresh_meta_task_state-Log,
  release_active_reservations-Log, insert_outcome-Log, check_outcome-Log, insert_session-Log,
  expire_held_claims-Log, revoke_claim-Log, cancel_queue_items-Log, insert_fence_counter-Log,
)

pub register_session_body-Appends :
    (req : RegisterSessionReq) (token lease_now now : ℕ)
    → Appends session_registered token (register_session_body req token lease_now now)
unfolding register_session_body
register_session_body-Appends req token lease_now now es rs tick = search parts_log depth 9

pub heartbeat_body-Appends :
    (token lease_now now : ℕ) → Appends session_heartbeat token (heartbeat_body token lease_now now)
unfolding heartbeat_body
heartbeat_body-Appends token lease_now now es rs tick = search parts_log depth 9

pub exit_session_body-Appends :
    (token now : ℕ) → Appends session_exited token (exit_session_body token now)
unfolding exit_session_body
exit_session_body-Appends token now es rs tick = search parts_log depth 12

pub submit_meta_task_tx-Appends :
    (req : SubmitMetaTaskReq) (id now : ℕ)
    → Appends meta_task_submitted req.session_token (submit_meta_task_tx req id now)
unfolding submit_meta_task_tx
submit_meta_task_tx-Appends req id now es rs tick = search parts_log depth 9

pub cancel_meta_task_body-Appends :
    (req : CancelMetaTaskReq) (now : ℕ)
    → Appends meta_task_cancelled req.session_token (cancel_meta_task_body req now)
unfolding cancel_meta_task_body
cancel_meta_task_body-Appends req now es rs tick = search parts_log depth 16

pub start_subtask_body-Appends :
    (req : ClaimRef) (lease_now now : ℕ)
    → Appends subtask_started req.session_token (start_subtask_body req lease_now now)
unfolding start_subtask_body
start_subtask_body-Appends req lease_now now es rs tick = search parts_log depth 14

pub abandon_subtask_body-Appends :
    (req : ClaimRef) (lease_now now : ℕ)
    → Appends subtask_abandoned req.session_token (abandon_subtask_body req lease_now now)
unfolding abandon_subtask_body
abandon_subtask_body-Appends req lease_now now es rs tick = search parts_log depth 14

pub release_claim_body-Appends :
    (req : ClaimRef) (lease_now now : ℕ)
    → Appends claim_released req.session_token (release_claim_body req lease_now now)
unfolding release_claim_body
release_claim_body-Appends req lease_now now es rs tick = search parts_log depth 14

pub renew_claim_body-Appends :
    (req : ClaimRef) (extend lease_now now : ℕ)
    → Appends claim_renewed req.session_token (renew_claim_body req extend lease_now now)
unfolding renew_claim_body
renew_claim_body-Appends req extend lease_now now es rs tick = search parts_log depth 14

pub record_direct_outcome_tx-Appends :
    (ty : EventType) (input : OutcomeInput) (lease_now now : ℕ)
    → Appends ty input.session_token (record_direct_outcome_tx ty input lease_now now)
unfolding record_direct_outcome_tx
record_direct_outcome_tx-Appends ty input lease_now now es rs tick = search parts_log depth 20

insert_work_subtask-Appends :
    (req : CreateWorkSubtaskReq) (id now : ℕ)
    → Appends work_subtask_created req.session_token (insert_work_subtask req id now)
unfolding insert_work_subtask
insert_work_subtask-Appends req id now es rs tick = search parts_log depth 14

pub create_work_subtask_tx-Appends :
    (req : CreateWorkSubtaskReq) (id now : ℕ)
    → Appends work_subtask_created req.session_token (create_work_subtask_tx req id now)
unfolding create_work_subtask_tx
create_work_subtask_tx-Appends req id now es rs tick =
    Triple-bind _ _ (insert_work_subtask-Appends req _ now es rs tick)
      λ t. Log-after es _ λ x. search (log_rules, insert_subtask_dependencies-Log)
