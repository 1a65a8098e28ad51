-- ===== src/Fencing/Operations.antt =====
-- Dead claims under the other operations of src/ops.
use covey.Common.{ℕ, refl, arith, List}
use covey.Model.State.{MetaTaskState, ClaimState}
use covey.Model.Rows.{Session, Subtask, Claim, Review, EventType, OutcomeRow}
use covey.Txn.Triples.{Keeps, Keeps-modify, Keeps-bind}
use covey.Validators.{close_claim_and_detach, held_claim, set_claim_state}
use covey.Lifecycle.Creating.{
  CreateWorkSubtaskReq, create_work_subtask_tx, insert_work_subtask, insert_fence_counter,
  insert_subtask_dependencies, insert_dependency, normalize_subtask_dependencies,
}
use covey.Lifecycle.Holding.{
  ClaimRef, begin_review, start_review, start_subtask_body, abandon_subtask_body,
  release_claim_body,
}
use covey.Lifecycle.Completing.{
  OutcomeInput, resolve_reservation_overlap_conflicts, release_active_reservations, insert_outcome,
  check_outcome, record_direct_outcome_tx,
}
use covey.MetaTasks.{
  write_meta_state, refresh_meta_task_state, SubmitMetaTaskReq, submit_meta_task_tx,
  CancelMetaTaskReq, revoke_claim, cancel_queue_items, cancel_meta_task_body,
}
use covey.Sessions.{
  RegisterSessionReq, insert_session, register_session_body, heartbeat_body, exit_session_body,
  expire_exited_claim, expire_held_claims_for_exited_session,
}
use covey.Fencing.Statements.{Dead, DeadIn-update, dead_rules, close_claim_and_detach-Dead}

module _ {dead : ℕ} where
  begin_review-Dead :
      (r : Review) (id token now : ℕ) → Keeps (Dead dead) (begin_review r id token now)
  unfolding begin_review
  begin_review-Dead r id token now = search dead_rules

  start_review-Dead : (id token now : ℕ) → Keeps (Dead dead) (start_review id token now)
  unfolding start_review
  start_review-Dead id token now = search (dead_rules, begin_review-Dead)

  write_meta_state-Dead :
      (id : ℕ) (desired : MetaTaskState) (now : ℕ)
      → Keeps (Dead dead) (write_meta_state id desired now)
  unfolding write_meta_state
  write_meta_state-Dead id desired now = search (dead_rules, Keeps-modify)

  pub refresh_meta_task_state-Dead :
      (id now : ℕ) → Keeps (Dead dead) (refresh_meta_task_state id now)
  unfolding refresh_meta_task_state
  refresh_meta_task_state-Dead id now = search (dead_rules, write_meta_state-Dead)

  pub resolve_conflicts-Dead :
      (now id : ℕ) → Keeps (Dead dead) (resolve_reservation_overlap_conflicts now id)
  unfolding resolve_reservation_overlap_conflicts
  resolve_conflicts-Dead now id = search (dead_rules, Keeps-modify)

  pub release_active_reservations-Dead :
      (id now : ℕ) → Keeps (Dead dead) (release_active_reservations id now)
  unfolding release_active_reservations
  release_active_reservations-Dead id now = search (dead_rules, resolve_conflicts-Dead)

  insert_outcome-Dead : (row : OutcomeRow) → Keeps (Dead dead) (insert_outcome row)
  unfolding insert_outcome
  insert_outcome-Dead row = search (dead_rules, Keeps-modify)

  check_outcome-Dead :
      (input : OutcomeInput) (r : Subtask) → Keeps (Dead dead) (check_outcome input r)
  unfolding check_outcome
  check_outcome-Dead input r = search dead_rules

  insert_session-Dead : (row : Session) → Keeps (Dead dead) (insert_session row)
  unfolding insert_session
  insert_session-Dead row = search (dead_rules, Keeps-modify)

  expire_exited_claim-Dead :
      (now : ℕ) (claim : Claim) → Keeps (Dead dead) (expire_exited_claim now claim)
  unfolding expire_exited_claim
  expire_exited_claim-Dead now claim =
      Keeps-bind _ _ (close_claim_and_detach-Dead claim _ now refl) λ _. search dead_rules

  expire_held_claims-Dead :
      (token now : ℕ) → Keeps (Dead dead) (expire_held_claims_for_exited_session token now)
  unfolding expire_held_claims_for_exited_session
  expire_held_claims-Dead token now = search (dead_rules, expire_exited_claim-Dead)

  revoke_claim-Dead : (now : ℕ) (claim : Claim) → Keeps (Dead dead) (revoke_claim now claim)
  unfolding revoke_claim
  revoke_claim-Dead now claim =
      Keeps-bind _ _
        (Keeps-modify _ λ s v.
          DeadIn-update dead s.last_tick_ms s.claims (held_claim claim.claim_id)
            (set_claim_state ClaimState.revoked now) (λ r. refl) (λ r _ h. ground (arith, h)) v)
        λ _. search dead_rules

  cancel_queue_items-Dead : (id now : ℕ) → Keeps (Dead dead) (cancel_queue_items id now)
  unfolding cancel_queue_items
  cancel_queue_items-Dead id now = search (dead_rules, Keeps-modify)

  insert_fence_counter-Dead : (t : ℕ) → Keeps (Dead dead) (insert_fence_counter t)
  unfolding insert_fence_counter
  insert_fence_counter-Dead t = search (dead_rules, Keeps-modify)

  insert_dependency-Dead : (id d : ℕ) → Keeps (Dead dead) (insert_dependency id d)
  unfolding insert_dependency
  insert_dependency-Dead id d = search (dead_rules, Keeps-modify)

  insert_subtask_dependencies-Dead :
      (id : ℕ) (ds : List ℕ) → Keeps (Dead dead) (insert_subtask_dependencies id ds)
  unfolding insert_subtask_dependencies normalize_subtask_dependencies
  insert_subtask_dependencies-Dead id ds = search (dead_rules, insert_dependency-Dead) depth 9

  released-Dead :
      (claim : Claim) (now : ℕ)
      → Keeps (Dead dead) (close_claim_and_detach claim ClaimState.released now)
  released-Dead claim now = close_claim_and_detach-Dead claim _ now refl

ruleset dead_parts = (
  dead_rules, Keeps-modify, start_review-Dead, refresh_meta_task_state-Dead,
  release_active_reservations-Dead, insert_outcome-Dead, check_outcome-Dead, insert_session-Dead,
  expire_held_claims-Dead, revoke_claim-Dead, cancel_queue_items-Dead, insert_fence_counter-Dead,
  insert_subtask_dependencies-Dead, released-Dead,
)

module _ {dead : ℕ} where
  pub register_session_body-Dead :
      (req : RegisterSessionReq) (token lease_now now : ℕ)
      → Keeps (Dead dead) (register_session_body req token lease_now now)
  unfolding register_session_body
  register_session_body-Dead req token lease_now now = search dead_parts depth 9

  pub heartbeat_body-Dead :
      (token lease_now now : ℕ) → Keeps (Dead dead) (heartbeat_body token lease_now now)
  unfolding heartbeat_body
  heartbeat_body-Dead token lease_now now = search dead_parts depth 9

  pub exit_session_body-Dead : (token now : ℕ) → Keeps (Dead dead) (exit_session_body token now)
  unfolding exit_session_body
  exit_session_body-Dead token now = search dead_parts depth 12

  pub submit_meta_task_tx-Dead :
      (req : SubmitMetaTaskReq) (id now : ℕ) → Keeps (Dead dead) (submit_meta_task_tx req id now)
  unfolding submit_meta_task_tx
  submit_meta_task_tx-Dead req id now = search dead_parts depth 9

  pub cancel_meta_task_body-Dead :
      (req : CancelMetaTaskReq) (now : ℕ) → Keeps (Dead dead) (cancel_meta_task_body req now)
  unfolding cancel_meta_task_body
  cancel_meta_task_body-Dead req now = search dead_parts depth 16

  pub start_subtask_body-Dead :
      (req : ClaimRef) (lease_now now : ℕ)
      → Keeps (Dead dead) (start_subtask_body req lease_now now)
  unfolding start_subtask_body
  start_subtask_body-Dead req lease_now now = search dead_parts depth 14

  pub abandon_subtask_body-Dead :
      (req : ClaimRef) (lease_now now : ℕ)
      → Keeps (Dead dead) (abandon_subtask_body req lease_now now)
  unfolding abandon_subtask_body
  abandon_subtask_body-Dead req lease_now now = search dead_parts depth 14

  pub release_claim_body-Dead :
      (req : ClaimRef) (lease_now now : ℕ)
      → Keeps (Dead dead) (release_claim_body req lease_now now)
  unfolding release_claim_body
  release_claim_body-Dead req lease_now now = search dead_parts depth 14

  pub record_direct_outcome_tx-Dead :
      (ty : EventType) (input : OutcomeInput) (lease_now now : ℕ)
      → Keeps (Dead dead) (record_direct_outcome_tx ty input lease_now now)
  unfolding record_direct_outcome_tx
  record_direct_outcome_tx-Dead ty input lease_now now = search dead_parts depth 20

  pub create_work_subtask_tx-Dead :
      (req : CreateWorkSubtaskReq) (id now : ℕ)
      → Keeps (Dead dead) (create_work_subtask_tx req id now)
  unfolding create_work_subtask_tx insert_work_subtask
  create_work_subtask_tx-Dead req id now = search dead_parts depth 20
