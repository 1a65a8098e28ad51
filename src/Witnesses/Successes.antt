-- ===== src/Witnesses/Successes.antt =====
-- Runs that succeed, and the theorems on success applied to them.
use covey.Common.{◌≢◌, max, find, exists_row, count, insert, select, update_where, ◌≡◌, refl, none}
use covey.Dependencies.{
  any_followup, dependency_satisfied, followup_chain, is_satisfied, subtask_dependencies_satisfied,
}
use covey.Lifecycle.Claiming.{
  claim_subtask, claim_subtask_body, ensure_idle, claim_selected_subtask,
  expire_claim_if_needed_for_subtask, stale_claim, check_claimable, expire_claim, insert_claim,
  mark_session_busy, mark_subtask_claimed, refuse_busy_session, undo_claim, ClaimResult,
}
use covey.Lifecycle.Completing.{
  record_direct_outcome, record_direct_outcome_tx, check_outcome, insert_outcome,
  release_active_reservations, resolve_reservation_overlap_conflicts,
}
use covey.Lifecycle.Holding.{release_claim_body}
use covey.Lifecycle.Statements.{
  detach_expired_claim, free_claim_owner, reset_in_progress_review_for_expired_claim,
  update_reviews, update_sessions, update_subtasks, update_reservations, release_owner_reservations,
}
use covey.MetaTasks.{refresh_meta_task_state, desired_state, write_meta_state}
use covey.Model.Rows.{Operation-discrete, Store, AttemptOutcome, Operation, subtask_finished}
use covey.Model.State.{ReviewState-discrete, SessionRole-discrete, SubtaskState-discrete}
use covey.Txn.{
  ok, after, with_write_tx, ◌>>=◌, advance_lease_clock, append_event, append_session_event, fail,
  gets, guard, modify, on_some, or_fail, pure, for_each,
}
use covey.Txn.Idempotent.{with_idempotent_mutation, run_and_record, replay}
use covey.Validators.{
  require_active_session, load_session, ensure_positive_lease_duration, subtask_exists,
  load_subtask, bump_fence, close_claim_and_detach, ensure_meta_task_is_schedulable,
  held_claim_owner, issue_fence_seq, load_meta_task, next_fence, require_session_can_claim_kind,
  require_current_claim, load_claim, clear_session_active_subtask,
}
use covey.Validators.Transitions.{ensure_subtask_transition, subtask_edge}
use covey.Witnesses.Data.{
  codecs, key, working_store, idle_store, claim_req, held_ref, success, some_calls,
}
use mathlib.Core.Bool.{decide}
use covey.Log.Retries.{ticked}
use covey.Model.Errors.{idempotency_conflict}
use covey.Txn.{err}
use covey.Log.Answers.{
  with_hash, claim_subtask-conflict, claim_subtask-retry, record_direct_outcome-retry,
}
use covey.Calls.{run}
use covey.Common.{arith}
use covey.Invariant.Counts.{Inv}
use covey.Fencing.Newest.{Newest, claim_subtask-Newest}
use covey.Fencing.Once.{record_direct_outcome-once}
use covey.Fencing.Current.{Current, record_direct_outcome-Current, release_claim-Current}

abbrev claimed_result : ClaimResult
claimed_result = record { claim_id = 30; subtask_id = 20; fence_seq = 1; lease_deadline = 500 }

abbrev claimed_store : Store
claimed_store =
    after
      (claim_subtask codecs.of_claim (key Operation.claim_subtask 9) claim_req 30 200 idle_store)

claim_succeeds :
    claim_subtask codecs.of_claim (key Operation.claim_subtask 9) claim_req 30 200 idle_store
    ≡ ok claimed_result claimed_store
unfolding with_write_tx ◌>>=◌ advance_lease_clock append_event append_session_event fail gets guard
    modify on_some or_fail pure for_each with_idempotent_mutation run_and_record replay find
    exists_row count insert select update_where require_active_session load_session
    ensure_positive_lease_duration subtask_exists load_subtask bump_fence close_claim_and_detach
    ensure_meta_task_is_schedulable held_claim_owner issue_fence_seq load_meta_task next_fence
    require_session_can_claim_kind require_current_claim load_claim clear_session_active_subtask
    ensure_subtask_transition subtask_edge claim_subtask claim_subtask_body ensure_idle
    claim_selected_subtask expire_claim_if_needed_for_subtask stale_claim check_claimable
    expire_claim insert_claim mark_session_busy mark_subtask_claimed refuse_busy_session undo_claim
    detach_expired_claim free_claim_owner reset_in_progress_review_for_expired_claim update_reviews
    update_sessions update_subtasks update_reservations release_owner_reservations any_followup
    dependency_satisfied followup_chain is_satisfied subtask_dependencies_satisfied
    Operation-discrete ReviewState-discrete SessionRole-discrete SubtaskState-discrete
    record_direct_outcome record_direct_outcome_tx check_outcome insert_outcome
    release_active_reservations resolve_reservation_overlap_conflicts release_claim_body
    refresh_meta_task_state desired_state write_meta_state codecs decide
claim_succeeds = refl

claim_subtask-retry_example :
    claim_subtask codecs.of_claim
      (key Operation.claim_subtask 9)
      claim_req
      31
      300
      (run codecs some_calls claimed_store)
    ≡ ok claimed_result (ticked 300 (run codecs some_calls claimed_store))
unfolding find
claim_subtask-retry_example =
    claim_subtask-retry codecs.of_claim (key Operation.claim_subtask 9) claim_req 30 31 200 300
      idle_store claimed_store claimed_result codecs some_calls refl claim_succeeds

claim_subtask-conflict_example :
    claim_subtask codecs.of_claim
      (with_hash (key Operation.claim_subtask 9) 78)
      claim_req
      31
      300
      (run codecs some_calls claimed_store)
    ≡ err (idempotency_conflict 2 9) (run codecs some_calls claimed_store)
unfolding find
claim_subtask-conflict_example =
    claim_subtask-conflict codecs.of_claim (key Operation.claim_subtask 9) claim_req claim_req 30 31
      200 300 78 idle_store claimed_store claimed_result codecs some_calls refl claim_succeeds refl

abbrev success_result : AttemptOutcome
success_result = record {
  claim_id = 30;
  subtask_id = 20;
  fence_seq = 1;
  outcome_kind = success.outcome_kind;
  evidence_digest = none;
  failure_code = none;
  summary = 4;
  recorded_at = 200;
}

abbrev finished_store : Store
finished_store = after (
    record_direct_outcome codecs.of_outcome (key Operation.finish_subtask 8) success 200
      working_store)

finish_succeeds :
    record_direct_outcome codecs.of_outcome
      (key Operation.finish_subtask 8)
      success
      200
      working_store
    ≡ ok success_result finished_store
unfolding with_write_tx ◌>>=◌ advance_lease_clock append_event append_session_event fail gets guard
    modify on_some or_fail pure for_each with_idempotent_mutation run_and_record replay find
    exists_row count insert select update_where require_active_session load_session
    ensure_positive_lease_duration subtask_exists load_subtask bump_fence close_claim_and_detach
    ensure_meta_task_is_schedulable held_claim_owner issue_fence_seq load_meta_task next_fence
    require_session_can_claim_kind require_current_claim load_claim clear_session_active_subtask
    ensure_subtask_transition subtask_edge claim_subtask claim_subtask_body ensure_idle
    claim_selected_subtask expire_claim_if_needed_for_subtask stale_claim check_claimable
    expire_claim insert_claim mark_session_busy mark_subtask_claimed refuse_busy_session undo_claim
    detach_expired_claim free_claim_owner reset_in_progress_review_for_expired_claim update_reviews
    update_sessions update_subtasks update_reservations release_owner_reservations any_followup
    dependency_satisfied followup_chain is_satisfied subtask_dependencies_satisfied
    Operation-discrete ReviewState-discrete SessionRole-discrete SubtaskState-discrete
    record_direct_outcome record_direct_outcome_tx check_outcome insert_outcome
    release_active_reservations resolve_reservation_overlap_conflicts release_claim_body
    refresh_meta_task_state desired_state write_meta_state codecs decide
finish_succeeds = refl

record_direct_outcome-retry_example :
    record_direct_outcome codecs.of_outcome
      (key Operation.finish_subtask 8)
      success
      300
      (run codecs some_calls finished_store)
    ≡ ok success_result (ticked 300 (run codecs some_calls finished_store))
unfolding find
record_direct_outcome-retry_example =
    record_direct_outcome-retry codecs.of_outcome (key Operation.finish_subtask 8) success 200 300
      working_store finished_store success_result codecs some_calls refl finish_succeeds

outcome_succeeds :
    record_direct_outcome_tx subtask_finished success 200 200 working_store
    ≡ ok success_result
        (after (record_direct_outcome_tx subtask_finished success 200 200 working_store))
unfolding with_write_tx ◌>>=◌ advance_lease_clock append_event append_session_event fail gets guard
    modify on_some or_fail pure for_each with_idempotent_mutation run_and_record replay find
    exists_row count insert select update_where require_active_session load_session
    ensure_positive_lease_duration subtask_exists load_subtask bump_fence close_claim_and_detach
    ensure_meta_task_is_schedulable held_claim_owner issue_fence_seq load_meta_task next_fence
    require_session_can_claim_kind require_current_claim load_claim clear_session_active_subtask
    ensure_subtask_transition subtask_edge claim_subtask claim_subtask_body ensure_idle
    claim_selected_subtask expire_claim_if_needed_for_subtask stale_claim check_claimable
    expire_claim insert_claim mark_session_busy mark_subtask_claimed refuse_busy_session undo_claim
    detach_expired_claim free_claim_owner reset_in_progress_review_for_expired_claim update_reviews
    update_sessions update_subtasks update_reservations release_owner_reservations any_followup
    dependency_satisfied followup_chain is_satisfied subtask_dependencies_satisfied
    Operation-discrete ReviewState-discrete SessionRole-discrete SubtaskState-discrete
    record_direct_outcome record_direct_outcome_tx check_outcome insert_outcome
    release_active_reservations resolve_reservation_overlap_conflicts release_claim_body
    refresh_meta_task_state desired_state write_meta_state codecs decide
outcome_succeeds = refl

record_direct_outcome-Current_example : Current 2 30 1 200 working_store
record_direct_outcome-Current_example =
    record_direct_outcome-Current subtask_finished success 200 200 working_store
      (after (record_direct_outcome_tx subtask_finished success 200 200 working_store))
      success_result outcome_succeeds

release_succeeds :
    release_claim_body held_ref 200 200 working_store
    ≡ ok tt (after (release_claim_body held_ref 200 200 working_store))
unfolding with_write_tx ◌>>=◌ advance_lease_clock append_event append_session_event fail gets guard
    modify on_some or_fail pure for_each with_idempotent_mutation run_and_record replay find
    exists_row count insert select update_where require_active_session load_session
    ensure_positive_lease_duration subtask_exists load_subtask bump_fence close_claim_and_detach
    ensure_meta_task_is_schedulable held_claim_owner issue_fence_seq load_meta_task next_fence
    require_session_can_claim_kind require_current_claim load_claim clear_session_active_subtask
    ensure_subtask_transition subtask_edge claim_subtask claim_subtask_body ensure_idle
    claim_selected_subtask expire_claim_if_needed_for_subtask stale_claim check_claimable
    expire_claim insert_claim mark_session_busy mark_subtask_claimed refuse_busy_session undo_claim
    detach_expired_claim free_claim_owner reset_in_progress_review_for_expired_claim update_reviews
    update_sessions update_subtasks update_reservations release_owner_reservations any_followup
    dependency_satisfied followup_chain is_satisfied subtask_dependencies_satisfied
    Operation-discrete ReviewState-discrete SessionRole-discrete SubtaskState-discrete
    record_direct_outcome record_direct_outcome_tx check_outcome insert_outcome
    release_active_reservations resolve_reservation_overlap_conflicts release_claim_body
    refresh_meta_task_state desired_state write_meta_state codecs decide
release_succeeds = refl

release_claim-Current_example : Current 2 30 1 200 working_store
release_claim-Current_example =
    release_claim-Current held_ref 200 200 working_store
      (after (release_claim_body held_ref 200 200 working_store)) tt release_succeeds

record_direct_outcome-once_example :
    record_direct_outcome_tx subtask_finished success
      (max
        (run codecs some_calls (
          after
            (record_direct_outcome_tx subtask_finished success 200 200 working_store))).last_tick_ms
        300)
      300
      (ticked 300 (
        run codecs some_calls
          (after (record_direct_outcome_tx subtask_finished success 200 200 working_store))))
    ≢ ok success_result working_store
record_direct_outcome-once_example =
    record_direct_outcome-once codecs some_calls working_store
      (after (record_direct_outcome_tx subtask_finished success 200 200 working_store))
      working_store subtask_finished subtask_finished success success 200 200 300 success_result
      success_result outcome_succeeds refl

idle_store-Inv : Inv idle_store
unfolding count
idle_store-Inv = record {
  session_key = λ t. ground arith;
  one_active = λ p. ground arith;
  claim_key = λ c. omega arith;
  one_held = λ t. omega arith;
  fence_issued = λ t f h. omega arith;
  fence_unique = λ t f. omega arith;
}

claim_body_succeeds :
    claim_subtask_body claim_req 30 200 200 idle_store
    ≡ ok claimed_result (after (claim_subtask_body claim_req 30 200 200 idle_store))
unfolding with_write_tx ◌>>=◌ advance_lease_clock append_event append_session_event fail gets guard
    modify on_some or_fail pure for_each with_idempotent_mutation run_and_record replay find
    exists_row count insert select update_where require_active_session load_session
    ensure_positive_lease_duration subtask_exists load_subtask bump_fence close_claim_and_detach
    ensure_meta_task_is_schedulable held_claim_owner issue_fence_seq load_meta_task next_fence
    require_session_can_claim_kind require_current_claim load_claim clear_session_active_subtask
    ensure_subtask_transition subtask_edge claim_subtask claim_subtask_body ensure_idle
    claim_selected_subtask expire_claim_if_needed_for_subtask stale_claim check_claimable
    expire_claim insert_claim mark_session_busy mark_subtask_claimed refuse_busy_session undo_claim
    detach_expired_claim free_claim_owner reset_in_progress_review_for_expired_claim update_reviews
    update_sessions update_subtasks update_reservations release_owner_reservations any_followup
    dependency_satisfied followup_chain is_satisfied subtask_dependencies_satisfied
    Operation-discrete ReviewState-discrete SessionRole-discrete SubtaskState-discrete
    record_direct_outcome record_direct_outcome_tx check_outcome insert_outcome
    release_active_reservations resolve_reservation_overlap_conflicts release_claim_body
    refresh_meta_task_state desired_state write_meta_state codecs decide
claim_body_succeeds = refl

claim_subtask-Newest_example :
    Newest 20 30 1 (after (claim_subtask_body claim_req 30 200 200 idle_store))
claim_subtask-Newest_example =
    claim_subtask-Newest claim_req 30 200 200 idle_store
      (after (claim_subtask_body claim_req 30 200 200 idle_store)) claimed_result idle_store-Inv
      claim_body_succeeds
