-- ===== src/Witnesses/Choosing.antt =====
-- The theorems on the choice of the next subtask at concrete stores.
use mathlib.Core.Bool.{decide}
use covey.Txn.{
  with_write_tx, advance_lease_clock, append_event, append_session_event, fail, gets, guard, modify,
  on_some, or_fail, pure, for_each,
}
use covey.Txn.Idempotent.{with_idempotent_mutation, run_and_record, replay}
use covey.Validators.{
  require_active_session, load_session, ensure_positive_lease_duration, subtask_exists,
  load_subtask, bump_fence, close_claim_and_detach, ensure_meta_task_is_schedulable,
  held_claim_owner, issue_fence_seq, load_meta_task, next_fence, require_session_can_claim_kind,
  require_current_claim, load_claim, clear_session_active_subtask,
}
use covey.Validators.Transitions.{ensure_subtask_transition, subtask_edge}
use covey.Lifecycle.Claiming.{
  claim_subtask, claim_subtask_body, ensure_idle, claim_selected_subtask,
  expire_claim_if_needed_for_subtask, stale_claim, check_claimable, expire_claim, insert_claim,
  mark_session_busy, mark_subtask_claimed, refuse_busy_session, undo_claim,
}
use covey.Lifecycle.Statements.{
  detach_expired_claim, free_claim_owner, reset_in_progress_review_for_expired_claim,
  update_reviews, update_sessions, update_subtasks, update_reservations, release_owner_reservations,
}
use covey.Dependencies.{any_followup, dependency_satisfied, followup_chain, is_satisfied}
use covey.Model.Rows.{Operation-discrete}
use covey.Model.State.{ReviewState-discrete}
use covey.Lifecycle.Completing.{
  record_direct_outcome, record_direct_outcome_tx, check_outcome, insert_outcome,
  release_active_reservations, resolve_reservation_overlap_conflicts,
}
use covey.Lifecycle.Holding.{release_claim_body}
use covey.MetaTasks.{refresh_meta_task_state, desired_state, write_meta_state}
use covey.Lifecycle.Creating.{insert_fence_counter}
use covey.Common.{
  ◌↔◌, Among, ◌≡◌, refl, ◌≤◌, ◌-◌, ◌*◌, ◌+◌, none, some, inl, arith, exists_row, find, count,
  insert, select, update_where,
}
use covey.Model.State.{
  SubtaskKind, SubtaskState, EvidencePolicy, SubtaskState-discrete, SessionRole-discrete,
}
use covey.Model.Rows.{Store, Subtask, Session}
use covey.Txn.{ok, after, ◌>>=◌}
use covey.Validators.{has_subtask_id}
use covey.Dependencies.{subtask_dependencies_satisfied}
use covey.Lifecycle.Claiming.{ClaimResult}
use covey.Lifecycle.Selecting.{effective_priority, ordered_claim_candidate}
use covey.Lifecycle.Selecting.Minimum.{first_least}
use covey.Lifecycle.Selecting.Eligible.{Eligible}
use covey.Lifecycle.Selecting.Fair.{
  Next, ordered_claim_candidate-Next, ordered_claim_candidate-none, ordered_claim_candidate_aged,
  effective_priority-bounds,
}
use covey.Lifecycle.Following.{Repairs, create_review_followup_subtask}
use covey.Common.{[], ◌∷◌}
use covey.Model.State.{ReviewVerdict, ReviewState}
use covey.Lifecycle.Following.Inherited.{create_review_followup_subtask_inherits}
use covey.Lifecycle.ClaimingNext.{
  ClaimNextReq, claim_candidate, claim_or_none, caught, is_lost_claim,
}
use covey.Lifecycle.Taking.{claim_candidate-Next}
use covey.Witnesses.Data.{working, idle_store, executor_session}

-- Subtask 20 as it waits.
abbrev waiting : Subtask
waiting = record working { state = SubtaskState.available; current_claim_id = none }

chosen :
    ordered_claim_candidate SubtaskKind.work SubtaskState.available 0 none 200 idle_store
    ≡ some waiting
unfolding ordered_claim_candidate first_least decide SubtaskState-discrete exists_row
    subtask_dependencies_satisfied
chosen = refl

ordered_claim_candidate-Next_example :
    Next SubtaskKind.work idle_store SubtaskState.available 0 none 200 waiting
ordered_claim_candidate-Next_example =
    ordered_claim_candidate-Next SubtaskKind.work SubtaskState.available 0 none 200 idle_store
      chosen

ordered_claim_candidate-none_example :
    (ordered_claim_candidate SubtaskKind.work SubtaskState.available 7 none 200 idle_store ≡ none)
    ↔ ((q : Subtask)
        → Among q idle_store.subtasks
        → ¬ Eligible SubtaskKind.work idle_store SubtaskState.available 7 none q)
ordered_claim_candidate-none_example =
    ordered_claim_candidate-none SubtaskKind.work SubtaskState.available 7 none 200 idle_store

ordered_claim_candidate_aged_example : waiting.priority * 30000 ≤ 40000 - waiting.created_at
unfolding ordered_claim_candidate first_least decide SubtaskState-discrete exists_row
    subtask_dependencies_satisfied
ordered_claim_candidate_aged_example =
    ordered_claim_candidate_aged SubtaskState.available 0 none 40000 idle_store waiting (inl refl)
      refl (omega arith) refl

effective_priority-bounds_example :
    (effective_priority 200 waiting ≤ waiting.priority)
    × ((effective_priority 300 waiting ≤ effective_priority 200 waiting)
        × (effective_priority (waiting.created_at + waiting.priority * 30000) waiting ≡ 0))
effective_priority-bounds_example = effective_priority-bounds 200 300 waiting (omega arith)

-- An executor without a subtask.
abbrev idle_executor : Session
idle_executor = record executor_session { active_subtask_id = none }

abbrev next_req : ClaimNextReq
next_req = record {
  session_token = 2;
  lease_duration_ms = 300;
  routing_key = 0;
  meta_task_id = none;
}

abbrev claimed : ClaimResult
claimed = record { claim_id = 30; subtask_id = 20; fence_seq = 1; lease_deadline = 500 }

abbrev claimed_store : Store
claimed_store =
    after (claim_candidate idle_executor next_req SubtaskKind.work 30 200 200 idle_store)

claims :
    claim_candidate idle_executor next_req SubtaskKind.work 30 200 200 idle_store
    ≡ ok (some claimed) claimed_store
unfolding claim_candidate claim_or_none caught is_lost_claim ordered_claim_candidate first_least
    with_write_tx ◌>>=◌ advance_lease_clock append_event append_session_event fail gets guard modify
    on_some or_fail pure for_each with_idempotent_mutation run_and_record replay find exists_row
    count insert select update_where require_active_session load_session
    ensure_positive_lease_duration subtask_exists load_subtask bump_fence close_claim_and_detach
    ensure_meta_task_is_schedulable held_claim_owner issue_fence_seq load_meta_task next_fence
    require_session_can_claim_kind require_current_claim load_claim clear_session_active_subtask
    ensure_subtask_transition subtask_edge claim_subtask claim_subtask_body ensure_idle
    claim_selected_subtask expire_claim_if_needed_for_subtask stale_claim check_claimable
    expire_claim insert_claim mark_session_busy mark_subtask_claimed refuse_busy_session undo_claim
    detach_expired_claim free_claim_owner reset_in_progress_review_for_expired_claim update_reviews
    update_sessions update_subtasks update_reservations release_owner_reservations any_followup
    dependency_satisfied followup_chain is_satisfied subtask_dependencies_satisfied
    Operation-discrete ReviewState-discrete SessionRole-discrete SubtaskState-discrete
    record_direct_outcome record_direct_outcome_tx check_outcome insert_outcome
    release_active_reservations resolve_reservation_overlap_conflicts release_claim_body
    refresh_meta_task_state desired_state write_meta_state decide
claims = refl

claim_candidate-Next_example :
    (r : Subtask) × ((r.subtask_id ≡ 20)
      × Next SubtaskKind.work idle_store SubtaskState.available 0 none 200 r)
claim_candidate-Next_example =
    claim_candidate-Next idle_executor next_req SubtaskKind.work 30 200 200 idle_store claims

abbrev repairs : Repairs
repairs = record { title_for = λ id. 1000 + id; id_for = λ id. 2000 + id }

abbrev repaired_store : Store
repaired_store = after (create_review_followup_subtask repairs working 40 300 idle_store)

repairs_it :
    create_review_followup_subtask repairs working 40 300 idle_store ≡ ok 2040 repaired_store
unfolding create_review_followup_subtask ◌>>=◌ subtask_exists exists_row insert_fence_counter
repairs_it = refl

create_review_followup_subtask_inherits_example :
    (r : Subtask) × ((find (has_subtask_id 2040) repaired_store.subtasks ≡ some r)
      × ((r.meta_task_id ≡ working.meta_task_id)
          × ((r.priority ≡ working.priority)
              × ((r.completion_policy ≡ working.completion_policy)
                  × ((r.routing_key ≡ working.routing_key)
                      × (r.evidence_policy ≡ EvidencePolicy.required))))))
create_review_followup_subtask_inherits_example =
    create_review_followup_subtask_inherits repairs working 40 300 idle_store repairs_it

-- Work whose review asked for changes, and its follow-up, which was given up.
abbrev rejected : Subtask
rejected = record working { state = SubtaskState.changes_requested }

abbrev given_up : Subtask
given_up = record working {
  subtask_id = 21;
  state = SubtaskState.abandoned;
  current_claim_id = none;
}

abbrev given_up_store : Store
given_up_store = record idle_store {
  subtasks = rejected ∷ given_up ∷ [];
  reviews =
      record {
        review_id = 40;
        subtask_id = 20;
        artifact_digest = 70;
        reviewer_session = 3;
        review_subtask_id = 22;
        verdict = some ReviewVerdict.changes_requested;
        findings_digest = some 90;
        state = ReviewState.decided;
        created_at = 100;
        updated_at = 100;
      }
      ∷ [];
  followups = record { review_id = 40; source_subtask_id = 20; followup_subtask_id = 21 } ∷ [];
}
