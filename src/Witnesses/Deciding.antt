-- ===== src/Witnesses/Deciding.antt =====
-- The theorems on the decision of a review at concrete stores.
use mathlib.Core.Bool.{decide}
use covey.Common.{◌+◌, ◌≡◌, refl, none, some, [], ◌∷◌, find, count, select, update_where, arith}
use covey.Model.State.{CompletionPolicy, SubtaskState, SubtaskState-discrete, SessionRole-discrete}
use covey.Model.Rows.{Store, Operation}
use covey.Txn.{ok, after, ◌>>=◌, fail, gets, guard, modify, on_some, or_fail, pure}
use covey.Validators.{
  require_active_session, load_session, load_subtask, ensure_meta_task_is_schedulable,
  load_meta_task, require_session_can_claim_kind, require_current_claim, load_claim,
}
use covey.Validators.Transitions.{ensure_subtask_transition, subtask_edge}
use covey.Lifecycle.Statements.{update_subtasks}
use covey.Model.State.{ReviewState, ReviewVerdict, SubtaskKind, reviewer, ReviewState-discrete}
use covey.Model.Rows.{Session, Review, Subtask}
use covey.Txn.{append_event, append_session_event}
use covey.Common.{ℕ, zero, suc, List, Option, insert, exists_row}
use covey.Lifecycle.Following.{Repairs}
use covey.Lifecycle.Statements.{update_reviews, update_sessions}
use covey.MetaTasks.{refresh_meta_task_state, desired_state, write_meta_state}
use covey.Validators.{require_role, close_claim_and_detach, clear_session_active_subtask}
use covey.Validators.Transitions.{ensure_review_transition, review_edge}
use covey.Reviews.Publishing.{is_applyable_artifact_kind}
use covey.Reviews.Requesting.{require_review_policy}
use covey.Reviews.Enqueuing.{
  enqueue_approved_subtask_for_apply, require_canonical_apply_policy, ensure_applyable_artifact,
  supersede_pending_items, insert_ready_queue_item, load_artifact,
}
use covey.Reviews.Deciding.{
  DecideReviewReq, ReviewDecisionResult, FailedReviewVerdict, failed, approved, decide_review_body,
  check_decision, apply_decision, load_review, ensure_separation_of_duties,
  ensure_artifact_is_current, mark_decided, close_review_subtask, work_state_for, move_work_subtask,
  conclude, enqueue_if_applyable, release_producer, decide_review,
}
use covey.Txn.Idempotent.{Codec}
use covey.Reviews.Pending.{SinglePending, decide_review-SinglePending}
use covey.Reviews.Duties.{decide_review_body_separates}
use covey.Witnesses.Data.{executor_session, held_until_500, key, working}
use covey.Queue.{EnqueueForApplyReq, enqueue_for_apply}
use covey.Queue.Filing.{enqueue_for_apply-SinglePending}
use covey.Model.State.{SettlementTarget}
use covey.Model.State.{orchestrator}
use covey.Witnesses.Data.{codecs}
use covey.Witnesses.Reviewing.{bundle, published_store}

-- The reviewer, of another principal than the producer.
abbrev reviewer_session : Session
reviewer_session = record executor_session {
  session_token = 3;
  agent_principal_id = 7;
  role = reviewer;
  active_subtask_id = some 21;
}

abbrev review_round : Review
review_round = record {
  review_id = 40;
  subtask_id = 20;
  artifact_digest = 70;
  reviewer_session = 2;
  review_subtask_id = 21;
  verdict = none;
  findings_digest = none;
  state = ReviewState.in_progress;
  created_at = 100;
  updated_at = 100;
}

abbrev under_review : Subtask
under_review = record working {
  subtask_id = 21;
  kind = SubtaskKind.review;
  review_target_subtask_id = some 20;
  review_target_artifact_digest = some 70;
  current_claim_id = some 31;
}

-- Session 3 reviews the artifact 70 of subtask 20.
abbrev reviewing_store : Store
reviewing_store = record published_store {
  sessions = executor_session ∷ reviewer_session ∷ [];
  subtasks =
      record working {
        completion_policy = CompletionPolicy.canonical_apply;
        state = SubtaskState.review_pending;
        artifact_digest = some 70;
      }
      ∷ under_review
      ∷ [];
  claims =
      held_until_500
      ∷ record held_until_500 { claim_id = 31; subtask_id = 21; owner_session_token = 3 }
      ∷ [];
  reviews = review_round ∷ [];
}

abbrev decide_req : DecideReviewReq
decide_req = record {
  session_token = 3;
  review_id = 40;
  claim_id = 31;
  fence_seq = 1;
  verdict = ReviewVerdict.approve;
  findings_digest = 90;
}

abbrev no_repairs : Repairs
no_repairs = record { id_for = λ n. n + 1000; title_for = λ n. n }

abbrev decided_store : Store
decided_store = after (decide_review_body no_repairs decide_req 60 200 200 reviewing_store)

approves :
    decide_review_body no_repairs decide_req 60 200 200 reviewing_store
    ≡ ok (approved 40) decided_store
unfolding decide_review_body check_decision apply_decision load_review ensure_separation_of_duties
    ensure_artifact_is_current mark_decided close_review_subtask work_state_for move_work_subtask
    conclude enqueue_if_applyable enqueue_approved_subtask_for_apply require_canonical_apply_policy
    ensure_applyable_artifact supersede_pending_items insert_ready_queue_item load_artifact
    is_applyable_artifact_kind require_review_policy release_producer require_role
    require_active_session load_session load_subtask ensure_meta_task_is_schedulable load_meta_task
    require_session_can_claim_kind require_current_claim load_claim close_claim_and_detach
    clear_session_active_subtask ensure_subtask_transition subtask_edge ensure_review_transition
    review_edge update_subtasks update_reviews update_sessions refresh_meta_task_state desired_state
    write_meta_state append_event append_session_event ◌>>=◌ fail gets guard modify on_some or_fail
    pure find count insert exists_row select update_where SubtaskState-discrete ReviewState-discrete
    SessionRole-discrete decide
approves = refl

decide_review_body_separates_example :
    ¬ (executor_session.agent_principal_id ≡ reviewer_session.agent_principal_id)
unfolding find
decide_review_body_separates_example =
    decide_review_body_separates no_repairs decide_req 60 200 200 reviewing_store
      {artifact = bundle} {producer = executor_session} refl refl refl refl approves

none_pending : SinglePending reviewing_store
unfolding count
none_pending k = omega arith

decision_to : ReviewDecisionResult → List ℕ
decision_to (approved id) = id ∷ []
decision_to (failed id FailedReviewVerdict.changes_requested followup) = 0 ∷ id ∷ followup ∷ []
decision_to (failed id FailedReviewVerdict.blocked followup) = 1 ∷ id ∷ followup ∷ []

decision_from : List ℕ → Option ReviewDecisionResult
decision_from (id ∷ []) = some (approved id)
decision_from (zero ∷ id ∷ followup ∷ []) =
    some (failed id FailedReviewVerdict.changes_requested followup)
decision_from (suc n ∷ id ∷ followup ∷ []) = some (failed id FailedReviewVerdict.blocked followup)
decision_from text = none

decision_from-to : (d : ReviewDecisionResult) → decision_from (decision_to d) ≡ some d
unfolding decision_from decision_to
decision_from-to (approved id) = refl
decision_from-to (failed id FailedReviewVerdict.changes_requested followup) = refl
decision_from-to (failed id FailedReviewVerdict.blocked followup) = refl

unfoldable of_decision : Codec ReviewDecisionResult
unfolding decision_to decision_from decision_from-to
of_decision = record {
  to_json = decision_to;
  from_json = decision_from;
  from_json-to_json = decision_from-to;
}

decide_review-SinglePending_example : SinglePending (
    after (
      decide_review of_decision
        (key Operation.decide_review 5)
        no_repairs
        decide_req
        60
        200
        reviewing_store))
decide_review-SinglePending_example =
    decide_review-SinglePending of_decision (key Operation.decide_review 5) no_repairs decide_req 60
      200 reviewing_store none_pending

-- The artifact of subtask 20 is approved, and session 2 is an orchestrator's.
abbrev approved_store : Store
approved_store = record published_store {
  sessions = record executor_session { role = orchestrator } ∷ [];
  subtasks =
      record working {
        completion_policy = CompletionPolicy.canonical_apply;
        state = SubtaskState.approved;
        artifact_digest = some 70;
      }
      ∷ [];
}

abbrev enqueue_req : EnqueueForApplyReq
enqueue_req = record {
  session_token = 2;
  artifact_digest = 70;
  subtask_id = 20;
  settlement_target = SettlementTarget.canonical;
}

none_filed : SinglePending approved_store
unfolding count
none_filed k = omega arith

enqueue_for_apply-SinglePending_example : SinglePending (
    after (
      enqueue_for_apply codecs.of_id
        (key Operation.enqueue_for_apply 6)
        enqueue_req
        61
        200
        approved_store))
enqueue_for_apply-SinglePending_example =
    enqueue_for_apply-SinglePending codecs.of_id (key Operation.enqueue_for_apply 6) enqueue_req 61
      200 approved_store none_filed
