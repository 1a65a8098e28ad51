-- ===== src/Reviews/Deciding.antt =====
-- `decide_review` of src/ops/workflow/artifact_review.rs.
use covey.Common.{
  ℕ, Bool, true, false, not, ◌&&◌, none, some, if◌then◌else◌, ◌==◌, is_key, find, [], ◌∷◌,
}
use covey.Model.State.{
  ObjectType, SubtaskState, CompletionPolicy, ArtifactKind, ReviewState, ReviewVerdict, ClaimState,
  reviewer, SettlementTarget, is_state, is_review_state,
}
use covey.Model.Errors.{
  subtask_state, review_state, illegal_transition, unknown_artifact_digest, review_not_found,
  fence_token_mismatch, separation_of_duties_violation, stale_review_artifact, PolicyOperation,
}
use covey.Model.Rows.{Session, Subtask, Claim, Review, review_decided}
use covey.Txn.{
  Tx, pure, fail, guard, gets, or_fail, on_some, ◌>>=◌, ◌>>◌, with_write_tx, advance_lease_clock,
  append_session_event,
}
use covey.Txn.Idempotent.{Codec, Mutation, with_idempotent_mutation}
use covey.Validators.Transitions.{ensure_subtask_transition, ensure_review_transition}
use covey.Validators.{
  load_session, load_subtask, load_claim, require_role, require_current_claim,
  ensure_meta_task_is_schedulable, require_session_can_claim_kind, close_claim_and_detach,
  clear_session_active_subtask,
}
use covey.Lifecycle.Statements.{update_subtasks, update_reviews, holds_claim}
use covey.Lifecycle.Completing.{release_active_reservations}
use covey.Lifecycle.Following.{Repairs, create_review_followup_subtask}
use covey.MetaTasks.{refresh_meta_task_state}
use covey.Reviews.Publishing.{is_applyable_artifact_kind}
use covey.Reviews.Requesting.{require_review_policy}
use covey.Reviews.Enqueuing.{load_artifact, is_canonical, enqueue_approved_subtask_for_apply}

pub record DecideReviewReq : Type 0 where
  pub session_token : ℕ
  pub review_id : ℕ
  pub claim_id : ℕ
  pub fence_seq : ℕ
  pub verdict : ReviewVerdict
  pub findings_digest : ℕ

pub data FailedReviewVerdict : Type 0 where
  changes_requested blocked : FailedReviewVerdict

pub data ReviewDecisionResult : Type 0 where
  approved : ℕ → ReviewDecisionResult
  failed : ℕ → FailedReviewVerdict → ℕ → ReviewDecisionResult

abbrev pub has_review_id : ℕ → Review → Bool
has_review_id id r = r.review_id == id

unfoldable pub load_review : ℕ → Tx Review
load_review id = do
  found ← gets λ s. find (has_review_id id) s.reviews
  or_fail found review_not_found

-- The reviewer is not the principal that produced the artifact.
unfoldable pub ensure_separation_of_duties : Session → Review → Tx (Unit {0})
unfolding load_artifact
ensure_separation_of_duties session review = do
  artifact ← load_artifact review.artifact_digest
  producer_session ← load_session artifact.produced_by_session
  guard (not (producer_session.agent_principal_id == session.agent_principal_id)) (
      separation_of_duties_violation session.agent_principal_id producer_session.agent_principal_id)

-- The artifact under review is still the current one of the work subtask.
unfoldable pub ensure_artifact_is_current : Review → Subtask → Tx (Unit {0})
ensure_artifact_is_current review work =
    if is_key work.artifact_digest review.artifact_digest
    then pure tt
    else on_some work.artifact_digest (fail (unknown_artifact_digest review.artifact_digest))
        (λ current.
          fail (
            stale_review_artifact review.review_id review.subtask_id review.artifact_digest
              current))

pub record Checked : Type 0 where
  pub claim : Claim
  pub review : Review
  pub review_subtask : Subtask
  pub work_subtask : Subtask

-- The guards down to the first write, with the rows that they load.
unfoldable pub check_decision : DecideReviewReq → ℕ → Tx Checked
unfolding load_review ensure_separation_of_duties ensure_artifact_is_current
check_decision req lease_now = do
  session ← require_role req.session_token (reviewer ∷ [])
  claim ← require_current_claim req.session_token req.claim_id req.fence_seq lease_now
  review ← load_review req.review_id
  guard (claim.subtask_id == review.review_subtask_id) fence_token_mismatch
  review_subtask ← load_subtask review.review_subtask_id
  ensure_meta_task_is_schedulable review_subtask.meta_task_id
  require_session_can_claim_kind session review_subtask.kind
  ensure_separation_of_duties session review
  work_subtask ← load_subtask review.subtask_id
  ensure_artifact_is_current review work_subtask
  ensure_review_transition review.state ReviewState.decided
  pure (record {
    claim = claim;
    review = review;
    review_subtask = review_subtask;
    work_subtask = work_subtask;
  })

unfoldable pub mark_decided : DecideReviewReq → Review → ℕ → Tx (Unit {0})
mark_decided req review now = do
  review_updated ←
      update_reviews (λ r. r.review_id == req.review_id && is_review_state r.state review.state)
        (λ r. record r {
          reviewer_session = req.session_token;
          verdict = some req.verdict;
          findings_digest = some req.findings_digest;
          state = ReviewState.decided;
          updated_at = now;
        })
  guard (review_updated == 1) (
      illegal_transition (review_state review.state) (review_state ReviewState.decided)
        ObjectType.review)

-- The review subtask is decided, its claim released and its reviewer freed.
unfoldable pub close_review_subtask : DecideReviewReq → Claim → Subtask → ℕ → Tx (Unit {0})
close_review_subtask req claim review_subtask now = do
  ensure_subtask_transition review_subtask.kind review_subtask.state SubtaskState.decided
  subtask_updated ←
      update_subtasks
        (λ r.
          holds_claim review_subtask.subtask_id claim.claim_id r
          && is_state r.state review_subtask.state)
        (λ r. record r { state = SubtaskState.decided; current_claim_id = none; updated_at = now })
  guard (subtask_updated == 1) (
      illegal_transition (subtask_state review_subtask.state) (subtask_state SubtaskState.decided)
        ObjectType.subtask)
  close_claim_and_detach claim ClaimState.released now
  clear_session_active_subtask req.session_token now

-- The state that a verdict brings the work subtask to.
unfoldable pub work_state_for : ReviewVerdict → CompletionPolicy → ArtifactKind → SubtaskState
work_state_for ReviewVerdict.approve CompletionPolicy.reviewed kind = SubtaskState.completed
work_state_for ReviewVerdict.approve _ kind =
    if is_applyable_artifact_kind kind then SubtaskState.approved else SubtaskState.applied
work_state_for ReviewVerdict.changes_requested policy kind = SubtaskState.changes_requested
work_state_for ReviewVerdict.blocked policy kind = SubtaskState.blocked

-- A subtask that completes lets go of its producer's claim and its reservations.
unfoldable pub release_producer : Subtask → ℕ → Tx (Unit {0})
release_producer work now = do
  on_some work.current_claim_id (pure tt) (λ id. do
    claim ← load_claim id
    close_claim_and_detach claim ClaimState.released now
    clear_session_active_subtask claim.owner_session_token now)
  release_active_reservations work.subtask_id now

unfoldable pub move_work_subtask : Review → Subtask → SubtaskState → ℕ → Tx (Unit {0})
unfolding release_producer
move_work_subtask review work work_state now = do
  ensure_subtask_transition work.kind work.state work_state
  if is_state work_state SubtaskState.completed then release_producer work now else pure tt
  work_updated ←
      update_subtasks
        (λ r.
          r.subtask_id == review.subtask_id
          && is_key r.artifact_digest review.artifact_digest
          && is_state r.state work.state)
        (λ r. record r {
          state = work_state;
          current_claim_id =
              if is_state work_state SubtaskState.completed then none else r.current_claim_id;
          updated_at = now;
        })
  guard (work_updated == 1)
      (illegal_transition (subtask_state work.state) (subtask_state work_state) ObjectType.subtask)

-- The decision, with the repair follow-up of a failed verdict.
unfoldable pub conclude :
    Repairs → DecideReviewReq → Subtask → ReviewVerdict → ℕ → Tx ReviewDecisionResult
conclude repairs req work ReviewVerdict.approve now = pure (approved req.review_id)
conclude repairs req work ReviewVerdict.changes_requested now = do
  id ← create_review_followup_subtask repairs work req.review_id now
  pure (failed req.review_id FailedReviewVerdict.changes_requested id)
conclude repairs req work ReviewVerdict.blocked now = do
  id ← create_review_followup_subtask repairs work req.review_id now
  pure (failed req.review_id FailedReviewVerdict.blocked id)

abbrev pub is_approve : ReviewVerdict → Bool
is_approve ReviewVerdict.approve = true
is_approve _ = false

-- An approved artifact that is to be applied enters the queue. The stores hold no OpenSpec scopes, so
-- the archive blocker of one that cannot be applied has nothing to record.
unfoldable pub enqueue_if_applyable :
    ℕ → DecideReviewReq → Review → Subtask → ArtifactKind → ℕ → Tx (Unit {0})
enqueue_if_applyable queue_id req review work kind now =
    if is_approve req.verdict
      && is_canonical work.completion_policy
      && is_applyable_artifact_kind kind
    then (do
      queued ←
          enqueue_approved_subtask_for_apply queue_id req.session_token review.subtask_id
            review.artifact_digest SettlementTarget.canonical now
      pure tt)
    else pure tt

-- The writes.
unfoldable pub apply_decision :
    Repairs → DecideReviewReq → ℕ → ℕ → Checked → Tx ReviewDecisionResult
unfolding mark_decided close_review_subtask work_state_for move_work_subtask conclude
    enqueue_if_applyable
apply_decision repairs req queue_id now found = do
  mark_decided req found.review now
  close_review_subtask req found.claim found.review_subtask now
  artifact ← load_artifact found.review.artifact_digest
  require_review_policy found.work_subtask.completion_policy PolicyOperation.decide_review
  move_work_subtask found.review found.work_subtask
      (work_state_for req.verdict found.work_subtask.completion_policy artifact.artifact_kind) now
  decision ← conclude repairs req found.work_subtask req.verdict now
  append_session_event review_decided ObjectType.review req.review_id req.session_token now
  enqueue_if_applyable queue_id req found.review found.work_subtask artifact.artifact_kind now
  refresh_meta_task_state found.work_subtask.meta_task_id now
  pure decision

unfoldable pub decide_review_body : Repairs → DecideReviewReq → ℕ → ℕ → ℕ → Tx ReviewDecisionResult
unfolding check_decision apply_decision
decide_review_body repairs req queue_id lease_now now = do
  found ← check_decision req lease_now
  apply_decision repairs req queue_id now found

unfoldable pub decide_review :
    Codec ReviewDecisionResult
    → Mutation
    → Repairs
    → DecideReviewReq
    → ℕ
    → ℕ
    → Tx ReviewDecisionResult
decide_review codec m repairs req queue_id now = with_write_tx do
  lease_now ← advance_lease_clock now
  with_idempotent_mutation codec m now (decide_review_body repairs req queue_id lease_now now)
