-- ===== src/Lifecycle/Holding.antt =====
-- `start_subtask`, `abandon_subtask`, `release_claim` and `renew_claim`.
use covey.Common.{
  ℕ, ◌+◌, max, Bool, true, false, not, ◌&&◌, none, if◌then◌else◌, ◌==◌, find, count, update_where,
}
use covey.Model.State.{
  ObjectType, SubtaskState, ClaimState, ReviewState, is_state, is_review_state, is_review, is_held,
}
use covey.Model.Errors.{subtask_state, claim_state, illegal_transition, database_error}
use covey.Model.Rows.{
  Claim, Review, subtask_started, subtask_abandoned, claim_released, claim_renewed,
}
use covey.Txn.{
  Tx, pure, guard, or_fail, gets, modify, ◌>>=◌, ◌>>◌, with_write_tx, advance_lease_clock,
  append_session_event,
}
use covey.Txn.Idempotent.{Codec, Mutation, with_idempotent_mutation}
use covey.Validators.Transitions.{
  ensure_transition, ensure_subtask_transition, ensure_review_transition,
}
use covey.Validators.{
  load_subtask, require_active_session, require_current_claim, require_session_can_claim_kind,
  ensure_meta_task_is_schedulable, close_claim_and_detach, clear_session_active_subtask,
  ensure_positive_lease_duration,
}
use covey.MetaTasks.{refresh_meta_task_state}
use covey.Lifecycle.Statements.{
  update_subtasks, update_reviews, holds_claim, reopened, release_owner_reservations,
}
use covey.Lifecycle.Claiming.{ClaimResult}

-- The claim that a request names, and the fence that it presents.
pub record ClaimRef : Type 0 where
  pub session_token : ℕ
  pub claim_id : ℕ
  pub fence_seq : ℕ

-- `UPDATE reviews` to `in_progress` for the reviewer who starts.
unfoldable pub begin_review : Review → ℕ → ℕ → ℕ → Tx (Unit {0})
begin_review review review_subtask_id token now = do
  ensure_review_transition review.state ReviewState.in_progress
  rows ←
      update_reviews
        (λ r. r.review_subtask_id == review_subtask_id && is_review_state r.state review.state)
        (λ r. record r {
          state = ReviewState.in_progress;
          reviewer_session = token;
          updated_at = now;
        })
  pure tt

unfoldable pub start_review : ℕ → ℕ → ℕ → Tx (Unit {0})
start_review review_subtask_id token now = do
  row ← gets λ s. find (λ r. r.review_subtask_id == review_subtask_id) s.reviews
  review ← or_fail row database_error
  if is_review_state review.state ReviewState.in_progress
      then pure tt
      else begin_review review review_subtask_id token now

unfoldable pub start_subtask_body : ClaimRef → ℕ → ℕ → Tx (Unit {0})
start_subtask_body req lease_now now = do
  claim ← require_current_claim req.session_token req.claim_id req.fence_seq lease_now
  session ← require_active_session req.session_token
  subtask ← load_subtask claim.subtask_id
  ensure_meta_task_is_schedulable subtask.meta_task_id
  require_session_can_claim_kind session subtask.kind
  ensure_subtask_transition subtask.kind subtask.state SubtaskState.in_progress
  updated ←
      update_subtasks (λ r. r.subtask_id == subtask.subtask_id && is_state r.state subtask.state)
        (λ r. record r { state = SubtaskState.in_progress; updated_at = now })
  guard (updated == 1) (
      illegal_transition (subtask_state subtask.state) (subtask_state SubtaskState.in_progress)
        ObjectType.subtask)
  if is_review subtask.kind then start_review subtask.subtask_id req.session_token now else pure tt
  append_session_event subtask_started ObjectType.subtask subtask.subtask_id req.session_token now

unfoldable pub start_subtask : Codec (Unit {0}) → Mutation → ClaimRef → ℕ → Tx (Unit {0})
start_subtask codec m req now = with_write_tx do
  lease_now ← advance_lease_clock now
  with_idempotent_mutation codec m now (start_subtask_body req lease_now now)

-- `Applied | Completed | Failed | Abandoned`.
abbrev pub is_terminal : SubtaskState → Bool
is_terminal SubtaskState.applied = true
is_terminal SubtaskState.completed = true
is_terminal SubtaskState.failed = true
is_terminal SubtaskState.abandoned = true
is_terminal _ = false

unfoldable pub abandon_subtask_body : ClaimRef → ℕ → ℕ → Tx (Unit {0})
abandon_subtask_body req lease_now now = do
  claim ← require_current_claim req.session_token req.claim_id req.fence_seq lease_now
  session ← require_active_session req.session_token
  subtask ← load_subtask claim.subtask_id
  require_session_can_claim_kind session subtask.kind
  ensure_transition (subtask_state subtask.state) (subtask_state SubtaskState.abandoned)
      ObjectType.subtask (not (is_terminal subtask.state))
  close_claim_and_detach claim ClaimState.released now
  updated ←
      update_subtasks (holds_claim subtask.subtask_id claim.claim_id) (λ r. record r {
        state = SubtaskState.abandoned;
        current_claim_id = none;
        updated_at = now;
      })
  guard (updated == 1) (
      illegal_transition (subtask_state subtask.state) (subtask_state SubtaskState.abandoned)
        ObjectType.subtask)
  clear_session_active_subtask req.session_token now
  refresh_meta_task_state subtask.meta_task_id now
  append_session_event subtask_abandoned ObjectType.subtask subtask.subtask_id req.session_token now

unfoldable pub abandon_subtask : Codec (Unit {0}) → Mutation → ClaimRef → ℕ → Tx (Unit {0})
abandon_subtask codec m req now = with_write_tx do
  lease_now ← advance_lease_clock now
  with_idempotent_mutation codec m now (abandon_subtask_body req lease_now now)

unfoldable pub release_claim_body : ClaimRef → ℕ → ℕ → Tx (Unit {0})
release_claim_body req lease_now now = do
  claim ← require_current_claim req.session_token req.claim_id req.fence_seq lease_now
  session ← require_active_session req.session_token
  subtask ← load_subtask claim.subtask_id
  require_session_can_claim_kind session subtask.kind
  close_claim_and_detach claim ClaimState.released now
  rows ← release_owner_reservations claim.subtask_id now
  updated ←
      update_subtasks (holds_claim subtask.subtask_id claim.claim_id) (λ r. record r {
        state = reopened subtask.state;
        current_claim_id = none;
        updated_at = now;
      })
  guard (updated == 1) (
      illegal_transition (subtask_state subtask.state) (subtask_state (reopened subtask.state))
        ObjectType.subtask)
  clear_session_active_subtask req.session_token now
  append_session_event claim_released ObjectType.claim claim.claim_id req.session_token now

unfoldable pub release_claim : Codec (Unit {0}) → Mutation → ClaimRef → ℕ → Tx (Unit {0})
release_claim codec m req now = with_write_tx do
  lease_now ← advance_lease_clock now
  with_idempotent_mutation codec m now (release_claim_body req lease_now now)

-- The row that `renew_claim` writes: held, of this owner and fence.
abbrev pub renewable : ClaimRef → Claim → Bool
renewable req r =
    r.claim_id == req.claim_id
    && (is_held r.state
        && (r.owner_session_token == req.session_token && r.fence_seq == req.fence_seq))

unfoldable pub renew_claim_body : ClaimRef → ℕ → ℕ → ℕ → Tx ClaimResult
renew_claim_body req extend_by_ms lease_now now = do
  ensure_positive_lease_duration extend_by_ms
  claim ← require_current_claim req.session_token req.claim_id req.fence_seq lease_now
  let renewed_deadline = max claim.lease_deadline lease_now + extend_by_ms
  updated ← gets λ s. count (renewable req) s.claims
  modify λ s. record s {
    claims =
        update_where (renewable req)
          (λ r. record r { lease_deadline = renewed_deadline; updated_at = now }) s.claims;
  }
  guard (updated == 1)
      (illegal_transition (claim_state claim.state) (claim_state claim.state) ObjectType.claim)
  append_session_event claim_renewed ObjectType.claim claim.claim_id req.session_token now
  pure (record {
    claim_id = claim.claim_id;
    subtask_id = claim.subtask_id;
    fence_seq = claim.fence_seq;
    lease_deadline = renewed_deadline;
  })

unfoldable pub renew_claim : Codec ClaimResult → Mutation → ClaimRef → ℕ → ℕ → Tx ClaimResult
renew_claim codec m req extend_by_ms now = with_write_tx do
  lease_now ← advance_lease_clock now
  with_idempotent_mutation codec m now (renew_claim_body req extend_by_ms lease_now now)
