-- ===== src/Reviews/Requesting.antt =====
-- `request_review` of src/ops/workflow/artifact_review.rs, with `ensure_no_open_review_round` and
-- `require_session_can_request_review` of src/validators.rs.
use covey.Common.{ℕ, Bool, not, ◌&&◌, Option, none, some, ◌==◌, is_key, exists_row, insert, [], ◌∷◌}
use covey.Model.State.{
  ObjectType, executor, orchestrator, SubtaskKind, SubtaskState, CompletionPolicy, EvidencePolicy,
  ReviewState, is_work, is_state,
}
use covey.Model.Errors.{
  subtask_state, illegal_transition, review_kind_mismatch, completion_policy_violation,
  unknown_artifact_digest, review_already_open, duplicate_subtask_id, database_error, wrong_role,
  PolicyOperation,
}
use covey.Model.Rows.{Session, Subtask, Review, review_requested}
use covey.Txn.{Tx, pure, guard, gets, modify, ◌>>=◌, ◌>>◌, with_write_tx, append_session_event}
use covey.Txn.Idempotent.{Codec, Mutation, with_idempotent_mutation}
use covey.Validators.Transitions.{ensure_subtask_transition}
use covey.Validators.{
  load_subtask, require_active_session, ensure_meta_task_is_schedulable, contains_role,
  subtask_exists,
}
use covey.Lifecycle.Statements.{update_subtasks}
use covey.Lifecycle.Completing.{is_direct}
use covey.Lifecycle.Creating.{insert_fence_counter, requested_id}
use covey.Reviews.Publishing.{has_digest, is_open_round}

pub record RequestReviewReq : Type 0 where
  pub session_token : ℕ
  pub subtask_id : ℕ
  pub artifact_digest : ℕ
  pub review_subtask_id : Option ℕ
  pub priority : ℕ

unfoldable pub require_session_can_request_review : Session → Tx (Unit {0})
require_session_can_request_review session =
    guard (contains_role (executor ∷ orchestrator ∷ []) session.role)
      (wrong_role (executor ∷ orchestrator ∷ []) session.role)

unfoldable pub require_review_policy : CompletionPolicy → PolicyOperation → Tx (Unit {0})
require_review_policy policy operation =
    guard (not (is_direct policy)) (completion_policy_violation operation policy)

unfoldable pub ensure_artifact_exists : ℕ → Tx (Unit {0})
ensure_artifact_exists digest = do
  known ← gets λ s. exists_row (has_digest digest) s.artifacts
  guard known (unknown_artifact_digest digest)

-- An open round of a subtask on a digest.
abbrev pub open_round : ℕ → ℕ → Review → Bool
open_round subtask_id digest r =
    r.subtask_id == subtask_id && (r.artifact_digest == digest && is_open_round r.state)

unfoldable pub ensure_no_open_review_round : ℕ → ℕ → Tx (Unit {0})
ensure_no_open_review_round subtask_id digest = do
  existing ← gets λ s. exists_row (open_round subtask_id digest) s.reviews
  guard (not existing) (review_already_open subtask_id digest)

-- The row leaves `evidence_policy` to the column's default, `required`.
abbrev pub review_subtask : (ℕ → ℕ) → RequestReviewReq → Subtask → ℕ → ℕ → Subtask
review_subtask title_for req subtask id now = record {
  subtask_id = id;
  meta_task_id = subtask.meta_task_id;
  title = title_for req.artifact_digest;
  kind = SubtaskKind.review;
  review_target_subtask_id = some req.subtask_id;
  review_target_artifact_digest = some req.artifact_digest;
  state = SubtaskState.available;
  current_claim_id = none;
  artifact_digest = none;
  priority = req.priority;
  completion_policy = subtask.completion_policy;
  routing_key = subtask.routing_key;
  evidence_policy = EvidencePolicy.required;
  created_at = now;
  updated_at = now;
}

-- `INSERT INTO reviews`, which the primary key may refuse.
unfoldable pub insert_review : Review → Tx (Unit {0})
insert_review row = do
  taken ← gets λ s. exists_row (λ r. r.review_id == row.review_id) s.reviews
  guard (not taken) database_error
  modify λ s. record s { reviews = insert row s.reviews }

abbrev pub new_review : RequestReviewReq → ℕ → ℕ → ℕ → Review
new_review req review_id review_subtask_id now = record {
  review_id = review_id;
  subtask_id = req.subtask_id;
  artifact_digest = req.artifact_digest;
  reviewer_session = req.session_token;
  review_subtask_id = review_subtask_id;
  verdict = none;
  findings_digest = none;
  state = ReviewState.requested;
  created_at = now;
  updated_at = now;
}

-- The guards down to the first write.
unfoldable pub check_review_request : RequestReviewReq → Tx Subtask
unfolding require_session_can_request_review require_review_policy ensure_artifact_exists
check_review_request req = do
  session ← require_active_session req.session_token
  require_session_can_request_review session
  subtask ← load_subtask req.subtask_id
  guard (is_work subtask.kind) review_kind_mismatch
  require_review_policy subtask.completion_policy PolicyOperation.request_review
  ensure_meta_task_is_schedulable subtask.meta_task_id
  guard (is_key subtask.artifact_digest req.artifact_digest)
      (unknown_artifact_digest req.artifact_digest)
  ensure_artifact_exists req.artifact_digest
  pure subtask

-- The insertion of the review's own subtask.
unfoldable pub insert_review_subtask : (ℕ → ℕ) → RequestReviewReq → Subtask → ℕ → ℕ → Tx (Unit {0})
insert_review_subtask title_for req subtask id now = do
  taken ← subtask_exists id
  guard (not taken) (duplicate_subtask_id id)
  modify
      λ s. record s { subtasks = insert (review_subtask title_for req subtask id now) s.subtasks }
  insert_fence_counter id

unfoldable pub mark_review_pending : RequestReviewReq → Subtask → ℕ → Tx (Unit {0})
mark_review_pending req subtask now = do
  updated ←
      update_subtasks
        (λ r.
          r.subtask_id == req.subtask_id
          && is_state r.state subtask.state
          && is_key r.artifact_digest req.artifact_digest)
        (λ r. record r { state = SubtaskState.review_pending; updated_at = now })
  guard (updated == 1) (
      illegal_transition (subtask_state subtask.state) (subtask_state SubtaskState.review_pending)
        ObjectType.subtask)

-- `title_for` is the text that `format!` writes of a digest, and `fresh_id` and `review_id` are what
-- `make_id` draws.
unfoldable pub request_review_body : (ℕ → ℕ) → RequestReviewReq → ℕ → ℕ → ℕ → Tx ℕ
unfolding check_review_request insert_review_subtask insert_review mark_review_pending
request_review_body title_for req fresh_id review_id now = do
  subtask ← check_review_request req
  ensure_no_open_review_round req.subtask_id req.artifact_digest
  ensure_subtask_transition subtask.kind subtask.state SubtaskState.review_pending
  insert_review_subtask title_for req subtask (requested_id req.review_subtask_id fresh_id) now
  insert_review (new_review req review_id (requested_id req.review_subtask_id fresh_id) now)
  mark_review_pending req subtask now
  append_session_event review_requested ObjectType.review review_id req.session_token now
  pure review_id

unfoldable pub request_review : Codec ℕ → Mutation → (ℕ → ℕ) → RequestReviewReq → ℕ → ℕ → ℕ → Tx ℕ
request_review codec m title_for req fresh_id review_id now = with_write_tx (
    with_idempotent_mutation codec m now (request_review_body title_for req fresh_id review_id now))
