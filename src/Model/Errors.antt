-- ===== src/Model/Errors.antt =====
-- src/error.rs: the errors that the modelled operations return, and the state labels of
-- src/model/state.rs that transition errors carry.
use covey.Common.{ℕ, List}
use covey.Model.State.{
  ObjectType, SessionRole, SessionState, MetaTaskState, SubtaskState, CompletionPolicy, ClaimState,
  ReviewState, ReadyQueueState, ReservationState, ConflictResolutionState, AttemptOutcomeKind,
  ArtifactKind,
}

pub data StateValue : Type 0 where
  session_state : SessionState → StateValue
  meta_task_state : MetaTaskState → StateValue
  subtask_state : SubtaskState → StateValue
  claim_state : ClaimState → StateValue
  review_state : ReviewState → StateValue
  reservation_state : ReservationState → StateValue
  ready_queue_state : ReadyQueueState → StateValue
  conflict_resolution : ConflictResolutionState → StateValue

-- The label of the operation in a completion-policy error.
pub data PolicyOperation : Type 0 where
  outcome : AttemptOutcomeKind → PolicyOperation
  request_review decide_review enqueue_for_apply mark_applied : PolicyOperation
  publish_artifact : ArtifactKind → PolicyOperation

pub data CoveyError : Type 0 where
  session_not_found subtask_not_found artifact_not_found review_not_found : CoveyError
  meta_task_not_found reservation_not_found claim_not_found queue_item_not_found : CoveyError
  conflict_not_found : CoveyError
  illegal_transition : StateValue → StateValue → ObjectType → CoveyError
  subtask_already_claimed : ℕ → ℕ → CoveyError
  session_already_active : ℕ → CoveyError
  session_not_active : ℕ → SessionState → CoveyError
  session_already_has_active_subtask : ℕ → ℕ → CoveyError
  idempotency_conflict : ℕ → ℕ → CoveyError
  stale_fence_token : ℕ → ℕ → CoveyError
  fence_token_mismatch : CoveyError
  claim_not_held : ℕ → ClaimState → CoveyError
  not_claim_owner : ℕ → ℕ → CoveyError
  not_queue_claim_owner : ℕ → ℕ → CoveyError
  wrong_role : List SessionRole → SessionRole → CoveyError
  lease_expired : ℕ → CoveyError
  meta_task_unavailable : ℕ → MetaTaskState → CoveyError
  completion_policy_violation : PolicyOperation → CompletionPolicy → CoveyError
  attempt_evidence_required : AttemptOutcomeKind → ℕ → CoveyError
  invalid_lease_duration : ℕ → CoveyError
  duplicate_subtask_id : ℕ → CoveyError
  invalid_subtask_dependency : ℕ → CoveyError
  subtask_dependency_not_found : ℕ → ℕ → CoveyError
  artifact_digest_collision unknown_artifact_digest : ℕ → CoveyError
  review_already_open : ℕ → ℕ → CoveyError
  review_kind_mismatch : CoveyError
  separation_of_duties_violation : ℕ → ℕ → CoveyError
  stale_review_artifact : ℕ → ℕ → ℕ → ℕ → CoveyError
  invalid_observability_row invalid_path : CoveyError
  -- The actual size and the limit.
  input_too_large : ℕ → ℕ → CoveyError
  -- Not a value of the source: a failed `expect`, whose unwinding drops the transaction as an error
  -- does.
  panicked : CoveyError
  -- A constraint of a table, such as its primary key, refused a statement.
  database_error : CoveyError
  -- A stored response that `serde_json` does not read back.
  json_error : CoveyError
