-- ===== src/Reviews/Enqueuing.antt =====
-- `enqueue_approved_subtask_for_apply_tx` of src/ops/queue.rs.
use covey.Common.{
  ℕ, Bool, true, false, not, ◌&&◌, Option, none, some, if◌then◌else◌, ◌==◌, is_key, find,
  exists_row, insert, update_where,
}
use covey.Model.State.{
  ObjectType, SubtaskState, CompletionPolicy, ReadyQueueState, SettlementTarget, is_state,
}
use covey.Model.Errors.{
  subtask_state, illegal_transition, completion_policy_violation, artifact_not_found,
  database_error, PolicyOperation,
}
use covey.Model.Rows.{Subtask, Artifact, ReadyQueueItem, ready_queue_enqueued}
use covey.Txn.{Tx, pure, guard, gets, modify, or_fail, ◌>>=◌, ◌>>◌, append_session_event}
use covey.Validators.{load_subtask}
use covey.Lifecycle.Statements.{update_subtasks}
use covey.Reviews.Publishing.{has_digest, is_applyable_artifact_kind}

unfoldable pub load_artifact : ℕ → Tx Artifact
load_artifact digest = do
  found ← gets λ s. find (has_digest digest) s.artifacts
  or_fail found artifact_not_found

abbrev pub is_canonical : CompletionPolicy → Bool
is_canonical CompletionPolicy.canonical_apply = true
is_canonical _ = false

unfoldable pub require_canonical_apply_policy : Subtask → PolicyOperation → Tx (Unit {0})
require_canonical_apply_policy subtask operation =
    guard (is_canonical subtask.completion_policy)
      (completion_policy_violation operation subtask.completion_policy)

unfoldable pub ensure_applyable_artifact : ℕ → Tx (Unit {0})
unfolding load_artifact is_applyable_artifact_kind
ensure_applyable_artifact digest = do
  artifact ← load_artifact digest
  guard (is_applyable_artifact_kind artifact.artifact_kind) (
      illegal_transition (subtask_state SubtaskState.approved)
        (subtask_state SubtaskState.ready_for_apply) ObjectType.subtask)

-- `state IN ('queued', 'in_flight')`.
abbrev pub is_pending_item : ReadyQueueState → Bool
is_pending_item ReadyQueueState.queued = true
is_pending_item ReadyQueueState.in_flight = true
is_pending_item _ = false

-- `state IN ('queued', 'in_flight', 'applied')`.
abbrev pub is_active_item : ReadyQueueState → Bool
is_active_item ReadyQueueState.applied = true
is_active_item state = is_pending_item state

-- An item of the subtask and the digest that is queued, in flight or applied.
abbrev pub active_item : ℕ → ℕ → ReadyQueueItem → Bool
active_item subtask_id digest q =
    q.subtask_id == subtask_id && (q.artifact_digest == digest && is_active_item q.state)

unfoldable pub supersede_pending_items : ℕ → ℕ → Tx (Unit {0})
supersede_pending_items subtask_id now = modify λ s. record s {
  ready_queue =
      update_where (λ q. q.subtask_id == subtask_id && is_pending_item q.state)
        (λ q. record q {
          state = ReadyQueueState.superseded;
          claimed_by_session_token = none;
          claim_lease_deadline = none;
          updated_at = now;
        })
        s.ready_queue;
}

abbrev pub new_item : ℕ → ℕ → ℕ → SettlementTarget → ℕ → ReadyQueueItem
new_item queue_id subtask_id digest target now = record {
  queue_id = queue_id;
  artifact_digest = digest;
  subtask_id = subtask_id;
  settlement_target = target;
  state = ReadyQueueState.queued;
  claimed_by_session_token = none;
  claim_fence_seq = none;
  claim_lease_deadline = none;
  enqueued_at = now;
  updated_at = now;
}

-- `queue_id` is what `make_id` draws.
unfoldable pub insert_ready_queue_item : ℕ → ℕ → ℕ → ℕ → SettlementTarget → ℕ → Tx (Option ℕ)
insert_ready_queue_item queue_id token subtask_id digest target now = do
  existing ← gets λ s. exists_row (active_item subtask_id digest) s.ready_queue
  if existing then pure none else do
    taken ← gets λ s. exists_row (λ q. q.queue_id == queue_id) s.ready_queue
    guard (not taken) database_error
    modify λ s. record s {
      ready_queue = insert (new_item queue_id subtask_id digest target now) s.ready_queue;
    }
    append_session_event ready_queue_enqueued ObjectType.ready_queue queue_id token now
    pure (some queue_id)

-- What follows when no row was moved to `ready_for_apply`.
unfoldable pub unless_queued : ℕ → ℕ → Tx (Option ℕ)
unless_queued subtask_id digest = do
  already_queued ← gets λ s.
      exists_row
        (λ r.
          r.subtask_id == subtask_id
          && is_key r.artifact_digest digest
          && is_state r.state SubtaskState.ready_for_apply
          && exists_row (active_item subtask_id digest) s.ready_queue)
        s.subtasks
  guard already_queued (
      illegal_transition (subtask_state SubtaskState.approved)
        (subtask_state SubtaskState.ready_for_apply) ObjectType.subtask)
  pure none

unfoldable pub enqueue_approved_subtask_for_apply :
    ℕ → ℕ → ℕ → ℕ → SettlementTarget → ℕ → Tx (Option ℕ)
unfolding require_canonical_apply_policy ensure_applyable_artifact supersede_pending_items
    insert_ready_queue_item unless_queued
enqueue_approved_subtask_for_apply queue_id token subtask_id digest target now = do
  subtask ← load_subtask subtask_id
  require_canonical_apply_policy subtask PolicyOperation.enqueue_for_apply
  ensure_applyable_artifact digest
  supersede_pending_items subtask_id now
  updated ←
      update_subtasks
        (λ r.
          r.subtask_id == subtask_id
          && is_state r.state SubtaskState.approved
          && is_key r.artifact_digest digest)
        (λ r. record r { state = SubtaskState.ready_for_apply; updated_at = now })
  if updated == 0
      then unless_queued subtask_id digest
      else insert_ready_queue_item queue_id token subtask_id digest target now
