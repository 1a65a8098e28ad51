-- ===== src/Queue.antt =====
-- `enqueue_for_apply` of src/ops/queue.rs.
use covey.Common.{ℕ, Bool, not, ◌&&◌, Option, none, some, if◌then◌else◌, ltb, is_key, List, [], ◌∷◌}
use covey.Model.State.{
  ObjectType, orchestrator, apply_gate, SubtaskState, SettlementTarget, is_state,
}
use covey.Model.Errors.{subtask_state, illegal_transition, wrong_role, PolicyOperation}
use covey.Model.Rows.{Store, Session, Subtask, ReadyQueueItem}
use covey.Txn.{Tx, pure, guard, gets, or_fail, on_some, ◌>>=◌, ◌>>◌, with_write_tx}
use covey.Txn.Idempotent.{Codec, Mutation, with_idempotent_mutation}
use covey.Validators.{
  load_subtask, require_active_session, ensure_meta_task_is_schedulable, contains_role,
}
use covey.Validators.Transitions.{ensure_subtask_transition}
use covey.Lifecycle.Selecting.Minimum.{first_least}
use covey.Reviews.Enqueuing.{
  active_item, require_canonical_apply_policy, enqueue_approved_subtask_for_apply,
}
pub mod Filing

pub record EnqueueForApplyReq : Type 0 where
  pub session_token : ℕ
  pub artifact_digest : ℕ
  pub subtask_id : ℕ
  pub settlement_target : SettlementTarget

unfoldable pub require_session_can_enqueue : Session → Tx (Unit {0})
require_session_can_enqueue session =
    guard (contains_role (orchestrator ∷ apply_gate ∷ []) session.role)
      (wrong_role (orchestrator ∷ apply_gate ∷ []) session.role)

-- `ORDER BY enqueued_at ASC`.
abbrev pub enqueued_before : ReadyQueueItem → ReadyQueueItem → Bool
enqueued_before a b = ltb a.enqueued_at b.enqueued_at

abbrev pub id_of_item : Option ReadyQueueItem → Option ℕ
id_of_item none = none
id_of_item (some q) = some q.queue_id

unfoldable pub active_queue_id_for_artifact : ℕ → ℕ → Store → Option ℕ
active_queue_id_for_artifact subtask_id digest s =
    id_of_item (first_least (active_item subtask_id digest) enqueued_before s.ready_queue)

-- The way into the queue of a subtask that is not queued yet.
unfoldable pub enqueue_new : EnqueueForApplyReq → Subtask → ℕ → ℕ → Tx ℕ
enqueue_new req subtask fresh_id now = do
  ensure_subtask_transition subtask.kind subtask.state SubtaskState.ready_for_apply
  queued ←
      enqueue_approved_subtask_for_apply fresh_id req.session_token req.subtask_id
        req.artifact_digest req.settlement_target now
  or_fail queued (
      illegal_transition (subtask_state subtask.state) (subtask_state SubtaskState.ready_for_apply)
        ObjectType.subtask)

-- `fresh_id` is what `make_id` draws.
unfoldable pub enqueue_for_apply_body : EnqueueForApplyReq → ℕ → ℕ → Tx ℕ
unfolding require_session_can_enqueue active_queue_id_for_artifact enqueue_new
enqueue_for_apply_body req fresh_id now = do
  session ← require_active_session req.session_token
  require_session_can_enqueue session
  subtask ← load_subtask req.subtask_id
  require_canonical_apply_policy subtask PolicyOperation.enqueue_for_apply
  ensure_meta_task_is_schedulable subtask.meta_task_id
  guard (is_key subtask.artifact_digest req.artifact_digest) (
      illegal_transition (subtask_state subtask.state) (subtask_state SubtaskState.ready_for_apply)
        ObjectType.subtask)
  active ← gets (active_queue_id_for_artifact req.subtask_id req.artifact_digest)
  if is_state subtask.state SubtaskState.ready_for_apply
      then on_some active (enqueue_new req subtask fresh_id now) (λ id. pure id)
      else enqueue_new req subtask fresh_id now

unfoldable pub enqueue_for_apply : Codec ℕ → Mutation → EnqueueForApplyReq → ℕ → ℕ → Tx ℕ
enqueue_for_apply codec m req fresh_id now =
    with_write_tx (with_idempotent_mutation codec m now (enqueue_for_apply_body req fresh_id now))
