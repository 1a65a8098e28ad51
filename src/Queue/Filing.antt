-- ===== src/Queue/Filing.antt =====
-- What `enqueue_for_apply` of src/ops/queue.rs leaves in the queue.
use covey.Common.{ℕ}
use covey.Model.Rows.{Store, Subtask}
use covey.Txn.{after}
use covey.Txn.Idempotent.{Codec, Mutation}
use covey.Txn.Kept.{Keeps-with_write_tx, Keeps-after, Keeps-with_idempotent_mutation}
use covey.Txn.Triples.{Keeps, keeps_rules}
use covey.Validators.{
  load_session, load_subtask, load_meta_task, require_active_session,
  ensure_meta_task_is_schedulable,
}
use covey.Validators.Transitions.{ensure_subtask_transition}
use covey.Reviews.Enqueuing.{require_canonical_apply_policy}
use covey.Reviews.Pending.{SinglePending, enqueue-keeps}
use covey.Queue.{
  EnqueueForApplyReq, require_session_can_enqueue, enqueue_new, enqueue_for_apply_body,
  enqueue_for_apply,
}

new-keeps :
    (req : EnqueueForApplyReq) (subtask : Subtask) (fresh_id now : ℕ)
    → Keeps SinglePending (enqueue_new req subtask fresh_id now)
unfolding enqueue_new ensure_subtask_transition
new-keeps req subtask fresh_id now = search (keeps_rules, enqueue-keeps) depth 20

body-keeps :
    (req : EnqueueForApplyReq) (fresh_id now : ℕ)
    → Keeps SinglePending (enqueue_for_apply_body req fresh_id now)
unfolding enqueue_for_apply_body require_active_session load_session require_session_can_enqueue
    load_subtask require_canonical_apply_policy ensure_meta_task_is_schedulable load_meta_task
body-keeps req fresh_id now = search (keeps_rules, new-keeps) depth 30

-- Enqueuing a subtask never leaves it, or another, with two items that are queued or in flight, from
-- a store where none has: not when it succeeds, fails or repeats a key.
pub enqueue_for_apply-SinglePending :
    (codec : Codec ℕ) (m : Mutation) (req : EnqueueForApplyReq) (fresh_id now : ℕ) (s : Store)
    → SinglePending s
    → SinglePending (after (enqueue_for_apply codec m req fresh_id now s))
unfolding enqueue_for_apply
enqueue_for_apply-SinglePending codec m req fresh_id now s h =
    Keeps-after (enqueue_for_apply codec m req fresh_id now) s
      (Keeps-with_write_tx _ (
        Keeps-with_idempotent_mutation {P = SinglePending} codec m now _ (λ rows t k. k)
          (body-keeps req fresh_id now)))
      h
