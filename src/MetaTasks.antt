-- ===== src/MetaTasks.antt =====
-- src/ops/meta_task.rs, and `refresh_meta_task_state` of src/store.rs.
use covey.Common.{
  ℕ, Bool, true, false, not, ◌&&◌, ◌||◌, [], ◌∷◌, none, if◌then◌else◌, ◌==◌, count, exists_row,
  insert, select, update_where, List,
}
use covey.Model.State.{
  ObjectType, orchestrator, MetaTaskState, SubtaskState, ClaimState, ReadyQueueState, is_held,
  is_pending, is_settled, is_closed_meta,
}
use covey.Model.Errors.{meta_task_state, illegal_transition, database_error}
use covey.Model.Rows.{Store, MetaTask, Subtask, Claim, meta_task_submitted, meta_task_cancelled}
use covey.Txn.{
  Tx, pure, guard, gets, modify, ◌>>=◌, ◌>>◌, with_write_tx, append_session_event, for_each,
}
use covey.Txn.Idempotent.{Codec, Mutation, with_idempotent_mutation}
use covey.Validators.Transitions.{ensure_transition}
use covey.Validators.{has_meta_task_id, held_claim, set_claim_state, load_meta_task, require_role}
use covey.Lifecycle.Statements.{update_subtasks, free_claim_owner}

abbrev pub set_meta_state : MetaTaskState → ℕ → MetaTask → MetaTask
set_meta_state state now r = record r { state = state; updated_at = now }

-- The state that the subtasks of a meta-task call for.
unfoldable pub desired_state : ℕ → List Subtask → MetaTaskState
desired_state id subtasks =
    if exists_row (λ r. r.meta_task_id == id) subtasks
    then if exists_row (λ r. r.meta_task_id == id && not (is_settled r.state)) subtasks
      then MetaTaskState.active
      else MetaTaskState.completed
    else MetaTaskState.planning

abbrev pub is_cancelled : MetaTaskState → Bool
is_cancelled MetaTaskState.cancelled = true
is_cancelled _ = false

abbrev pub same_meta_state : MetaTaskState → MetaTaskState → Bool
same_meta_state MetaTaskState.planning MetaTaskState.planning = true
same_meta_state MetaTaskState.active MetaTaskState.active = true
same_meta_state MetaTaskState.completed MetaTaskState.completed = true
same_meta_state MetaTaskState.cancelled MetaTaskState.cancelled = true
same_meta_state _ _ = false

unfoldable pub write_meta_state : ℕ → MetaTaskState → ℕ → Tx (Unit {0})
write_meta_state id desired now = modify λ s. record s {
  meta_tasks =
      update_where (λ r. r.meta_task_id == id && not (is_cancelled r.state))
        (set_meta_state desired now) s.meta_tasks;
}

unfoldable pub refresh_meta_task_state : ℕ → ℕ → Tx (Unit {0})
refresh_meta_task_state id now = do
  meta_task ← load_meta_task id
  desired ← gets λ s. desired_state id s.subtasks
  if is_cancelled meta_task.state || same_meta_state meta_task.state desired
      then pure tt
      else write_meta_state id desired now

pub record SubmitMetaTaskReq : Type 0 where
  pub session_token : ℕ
  pub prompt_text : ℕ

unfoldable pub submit_meta_task_tx : SubmitMetaTaskReq → ℕ → ℕ → Tx ℕ
submit_meta_task_tx req meta_task_id now = do
  session ← require_role req.session_token (orchestrator ∷ [])
  taken ← gets λ s. exists_row (has_meta_task_id meta_task_id) s.meta_tasks
  guard (not taken) database_error
  modify λ s. record s {
    meta_tasks =
        insert
          (record {
            meta_task_id = meta_task_id;
            prompt_text = req.prompt_text;
            state = MetaTaskState.planning;
            created_by = req.session_token;
            created_at = now;
            updated_at = now;
          })
          s.meta_tasks;
  }
  append_session_event meta_task_submitted ObjectType.meta_task meta_task_id req.session_token now
  pure meta_task_id

unfoldable pub submit_meta_task : Codec ℕ → Mutation → SubmitMetaTaskReq → ℕ → ℕ → Tx ℕ
submit_meta_task codec m req meta_task_id now =
    with_write_tx (with_idempotent_mutation codec m now (submit_meta_task_tx req meta_task_id now))

pub record CancelMetaTaskReq : Type 0 where
  pub session_token : ℕ
  pub meta_task_id : ℕ

-- `load_claims_for_meta_task`: the held claims on the subtasks of a meta-task.
unfoldable pub claims_for_meta_task : ℕ → Store → List Claim
claims_for_meta_task id s =
    select
      (λ c.
        is_held c.state
        && exists_row (λ r. r.subtask_id == c.subtask_id && r.meta_task_id == id) s.subtasks)
      s.claims

unfoldable pub revoke_claim : ℕ → Claim → Tx (Unit {0})
revoke_claim now claim = do
  modify λ s. record s {
    claims =
        update_where (held_claim claim.claim_id) (set_claim_state ClaimState.revoked now) s.claims;
  }
  rows ← free_claim_owner claim now
  pure tt

-- Queued and in-flight items of the meta-task leave the queue.
unfoldable pub cancel_queue_items : ℕ → ℕ → Tx (Unit {0})
cancel_queue_items id now = modify λ s. record s {
  ready_queue =
      update_where
        (λ q.
          exists_row (λ r. r.subtask_id == q.subtask_id && r.meta_task_id == id) s.subtasks
          && is_pending q.state)
        (λ q. record q {
          state = ReadyQueueState.cancelled;
          claimed_by_session_token = none;
          claim_lease_deadline = none;
          updated_at = now;
        })
        s.ready_queue;
}

abbrev pub abandoned_unless_settled : SubtaskState → SubtaskState
abandoned_unless_settled state = if is_settled state then state else SubtaskState.abandoned

unfoldable pub cancel_meta_task_body : CancelMetaTaskReq → ℕ → Tx (Unit {0})
cancel_meta_task_body req now = do
  session ← require_role req.session_token (orchestrator ∷ [])
  meta ← load_meta_task req.meta_task_id
  ensure_transition (meta_task_state meta.state) (meta_task_state MetaTaskState.cancelled)
      ObjectType.meta_task (not (is_closed_meta meta.state))
  updated ← gets λ s.
      count (λ r. r.meta_task_id == req.meta_task_id && not (is_closed_meta r.state)) s.meta_tasks
  modify λ s. record s {
    meta_tasks =
        update_where (λ r. r.meta_task_id == req.meta_task_id && not (is_closed_meta r.state))
          (set_meta_state MetaTaskState.cancelled now) s.meta_tasks;
  }
  guard (updated == 1) (
      illegal_transition (meta_task_state meta.state) (meta_task_state MetaTaskState.cancelled)
        ObjectType.meta_task)
  held_claims ← gets λ s. claims_for_meta_task req.meta_task_id s
  for_each held_claims (revoke_claim now)
  cancel_queue_items req.meta_task_id now
  rows ←
      update_subtasks (λ r. r.meta_task_id == req.meta_task_id)
        (λ r. record r {
          state = abandoned_unless_settled r.state;
          current_claim_id = none;
          updated_at = now;
        })
  append_session_event meta_task_cancelled ObjectType.meta_task req.meta_task_id req.session_token
      now

unfoldable pub cancel_meta_task :
    Codec (Unit {0}) → Mutation → CancelMetaTaskReq → ℕ → Tx (Unit {0})
cancel_meta_task codec m req now =
    with_write_tx (with_idempotent_mutation codec m now (cancel_meta_task_body req now))
