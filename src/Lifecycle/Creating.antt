-- ===== src/Lifecycle/Creating.antt =====
-- `create_work_subtask` of src/ops/workflow/create.rs, with `normalize_subtask_dependencies` of
-- src/validators.rs.
use covey.Common.{
  ℕ, Bool, not, List, [], ◌∷◌, Option, none, some, if◌then◌else◌, ◌==◌, ltb, length, exists_row,
  insert,
}
use covey.Model.State.{
  ObjectType, orchestrator, SubtaskKind, SubtaskState, CompletionPolicy, EvidencePolicy,
}
use covey.Model.Errors.{
  duplicate_subtask_id, invalid_subtask_dependency, subtask_dependency_not_found, database_error,
}
use covey.Model.Rows.{FenceCounter, work_subtask_created}
use covey.Txn.{
  Tx, pure, guard, gets, modify, ◌>>=◌, ◌>>◌, with_write_tx, append_session_event, for_each,
}
use covey.Txn.Idempotent.{Codec, Mutation, with_idempotent_mutation}
use covey.Validators.{require_role, load_meta_task, ensure_meta_task_is_schedulable, subtask_exists}
use covey.MetaTasks.{refresh_meta_task_state}

pub record CreateWorkSubtaskReq : Type 0 where
  pub session_token : ℕ
  pub meta_task_id : ℕ
  pub subtask_id : Option ℕ
  pub title : ℕ
  pub priority : ℕ
  pub completion_policy : CompletionPolicy
  pub routing_key : ℕ
  pub evidence_policy : EvidencePolicy
  pub depends_on : List ℕ

-- `[SubtaskId]::contains`.
abbrev pub contains : List ℕ → ℕ → Bool
contains xs x = exists_row (λ y. y == x) xs

-- `dedupe_subtask_dependencies`: the first occurrence of each, in their order. `kept` holds what
-- the loop has kept so far.
unfoldable pub dedupe_from : List ℕ → List ℕ → List ℕ
dedupe_from kept [] = kept
dedupe_from kept (d ∷ ds) = dedupe_from (if contains kept d then kept else insert d kept) ds

abbrev pub dedupe_subtask_dependencies : List ℕ → List ℕ
dedupe_subtask_dependencies = dedupe_from []

abbrev pub max_subtask_dependencies : ℕ
max_subtask_dependencies = 64

unfoldable pub normalize_subtask_dependencies : ℕ → List ℕ → Tx (List ℕ)
normalize_subtask_dependencies subtask_id dependencies = do
  let deduped = dedupe_subtask_dependencies dependencies
  guard (not (ltb max_subtask_dependencies (length deduped)))
      (invalid_subtask_dependency subtask_id)
  guard (not (contains deduped subtask_id)) (invalid_subtask_dependency subtask_id)
  pure deduped

-- One declared edge, whose target must exist.
unfoldable pub insert_dependency : ℕ → ℕ → Tx (Unit {0})
insert_dependency subtask_id dependency = do
  known ← subtask_exists dependency
  guard known (subtask_dependency_not_found subtask_id dependency)
  modify λ s. record s {
    dependencies =
        insert (record { subtask_id = subtask_id; depends_on_subtask_id = dependency })
          s.dependencies;
  }

unfoldable pub insert_subtask_dependencies : ℕ → List ℕ → Tx (Unit {0})
insert_subtask_dependencies subtask_id depends_on = do
  dependencies ← normalize_subtask_dependencies subtask_id depends_on
  for_each dependencies (insert_dependency subtask_id)

abbrev pub has_counter : ℕ → FenceCounter → Bool
has_counter id r = r.subtask_id == id

unfoldable pub insert_fence_counter : ℕ → Tx (Unit {0})
insert_fence_counter subtask_id = do
  taken ← gets λ s. exists_row (has_counter subtask_id) s.fence_counters
  guard (not taken) database_error
  modify λ s. record s {
    fence_counters =
        insert (record { subtask_id = subtask_id; next_fence_seq = 1 }) s.fence_counters;
  }

-- `make_id` draws `fresh_id` where the request names no identifier.
abbrev pub requested_id : Option ℕ → ℕ → ℕ
requested_id none fresh_id = fresh_id
requested_id (some id) fresh_id = id

unfoldable pub insert_work_subtask : CreateWorkSubtaskReq → ℕ → ℕ → Tx ℕ
insert_work_subtask req subtask_id now = do
  session ← require_role req.session_token (orchestrator ∷ [])
  meta_task ← load_meta_task req.meta_task_id
  ensure_meta_task_is_schedulable req.meta_task_id
  taken ← subtask_exists subtask_id
  guard (not taken) (duplicate_subtask_id subtask_id)
  modify λ s. record s {
    subtasks =
        insert
          (record {
            subtask_id = subtask_id;
            meta_task_id = req.meta_task_id;
            title = req.title;
            kind = SubtaskKind.work;
            review_target_subtask_id = none;
            review_target_artifact_digest = none;
            state = SubtaskState.available;
            current_claim_id = none;
            artifact_digest = none;
            priority = req.priority;
            completion_policy = req.completion_policy;
            routing_key = req.routing_key;
            evidence_policy = req.evidence_policy;
            created_at = now;
            updated_at = now;
          })
          s.subtasks;
  }
  insert_fence_counter subtask_id
  append_session_event work_subtask_created ObjectType.subtask subtask_id req.session_token now
  refresh_meta_task_state req.meta_task_id now
  pure subtask_id

unfoldable pub create_work_subtask_tx : CreateWorkSubtaskReq → ℕ → ℕ → Tx ℕ
create_work_subtask_tx req fresh_id now = do
  subtask_id ← insert_work_subtask req (requested_id req.subtask_id fresh_id) now
  insert_subtask_dependencies subtask_id req.depends_on
  pure subtask_id

unfoldable pub create_work_subtask : Codec ℕ → Mutation → CreateWorkSubtaskReq → ℕ → ℕ → Tx ℕ
create_work_subtask codec m req fresh_id now =
    with_write_tx (with_idempotent_mutation codec m now (create_work_subtask_tx req fresh_id now))
