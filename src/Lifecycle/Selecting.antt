-- ===== src/Lifecycle/Selecting.antt =====
-- `ordered_claim_candidate` of src/store.rs, with `meta_task_is_claimable`.
pub mod Minimum
pub mod Orders
pub mod Eligible
pub mod Fair
use covey.Common.{
  ℕ, ◌-◌, ◌/◌, min, Bool, true, false, not, ◌&&◌, ◌||◌, List, [], ◌∷◌, Option, none, some, ltb,
  ◌==◌, if◌then◌else◌, exists_row,
}
use covey.Model.State.{SubtaskKind, SubtaskState, is_state, is_work, is_review, is_closed_meta}
use covey.Model.Rows.{Store, Subtask}
use covey.Dependencies.{subtask_dependencies_satisfied}
use covey.Lifecycle.Selecting.Minimum.{first_least}

-- `MAX(s.priority - MIN(MAX(now - s.created_at, 0) / 30000, s.priority), 0)`.
unfoldable pub effective_priority : ℕ → Subtask → ℕ
effective_priority now r = r.priority - min ((now - r.created_at) / 30000) r.priority

-- `ORDER BY effective priority, priority, created_at`: the first row is read strictly before the
-- second.
unfoldable pub work_before : ℕ → Subtask → Subtask → Bool
unfolding effective_priority
work_before now a b =
    ltb (effective_priority now a) (effective_priority now b)
    || (effective_priority now a == effective_priority now b
        && (ltb a.priority b.priority
            || (a.priority == b.priority && ltb a.created_at b.created_at)))

-- `ORDER BY s.priority ASC, s.created_at ASC`.
unfoldable pub review_before : Subtask → Subtask → Bool
review_before a b =
    ltb a.priority b.priority || (a.priority == b.priority && ltb a.created_at b.created_at)

-- A row for the meta-task, in none of the closed states.
unfoldable pub meta_task_is_claimable : Store → ℕ → Bool
meta_task_is_claimable s id =
    exists_row (λ m. m.meta_task_id == id && not (is_closed_meta m.state)) s.meta_tasks

-- The meta-task that is asked for, or without one any that is open.
unfoldable pub in_scope : Store → Option ℕ → ℕ → Bool
unfolding meta_task_is_claimable
in_scope s none id = meta_task_is_claimable s id
in_scope s (some wanted) id = id == wanted && meta_task_is_claimable s wanted

-- The rows of the two queries for work, and of the two for reviews.
unfoldable pub work_candidate : Store → SubtaskState → ℕ → Option ℕ → Subtask → Bool
unfolding in_scope
work_candidate s state routing_key meta_task_id r =
    is_work r.kind
    && is_state r.state state
    && r.routing_key == routing_key
    && in_scope s meta_task_id r.meta_task_id
    && subtask_dependencies_satisfied r.subtask_id s

unfoldable pub review_candidate : Store → SubtaskState → ℕ → Option ℕ → Subtask → Bool
unfolding in_scope
review_candidate s state routing_key meta_task_id r =
    is_review r.kind
    && is_state r.state state
    && r.routing_key == routing_key
    && in_scope s meta_task_id r.meta_task_id

-- The row that `LIMIT 1` leaves; of equal rows the store may give any, here the first inserted.
unfoldable pub ordered_claim_candidate :
    SubtaskKind → SubtaskState → ℕ → Option ℕ → ℕ → Store → Option Subtask
unfolding work_candidate review_candidate work_before review_before
ordered_claim_candidate SubtaskKind.work state routing_key meta_task_id now s =
    first_least (work_candidate s state routing_key meta_task_id) (work_before now) s.subtasks
ordered_claim_candidate SubtaskKind.review state routing_key meta_task_id now s =
    first_least (review_candidate s state routing_key meta_task_id) review_before s.subtasks
ordered_claim_candidate SubtaskKind.cleanup state routing_key meta_task_id now s = none
