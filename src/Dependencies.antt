-- ===== src/Dependencies.antt =====
-- The dependency gate of src/store.rs: DEPENDENCY_SATISFIED_SQL and subtask_dependencies_satisfied.
pub mod Chains
pub mod Depth
use covey.Common.{
  ℕ, zero, suc, Bool, true, false, not, ◌&&◌, ◌||◌, List, [], ◌∷◌, if◌then◌else◌, ◌==◌, length,
  exists_row,
}
use covey.Model.State.{SubtaskState, CompletionPolicy, is_review, is_state}
use covey.Model.Rows.{Store, Subtask, Followup}

-- The state that counts as success under a completion policy.
abbrev pub success_state : CompletionPolicy → SubtaskState
success_state CompletionPolicy.direct = SubtaskState.completed
success_state CompletionPolicy.reviewed = SubtaskState.completed
success_state CompletionPolicy.canonical_apply = SubtaskState.applied

-- The three alternatives on one row of `subtasks`.
unfoldable pub is_satisfied : Subtask → Bool
is_satisfied dep =
    (is_review dep.kind && is_state dep.state SubtaskState.decided)
    || is_state dep.state (success_state dep.completion_policy)

abbrev pub is_satisfied_id : List Subtask → ℕ → Bool
is_satisfied_id subtasks id = exists_row (λ r. r.subtask_id == id && is_satisfied r) subtasks

-- Some follow-up of `source` has the property.
unfoldable pub any_followup : ℕ → (ℕ → Bool) → List Followup → Bool
any_followup source p [] = false
any_followup source p (f ∷ fs) =
    if f.source_subtask_id == source && p f.followup_subtask_id
    then true
    else any_followup source p fs

-- The recursive `followup_chain`, to a depth: some follow-up of `source`, or of a follow-up of it
-- and so on, is satisfied.
unfoldable pub followup_chain : ℕ → List Followup → List Subtask → ℕ → Bool
unfolding any_followup
followup_chain zero fs subtasks source = false
followup_chain (suc depth) fs subtasks source =
    any_followup source (λ id. is_satisfied_id subtasks id || followup_chain depth fs subtasks id)
      fs

-- DEPENDENCY_SATISFIED_SQL at one row `dep`. A chain with more links than there are rows uses
-- some row twice, and has a shorter one between its ends.
unfoldable pub dependency_satisfied : Store → Subtask → Bool
dependency_satisfied s dep =
    is_satisfied dep || followup_chain (length s.followups) s.followups s.subtasks dep.subtask_id

-- No edge of `subtask_id` leads to an unsatisfied row.
unfoldable pub subtask_dependencies_satisfied : ℕ → Store → Bool
subtask_dependencies_satisfied subtask_id s = not (
    exists_row
      (λ d.
        d.subtask_id == subtask_id
        && exists_row
            (λ dep. dep.subtask_id == d.depends_on_subtask_id && not (dependency_satisfied s dep))
            s.subtasks)
      s.dependencies)
