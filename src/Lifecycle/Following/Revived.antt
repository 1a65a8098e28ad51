-- ===== src/Lifecycle/Following/Revived.antt =====
-- `revive_abandoned_review_followups_tx` of src/ops/workflow/artifact_review.rs as one update.
use covey.Common.{ℕ, Bool, ◌&&◌, List, ◌==◌, exists_row}
use covey.Model.State.{SubtaskState}
use covey.Model.Rows.{Subtask}
use covey.Lifecycle.Following.{is_revivable}

abbrev pub revived : ℕ → Subtask → Subtask
revived now r = record r { state = SubtaskState.available; updated_at = now }

-- The row may be revived, and one of these has its identifier.
abbrev pub to_revive : List Subtask → Subtask → Bool
to_revive followups r = is_revivable r && exists_row (λ f. f.subtask_id == r.subtask_id) followups

-- The rows that one turn of the loop updates.
abbrev named : Subtask → Subtask → Bool
named f r = r.subtask_id == f.subtask_id && is_revivable r
