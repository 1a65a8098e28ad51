-- ===== src/Lifecycle/Statements.antt =====
-- The statements that several operations share: how a claim's end and a claim's expiry are written
-- to `subtasks`, `sessions`, `reviews` and `reservations`.
use covey.Common.{ℕ, Bool, ◌&&◌, none, ◌==◌, is_key, count, update_where}
use covey.Model.State.{
  SubtaskState, ReviewState, ReservationState, is_review_state, is_live_reservation,
}
use covey.Model.Rows.{Session, Subtask, Claim, Review, Reservation}
use covey.Txn.{Tx, gets, modify, ◌>>=◌, ◌>>◌}

-- `UPDATE subtasks SET ... WHERE p`, with the number of rows that it touches.
unfoldable pub update_subtasks : (Subtask → Bool) → (Subtask → Subtask) → Tx ℕ
update_subtasks p f = do
  rows ← gets λ s. count p s.subtasks
  modify λ s. record s { subtasks = update_where p f s.subtasks }
  gets λ s. rows

unfoldable pub update_sessions : (Session → Bool) → (Session → Session) → Tx ℕ
update_sessions p f = do
  rows ← gets λ s. count p s.sessions
  modify λ s. record s { sessions = update_where p f s.sessions }
  gets λ s. rows

unfoldable pub update_reviews : (Review → Bool) → (Review → Review) → Tx ℕ
update_reviews p f = do
  rows ← gets λ s. count p s.reviews
  modify λ s. record s { reviews = update_where p f s.reviews }
  gets λ s. rows

unfoldable pub update_reservations : (Reservation → Bool) → (Reservation → Reservation) → Tx ℕ
update_reservations p f = do
  rows ← gets λ s. count p s.reservations
  modify λ s. record s { reservations = update_where p f s.reservations }
  gets λ s. rows

-- `CASE WHEN state IN ('claimed', 'in_progress') THEN 'available' ELSE state END`.
abbrev pub reopened : SubtaskState → SubtaskState
reopened SubtaskState.claimed = SubtaskState.available
reopened SubtaskState.in_progress = SubtaskState.available
reopened other = other

-- `WHERE subtask_id = ?1 AND current_claim_id = ?2`.
abbrev pub holds_claim : ℕ → ℕ → Subtask → Bool
holds_claim subtask_id claim_id r = r.subtask_id == subtask_id && is_key r.current_claim_id claim_id

-- `reset_in_progress_review_for_expired_claim` of src/store.rs.
unfoldable pub reset_in_progress_review_for_expired_claim : ℕ → ℕ → Tx ℕ
reset_in_progress_review_for_expired_claim review_subtask_id now =
    update_reviews
      (λ r.
        r.review_subtask_id == review_subtask_id && is_review_state r.state ReviewState.in_progress)
      (λ r. record r { state = ReviewState.requested; updated_at = now })

-- The subtask of an expired claim goes back to its lane.
unfoldable pub detach_expired_claim : Claim → ℕ → Tx ℕ
detach_expired_claim claim now =
    update_subtasks (holds_claim claim.subtask_id claim.claim_id)
      (λ r. record r { current_claim_id = none; state = reopened r.state; updated_at = now })

-- The owner of an expired claim is free again.
unfoldable pub free_claim_owner : Claim → ℕ → Tx ℕ
free_claim_owner claim now =
    update_sessions
      (λ r.
        r.session_token == claim.owner_session_token && is_key r.active_subtask_id claim.subtask_id)
      (λ r. record r { active_subtask_id = none; updated_at = now })

-- `UPDATE reservations SET state = 'released' WHERE owner_subtask_id = ?1 AND state = 'active'`.
unfoldable pub release_owner_reservations : ℕ → ℕ → Tx ℕ
release_owner_reservations subtask_id now =
    update_reservations (λ r. r.owner_subtask_id == subtask_id && is_live_reservation r.state)
      (λ r. record r { state = ReservationState.released; updated_at = now })
