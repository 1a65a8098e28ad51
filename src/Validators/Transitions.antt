-- ===== src/Validators/Transitions.antt =====
-- The transition tables of src/validators.rs.
use covey.Common.{Bool, true, false}
use covey.Model.State.{
  ObjectType, SubtaskKind, work, review, cleanup, SubtaskState, ReviewState, ReadyQueueState,
  ReservationState, ConflictResolutionState, open_conflict, acknowledged, resolved,
}
use covey.Model.Errors.{
  StateValue, subtask_state, review_state, ready_queue_state, reservation_state,
  conflict_resolution, illegal_transition,
}
use covey.Txn.{Tx, guard}

-- `ensure_transition`.
abbrev pub ensure_transition : StateValue → StateValue → ObjectType → Bool → Tx (Unit {0})
ensure_transition from to object allowed = guard allowed (illegal_transition from to object)

unfoldable pub subtask_edge : SubtaskKind → SubtaskState → SubtaskState → Bool
subtask_edge work SubtaskState.available SubtaskState.claimed = true
subtask_edge work SubtaskState.claimed SubtaskState.in_progress = true
subtask_edge work SubtaskState.in_progress SubtaskState.available = true
subtask_edge work SubtaskState.in_progress SubtaskState.completed = true
subtask_edge work SubtaskState.in_progress SubtaskState.failed = true
subtask_edge work SubtaskState.in_progress SubtaskState.artifact_published = true
subtask_edge work SubtaskState.artifact_published SubtaskState.artifact_published = true
subtask_edge work SubtaskState.review_pending SubtaskState.artifact_published = true
subtask_edge work SubtaskState.artifact_published SubtaskState.review_pending = true
subtask_edge work SubtaskState.review_pending SubtaskState.changes_requested = true
subtask_edge work SubtaskState.review_pending SubtaskState.blocked = true
subtask_edge work SubtaskState.review_pending SubtaskState.approved = true
subtask_edge work SubtaskState.review_pending SubtaskState.completed = true
subtask_edge work SubtaskState.review_pending SubtaskState.applied = true
subtask_edge work SubtaskState.approved SubtaskState.ready_for_apply = true
subtask_edge work SubtaskState.ready_for_apply SubtaskState.applied = true
subtask_edge review SubtaskState.available SubtaskState.claimed = true
subtask_edge review SubtaskState.claimed SubtaskState.in_progress = true
subtask_edge review SubtaskState.in_progress SubtaskState.decided = true
subtask_edge cleanup SubtaskState.available SubtaskState.claimed = true
subtask_edge cleanup SubtaskState.claimed SubtaskState.in_progress = true
subtask_edge cleanup SubtaskState.in_progress SubtaskState.applied = true
subtask_edge cleanup SubtaskState.available SubtaskState.applied = true
subtask_edge _ _ _ = false

unfoldable pub ensure_subtask_transition : SubtaskKind → SubtaskState → SubtaskState → Tx (Unit {0})
ensure_subtask_transition kind from to =
    ensure_transition (subtask_state from) (subtask_state to) ObjectType.subtask
      (subtask_edge kind from to)

unfoldable pub review_edge : ReviewState → ReviewState → Bool
review_edge ReviewState.requested ReviewState.in_progress = true
review_edge ReviewState.requested ReviewState.superseded = true
review_edge ReviewState.in_progress ReviewState.decided = true
review_edge ReviewState.in_progress ReviewState.superseded = true
review_edge _ _ = false

unfoldable pub ensure_review_transition : ReviewState → ReviewState → Tx (Unit {0})
ensure_review_transition from to =
    ensure_transition (review_state from) (review_state to) ObjectType.review (review_edge from to)

unfoldable pub ready_queue_edge : ReadyQueueState → ReadyQueueState → Bool
ready_queue_edge ReadyQueueState.queued ReadyQueueState.in_flight = true
ready_queue_edge ReadyQueueState.in_flight ReadyQueueState.applied = true
ready_queue_edge ReadyQueueState.queued ReadyQueueState.superseded = true
ready_queue_edge ReadyQueueState.in_flight ReadyQueueState.superseded = true
ready_queue_edge ReadyQueueState.queued ReadyQueueState.cancelled = true
ready_queue_edge ReadyQueueState.in_flight ReadyQueueState.cancelled = true
ready_queue_edge _ _ = false

unfoldable pub ensure_ready_queue_transition : ReadyQueueState → ReadyQueueState → Tx (Unit {0})
ensure_ready_queue_transition from to =
    ensure_transition (ready_queue_state from) (ready_queue_state to) ObjectType.ready_queue
      (ready_queue_edge from to)

unfoldable pub conflict_edge : ConflictResolutionState → ConflictResolutionState → Bool
conflict_edge open_conflict acknowledged = true
conflict_edge open_conflict resolved = true
conflict_edge acknowledged acknowledged = true
conflict_edge acknowledged resolved = true
conflict_edge resolved resolved = true
conflict_edge _ _ = false

unfoldable pub ensure_conflict_resolution_transition :
    ConflictResolutionState → ConflictResolutionState → Tx (Unit {0})
ensure_conflict_resolution_transition from to =
    ensure_transition (conflict_resolution from) (conflict_resolution to) ObjectType.conflict
      (conflict_edge from to)

unfoldable pub reservation_edge : ReservationState → ReservationState → Bool
reservation_edge ReservationState.active ReservationState.released = true
reservation_edge ReservationState.active ReservationState.expired = true
reservation_edge _ _ = false

unfoldable pub ensure_reservation_transition : ReservationState → ReservationState → Tx (Unit {0})
ensure_reservation_transition from to =
    ensure_transition (reservation_state from) (reservation_state to) ObjectType.reservation
      (reservation_edge from to)
