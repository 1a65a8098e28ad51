-- ===== src/Reservations/Operations.antt =====
-- `request_reservation`, `release_reservation`, `renew_reservation`, `find_overlapping_reservations`
-- and `resolve_conflict` of src/ops/reservation.rs.
use covey.Common.{
  ℕ, ◌+◌, max, Bool, true, false, not, ◌&&◌, List, [], ◌∷◌, leb, ltb, ◌==◌, exists_row, find,
  insert, count, update_where,
}
use covey.Model.State.{
  ObjectType, orchestrator, ReservationState, ConflictResolutionState, is_live_reservation,
}
use covey.Model.Errors.{
  reservation_state, conflict_resolution, panicked, database_error, subtask_not_found,
  conflict_not_found, illegal_transition, lease_expired,
}
use covey.Model.Rows.{
  Reservation, Conflict, reservation_requested, reservation_released, reservation_renewed,
  conflict_resolved,
}
use covey.Txn.{
  Tx, pure, guard, or_fail, gets, modify, ◌>>=◌, ◌>>◌, with_write_tx, advance_lease_clock,
  append_session_event,
}
use covey.Txn.Idempotent.{Codec, Mutation, with_idempotent_mutation}
use covey.Validators.Transitions.{
  ensure_reservation_transition, ensure_conflict_resolution_transition,
}
use covey.Validators.{require_role, subtask_exists, ensure_positive_lease_duration}
use covey.Lifecycle.Statements.{update_reservations}
use covey.Lifecycle.Completing.{resolve_reservation_overlap_conflicts}
use covey.Reservations.Scope as Scope
use covey.Common.{length}
use covey.Txn.{for_each}
use covey.Model.Errors.{invalid_path}
use covey.Model.State.{ScopeClass}
use covey.Paths.{Text}
use covey.Paths.Scopes.{normalize_scope_key}
use covey.Reservations.Requests.{
  ensure_length, ensure_generated_member_count, normalize_generated_members,
  ensure_reservation_scope_shape, max_path_len,
}
use covey.Reservations.Scope.{ReservationScope}
use covey.Reservations.Requests.{
  has_reservation_id, load_reservation, read_candidate, load_overlaps,
  record_reservation_overlap_conflicts,
}

-- The request's scope has passed `ReservationScope::from_parts` already.
pub record RequestReservationReq : Type 0 where
  pub session_token : ℕ
  pub owner_subtask_id : ℕ
  pub scope : ReservationScope
  pub lease_duration_ms : ℕ

unfoldable pub candidate_of : ReservationScope → Tx ReservationScope
candidate_of scope =
    read_candidate (Scope.scope_class scope) (Scope.scope_key scope) (Scope.generated_members scope)

-- `INSERT INTO reservations`, which the primary key may refuse, and the rows of its members.
unfoldable pub insert_reservation : Reservation → Tx (Unit {0})
insert_reservation r = do
  taken ← gets λ s. exists_row (has_reservation_id r.reservation_id) s.reservations
  guard (not taken) database_error
  modify λ s. record s { reservations = insert r s.reservations }

abbrev pub new_reservation : RequestReservationReq → ReservationScope → ℕ → ℕ → ℕ → Reservation
new_reservation req candidate reservation_id lease_now now = record {
  reservation_id = reservation_id;
  owner_subtask_id = req.owner_subtask_id;
  scope_class = Scope.scope_class candidate;
  scope_key = Scope.scope_key candidate;
  generated_members = Scope.generated_members candidate;
  lease_deadline = lease_now + req.lease_duration_ms;
  state = ReservationState.active;
  created_at = now;
  updated_at = now;
}

unfoldable pub request_reservation_body : (ℕ → ℕ → ℕ) → RequestReservationReq → ℕ → ℕ → ℕ → Tx ℕ
unfolding candidate_of insert_reservation
request_reservation_body name req reservation_id lease_now now = do
  session ← require_role req.session_token (orchestrator ∷ [])
  owned ← subtask_exists req.owner_subtask_id
  guard owned subtask_not_found
  candidate ← candidate_of req.scope
  overlaps ← load_overlaps candidate
  insert_reservation (new_reservation req candidate reservation_id lease_now now)
  record_reservation_overlap_conflicts name reservation_id overlaps now
  append_session_event reservation_requested ObjectType.reservation reservation_id req.session_token
      now
  pure reservation_id

unfoldable pub request_reservation :
    Codec ℕ → Mutation → (ℕ → ℕ → ℕ) → RequestReservationReq → ℕ → ℕ → Tx ℕ
request_reservation codec m name req reservation_id now = with_write_tx do
  lease_now ← advance_lease_clock now
  with_idempotent_mutation codec m now
      (request_reservation_body name req reservation_id lease_now now)

-- A live row of the reservation.
abbrev pub live_reservation : ℕ → Reservation → Bool
live_reservation id r = r.reservation_id == id && is_live_reservation r.state

-- `try_from_parts` of the loaded row with the new time, whose `expect` panics when the wall clock is
-- behind the row's creation.
unfoldable pub rebuild : Reservation → ℕ → Tx (Unit {0})
rebuild r now = guard (leb r.created_at now) panicked

unfoldable pub release_reservation_body : ℕ → ℕ → ℕ → Tx (Unit {0})
unfolding rebuild
release_reservation_body token reservation_id now = do
  session ← require_role token (orchestrator ∷ [])
  reservation ← load_reservation reservation_id
  ensure_reservation_transition reservation.state ReservationState.released
  updated ←
      update_reservations (live_reservation reservation_id)
        (λ r. record r { state = ReservationState.released; updated_at = now })
  guard (updated == 1) (
      illegal_transition (reservation_state reservation.state)
        (reservation_state ReservationState.released) ObjectType.reservation)
  resolve_reservation_overlap_conflicts now reservation_id
  rebuild reservation now
  append_session_event reservation_released ObjectType.reservation reservation_id token now

unfoldable pub release_reservation : Codec (Unit {0}) → Mutation → ℕ → ℕ → ℕ → Tx (Unit {0})
release_reservation codec m token reservation_id now =
    with_write_tx
      (with_idempotent_mutation codec m now (release_reservation_body token reservation_id now))

unfoldable pub renew_reservation_body : ℕ → ℕ → ℕ → ℕ → ℕ → Tx Reservation
unfolding rebuild
renew_reservation_body token reservation_id extend_by_ms lease_now now = do
  session ← require_role token (orchestrator ∷ [])
  ensure_positive_lease_duration extend_by_ms
  reservation ← load_reservation reservation_id
  guard (is_live_reservation reservation.state) (
      illegal_transition (reservation_state reservation.state)
        (reservation_state ReservationState.active) ObjectType.reservation)
  guard (ltb lease_now reservation.lease_deadline) (lease_expired reservation.reservation_id)
  updated ← update_reservations (live_reservation reservation_id) (λ r. record r {
    lease_deadline = max reservation.lease_deadline lease_now + extend_by_ms;
    updated_at = now;
  })
  guard (updated == 1) (
      illegal_transition (reservation_state reservation.state) (reservation_state reservation.state)
        ObjectType.reservation)
  rebuild reservation now
  append_session_event reservation_renewed ObjectType.reservation reservation_id token now
  pure (record reservation {
    lease_deadline = max reservation.lease_deadline lease_now + extend_by_ms;
    updated_at = now;
  })

unfoldable pub renew_reservation : Codec Reservation → Mutation → ℕ → ℕ → ℕ → ℕ → Tx Reservation
renew_reservation codec m token reservation_id extend_by_ms now = with_write_tx do
  lease_now ← advance_lease_clock now
  with_idempotent_mutation codec m now
      (renew_reservation_body token reservation_id extend_by_ms lease_now now)

-- The candidate of a query, which looks at the key before it counts the members.
unfoldable pub query_candidate : ScopeClass → Text → List Text → Tx ReservationScope
query_candidate class raw raw_members = do
  key ← or_fail (normalize_scope_key class raw) invalid_path
  ensure_length key max_path_len
  ensure_generated_member_count (length raw_members)
  members ← or_fail (normalize_generated_members raw_members) invalid_path
  ensure_reservation_scope_shape class key members
  for_each members (λ member. ensure_length member max_path_len)
  or_fail (Scope.from_parts class key members) panicked

-- The read operation; it writes nothing.
unfoldable pub find_overlapping : ReservationScope → Tx (List Reservation)
unfolding query_candidate
find_overlapping scope = do
  candidate ←
      query_candidate (Scope.scope_class scope) (Scope.scope_key scope)
        (Scope.generated_members scope)
  load_overlaps candidate

unfoldable pub same_resolution : ConflictResolutionState → ConflictResolutionState → Bool
same_resolution ConflictResolutionState.open_conflict ConflictResolutionState.open_conflict = true
same_resolution ConflictResolutionState.acknowledged ConflictResolutionState.acknowledged = true
same_resolution ConflictResolutionState.resolved ConflictResolutionState.resolved = true
same_resolution _ _ = false

abbrev pub has_conflict_id : ℕ → Conflict → Bool
has_conflict_id id c = c.conflict_id == id

-- `state` is `acknowledged` or `resolved`.
unfoldable pub resolve_conflict_body : ℕ → ℕ → ConflictResolutionState → ℕ → Tx (Unit {0})
unfolding same_resolution
resolve_conflict_body token conflict_id state now = do
  session ← require_role token (orchestrator ∷ [])
  row ← gets λ s. find (has_conflict_id conflict_id) s.conflicts
  conflict ← or_fail row conflict_not_found
  ensure_conflict_resolution_transition conflict.resolution_state state
  updated ← gets λ s.
      count
        (λ c.
          c.conflict_id == conflict_id
          && same_resolution c.resolution_state conflict.resolution_state)
        s.conflicts
  modify λ s. record s {
    conflicts =
        update_where
          (λ c.
            c.conflict_id == conflict_id
            && same_resolution c.resolution_state conflict.resolution_state)
          (λ c. record c { resolution_state = state }) s.conflicts;
  }
  guard (not (updated == 0)) (
      illegal_transition (conflict_resolution conflict.resolution_state) (conflict_resolution state)
        ObjectType.conflict)
  append_session_event conflict_resolved ObjectType.conflict conflict_id token now

unfoldable pub resolve_conflict :
    Codec (Unit {0}) → Mutation → ℕ → ℕ → ConflictResolutionState → ℕ → Tx (Unit {0})
resolve_conflict codec m token conflict_id state now =
    with_write_tx
      (with_idempotent_mutation codec m now (resolve_conflict_body token conflict_id state now))
