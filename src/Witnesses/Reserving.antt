-- ===== src/Witnesses/Reserving.antt =====
-- The theorems on reservations at a concrete store.
use mathlib.Core.Bool.{decide}
use covey.Common.{
  ℕ, ◌+◌, ◌*◌, ◌≡◌, refl, ◌↔◌, true, none, [], ◌∷◌, inl, exists_row, find, insert, select,
}
use covey.Model.State.{orchestrator, ScopeClass, ReservationState, SessionRole-discrete}
use covey.Model.Rows.{Store, Session, Reservation, Operation}
use covey.Txn.{
  ok, after, guard, or_fail, pure, gets, modify, ◌>>=◌, for_each, append_event,
  append_session_event,
}
use covey.Validators.{require_role, require_active_session, load_session, subtask_exists}
use covey.Paths.{
  same, member, trim, trim_start, trim_end, is_whitespace, starts_with, precedes, forward_slashes,
  split, onto_head, join,
}
use covey.Paths.Scopes.{
  descendant_path_prefix, normalize_scope_key, normalize_relative_repo_path, enter, has_drive,
  is_refused, joined, pop, resolve, reversed_onto, path_ancestor_scope_keys, ancestors_from,
  has_successor, lexicographic_prefix_upper_bound,
}
use covey.Paths.Ranges.{in_range}
use covey.Reservations.Requests.{
  read_candidate, ensure_generated_member_count, byte_length, consed, ensure_length,
  ensure_reservation_scope_shape, insert_unique, normalize_generated_members, normalize_members,
  sorted, sorted_unique_ids, load_overlaps, is_readable, record_reservation_overlap_conflicts,
  record_overlap, upsert_conflict,
}
use covey.Paths.Ancestors.{contains, is_relative}
use covey.Reservations.Scope as Scope
use covey.Reservations.Scope.{from_parts, is_scope_key}
use covey.Reservations.Queries.{
  query_overlaps, is_current, find_overlapping_reservations, sort_by_creation, insert_by_creation,
  query_overlap_ids_for_subtree, of_class, is_under,
}
use covey.Reservations.Meets.{extent, covers}
use covey.Reservations.Overlaps.{
  Overlaps, is_grounded, scope_extent, row_extent, query_overlaps_iff,
}
use covey.Reservations.Grounded.{AllGrounded, rows_grounded, request_reservation-AllGrounded}
use covey.Reservations.Recorded.{open_under, pair_id, request_reservation_body-conflicts}
use covey.Reservations.Operations.{
  RequestReservationReq, candidate_of, request_reservation_body, request_reservation,
  insert_reservation,
}
use covey.Witnesses.Data.{idle_store, executor_session, codecs, key}
use covey.Witnesses.Paths.{lib, lib_a}

-- An active reservation of the path lib_a.
abbrev of_file : Reservation
of_file = record {
  reservation_id = 50;
  owner_subtask_id = 20;
  scope_class = ScopeClass.exact_path;
  scope_key = lib_a;
  generated_members = [];
  lease_deadline = 500;
  state = ReservationState.active;
  created_at = 100;
  updated_at = 100;
}

of_file-Overlaps : Overlaps 100 (Scope.subtree lib) of_file
unfolding is_current covers scope_extent extent Scope.scope_class contains same Scope.scope_key
    starts_with descendant_path_prefix row_extent member
of_file-Overlaps = (refl, (lib_a, (refl, refl)))

query_overlaps_iff_example :
    (query_overlaps 100 (Scope.subtree lib) of_file ≡ true)
    ↔ Overlaps 100 (Scope.subtree lib) of_file
unfolding is_grounded is_relative Scope.scope_class Scope.scope_key
query_overlaps_iff_example = query_overlaps_iff 100 (Scope.subtree lib) of_file refl refl

-- An orchestrator, and a store with the reservation.
abbrev planner : Session
planner = record executor_session {
  session_token = 1;
  role = orchestrator;
  active_subtask_id = none;
}

abbrev reserved_store : Store
reserved_store = record idle_store { sessions = planner ∷ []; reservations = of_file ∷ [] }

abbrev request : RequestReservationReq
request = record {
  session_token = 1;
  owner_subtask_id = 20;
  scope = Scope.subtree lib;
  lease_duration_ms = 300;
}

abbrev name : ℕ → ℕ → ℕ
name a b = a * 1000 + b

request_reservation-AllGrounded_example : AllGrounded (
    after (
      request_reservation codecs.of_id
        (key Operation.request_reservation 3)
        name
        request
        51
        100
        reserved_store))
unfolding rows_grounded is_grounded is_relative
request_reservation-AllGrounded_example =
    request_reservation-AllGrounded codecs.of_id (key Operation.request_reservation 3) name request
      51 100 reserved_store refl

abbrev granted_store : Store
granted_store = after (request_reservation_body name request 51 100 100 reserved_store)

candidate_read : candidate_of request.scope reserved_store ≡ ok (Scope.subtree lib) reserved_store
unfolding candidate_of read_candidate ◌>>=◌ ensure_generated_member_count Scope.generated_members
    normalize_scope_key Scope.scope_class normalize_relative_repo_path trim trim_end trim_start
    Scope.scope_key is_whitespace starts_with forward_slashes same split onto_head exists_row enter
    has_drive is_refused joined pop resolve reversed_onto join member precedes byte_length consed
    ensure_length ensure_reservation_scope_shape insert_unique normalize_generated_members
    normalize_members sorted sorted_unique_ids from_parts is_scope_key for_each guard or_fail pure
    gets modify
candidate_read = refl

granted : request_reservation_body name request 51 100 100 reserved_store ≡ ok 51 granted_store
unfolding candidate_of read_candidate ◌>>=◌ ensure_generated_member_count Scope.generated_members
    normalize_scope_key Scope.scope_class normalize_relative_repo_path trim trim_end trim_start
    Scope.scope_key is_whitespace starts_with forward_slashes same split onto_head exists_row enter
    has_drive is_refused joined pop resolve reversed_onto join member precedes byte_length consed
    ensure_length ensure_reservation_scope_shape insert_unique normalize_generated_members
    normalize_members sorted sorted_unique_ids from_parts is_scope_key for_each guard or_fail pure
    gets modify request_reservation_body require_role require_active_session load_session find
    subtask_exists load_overlaps find_overlapping_reservations sort_by_creation insert_by_creation
    query_overlaps query_overlap_ids_for_subtree of_class is_current is_under in_range select
    path_ancestor_scope_keys ancestors_from descendant_path_prefix has_successor
    lexicographic_prefix_upper_bound is_readable insert_reservation insert
    record_reservation_overlap_conflicts record_overlap upsert_conflict append_session_event
    append_event SessionRole-discrete decide
granted = refl

request_reservation_body-conflicts_example :
    exists_row (open_under (pair_id name 51 50)) granted_store.conflicts ≡ true
unfolding rows_grounded is_grounded is_relative
request_reservation_body-conflicts_example =
    request_reservation_body-conflicts name request 51 100 100 reserved_store (Scope.subtree lib)
      of_file refl candidate_read (inl refl) of_file-Overlaps granted
