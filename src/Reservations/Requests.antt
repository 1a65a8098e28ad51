-- ===== src/Reservations/Requests.antt =====
-- The operations of src/ops/reservation.rs, with `load_reservation_tx` of src/queries.rs and the
-- conflict rows of src/overlap.rs.
use covey.Common.{
  ℕ, ◌+◌, Bool, not, ◌&&◌, Option, none, some, List, [], ◌∷◌, leb, ltb, ◌==◌, is_null,
  if◌then◌else◌, exists_row, find, length,
}
use covey.Model.State.{ScopeClass, ConflictResolutionState}
use covey.Model.Errors.{
  invalid_path, input_too_large, panicked, database_error, reservation_not_found,
}
use covey.Model.Rows.{Reservation, Conflict}
use covey.Txn.{Tx, pure, guard, or_fail, gets, modify, ◌>>=◌, ◌>>◌, for_each}
use covey.Paths.{Text, is_empty, same, precedes, trim}
use covey.Paths.Scopes.{normalize_scope_key, normalize_relative_repo_path}
use covey.Reservations.Scope.{ReservationScope, from_parts}
use covey.Reservations.Queries.{find_overlapping_reservations}

-- The bytes of a character in UTF-8.
abbrev pub utf8_width : ℕ → ℕ
utf8_width c = if ltb c 128 then 1 else if ltb c 2048 then 2 else if ltb c 65536 then 3 else 4

-- `str::len`.
unfoldable pub byte_length : Text → ℕ
byte_length [] = 0
byte_length (c ∷ s) = utf8_width c + byte_length s

unfoldable pub ensure_length : Text → ℕ → Tx (Unit {0})
ensure_length value limit =
    guard (leb (byte_length value) limit) (input_too_large (byte_length value) limit)

abbrev pub max_path_len : ℕ
max_path_len = 4096

unfoldable pub ensure_generated_member_count : ℕ → Tx (Unit {0})
ensure_generated_member_count count = guard (leb count 1024) (input_too_large count 1024)

-- `sort_unstable` and `dedup`: each text once, in order.
unfoldable pub insert_unique : Text → List Text → List Text
insert_unique k [] = k ∷ []
insert_unique k (x ∷ xs) =
    let rest = insert_unique k xs in
    if same k x then x ∷ xs else if precedes k x then k ∷ x ∷ xs else x ∷ rest

unfoldable pub sorted_unique_ids : List Text → List Text
unfolding insert_unique
sorted_unique_ids [] = []
sorted_unique_ids (k ∷ ks) = insert_unique k (sorted_unique_ids ks)

unfoldable pub consed : Option Text → Option (List Text) → Option (List Text)
consed (some m) (some ms) = some (m ∷ ms)
consed _ _ = none

unfoldable pub normalize_members : List Text → Option (List Text)
unfolding consed
normalize_members [] = some []
normalize_members (m ∷ ms) = consed (normalize_relative_repo_path m) (normalize_members ms)

unfoldable pub sorted : Option (List Text) → Option (List Text)
sorted none = none
sorted (some ms) = some (sorted_unique_ids ms)

unfoldable pub normalize_generated_members : List Text → Option (List Text)
unfolding sorted normalize_members
normalize_generated_members ms = sorted (normalize_members ms)

-- Members exactly for a generated set.
abbrev pub shape_fits : ScopeClass → List Text → Bool
shape_fits ScopeClass.generated_set members = not (is_empty members)
shape_fits _ members = is_empty members

unfoldable pub ensure_reservation_scope_shape : ScopeClass → Text → List Text → Tx (Unit {0})
ensure_reservation_scope_shape class key members = do
  guard (not (is_empty (trim key))) invalid_path
  guard (shape_fits class members) invalid_path

-- `Reservation::try_from_parts` accepts the row.
unfoldable pub is_readable : Reservation → Bool
is_readable r =
    not (is_null (from_parts r.scope_class r.scope_key r.generated_members))
    && leb r.created_at r.updated_at

abbrev pub has_reservation_id : ℕ → Reservation → Bool
has_reservation_id id r = r.reservation_id == id

unfoldable pub load_reservation : ℕ → Tx Reservation
unfolding is_readable
load_reservation id = do
  row ← gets λ s. find (has_reservation_id id) s.reservations
  reservation ← or_fail row reservation_not_found
  guard (is_readable reservation) database_error
  pure reservation

-- The candidate that a request describes, from its raw parts: `normalize_scope_key`, the guards and
-- `OverlapCandidate::new`, whose `expect` panics where the parts do not fit together.
unfoldable pub read_candidate : ScopeClass → Text → List Text → Tx ReservationScope
read_candidate class raw raw_members = do
  ensure_generated_member_count (length raw_members)
  key ← or_fail (normalize_scope_key class raw) invalid_path
  ensure_length key max_path_len
  members ← or_fail (normalize_generated_members raw_members) invalid_path
  ensure_reservation_scope_shape class key members
  for_each members (λ member. ensure_length member max_path_len)
  or_fail (from_parts class key members) panicked

-- The rows as they are loaded: one that `map_reservation` refuses is an error.
unfoldable pub load_overlaps : ReservationScope → Tx (List Reservation)
unfolding is_readable
load_overlaps candidate = do
  rows ← gets λ s. find_overlapping_reservations candidate s
  guard (not (exists_row (λ r. not (is_readable r)) rows)) database_error
  pure rows

-- The `(left, right)` of `ordered_pair`. Identifiers are numbered in their order as texts.
abbrev pub left_of : ℕ → ℕ → ℕ
left_of a b = if leb a b then a else b

abbrev pub right_of : ℕ → ℕ → ℕ
right_of a b = if leb a b then b else a

-- `INSERT ... ON CONFLICT(conflict_id) DO UPDATE`.
unfoldable pub upsert_conflict : Conflict → List Conflict → List Conflict
upsert_conflict c [] = c ∷ []
upsert_conflict c (d ∷ ds) =
    let rest = upsert_conflict c ds in if d.conflict_id == c.conflict_id then c ∷ ds else d ∷ rest

-- `name left right` is the `conflict_id` that `format!` writes of the pair.
unfoldable pub record_overlap : (ℕ → ℕ → ℕ) → ℕ → ℕ → Reservation → Tx (Unit {0})
unfolding upsert_conflict
record_overlap name reservation_id now overlap = modify λ s. record s {
  conflicts =
      upsert_conflict
        (record {
          conflict_id =
              name (left_of reservation_id overlap.reservation_id)
                (right_of reservation_id overlap.reservation_id);
          reservation_id = reservation_id;
          overlapping_reservation_id = overlap.reservation_id;
          detected_at = now;
          resolution_state = ConflictResolutionState.open_conflict;
        })
        s.conflicts;
}

-- Its second `normalize_scope_key` repeats the first, and its payload's parts fit since the
-- candidate's and the loaded row's did.
unfoldable pub record_reservation_overlap_conflicts :
    (ℕ → ℕ → ℕ) → ℕ → List Reservation → ℕ → Tx (Unit {0})
unfolding record_overlap
record_reservation_overlap_conflicts name reservation_id overlaps now =
    for_each overlaps (record_overlap name reservation_id now)
