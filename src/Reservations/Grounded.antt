-- ===== src/Reservations/Grounded.antt =====
-- The keys of the rows that `request_reservation` of src/ops/reservation.rs stores.
use covey.Common.{ℕ, ◌≡◌, Bool, true, ◌&&◌, List, [], ◌∷◌, ◌++◌, arith, insert}
use covey.Model.Rows.{Store, Reservation}
use covey.Txn.{append_session_event, append_event}
use covey.Txn.Kept.{Keeps-with_write_tx, Keeps-after, Keeps-with_idempotent_mutation}
use covey.Txn.Idempotent.{Codec, Mutation}
use covey.Txn.{after, advance_lease_clock}
use covey.Txn.Triples.{Keeps, Triple-bind, Triple-given, Keeps-modify, Keeps-then, keeps_rules}
use covey.Validators.{require_role, require_active_session, load_session, subtask_exists}
use covey.Reservations.Overlaps.{is_grounded}
use covey.Reservations.Requests.{load_overlaps, record_reservation_overlap_conflicts}
use covey.Reservations.Operations.{
  RequestReservationReq, candidate_of, insert_reservation, request_reservation_body,
  request_reservation,
}
use covey.Reservations.Candidates.{read_candidate-grounded}

unfoldable pub rows_grounded : List Reservation → Bool
rows_grounded [] = true
rows_grounded (r ∷ rs) =
    is_grounded r.scope_class r.scope_key r.generated_members && rows_grounded rs

-- Of every row, the keys and members that the overlap queries read as paths are relative.
abbrev pub AllGrounded : Store → Type 0
AllGrounded s = rows_grounded s.reservations ≡ true

rows_grounded-append :
    (r : Reservation) (rs : List Reservation)
    → is_grounded r.scope_class r.scope_key r.generated_members ≡ true
    → rows_grounded rs ≡ true
    → rows_grounded (rs ++ (r ∷ [])) ≡ true
unfolding rows_grounded
rows_grounded-append r [] h k = ground arith
rows_grounded-append r (q ∷ rs) h k = ground (arith, rows_grounded-append r rs)

insert_reservation-AllGrounded :
    (r : Reservation)
    → is_grounded r.scope_class r.scope_key r.generated_members ≡ true
    → Keeps AllGrounded (insert_reservation r)
unfolding insert_reservation insert
insert_reservation-AllGrounded r h = Keeps-then _ _ (search keeps_rules) λ _.
    Keeps-then _ _ (search keeps_rules)
      λ _. Keeps-modify _ (λ s k. rows_grounded-append r s.reservations h k)

record_conflicts-AllGrounded :
    (name : ℕ → ℕ → ℕ) (id : ℕ) (overlaps : List Reservation) (now : ℕ)
    → Keeps AllGrounded (record_reservation_overlap_conflicts name id overlaps now)
unfolding record_reservation_overlap_conflicts
record_conflicts-AllGrounded name id overlaps now = search (keeps_rules, Keeps-modify) depth 20

request_reservation_body-AllGrounded :
    (name : ℕ → ℕ → ℕ) (req : RequestReservationReq) (reservation_id lease_now now : ℕ)
    → Keeps AllGrounded (request_reservation_body name req reservation_id lease_now now)
unfolding request_reservation_body candidate_of require_role require_active_session load_session
    subtask_exists load_overlaps append_session_event append_event
request_reservation_body-AllGrounded name req reservation_id lease_now now =
    Keeps-then _ _ (search keeps_rules depth 20) λ _. Keeps-then _ _ (search keeps_rules) λ owned.
      Keeps-then _ _ (search keeps_rules) λ _.
        Triple-bind _ _ (read_candidate-grounded AllGrounded _ _ _) λ candidate. Triple-given _ λ g.
          Keeps-then _ _ (search keeps_rules depth 20) λ overlaps.
            Keeps-then _ _ (insert_reservation-AllGrounded _ g) λ _.
              Keeps-then _ _ (record_conflicts-AllGrounded _ _ _ _)
                λ _. search (keeps_rules, Keeps-modify) depth 20

-- Of a store whose rows all have this, a request of a reservation, whether it succeeds, fails or
-- repeats a key, leaves one whose rows do: the key of an exact path or a subtree is a relative path, and
-- a generated set has members, all of them relative paths. Of a generated set's own key, which is a
-- label that no query reads, it says nothing.
pub request_reservation-AllGrounded :
    (codec : Codec ℕ) (m : Mutation) (name : ℕ → ℕ → ℕ) (req : RequestReservationReq)
    (reservation_id now : ℕ) (s : Store)
    → AllGrounded s
    → AllGrounded (after (request_reservation codec m name req reservation_id now s))
unfolding request_reservation advance_lease_clock
request_reservation-AllGrounded codec m name req reservation_id now s h =
    Keeps-after (request_reservation codec m name req reservation_id now) s
      (Keeps-with_write_tx _ (
        Keeps-then _ _ (search (keeps_rules, Keeps-modify)) λ lease_now.
          Keeps-with_idempotent_mutation codec m now _ (λ rows t k. k)
            (request_reservation_body-AllGrounded name req reservation_id lease_now now)))
      h
