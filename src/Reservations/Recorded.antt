-- ===== src/Reservations/Recorded.antt =====
-- The conflicts that `request_reservation` of src/ops/reservation.rs leaves in the store.
use covey.Common.{
  ℕ, ◌≡◌, refl, subst, Bool, true, false, ◌&&◌, inl, inr, List, [], ◌∷◌, ltb, ◌==◌, if◌then◌else◌,
  arith, exists_row, Among, Among-select, ==_refl,
}
use covey.Model.State.{ConflictResolutionState, open_conflict}
use covey.Model.Rows.{Store, Reservation, Conflict}
use covey.Txn.{Tx, ok, gets, append_session_event, append_event, for_each}
use covey.Txn.Triples.{
  Triple, Keeps, Post, Triple-bind, Triple-gets, Triple-given, Triple-weaken, Triple-modify,
  Keeps-modify, Keeps-then, Keeps-for_each, Triple-from, Triple-pure, keeps_rules,
}
use covey.Validators.{require_role, require_active_session, load_session, subtask_exists}
use covey.Reservations.Scope.{ReservationScope}
use covey.Reservations.Queries.{insert_by_creation, sort_by_creation, find_overlapping_reservations}
use covey.Reservations.Overlaps.{is_grounded, Overlaps, query_overlaps_iff}
use covey.Reservations.Candidates.{grounded, read_candidate-grounded}
use covey.Reservations.Grounded.{rows_grounded}
use covey.Reservations.Requests.{
  load_overlaps, record_reservation_overlap_conflicts, record_overlap, upsert_conflict, left_of,
  right_of,
}
use covey.Reservations.Operations.{
  RequestReservationReq, candidate_of, insert_reservation, request_reservation_body,
}

abbrev pub is_open : ConflictResolutionState → Bool
is_open open_conflict = true
is_open _ = false

-- An open conflict with the identifier.
abbrev pub open_under : ℕ → Conflict → Bool
open_under id c = c.conflict_id == id && is_open c.resolution_state

-- The identifier of the conflict of two reservations.
abbrev pub pair_id : (ℕ → ℕ → ℕ) → ℕ → ℕ → ℕ
pair_id name a b = name (left_of a b) (right_of a b)

upsert-has :
    (c : Conflict) (ds : List Conflict)
    → is_open c.resolution_state ≡ true
    → exists_row (open_under c.conflict_id) (upsert_conflict c ds) ≡ true
unfolding upsert_conflict exists_row
upsert-has c [] h = ground (arith, ==_refl c.conflict_id)
upsert-has c (d ∷ ds) h = ground (arith, upsert-has c ds, ==_refl c.conflict_id)

upsert-keeps :
    (k : ℕ) (c : Conflict) (ds : List Conflict)
    → is_open c.resolution_state ≡ true
    → exists_row (open_under k) ds ≡ true
    → exists_row (open_under k) (upsert_conflict c ds) ≡ true
unfolding upsert_conflict exists_row
upsert-keeps k c [] h e = cc
upsert-keeps k c (d ∷ ds) h e = ground (arith, upsert-keeps k c ds)

Among-either :
    (b : Bool) (a : Reservation) (xs ys : List Reservation)
    → Among a xs
    → Among a ys
    → Among a (if b then xs else ys)
Among-either true a xs ys h k = h
Among-either false a xs ys h k = k

Among-insert_by_creation_here :
    (a : Reservation) (rs : List Reservation) → Among a (insert_by_creation a rs)
unfolding insert_by_creation
Among-insert_by_creation_here a [] = inl refl
Among-insert_by_creation_here a (q ∷ qs) =
    Among-either (ltb q.created_at a.created_at) a _ _ (inr (Among-insert_by_creation_here a qs))
      (inl refl)

Among-insert_by_creation :
    (a r : Reservation) (rs : List Reservation) → Among a rs → Among a (insert_by_creation r rs)
unfolding insert_by_creation
Among-insert_by_creation a r [] m = inr m
Among-insert_by_creation a r (q ∷ qs) (inl e) =
    Among-either (ltb q.created_at r.created_at) a _ _ (inl e) (inr (inl e))
Among-insert_by_creation a r (q ∷ qs) (inr m) =
    Among-either (ltb q.created_at r.created_at) a _ _ (inr (Among-insert_by_creation a r qs m))
      (inr (inr m))

Among-sort_by_creation :
    (a : Reservation) (rs : List Reservation) → Among a rs → Among a (sort_by_creation rs)
unfolding sort_by_creation
Among-sort_by_creation a [] m = m
Among-sort_by_creation a (r ∷ rs) (inl e) =
    rw e (Among-insert_by_creation_here r (sort_by_creation rs))
Among-sort_by_creation a (r ∷ rs) (inr m) =
    Among-insert_by_creation a r (sort_by_creation rs) (Among-sort_by_creation a rs m)

row_grounded :
    (r : Reservation) (rs : List Reservation)
    → rows_grounded rs ≡ true
    → Among r rs
    → is_grounded r.scope_class r.scope_key r.generated_members ≡ true
unfolding rows_grounded
row_grounded r [] h m = absurd m
row_grounded r (q ∷ rs) h (inl e) = rw e (ground arith)
row_grounded r (q ∷ rs) h (inr m) = row_grounded r rs (ground arith) m

-- A row that overlaps is among the rows that the search returns.
found :
    (candidate : ReservationScope) (r : Reservation) (s : Store)
    → grounded candidate ≡ true
    → rows_grounded s.reservations ≡ true
    → Among r s.reservations
    → Overlaps s.last_tick_ms candidate r
    → Among r (find_overlapping_reservations candidate s)
unfolding find_overlapping_reservations
found candidate r s g h m o =
    let hit =
      (query_overlaps_iff s.last_tick_ms candidate r g (row_grounded r s.reservations h m)).1 o in
    Among-sort_by_creation r _ (Among-select _ r s.reservations hit m)

-- An open conflict with the identifier is in the store.
abbrev HasOpen : ℕ → Store → Type 0
HasOpen k s = exists_row (open_under k) s.conflicts ≡ true

abbrev Anything : Store → Type 0
Anything s = Unit {0}

record_overlap-keeps :
    (name : ℕ → ℕ → ℕ) (k id now : ℕ) (r : Reservation)
    → Keeps (HasOpen k) (record_overlap name id now r)
unfolding record_overlap
record_overlap-keeps name k id now r = Keeps-modify _ (λ s h. upsert-keeps k _ s.conflicts refl h)

record_overlap-has :
    (name : ℕ → ℕ → ℕ) (id now : ℕ) (r : Reservation)
    → Triple Anything
        (record_overlap name id now r)
        (λ _ s. HasOpen (pair_id name id r.reservation_id) s)
        Anything
unfolding record_overlap
record_overlap-has name id now r = Triple-modify _ (λ s h. upsert-has _ s.conflicts refl)

record_overlap-any :
    (name : ℕ → ℕ → ℕ) (id now : ℕ) (r : Reservation)
    → Keeps Anything (record_overlap name id now r)
unfolding record_overlap
record_overlap-any name id now r = Keeps-modify _ (λ s h. tt)

anyway : {A : Type 0} {P : Store → Type 0} (m : Tx A) → Keeps P m → Triple P m (λ _ s. P s) Anything
anyway m h = Triple-weaken m h (λ a s p. p) (λ s p. tt)

records_each :
    (name : ℕ → ℕ → ℕ) (id now : ℕ) (r : Reservation) (overlaps : List Reservation)
    → Among r overlaps
    → Triple Anything
        (record_reservation_overlap_conflicts name id overlaps now)
        (λ _ s. HasOpen (pair_id name id r.reservation_id) s)
        Anything
unfolding record_reservation_overlap_conflicts for_each
records_each name id now r [] m = absurd m
records_each name id now r (q ∷ qs) (inl e) = rw e (
    Triple-bind _ _ (record_overlap-has name id now q) λ _. anyway _ (
      Keeps-for_each qs _
        (λ x. record_overlap-keeps name (pair_id name id q.reservation_id) id now x)))
records_each name id now r (q ∷ qs) (inr m) =
    Triple-bind _ _ (record_overlap-any name id now q) λ _. records_each name id now r qs m

candidate_grounded :
    (scope : ReservationScope) (s : Store) (candidate : ReservationScope)
    → candidate_of scope s ≡ ok candidate s
    → grounded candidate ≡ true
unfolding candidate_of
candidate_grounded scope s candidate c =
    (subst (Post (λ d t. (grounded d ≡ true) × Unit {0}) Anything) c
      ((read_candidate-grounded Anything _ _ _).at s tt)).0

-- An action that is known to return at the store.
returns :
    {A : Type 0} (m : Tx A) (s : Store) (a : A)
    → m s ≡ ok a s
    → Triple (λ t. t ≡ s) m (λ b t. (b ≡ a) × (t ≡ s)) Anything
returns m s a e = record { at = λ t p. rw (p, e) (refl, refl) }

abbrev At : Store → Store → Type 0
At s t = t ≡ s

queried :
    (candidate : ReservationScope) (s : Store) (d : ReservationScope)
    → d ≡ candidate
    → Triple
        (At s)
        (gets (find_overlapping_reservations d))
        (λ rows t. (rows ≡ find_overlapping_reservations candidate s) × Anything t)
        Anything
queried candidate s d same = Triple-gets _ (λ t p. (cc (same, p), tt))

load_overlaps-found :
    (candidate : ReservationScope) (s : Store) (d : ReservationScope)
    → d ≡ candidate
    → Triple
        (At s)
        (load_overlaps d)
        (λ rows t. rows ≡ find_overlapping_reservations candidate s)
        Anything
unfolding load_overlaps
load_overlaps-found candidate s d same =
    Triple-bind _ _ (queried candidate s d same) λ rows.
      Triple-given _ λ e. Keeps-then _ _ (search keeps_rules) λ _. Triple-pure rows (λ t h. e)

conflicts_recorded :
    (name : ℕ → ℕ → ℕ) (req : RequestReservationReq) (id lease_now now : ℕ) (s : Store)
    (candidate : ReservationScope) (r : Reservation)
    → candidate_of req.scope s ≡ ok candidate s
    → Among r (find_overlapping_reservations candidate s)
    → Triple
        (At s)
        (request_reservation_body name req id lease_now now)
        (λ _ t. HasOpen (pair_id name id r.reservation_id) t)
        Anything
unfolding request_reservation_body require_role require_active_session load_session subtask_exists
    append_session_event append_event
conflicts_recorded name req id lease_now now s candidate r c m =
    Triple-bind _ _ (anyway _ (search keeps_rules depth 20)) λ _.
      Triple-bind _ _ (anyway _ (search keeps_rules)) λ owned.
        Triple-bind _ _ (anyway _ (search keeps_rules)) λ _.
          Triple-bind _ _ (returns _ s candidate c) λ d. Triple-given _ λ same.
            Triple-bind _ _ (load_overlaps-found candidate s d same) λ rows.
              Triple-from _ (λ t h. (h, tt))
                (Triple-given _ λ e.
                  Keeps-then _ _ (unfold insert_reservation in search (keeps_rules, Keeps-modify))
                    λ _.
                      Triple-bind _ _ (records_each name id now r rows (rw e m))
                        λ _. anyway _ (search (keeps_rules, Keeps-modify) depth 20))

-- Requesting a reservation from a store whose rows have relative paths: when the request is granted,
-- every active row in its lease that covers a path of the requested scope has an open conflict with
-- the new reservation.
pub request_reservation_body-conflicts :
    (name : ℕ → ℕ → ℕ) (req : RequestReservationReq) (id lease_now now : ℕ)
    → (s : Store) {s' : Store} {out : ℕ} (candidate : ReservationScope) (r : Reservation)
    → rows_grounded s.reservations ≡ true
    → candidate_of req.scope s ≡ ok candidate s
    → Among r s.reservations
    → Overlaps s.last_tick_ms candidate r
    → request_reservation_body name req id lease_now now s ≡ ok out s'
    → exists_row (open_under (pair_id name id r.reservation_id)) s'.conflicts ≡ true
request_reservation_body-conflicts name req id lease_now now s {s'} {out} candidate r h c m o e =
    subst (Post (λ _ t. HasOpen (pair_id name id r.reservation_id) t) Anything) e (
      (conflicts_recorded name req id lease_now now s candidate r c
          (found candidate r s (candidate_grounded req.scope s candidate c) h m o)).at
        s refl)
