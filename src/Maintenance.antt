-- ===== src/Maintenance.antt =====
-- src/ops/maintenance.rs, and `load_expirable_claims` and `load_expired_reservation_ids` of
-- src/queries.rs.
use covey.Common.{
  ℕ, ◌+◌, Bool, not, ◌&&◌, ◌||◌, List, [], ◌∷◌, if◌then◌else◌, ◌==◌, leb, ltb, length, exists_row,
  select,
}
use covey.Model.State.{
  ObjectType, SessionState, ReservationState, is_active, is_held, is_live_reservation,
}
use covey.Model.Rows.{
  Store, Claim, Reservation, sessions_reaped, claims_expired, reservations_expired,
}
use covey.Txn.{
  Tx, pure, gets, ◌>>=◌, ◌>>◌, with_write_tx, advance_lease_clock, append_system_event, for_each,
}
use covey.Lifecycle.Statements.{update_sessions, update_reservations}
use covey.Lifecycle.Claiming.{expire_claim}
use covey.Lifecycle.Completing.{reservation_ids, resolve_reservation_overlap_conflicts}

-- Held, and out of its lease or owned by a session that went stale or exited.
unfoldable pub is_expirable : Store → ℕ → Claim → Bool
is_expirable s now c =
    is_held c.state
    && (leb c.lease_deadline now
        || exists_row (λ r. r.session_token == c.owner_session_token && not (is_active r.state))
            s.sessions)

-- Older claims first, then by identifier.
abbrev claim_before : Claim → Claim → Bool
claim_before a b =
    ltb a.created_at b.created_at || (a.created_at == b.created_at && leb a.claim_id b.claim_id)

unfoldable pub insert_by_age : Claim → List Claim → List Claim
insert_by_age c [] = c ∷ []
insert_by_age c (d ∷ ds) = if claim_before c d then c ∷ d ∷ ds else d ∷ insert_by_age c ds

unfoldable pub sort_by_age : List Claim → List Claim
sort_by_age [] = []
sort_by_age (c ∷ cs) = insert_by_age c (sort_by_age cs)

-- The two queries and their merge without repetitions come to one scan of the table.
unfoldable pub load_expirable_claims : ℕ → Store → List Claim
load_expirable_claims now s = sort_by_age (select (is_expirable s now) s.claims)

-- `stale_threshold_ms` is at least 0 here.
unfoldable pub reap_stale_sessions : ℕ → ℕ → Tx ℕ
reap_stale_sessions stale_threshold_ms now = with_write_tx do
  lease_now ← advance_lease_clock now
  stale_sessions ←
      update_sessions
        (λ r. is_active r.state && leb (r.last_heartbeat_tick + stale_threshold_ms) lease_now)
        (λ r. record r { state = SessionState.stale; updated_at = now })
  stale_claims ← gets λ s. load_expirable_claims lease_now s
  for_each stale_claims (λ claim. expire_claim claim now)
  if ltb 0 stale_sessions
      then append_system_event sessions_reaped ObjectType.session 0 now
      else pure tt
  pure stale_sessions

unfoldable pub expire_old_claims : ℕ → Tx ℕ
expire_old_claims now = with_write_tx do
  lease_now ← advance_lease_clock now
  stale_claims ← gets λ s. load_expirable_claims lease_now s
  for_each stale_claims (λ claim. expire_claim claim now)
  if ltb 0 (length stale_claims)
      then append_system_event claims_expired ObjectType.claim 0 now
      else pure tt
  pure (length stale_claims)

abbrev pub is_overdue : ℕ → Reservation → Bool
is_overdue lease_now r = is_live_reservation r.state && leb r.lease_deadline lease_now

unfoldable pub expire_old_reservations : ℕ → Tx ℕ
expire_old_reservations now = with_write_tx do
  lease_now ← advance_lease_clock now
  ids ← gets λ s. reservation_ids (select (is_overdue lease_now) s.reservations)
  expired ←
      update_reservations (is_overdue lease_now)
        (λ r. record r { state = ReservationState.expired; updated_at = now })
  for_each ids (resolve_reservation_overlap_conflicts now)
  if ltb 0 expired
      then append_system_event reservations_expired ObjectType.reservation 0 now
      else pure tt
  pure expired
