-- ===== src/Log/Replays.antt =====
-- A repeated key, at once or after any history.
use covey.Common.{
  ℕ, ◌≡◌, refl, sym, ap, subst, ◌∙◌, ◌⊎◌, inl, inr, Bool, List, [], ◌∷◌, some, find, insert,
  find-insert_found, Option-cases,
}
use covey.Model.Rows.{Store, Event, EventType, IdempotencyRecord, Claim, Session, Reservation}
use covey.Model.State.{ObjectType}
use covey.Txn.{
  Tx, Out, ok, err, after, advance_lease_clock, append_system_event, append_event, with_write_tx,
  rollback,
}
use covey.Txn.Idempotent.{Mutation, matches}
use covey.Txn.Triples.{Post, Keeps, keeps_rules, Keeps-modify, Triple-weaken}
use covey.Lifecycle.Creating.{create_work_subtask}
use covey.Lifecycle.Claiming.{claim_subtask, expire_claim}
use covey.Lifecycle.Holding.{start_subtask, abandon_subtask, release_claim, renew_claim}
use covey.Lifecycle.Completing.{record_direct_outcome, resolve_reservation_overlap_conflicts}
use covey.Lifecycle.Statements.{update_sessions, update_reservations}
use covey.MetaTasks.{submit_meta_task, cancel_meta_task}
use covey.Sessions.{register_session, heartbeat, exit_session}
use covey.Maintenance.{reap_stale_sessions, expire_old_claims, expire_old_reservations}
use covey.Calls.{
  Codecs, Request, registers, heartbeats, exits, submits, cancels, creates, claims_one, starts,
  abandons, releases, renews, records_outcome, Call, mutates, reaps, expires_claims,
  expires_reservations, perform, step, run,
}
use covey.Log.Statements.{Log, update_sessions-Log, update_reservations-Log}
use covey.Log.Operations.{expire_claim-Log}
use covey.Log.Closing.{resolve_conflicts-Log}
use covey.Log.Retries.{clocked-same, unclocked-same}
use covey.Log.Histories.{reading, perform-one_event}

same_after :
    {A : Type 0} (s0 s1 : Store) (o : Out A)
    → Post (λ _ s'. s' ≡ s1) (λ s'. s' ≡ s0) o
    → (after o ≡ s0) ⊎ (after o ≡ s1)
same_after s0 s1 (ok a s') h = inr h
same_after s0 s1 (err e s') h = inl h

-- In each of the twelve requests that histories are made of, a key that is already recorded, whatever
-- its hash, changes nothing but the lease clock.
pub perform-replayed :
    (c : Codecs) (m : Mutation) (now : ℕ) (request : Request) (s : Store) (r : IdempotencyRecord)
    → find (matches m) s.idempotency ≡ some r
    → (perform c m now request s ≡ s) ⊎ (perform c m now request s ≡ reading request now s)
unfolding perform create_work_subtask claim_subtask start_subtask abandon_subtask release_claim
    renew_claim record_direct_outcome submit_meta_task cancel_meta_task register_session heartbeat
    exit_session
perform-replayed c m now (registers req token) s r e =
    same_after s _ _ (clocked-same c.of_handle m now _ s e)
perform-replayed c m now (heartbeats token) s r e =
    same_after s _ _ (clocked-same c.of_unit m now _ s e)
perform-replayed c m now (exits token) s r e =
    same_after s _ _ (unclocked-same c.of_unit m now _ s e)
perform-replayed c m now (submits req id) s r e =
    same_after s _ _ (unclocked-same c.of_id m now _ s e)
perform-replayed c m now (cancels req) s r e =
    same_after s _ _ (unclocked-same c.of_unit m now _ s e)
perform-replayed c m now (creates req id) s r e =
    same_after s _ _ (unclocked-same c.of_id m now _ s e)
perform-replayed c m now (claims_one req id) s r e =
    same_after s _ _ (clocked-same c.of_claim m now _ s e)
perform-replayed c m now (starts req) s r e = same_after s _ _ (clocked-same c.of_unit m now _ s e)
perform-replayed c m now (abandons req) s r e =
    same_after s _ _ (clocked-same c.of_unit m now _ s e)
perform-replayed c m now (releases req) s r e =
    same_after s _ _ (clocked-same c.of_unit m now _ s e)
perform-replayed c m now (renews req extend) s r e =
    same_after s _ _ (clocked-same c.of_claim m now _ s e)
perform-replayed c m now (records_outcome input) s r e =
    same_after s _ _ (clocked-same c.of_outcome m now _ s e)

reading-records :
    (request : Request) (now : ℕ) (s : Store) → (reading request now s).idempotency ≡ s.idempotency
reading-records (registers req token) now s = refl
reading-records (heartbeats token) now s = refl
reading-records (exits token) now s = refl
reading-records (submits req id) now s = refl
reading-records (cancels req) now s = refl
reading-records (creates req id) now s = refl
reading-records (claims_one req id) now s = refl
reading-records (starts req) now s = refl
reading-records (abandons req) now s = refl
reading-records (releases req) now s = refl
reading-records (renews req extend) now s = refl
reading-records (records_outcome input) now s = refl

-- A record that the store finds by a test.
abbrev pub Has : (IdempotencyRecord → Bool) → IdempotencyRecord → Store → Type 0
Has p r s = find p s.idempotency ≡ some r

perform-Has :
    (c : Codecs) (m : Mutation) (now : ℕ) (request : Request) (s : Store)
    (p : IdempotencyRecord → Bool) (r : IdempotencyRecord)
    → Has p r s
    → Has p r (perform c m now request s)
perform-Has c m now request s p r h = elim (Option-cases (find (matches m) s.idempotency)) [
  | inl e ↦ elim (perform-one_event c m now request s e) [
    | inl q ↦ subst (Has p r) (sym q) h
    | inr (x, (_, u)) ↦
        subst (λ rs. find p rs ≡ some r)
          (sym (u.one_record ∙ ap (insert x) (reading-records request now s)))
          (find-insert_found p x s.idempotency h)
  ]
  | inr (x, e) ↦ elim (perform-replayed c m now request s x e) [
    | inl q ↦ subst (Has p r) (sym q) h
    | inr q ↦
        subst (Has p r) (sym q)
          (subst (λ rs. find p rs ≡ some r) (sym (reading-records request now s)) h)
  ]
]

record Stays (before now : List IdempotencyRecord) : Type 0 where
  same : now ≡ before

-- The idempotency records are these.
abbrev Records : List IdempotencyRecord → Store → Type 0
Records rs s = Stays rs s.idempotency

module _ {rs : List IdempotencyRecord} where
  Records-of_Log :
      {A : Type 0} (m : Tx A)
      → ((es : List Event) (tick : ℕ) → Keeps (Log es rs tick) m)
      → Keeps (Records rs) m
  Records-of_Log m h = record {
    at = λ s v.
        (Triple-weaken m (h s.events s.last_tick_ms) (λ a s' q. record { same = q.same_records })
            (λ s' q. record { same = q.same_records })).at
          s (record { same_events = refl; same_records = v.same; same_tick = refl });
  }

  advance_lease_clock-Records : (now : ℕ) → Keeps (Records rs) (advance_lease_clock now)
  unfolding advance_lease_clock
  advance_lease_clock-Records now = search (keeps_rules, Keeps-modify)

  append_system_event-Records :
      (e : EventType) (o : ObjectType) (id now : ℕ)
      → Keeps (Records rs) (append_system_event e o id now)
  unfolding append_system_event append_event
  append_system_event-Records e o id now = Keeps-modify _ (λ s h. h)

  expire_claim-Records : (claim : Claim) (now : ℕ) → Keeps (Records rs) (expire_claim claim now)
  expire_claim-Records claim now = Records-of_Log _ (λ es tick. expire_claim-Log claim now)

  resolve-Records : (now id : ℕ) → Keeps (Records rs) (resolve_reservation_overlap_conflicts now id)
  resolve-Records now id = Records-of_Log _ (λ es tick. resolve_conflicts-Log now id)

  update_sessions-Records :
      (p : Session → Bool) (f : Session → Session) → Keeps (Records rs) (update_sessions p f)
  update_sessions-Records p f = Records-of_Log _ (λ es tick. update_sessions-Log p f)

  update_reservations-Records :
      (p : Reservation → Bool) (f : Reservation → Reservation)
      → Keeps (Records rs) (update_reservations p f)
  update_reservations-Records p f = Records-of_Log _ (λ es tick. update_reservations-Log p f)

  committed :
      {A : Type 0} (m : Tx A) (s : Store)
      → Keeps (Records rs) m
      → s.idempotency ≡ rs
      → (after (with_write_tx m s)).idempotency ≡ rs
  unfolding with_write_tx
  committed {A} m s k e = settled (m s) (k.at s (record { same = e }))
    where
      settled :
          (o : Out A)
          → Post (λ _. Records rs) (Records rs) o
          → (after (rollback s o)).idempotency ≡ rs
      settled (ok a s') h = h.same
      settled (err x s') h = e

ruleset records_rules = (
  keeps_rules, advance_lease_clock-Records, append_system_event-Records, expire_claim-Records,
  resolve-Records, update_sessions-Records, update_reservations-Records,
)

step-Has :
    (c : Codecs) (call : Call) (s : Store) (p : IdempotencyRecord → Bool) (r : IdempotencyRecord)
    → Has p r s
    → Has p r (step c call s)
unfolding step reap_stale_sessions expire_old_claims expire_old_reservations
step-Has c (mutates m now request) s p r h = perform-Has c m now request s p r h
step-Has c (reaps threshold now) s p r h =
    ap (find p) (committed _ s (search records_rules depth 9) refl) ∙ h
step-Has c (expires_claims now) s p r h =
    ap (find p) (committed _ s (search records_rules depth 9) refl) ∙ h
step-Has c (expires_reservations now) s p r h =
    ap (find p) (committed _ s (search records_rules depth 9) refl) ∙ h

pub run-Has :
    (c : Codecs) (calls : List Call) (s : Store) (p : IdempotencyRecord → Bool)
    (r : IdempotencyRecord)
    → Has p r s
    → Has p r (run c calls s)
unfolding run
run-Has c [] s p r h = h
run-Has c (call ∷ calls) s p r h = run-Has c calls (step c call s) p r (step-Has c call s p r h)
