-- ===== src/Fencing/Histories.antt =====
-- A dead claim through every history of calls.
use covey.Common.{
  ℕ, max, ◌≡◌, ◌≢◌, refl, sym, subst, arith, false, List, [], ◌∷◌, Option, none, some, find, ◌==◌,
  ==_refl,
}
use covey.Model.Rows.{Store, AttemptOutcome, EventType, IdempotencyRecord}
use covey.Txn.{Tx, Out, ok, err, after, rollback, with_write_tx, advance_lease_clock}
use covey.Txn.Idempotent.{
  Codec, Mutation, matches, replay, run_and_record, with_idempotent_mutation,
}
use covey.Txn.Triples.{
  Post, Triple, Keeps, keeps_rules, Keeps-modify, Keeps-bind, Keeps-pure, Triple-bind,
  Triple-weaken, Triple-from, Triple-modify, Triple-gets,
}
use covey.Lifecycle.Creating.{create_work_subtask}
use covey.Lifecycle.Claiming.{claim_subtask}
use covey.Lifecycle.Holding.{start_subtask, abandon_subtask, release_claim, renew_claim}
use covey.Lifecycle.Completing.{OutcomeInput, record_direct_outcome, record_direct_outcome_tx}
use covey.MetaTasks.{submit_meta_task, cancel_meta_task}
use covey.Sessions.{register_session, heartbeat, exit_session}
use covey.Maintenance.{reap_stale_sessions, expire_old_claims, expire_old_reservations}
use covey.Calls.{
  Codecs, Request, registers, heartbeats, exits, submits, cancels, creates, claims_one, starts,
  abandons, releases, renews, records_outcome, Call, mutates, reaps, expires_claims,
  expires_reservations, perform, step, run,
}
use covey.Log.Retries.{clocked, unclocked, ticked}
use covey.Fencing.Current.{Any, record_direct_outcome-Current}
use covey.Fencing.Statements.{Dead, DeadIn-later, dead_rules}
use covey.Fencing.Dead.{
  expire_claim-Dead, claim_subtask_body-Dead, renew_claim_body-Dead, Current-other,
}
use covey.Fencing.Operations.{
  register_session_body-Dead, heartbeat_body-Dead, exit_session_body-Dead, submit_meta_task_tx-Dead,
  cancel_meta_task_body-Dead, start_subtask_body-Dead, abandon_subtask_body-Dead,
  release_claim_body-Dead, record_direct_outcome_tx-Dead, create_work_subtask_tx-Dead,
  resolve_conflicts-Dead,
}

module _ {A : Type 0} {dead : ℕ} where
  -- A transaction that commits only stores in which the claim is dead.
  committed-Dead :
      (m : Tx A) (s : Store)
      → Triple (Dead dead) m (λ _ s'. Dead dead s') Any
      → Dead dead s
      → Dead dead (after (with_write_tx m s))
  unfolding with_write_tx
  committed-Dead m s h v = settled (m s) (h.at s v)
    where
      settled : (o : Out A) → Post (λ _ s'. Dead dead s') Any o → Dead dead (after (rollback s o))
      settled (ok a s') p = p
      settled (err e s') p = v

  either_use :
      (codec : Codec A) (m : Mutation) (now : ℕ) (f : Tx A) (s : Store)
      → Dead dead s
      → Post (λ _ s'. Dead dead s') Any (f s)
      → Post (λ _ s'. Dead dead s') Any (with_idempotent_mutation codec m now f s)
  unfolding with_idempotent_mutation
  either_use codec m now f s v h = first (find (matches m) s.idempotency)
    where
      recorded_once : Post (λ _ s'. Dead dead s') Any (run_and_record codec m now f s)
      recorded_once =
          unfold run_and_record in
          (Triple-bind {P = λ s'. s' ≡ s} {R = λ _ s'. Dead dead s'} f _
              (record { at = λ s' e. subst (λ x. Post (λ _ s2. Dead dead s2) Any (f x)) (sym e) h })
              (λ a.
                Triple-weaken {Q = λ _ s'. Dead dead s'} {E = Dead dead} _
                  (Keeps-bind _ _ (Keeps-modify _ (λ s' v'. v')) (λ _. Keeps-pure a)) (λ a' s' q. q)
                  (λ s' q. tt))).at
            s refl

      replayed : (r : IdempotencyRecord) → Keeps (Dead dead) (replay codec m r)
      replayed r = unfold replay in search keeps_rules

      first :
          (o : Option IdempotencyRecord)
          → Post
              (λ _ s'. Dead dead s')
              Any
              (elim o [
                | some existing ↦ replay codec m existing s
                | none ↦ run_and_record codec m now f s
              ])
      first none = recorded_once
      first (some r) =
          (Triple-weaken (replay codec m r) (replayed r) (λ a s' q. q) (λ s' q. tt)).at s v

  loosely : (m : Tx A) → Keeps (Dead dead) m → Triple (Dead dead) m (λ _ s'. Dead dead s') Any
  loosely m h = Triple-weaken m h (λ a s' q. q) (λ s' q. tt)

  unclocked-Dead :
      (codec : Codec A) (m : Mutation) (now : ℕ) (f : Tx A) (s : Store)
      → Keeps (Dead dead) f
      → Dead dead s
      → Dead dead (after (unclocked codec m now f s))
  unclocked-Dead codec m now f s h =
      committed-Dead _ s
        (record { at = λ s' v. either_use codec m now f s' v ((loosely f h).at s' v) })

  -- The action gets the clock's new reading.
  clocked-Dead :
      (codec : Codec A) (m : Mutation) (now : ℕ) (f : ℕ → Tx A) (s : Store)
      → ((lease_now : ℕ)
          → Triple
              (λ s'. Dead dead s' × (s'.last_tick_ms ≡ lease_now))
              (f lease_now)
              (λ _ s'. Dead dead s')
              Any)
      → Dead dead s
      → Dead dead (after (clocked codec m now f s))
  unfolding advance_lease_clock
  clocked-Dead codec m now f s h = committed-Dead _ s (
      Triple-bind {R = λ lease_now s'. Dead dead s' × (s'.last_tick_ms ≡ lease_now)} _ _
        (Triple-bind {R = λ _ s'. Dead dead s'} _ _
          (Triple-modify _ λ s' v. DeadIn-later dead _ _ s'.claims (omega arith) v)
          λ _. Triple-gets _ (λ s' v. (v, refl)))
        λ lease_now. record {
          at = λ s' p. either_use codec m now (f lease_now) s' p.0 ((h lease_now).at s' p);
        })

  with_clock :
      (m : Tx A) (lease_now : ℕ)
      → Keeps (Dead dead) m
      → Triple (λ s'. Dead dead s' × (s'.last_tick_ms ≡ lease_now)) m (λ _ s'. Dead dead s') Any
  with_clock m lease_now h = Triple-from m (λ s' p. p.0) (loosely m h)

perform-Dead :
    (c : Codecs) (m : Mutation) (now : ℕ) (request : Request) (s : Store) (dead : ℕ)
    → Dead dead s
    → Dead dead (perform c m now request s)
unfolding perform create_work_subtask claim_subtask start_subtask abandon_subtask release_claim
    renew_claim record_direct_outcome submit_meta_task cancel_meta_task register_session heartbeat
    exit_session
perform-Dead c m now (registers req token) s dead =
    clocked-Dead c.of_handle m now _ s
      (λ t. with_clock _ t (register_session_body-Dead req token t now))
perform-Dead c m now (heartbeats token) s dead =
    clocked-Dead c.of_unit m now _ s (λ t. with_clock _ t (heartbeat_body-Dead token t now))
perform-Dead c m now (exits token) s dead =
    unclocked-Dead c.of_unit m now _ s (exit_session_body-Dead token now)
perform-Dead c m now (submits req id) s dead =
    unclocked-Dead c.of_id m now _ s (submit_meta_task_tx-Dead req id now)
perform-Dead c m now (cancels req) s dead =
    unclocked-Dead c.of_unit m now _ s (cancel_meta_task_body-Dead req now)
perform-Dead c m now (creates req id) s dead =
    unclocked-Dead c.of_id m now _ s (create_work_subtask_tx-Dead req id now)
perform-Dead c m now (claims_one req id) s dead =
    clocked-Dead c.of_claim m now _ s (λ t. with_clock _ t (claim_subtask_body-Dead req id t now))
perform-Dead c m now (starts req) s dead =
    clocked-Dead c.of_unit m now _ s (λ t. with_clock _ t (start_subtask_body-Dead req t now))
perform-Dead c m now (abandons req) s dead =
    clocked-Dead c.of_unit m now _ s (λ t. with_clock _ t (abandon_subtask_body-Dead req t now))
perform-Dead c m now (releases req) s dead =
    clocked-Dead c.of_unit m now _ s (λ t. with_clock _ t (release_claim_body-Dead req t now))
perform-Dead c m now (renews req extend) s dead =
    clocked-Dead c.of_claim m now _ s (λ t. renew_claim_body-Dead req extend t now)
perform-Dead c m now (records_outcome input) s dead =
    clocked-Dead c.of_outcome m now _ s
      (λ t. with_clock _ t (record_direct_outcome_tx-Dead _ input t now))

step-Dead :
    (c : Codecs) (call : Call) (s : Store) (dead : ℕ) → Dead dead s → Dead dead (step c call s)
unfolding step reap_stale_sessions expire_old_claims expire_old_reservations
step-Dead c (mutates m now request) s dead = perform-Dead c m now request s dead
step-Dead c (reaps threshold now) s dead =
    committed-Dead _ s (loosely _ (search (dead_rules, expire_claim-Dead) depth 9))
step-Dead c (expires_claims now) s dead =
    committed-Dead _ s (loosely _ (search (dead_rules, expire_claim-Dead) depth 9))
step-Dead c (expires_reservations now) s dead =
    committed-Dead _ s (loosely _ (search (dead_rules, resolve_conflicts-Dead) depth 9))

-- A claim that is known and of which no row is live, because it ended or because the lease clock
-- reached its deadline, stays so through every history of calls: no operation holds it again,
-- renews its lease or turns the clock back.
pub run-Dead :
    (c : Codecs) (calls : List Call) (s : Store) (dead : ℕ)
    → Dead dead s
    → Dead dead (run c calls s)
unfolding run
run-Dead c [] s dead v = v
run-Dead c (call ∷ calls) s dead v =
    run-Dead c calls (step c call s) dead (step-Dead c call s dead v)

-- Once a claim is known and not live, no later direct outcome under it is recorded: after any
-- history of calls, at any reading of the wall clock and with any fence and session, the action
-- does not succeed.
pub run-Dead_fenced :
    (c : Codecs) (calls : List Call) (s s' : Store) (ty : EventType) (input : OutcomeInput)
    (now : ℕ) (result : AttemptOutcome)
    → Dead input.claim_id s
    → record_direct_outcome_tx ty input
        (max (run c calls s).last_tick_ms now)
        now
        (ticked now (run c calls s))
      ≢ ok result s'
run-Dead_fenced c calls s s' ty input now result v e =
    let later : Dead input.claim_id (ticked now (run c calls s)) =
      DeadIn-later input.claim_id _ _ (run c calls s).claims (omega arith)
        (run-Dead c calls s input.claim_id v) in
    let other : (input.claim_id == input.claim_id) ≡ false =
      Current-other input.session_token input.claim_id input.fence_seq _
        (ticked now (run c calls s)) later refl
        (record_direct_outcome-Current ty input _ now (ticked now (run c calls s)) s' result e) in
    ground (arith, other, ==_refl input.claim_id)
