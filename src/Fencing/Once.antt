-- ===== src/Fencing/Once.antt =====
-- `record_direct_outcome_tx` of src/ops/workflow/completion.rs and the end of its claim.
use covey.Common.{
  ℕ, ◌≤◌, ◌≡◌, ◌≢◌, refl, sym, subst, true, List, arith, max, count, find-some_holds, eq_of_==,
  ==_refl, count-of_find-some, count-update_where-ge, count-update_where_none, ◌==◌,
}
use covey.Model.State.{SubtaskKind, ClaimState}
use covey.Model.Rows.{Store, Session, Subtask, Claim, EventType, OutcomeRow, AttemptOutcome}
use covey.Txn.{Tx, ok, ◌>>=◌}
use covey.Txn.Triples.{
  Post, Triple, Keeps, keeps_rules, Keeps-modify, Triple-bind, Triple-given, Triple-from,
  Triple-weaken, Triple-modify, Triple-guard, Triple-gets,
}
use covey.Validators.Transitions.{ensure_subtask_transition}
use covey.Validators.{
  has_claim_id, held_claim, set_claim_state, load_session, load_subtask, load_meta_task,
  require_active_session, ensure_meta_task_is_schedulable, require_session_can_claim_kind,
  close_claim_and_detach,
}
use covey.Lifecycle.Completing.{
  OutcomeInput, check_outcome, insert_outcome, record_direct_outcome_tx,
}
use covey.Calls.{Codecs, Call, run}
use covey.Log.Retries.{ticked}
use covey.Fencing.Current.{Any, require_current_claim-Current}
use covey.Fencing.Statements.{Dead, live, dead_rules}
use covey.Fencing.Operations.{release_active_reservations-Dead, refresh_meta_task_state-Dead}
use covey.Fencing.Histories.{run-Dead_fenced}

record KnownIn (id : ℕ) (claims : List Claim) : Type 0 where
  known : 1 ≤ count (has_claim_id id) claims

-- The claim has a row.
abbrev Known : ℕ → Store → Type 0
Known id s = KnownIn id s.claims

module _ {id : ℕ} where
  load_session-Known : (t : ℕ) → Keeps (Known id) (load_session t)
  unfolding load_session
  load_session-Known t = search keeps_rules

  load_subtask-Known : (t : ℕ) → Keeps (Known id) (load_subtask t)
  unfolding load_subtask
  load_subtask-Known t = search keeps_rules

  load_meta_task-Known : (t : ℕ) → Keeps (Known id) (load_meta_task t)
  unfolding load_meta_task
  load_meta_task-Known t = search keeps_rules

  require_active_session-Known : (t : ℕ) → Keeps (Known id) (require_active_session t)
  unfolding require_active_session
  require_active_session-Known t = search (keeps_rules, load_session-Known)

  schedulable-Known : (t : ℕ) → Keeps (Known id) (ensure_meta_task_is_schedulable t)
  unfolding ensure_meta_task_is_schedulable
  schedulable-Known t = search (keeps_rules, load_meta_task-Known)

  can_claim_kind-Known :
      (r : Session) (k : SubtaskKind) → Keeps (Known id) (require_session_can_claim_kind r k)
  unfolding require_session_can_claim_kind
  can_claim_kind-Known r k = search keeps_rules

  check_outcome-Known :
      (input : OutcomeInput) (r : Subtask) → Keeps (Known id) (check_outcome input r)
  unfolding check_outcome ensure_subtask_transition
  check_outcome-Known input r = search keeps_rules

  insert_outcome-Known : (row : OutcomeRow) → Keeps (Known id) (insert_outcome row)
  unfolding insert_outcome
  insert_outcome-Known row = search (keeps_rules, Keeps-modify)

  -- Up to the claim's end its row is known.
  Known-bind :
      {A B : Type 0} (m : Tx A) (f : A → Tx B)
      → Keeps (Known id) m
      → ((a : A) → Triple (Known id) (f a) (λ _ s. Dead id s) Any)
      → Triple (Known id) (m >>= f) (λ _ s. Dead id s) Any
  Known-bind m f hm hf = Triple-bind m f (Triple-weaken m hm (λ a s p. p) (λ s p. tt)) hf

-- Closing a claim that has a row ends it.
close_claim-Dead :
    (claim : Claim) (now : ℕ)
    → Triple
        (Known claim.claim_id)
        (close_claim_and_detach claim ClaimState.released now)
        (λ _ s. Dead claim.claim_id s)
        Any
unfolding close_claim_and_detach
close_claim-Dead claim now =
    Triple-bind {R = λ _ s. Known claim.claim_id s} _ _ (Triple-gets _ (λ s p. p)) λ rows.
      Triple-bind {R = λ _ s. Dead claim.claim_id s} _ _
        (Triple-modify _ λ s v. record {
          known = omega (
            arith,
            v.known,
            count-update_where-ge (has_claim_id claim.claim_id) (held_claim claim.claim_id)
                (set_claim_state ClaimState.released now) s.claims (λ r h. h),
          );
          none_live =
              count-update_where_none (live claim.claim_id s.last_tick_ms)
                (held_claim claim.claim_id) (set_claim_state ClaimState.released now) s.claims
                (λ r h. ground (arith, h)) (λ r h. ground (arith, h));
        })
        λ _. Triple-guard _ _ (λ s p h. p) (λ s p. tt)

outcome_Dead-Post :
    (ty : EventType) (input : OutcomeInput) (lease_now now : ℕ) (s : Store)
    → Post (λ _ s'. Dead input.claim_id s') Any (record_direct_outcome_tx ty input lease_now now s)
unfolding record_direct_outcome_tx
outcome_Dead-Post ty input lease_now now s =
    (Triple-bind _ _
        (require_current_claim-Current input.session_token input.claim_id input.fence_seq lease_now)
        λ claim. Triple-given _ λ k.
          let same : (claim.claim_id == input.claim_id) ≡ true =
            find-some_holds (has_claim_id input.claim_id) s.claims k.1 in
          let ids : claim.claim_id ≡ input.claim_id = eq_of_== _ _ same in
          Triple-from {P = Known claim.claim_id} _
            (λ s' q. subst (Known claim.claim_id) (sym q) (record {
              known =
                  count-of_find-some (has_claim_id claim.claim_id) (has_claim_id input.claim_id)
                    s.claims k.1 (==_refl claim.claim_id);
            }))
            (Triple-weaken {Q = λ _ s'. Dead claim.claim_id s'} {E = Any} _
              (Known-bind _ _ (search (keeps_rules, require_active_session-Known)) λ owner.
                Known-bind _ _ (search (keeps_rules, load_subtask-Known)) λ subtask.
                  Known-bind _ _ (search (keeps_rules, schedulable-Known)) λ _.
                    Known-bind _ _ (search (keeps_rules, can_claim_kind-Known)) λ _.
                      Known-bind _ _ (search (keeps_rules, check_outcome-Known)) λ _.
                        Known-bind _ _ (search (keeps_rules, insert_outcome-Known)) λ _.
                          Triple-bind _ _ (close_claim-Dead claim now) λ _.
                            Triple-weaken {Q = λ _ s'. Dead claim.claim_id s'}
                              {E = Dead claim.claim_id} _
                              (search
                                (
                                  dead_rules, release_active_reservations-Dead,
                                  refresh_meta_task_state-Dead,
                                )
                                depth 12)
                              (λ a s' q. q) (λ s' q. tt))
              (λ a s' q. subst (λ id. Dead id s') ids q) (λ s' q. q))).at
      s refl

-- A direct outcome that is recorded leaves its claim known and not live.
record_direct_outcome-Dead :
    (ty : EventType) (input : OutcomeInput) (lease_now now : ℕ) (s s' : Store)
    (result : AttemptOutcome)
    → record_direct_outcome_tx ty input lease_now now s ≡ ok result s'
    → Dead input.claim_id s'
record_direct_outcome-Dead ty input lease_now now s s' result e =
    subst (Post (λ _ s2. Dead input.claim_id s2) Any) e (outcome_Dead-Post ty input lease_now now s)

-- Once a direct outcome is recorded under a claim, no second one of the same claim succeeds: not
-- after any history of calls, of any kind, with any fence or session, at any reading of the clock.
pub record_direct_outcome-once :
    (c : Codecs) (calls : List Call) (s s1 s2 : Store) (ty ty' : EventType)
    (input again : OutcomeInput) (lease_now now now' : ℕ) (result result' : AttemptOutcome)
    → record_direct_outcome_tx ty input lease_now now s ≡ ok result s1
    → again.claim_id ≡ input.claim_id
    → record_direct_outcome_tx ty' again
        (max (run c calls s1).last_tick_ms now')
        now'
        (ticked now' (run c calls s1))
      ≢ ok result' s2
record_direct_outcome-once c calls s s1 s2 ty ty' input again lease_now now now' result result' e
      q =
    run-Dead_fenced c calls s1 s2 ty' again now' result' (
      subst (λ id. Dead id s1) (sym q)
        (record_direct_outcome-Dead ty input lease_now now s s1 result e))
