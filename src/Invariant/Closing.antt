-- ===== src/Invariant/Closing.antt =====
-- The invariant under outcomes of direct work, meta-tasks, sessions and maintenance.
use covey.Common.{ℕ, ◌≡◌, refl, exists_row, count, count-of_exists_row, arith}
use covey.Model.Rows.{Session, Subtask, Claim, EventType, OutcomeRow}
use covey.Txn.Triples.{
  Triple, Keeps, keeps_rules, Keeps-modify, Keeps-bind, Triple-bind, Triple-gets, Triple-guard,
  Triple-modify,
}
use covey.Validators.{
  has_token, active_of, held_claim, set_claim_state, ensure_no_other_active_session,
}
use covey.Lifecycle.Completing.{
  OutcomeInput, resolve_reservation_overlap_conflicts, release_active_reservations, insert_outcome,
  check_outcome, record_direct_outcome_tx,
}
use covey.MetaTasks.{
  SubmitMetaTaskReq, submit_meta_task_tx, CancelMetaTaskReq, revoke_claim, cancel_queue_items,
  cancel_meta_task_body,
}
use covey.Sessions.{
  RegisterSessionReq, insert_session, register_session_body, heartbeat_body, exit_session_body,
  expire_exited_claim, expire_held_claims_for_exited_session,
}
use covey.Maintenance.{reap_stale_sessions, expire_old_claims, expire_old_reservations}
use covey.Invariant.Counts.{Inv, Counts-update_claims, Counts-insert_session}
use covey.Invariant.Statements.{statements_keep, update_sessions-Inv}
use covey.Invariant.Claiming.{expire_claim-Inv}
use covey.Invariant.Operations.{
  with_write_tx-Inv, refresh_meta_task_state-Inv, released-Inv, expired-Inv,
}

resolve_conflicts-Inv : (now id : ℕ) → Keeps Inv (resolve_reservation_overlap_conflicts now id)
unfolding resolve_reservation_overlap_conflicts
resolve_conflicts-Inv now id = search (keeps_rules, Keeps-modify)

release_active_reservations-Inv : (id now : ℕ) → Keeps Inv (release_active_reservations id now)
unfolding release_active_reservations
release_active_reservations-Inv id now =
    search (keeps_rules, statements_keep, resolve_conflicts-Inv)

insert_outcome-Inv : (row : OutcomeRow) → Keeps Inv (insert_outcome row)
unfolding insert_outcome
insert_outcome-Inv row = search (keeps_rules, Keeps-modify)

check_outcome-Inv : (input : OutcomeInput) (r : Subtask) → Keeps Inv (check_outcome input r)
unfolding check_outcome
check_outcome-Inv input r = search (keeps_rules, statements_keep)

pub record_direct_outcome_tx-Inv :
    (e : EventType) (input : OutcomeInput) (lease_now now : ℕ)
    → Keeps Inv (record_direct_outcome_tx e input lease_now now)
unfolding record_direct_outcome_tx
record_direct_outcome_tx-Inv e input lease_now now =
    search
      (
        keeps_rules, statements_keep, released-Inv, check_outcome-Inv, insert_outcome-Inv,
        release_active_reservations-Inv, refresh_meta_task_state-Inv,
      )
      depth 20

pub submit_meta_task_tx-Inv :
    (req : SubmitMetaTaskReq) (id now : ℕ) → Keeps Inv (submit_meta_task_tx req id now)
unfolding submit_meta_task_tx
submit_meta_task_tx-Inv req id now = search (keeps_rules, statements_keep, Keeps-modify) depth 9

revoke_claim-Inv : (now : ℕ) (claim : Claim) → Keeps Inv (revoke_claim now claim)
unfolding revoke_claim
revoke_claim-Inv now claim =
    Keeps-bind _ _
      (Keeps-modify _ λ s v.
        Counts-update_claims (held_claim claim.claim_id) (set_claim_state _ now) (λ r. refl)
          (λ r. refl) (λ r. refl) (λ r _ h. cc) v)
      λ _. search (keeps_rules, statements_keep)

cancel_queue_items-Inv : (id now : ℕ) → Keeps Inv (cancel_queue_items id now)
unfolding cancel_queue_items
cancel_queue_items-Inv id now = Keeps-modify _ (λ s v. v)

pub cancel_meta_task_body-Inv :
    (req : CancelMetaTaskReq) (now : ℕ) → Keeps Inv (cancel_meta_task_body req now)
unfolding cancel_meta_task_body
cancel_meta_task_body-Inv req now =
    search (keeps_rules, statements_keep, Keeps-modify, revoke_claim-Inv, cancel_queue_items-Inv)
      depth 16

-- A session whose principal has no active one.
insert_session-Inv :
    (row : Session)
    → Triple
        (λ s. Inv s × (count (active_of row.agent_principal_id) s.sessions ≡ 0))
        (insert_session row)
        (λ _ s. Inv s)
        Inv
unfolding insert_session
insert_session-Inv row =
    Triple-bind
      {R = λ taken s.
        (Inv s × (count (active_of row.agent_principal_id) s.sessions ≡ 0))
        × (taken ≡ exists_row (has_token row.session_token) s.sessions)}
      _ _ (Triple-gets _ (λ s p. (p, refl)))
      λ taken.
        Triple-bind
          {R = λ _ s.
            (Inv s × (count (active_of row.agent_principal_id) s.sessions ≡ 0))
            × (count (has_token row.session_token) s.sessions ≡ 0)}
          _ _
          (Triple-guard _ _ (λ s p h. (p.0, count-of_exists_row _ _ (ground (arith, h, p.1))))
            (λ s p. p.0.0))
          λ _. Triple-modify _ λ s p. Counts-insert_session row p.1 p.0.1 p.0.0

ensure_no_other-Idle :
    (principal : ℕ)
    → Triple Inv
        (ensure_no_other_active_session principal)
        (λ _ s. Inv s × (count (active_of principal) s.sessions ≡ 0))
        Inv
unfolding ensure_no_other_active_session
ensure_no_other-Idle principal =
    Triple-bind {R = λ existing s. Inv s × (existing ≡ exists_row (active_of principal) s.sessions)}
      _ _ (Triple-gets _ (λ s p. (p, refl)))
      λ existing.
        Triple-guard _ _ (λ s p h. (p.0, count-of_exists_row _ _ (ground (arith, h, p.1))))
          (λ s p. p.0)

pub register_session_body-Inv :
    (req : RegisterSessionReq) (token lease_now now : ℕ)
    → Keeps Inv (register_session_body req token lease_now now)
unfolding register_session_body
register_session_body-Inv req token lease_now now =
    Triple-bind _ _ (ensure_no_other-Idle req.agent_principal_id)
      λ _. Triple-bind _ _ (insert_session-Inv _) λ _. search (keeps_rules, statements_keep)

pub heartbeat_body-Inv : (token lease_now now : ℕ) → Keeps Inv (heartbeat_body token lease_now now)
unfolding heartbeat_body
heartbeat_body-Inv token lease_now now = Keeps-bind _ _ (search statements_keep) λ session.
    Keeps-bind _ _ (search keeps_rules) λ _.
      Keeps-bind _ _ (update_sessions-Inv _ _ (λ r. refl) (λ r k h. h))
        λ rows. search statements_keep

expire_exited_claim-Inv : (now : ℕ) (claim : Claim) → Keeps Inv (expire_exited_claim now claim)
unfolding expire_exited_claim
expire_exited_claim-Inv now claim = search (keeps_rules, statements_keep, expired-Inv)

expire_held_claims-Inv :
    (token now : ℕ) → Keeps Inv (expire_held_claims_for_exited_session token now)
unfolding expire_held_claims_for_exited_session
expire_held_claims-Inv token now = search (keeps_rules, expire_exited_claim-Inv)

pub exit_session_body-Inv : (token now : ℕ) → Keeps Inv (exit_session_body token now)
unfolding exit_session_body
exit_session_body-Inv token now = Keeps-bind _ _ (search statements_keep) λ session.
    Keeps-bind _ _ (search keeps_rules) λ _.
      Keeps-bind _ _ (update_sessions-Inv _ _ (λ r. refl) (λ r k h. ground (arith, h)))
        λ rows. search (keeps_rules, statements_keep, expire_held_claims-Inv)

pub reap_stale_sessions-Inv : (threshold now : ℕ) → Keeps Inv (reap_stale_sessions threshold now)
unfolding reap_stale_sessions
reap_stale_sessions-Inv threshold now = with_write_tx-Inv _ (
    Keeps-bind _ _ (search statements_keep) λ lease_now.
      Keeps-bind _ _ (update_sessions-Inv _ _ (λ r. refl) (λ r k h. ground (arith, h)))
        λ rows. search (keeps_rules, statements_keep, expire_claim-Inv))

pub expire_old_claims-Inv : (now : ℕ) → Keeps Inv (expire_old_claims now)
unfolding expire_old_claims
expire_old_claims-Inv now =
    with_write_tx-Inv _ (search (keeps_rules, statements_keep, expire_claim-Inv) depth 9)

pub expire_old_reservations-Inv : (now : ℕ) → Keeps Inv (expire_old_reservations now)
unfolding expire_old_reservations
expire_old_reservations-Inv now =
    with_write_tx-Inv _ (search (keeps_rules, statements_keep, resolve_conflicts-Inv) depth 9)
