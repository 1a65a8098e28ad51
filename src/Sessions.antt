-- ===== src/Sessions.antt =====
-- src/ops/session.rs: registration, heartbeat and exit.
use covey.Common.{ℕ, Bool, true, false, not, ◌&&◌, none, ◌==◌, exists_row, insert, select}
use covey.Model.State.{ObjectType, SessionRole, SessionState, ClaimState, is_active, is_held}
use covey.Model.Errors.{session_state, illegal_transition, database_error}
use covey.Model.Rows.{Session, Claim, session_registered, session_heartbeat, session_exited}
use covey.Txn.{
  Tx, pure, guard, gets, modify, ◌>>=◌, ◌>>◌, with_write_tx, advance_lease_clock,
  append_session_event, for_each,
}
use covey.Txn.Idempotent.{Codec, Mutation, with_idempotent_mutation}
use covey.Validators.Transitions.{ensure_transition}
use covey.Validators.{
  has_token, ensure_no_other_active_session, load_session, close_claim_and_detach,
}
use covey.Lifecycle.Statements.{
  update_sessions, reset_in_progress_review_for_expired_claim, detach_expired_claim,
}

pub record RegisterSessionReq : Type 0 where
  pub agent_principal_id : ℕ
  pub agent_instance_id : ℕ
  pub role : SessionRole

pub record SessionHandle : Type 0 where
  pub session_token : ℕ
  pub agent_principal_id : ℕ
  pub agent_instance_id : ℕ
  pub role : SessionRole

unfoldable pub insert_session : Session → Tx (Unit {0})
insert_session row = do
  taken ← gets λ s. exists_row (has_token row.session_token) s.sessions
  guard (not taken) database_error
  modify λ s. record s { sessions = insert row s.sessions }

unfoldable pub register_session_body : RegisterSessionReq → ℕ → ℕ → ℕ → Tx SessionHandle
register_session_body req token lease_now now = do
  ensure_no_other_active_session req.agent_principal_id
  insert_session (record {
    session_token = token;
    agent_principal_id = req.agent_principal_id;
    agent_instance_id = req.agent_instance_id;
    role = req.role;
    state = SessionState.active;
    active_subtask_id = none;
    last_heartbeat_at = now;
    last_heartbeat_tick = lease_now;
    created_at = now;
    updated_at = now;
  })
  append_session_event session_registered ObjectType.session token token now
  pure (record {
    session_token = token;
    agent_principal_id = req.agent_principal_id;
    agent_instance_id = req.agent_instance_id;
    role = req.role;
  })

unfoldable pub register_session :
    Codec SessionHandle → Mutation → RegisterSessionReq → ℕ → ℕ → Tx SessionHandle
register_session codec m req token now = with_write_tx do
  lease_now ← advance_lease_clock now
  with_idempotent_mutation codec m now (register_session_body req token lease_now now)

unfoldable pub heartbeat_body : ℕ → ℕ → ℕ → Tx (Unit {0})
heartbeat_body token lease_now now = do
  session ← load_session token
  ensure_transition (session_state session.state) (session_state SessionState.active)
      ObjectType.session (is_active session.state)
  rows ←
      update_sessions (has_token token) (λ r. record r {
        last_heartbeat_at = now;
        last_heartbeat_tick = lease_now;
        updated_at = now;
      })
  append_session_event session_heartbeat ObjectType.session token token now

unfoldable pub heartbeat : Codec (Unit {0}) → Mutation → ℕ → ℕ → Tx (Unit {0})
heartbeat codec m token now = with_write_tx do
  lease_now ← advance_lease_clock now
  with_idempotent_mutation codec m now (heartbeat_body token lease_now now)

-- `Active | Stale`.
abbrev pub is_present : SessionState → Bool
is_present SessionState.active = true
is_present SessionState.stale = true
is_present SessionState.exited = false

unfoldable pub expire_exited_claim : ℕ → Claim → Tx (Unit {0})
expire_exited_claim now claim = do
  close_claim_and_detach claim ClaimState.expired now
  rows ← reset_in_progress_review_for_expired_claim claim.subtask_id now
  rows ← detach_expired_claim claim now
  pure tt

-- The source orders these claims by age; each is written for itself.
unfoldable pub expire_held_claims_for_exited_session : ℕ → ℕ → Tx (Unit {0})
expire_held_claims_for_exited_session token now = do
  claims ← gets λ s. select (λ c. c.owner_session_token == token && is_held c.state) s.claims
  for_each claims (expire_exited_claim now)

unfoldable pub exit_session_body : ℕ → ℕ → Tx (Unit {0})
exit_session_body token now = do
  session ← load_session token
  ensure_transition (session_state session.state) (session_state SessionState.exited)
      ObjectType.session (is_present session.state)
  updated ←
      update_sessions (λ r. r.session_token == token && is_present r.state)
        (λ r. record r { state = SessionState.exited; active_subtask_id = none; updated_at = now })
  guard (updated == 1) (
      illegal_transition (session_state session.state) (session_state SessionState.exited)
        ObjectType.session)
  expire_held_claims_for_exited_session token now
  append_session_event session_exited ObjectType.session token token now

unfoldable pub exit_session : Codec (Unit {0}) → Mutation → ℕ → ℕ → Tx (Unit {0})
exit_session codec m token now =
    with_write_tx (with_idempotent_mutation codec m now (exit_session_body token now))
