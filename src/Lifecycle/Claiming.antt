-- ===== src/Lifecycle/Claiming.antt =====
-- `claim_subtask` and `claim_selected_subtask_tx`, with `expire_claim_if_needed_for_subtask` of
-- src/store.rs.
use covey.Common.{
  ℕ, ◌+◌, not, ◌&&◌, ◌||◌, Option, none, some, ◌==◌, leb, is_null, find, exists_row, insert, select,
  if◌then◌else◌,
}
use covey.Model.State.{ObjectType, SubtaskState, ClaimState, is_state, is_active, is_work}
use covey.Model.Errors.{
  subtask_state, subtask_not_found, subtask_already_claimed, illegal_transition,
  session_already_has_active_subtask, database_error,
}
use covey.Model.Rows.{Store, Session, Subtask, Claim, subtask_claimed}
use covey.Txn.{
  Tx, pure, fail, guard, gets, modify, ◌>>=◌, ◌>>◌, with_write_tx, advance_lease_clock,
  append_session_event, on_some,
}
use covey.Txn.Idempotent.{Codec, Mutation, with_idempotent_mutation}
use covey.Validators.Transitions.{ensure_subtask_transition}
use covey.Validators.{
  has_claim_id, held_on, load_subtask, load_session, require_active_session, subtask_exists,
  held_claim_owner, require_session_can_claim_kind, issue_fence_seq,
  ensure_meta_task_is_schedulable, close_claim_and_detach, ensure_positive_lease_duration,
}
use covey.Dependencies.{subtask_dependencies_satisfied}
use covey.Lifecycle.Statements.{
  update_subtasks, update_sessions, reset_in_progress_review_for_expired_claim,
  detach_expired_claim, free_claim_owner,
}

pub record ClaimResult : Type 0 where
  pub claim_id : ℕ
  pub subtask_id : ℕ
  pub fence_seq : ℕ
  pub lease_deadline : ℕ

-- The claim that `expire_claim_if_needed_for_subtask` closes: held, and in its join with
-- `sessions` out of its lease or owned by a session that is not active.
unfoldable pub stale_claim : ℕ → ℕ → Store → Option Claim
stale_claim subtask_id lease_now s =
    find
      (λ c.
        held_on subtask_id c
        && exists_row
            (λ r.
              r.session_token == c.owner_session_token
              && (leb c.lease_deadline lease_now || not (is_active r.state)))
            s.sessions)
      s.claims

unfoldable pub expire_claim : Claim → ℕ → Tx (Unit {0})
expire_claim claim now = do
  close_claim_and_detach claim ClaimState.expired now
  rows ← reset_in_progress_review_for_expired_claim claim.subtask_id now
  rows ← detach_expired_claim claim now
  rows ← free_claim_owner claim now
  pure tt

unfoldable pub expire_claim_if_needed_for_subtask : ℕ → ℕ → ℕ → Tx (Unit {0})
expire_claim_if_needed_for_subtask subtask_id lease_now now = do
  stale ← gets λ s. stale_claim subtask_id lease_now s
  on_some stale (pure tt) (λ claim. expire_claim claim now)

-- `INSERT INTO claims`, which the primary key may refuse.
unfoldable pub insert_claim : Claim → Tx (Unit {0})
insert_claim claim = do
  taken ← gets λ s. exists_row (has_claim_id claim.claim_id) s.claims
  guard (not taken) database_error
  modify λ s. record s { claims = insert claim s.claims }

abbrev pub or_else : Option ℕ → ℕ → ℕ
or_else none b = b
or_else (some a) b = a

-- The guards of `claim_selected_subtask_tx`, down to its first write.
unfoldable pub check_claimable : Session → ℕ → Tx Subtask
check_claimable session subtask_id = do
  subtask ← load_subtask subtask_id
  ensure_meta_task_is_schedulable subtask.meta_task_id
  require_session_can_claim_kind session subtask.kind
  satisfied ← gets λ s. subtask_dependencies_satisfied subtask_id s
  guard (not (is_work subtask.kind && not satisfied)) (
      illegal_transition (subtask_state subtask.state) (subtask_state SubtaskState.claimed)
        ObjectType.subtask)
  held ← held_claim_owner subtask_id
  on_some held (pure tt) (λ held_by. fail (subtask_already_claimed subtask.subtask_id held_by))
  ensure_subtask_transition subtask.kind subtask.state SubtaskState.claimed
  pure subtask

unfoldable pub undo_claim : ℕ → ℕ → Tx (Unit {0})
undo_claim subtask_id claim_id = do
  modify λ s. record s { claims = select (λ c. not (c.claim_id == claim_id)) s.claims }
  current ← load_subtask subtask_id
  fail (
      illegal_transition (subtask_state current.state) (subtask_state SubtaskState.claimed)
        ObjectType.subtask)

-- The statements that mark the subtask claimed; without a row the claim is deleted again.
unfoldable pub mark_subtask_claimed : Subtask → ℕ → ℕ → ℕ → Tx (Unit {0})
unfolding undo_claim
mark_subtask_claimed subtask subtask_id claim_id now = do
  updated ←
      update_subtasks
        (λ r.
          r.subtask_id == subtask_id
          && is_state r.state subtask.state
          && is_null r.current_claim_id)
        (λ r. record r {
          state = SubtaskState.claimed;
          current_claim_id = some claim_id;
          artifact_digest = none;
          updated_at = now;
        })
  if updated == 1 then pure tt else undo_claim subtask_id claim_id

unfoldable pub refuse_busy_session : Subtask → ℕ → Tx (Unit {0})
refuse_busy_session subtask token = do
  current ← load_session token
  fail (
      session_already_has_active_subtask current.session_token
        (or_else current.active_subtask_id subtask.subtask_id))

unfoldable pub mark_session_busy : Subtask → ℕ → ℕ → ℕ → Tx (Unit {0})
unfolding refuse_busy_session
mark_session_busy subtask token subtask_id now = do
  updated ←
      update_sessions
        (λ r. r.session_token == token && is_null r.active_subtask_id && is_active r.state)
        (λ r. record r { active_subtask_id = some subtask_id; updated_at = now })
  if updated == 1 then pure tt else refuse_busy_session subtask token

unfoldable pub claim_selected_subtask : Session → ℕ → ℕ → ℕ → ℕ → ℕ → ℕ → Tx ClaimResult
claim_selected_subtask session token subtask_id lease_duration_ms claim_id lease_now now = do
  expire_claim_if_needed_for_subtask subtask_id lease_now now
  subtask ← check_claimable session subtask_id
  fence_seq ← issue_fence_seq subtask_id
  insert_claim (record {
    claim_id = claim_id;
    subtask_id = subtask_id;
    owner_session_token = token;
    fence_seq = fence_seq;
    lease_deadline = lease_now + lease_duration_ms;
    state = ClaimState.held;
    created_at = now;
    updated_at = now;
  })
  mark_subtask_claimed subtask subtask_id claim_id now
  mark_session_busy subtask token subtask_id now
  append_session_event subtask_claimed ObjectType.claim claim_id token now
  pure (record {
    claim_id = claim_id;
    subtask_id = subtask.subtask_id;
    fence_seq = fence_seq;
    lease_deadline = lease_now + lease_duration_ms;
  })

-- A session works on one subtask at a time.
unfoldable pub ensure_idle : Session → Tx (Unit {0})
ensure_idle session =
    on_some session.active_subtask_id (pure tt)
      (λ active. fail (session_already_has_active_subtask session.session_token active))

pub record ClaimSubtaskReq : Type 0 where
  pub session_token : ℕ
  pub subtask_id : ℕ
  pub lease_duration_ms : ℕ

unfoldable pub claim_subtask_body : ClaimSubtaskReq → ℕ → ℕ → ℕ → Tx ClaimResult
claim_subtask_body req claim_id lease_now now = do
  session ← require_active_session req.session_token
  ensure_positive_lease_duration req.lease_duration_ms
  ensure_idle session
  known ← subtask_exists req.subtask_id
  guard known subtask_not_found
  claim_selected_subtask session req.session_token req.subtask_id req.lease_duration_ms claim_id
      lease_now now

unfoldable pub claim_subtask :
    Codec ClaimResult → Mutation → ClaimSubtaskReq → ℕ → ℕ → Tx ClaimResult
claim_subtask codec m req claim_id now = with_write_tx do
  lease_now ← advance_lease_clock now
  with_idempotent_mutation codec m now (claim_subtask_body req claim_id lease_now now)
