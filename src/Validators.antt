-- ===== src/Validators.antt =====
-- src/validators.rs and the row loaders of src/queries.rs.
pub mod Transitions
use covey.Common.{
  ℕ, ◌+◌, ◌≡◌, Bool, true, false, not, ◌&&◌, List, [], ◌∷◌, Option, none, some, if◌then◌else◌, ◌==◌,
  leb, ltb, find, exists_row, count, insert, update_where,
}
use covey.Model.State.{
  ObjectType, SessionRole, SessionState, executor, orchestrator, apply_gate, reviewer, SubtaskKind,
  ClaimState, is_role, is_active, is_held, is_closed_meta,
}
use covey.Model.Errors.{
  CoveyError, StateValue, claim_state, session_not_found, subtask_not_found, meta_task_not_found,
  claim_not_found, session_already_active, session_not_active, wrong_role, meta_task_unavailable,
  not_claim_owner, stale_fence_token, claim_not_held, lease_expired, illegal_transition,
  invalid_lease_duration,
}
use covey.Model.Rows.{Store, Session, MetaTask, Subtask, FenceCounter, Claim}
use covey.Txn.{Tx, Out, ok, pure, guard, or_fail, gets, modify, ◌>>=◌, ◌>>◌}

abbrev pub has_token : ℕ → Session → Bool
has_token token r = r.session_token == token

abbrev pub has_subtask_id : ℕ → Subtask → Bool
has_subtask_id id r = r.subtask_id == id

abbrev pub has_claim_id : ℕ → Claim → Bool
has_claim_id id r = r.claim_id == id

abbrev pub has_meta_task_id : ℕ → MetaTask → Bool
has_meta_task_id id r = r.meta_task_id == id

-- `load_session_tx` (also `require_session`), `load_subtask_tx`, `load_claim_tx` and
-- `load_meta_task_tx`.
unfoldable pub load_session : ℕ → Tx Session
load_session token = do
  row ← gets λ s. find (has_token token) s.sessions
  or_fail row session_not_found

unfoldable pub load_subtask : ℕ → Tx Subtask
load_subtask id = do
  row ← gets λ s. find (has_subtask_id id) s.subtasks
  or_fail row subtask_not_found

unfoldable pub load_claim : ℕ → Tx Claim
load_claim id = do row ← gets λ s. find (has_claim_id id) s.claims; or_fail row claim_not_found

unfoldable pub load_meta_task : ℕ → Tx MetaTask
load_meta_task id = do
  row ← gets λ s. find (has_meta_task_id id) s.meta_tasks
  or_fail row meta_task_not_found

-- The rows of `idx_sessions_one_active_per_principal` for one principal.
abbrev pub active_of : ℕ → Session → Bool
active_of principal r = r.agent_principal_id == principal && is_active r.state

unfoldable pub ensure_no_other_active_session : ℕ → Tx (Unit {0})
ensure_no_other_active_session principal = do
  existing ← gets λ s. exists_row (active_of principal) s.sessions
  guard (not existing) (session_already_active principal)

unfoldable pub require_active_session : ℕ → Tx Session
require_active_session token = do
  session ← load_session token
  guard (is_active session.state) (session_not_active session.session_token session.state)
  pure session

-- `[SessionRole]::contains`.
abbrev pub contains_role : List SessionRole → SessionRole → Bool
contains_role [] role = false
contains_role (r ∷ rs) role = if is_role r role then true else contains_role rs role

unfoldable pub require_role : ℕ → List SessionRole → Tx Session
require_role token expected = do
  session ← require_active_session token
  guard (contains_role expected session.role) (wrong_role expected session.role)
  pure session

unfoldable pub ensure_meta_task_is_schedulable : ℕ → Tx (Unit {0})
ensure_meta_task_is_schedulable id = do
  meta_task ← load_meta_task id
  guard (not (is_closed_meta meta_task.state)) (meta_task_unavailable id meta_task.state)

unfoldable pub subtask_exists : ℕ → Tx Bool
subtask_exists id = gets λ s. exists_row (has_subtask_id id) s.subtasks

-- The rows of `idx_claims_one_held_per_subtask` for one subtask.
abbrev pub held_on : ℕ → Claim → Bool
held_on subtask_id r = r.subtask_id == subtask_id && is_held r.state

unfoldable pub held_claim_owner : ℕ → Tx (Option ℕ)
held_claim_owner subtask_id = gets λ s. elim (find (held_on subtask_id) s.claims) [
  | none ↦ none
  | some claim ↦ some claim.owner_session_token
]

-- The role that may claim, start and close subtasks of a kind.
abbrev pub role_for_kind : SubtaskKind → SessionRole
role_for_kind SubtaskKind.work = executor
role_for_kind SubtaskKind.review = reviewer
role_for_kind SubtaskKind.cleanup = orchestrator

unfoldable pub require_session_can_claim_kind : Session → SubtaskKind → Tx (Unit {0})
require_session_can_claim_kind session kind =
    guard (is_role session.role (role_for_kind kind))
      (wrong_role (role_for_kind kind ∷ []) session.role)

-- The next fence that the counter of a subtask will issue; a subtask without a counter starts at 1.
unfoldable pub next_fence : ℕ → List FenceCounter → ℕ
next_fence id [] = 1
next_fence id (r ∷ rs) = if r.subtask_id == id then r.next_fence_seq else next_fence id rs

-- `INSERT ... ON CONFLICT(subtask_id) DO UPDATE SET next_fence_seq = next_fence_seq + 1`.
unfoldable pub bump_fence : ℕ → List FenceCounter → List FenceCounter
bump_fence id [] = record { subtask_id = id; next_fence_seq = 2 } ∷ []
bump_fence id (r ∷ rs) =
    if r.subtask_id == id
    then record r { next_fence_seq = r.next_fence_seq + 1 } ∷ rs
    else r ∷ bump_fence id rs

unfoldable pub issue_fence_seq : ℕ → Tx ℕ
issue_fence_seq id = do
  fence_seq ← gets λ s. next_fence id s.fence_counters
  modify λ s. record s { fence_counters = bump_fence id s.fence_counters }
  pure fence_seq

unfoldable pub require_current_claim : ℕ → ℕ → ℕ → ℕ → Tx Claim
require_current_claim token claim_id fence_seq now = do
  session ← require_active_session token
  claim ← load_claim claim_id
  guard (claim.owner_session_token == session.session_token)
      (not_claim_owner session.session_token claim.owner_session_token)
  guard (claim.fence_seq == fence_seq) (stale_fence_token claim.fence_seq fence_seq)
  guard (is_held claim.state) (claim_not_held claim.claim_id claim.state)
  guard (ltb now claim.lease_deadline) (lease_expired claim_id)
  pure claim

-- `WHERE claim_id = ?1 AND state = 'held'`.
abbrev pub held_claim : ℕ → Claim → Bool
held_claim id r = r.claim_id == id && is_held r.state

abbrev pub set_claim_state : ClaimState → ℕ → Claim → Claim
set_claim_state state now r = record r { state = state; updated_at = now }

unfoldable pub close_claim_and_detach : Claim → ClaimState → ℕ → Tx (Unit {0})
close_claim_and_detach claim state now = do
  rows ← gets λ s. count (held_claim claim.claim_id) s.claims
  modify λ s. record s {
    claims = update_where (held_claim claim.claim_id) (set_claim_state state now) s.claims;
  }
  guard (rows == 1)
      (illegal_transition (claim_state ClaimState.held) (claim_state state) ObjectType.claim)

unfoldable pub clear_session_active_subtask : ℕ → ℕ → Tx (Unit {0})
clear_session_active_subtask token now = modify λ s. record s {
  sessions =
      update_where (has_token token) (λ r. record r { active_subtask_id = none; updated_at = now })
        s.sessions;
}

unfoldable pub ensure_positive_lease_duration : ℕ → Tx (Unit {0})
ensure_positive_lease_duration value = guard (not (value == 0)) (invalid_lease_duration value)
