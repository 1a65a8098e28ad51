-- ===== src/Lifecycle/ClaimingNext.antt =====
-- `claim_next_subtask`, `claim_next_routed_subtask` and their common `claim_next_for_route` of
-- src/ops/workflow/lifecycle.rs.
use covey.Common.{ℕ, Bool, true, false, Option, none, some, List, [], ◌∷◌, if◌then◌else◌}
use covey.Model.State.{
  ObjectType, SessionRole, executor, reviewer, SubtaskKind, SubtaskState, is_role,
}
use covey.Model.Errors.{
  CoveyError, subtask_state, subtask_already_claimed, illegal_transition, wrong_role,
}
use covey.Model.Rows.{Session}
use covey.Txn.{
  Tx, Out, ok, err, pure, fail, guard, gets, on_some, ◌>>=◌, ◌>>◌, with_write_tx,
  advance_lease_clock,
}
use covey.Txn.Idempotent.{Codec, Mutation, with_idempotent_mutation}
use covey.Validators.{require_active_session, contains_role, ensure_positive_lease_duration}
use covey.Lifecycle.Claiming.{ClaimResult, ensure_idle, claim_selected_subtask}
use covey.Lifecycle.Selecting.{ordered_claim_candidate}
use covey.Lifecycle.Following.{Repairs, ensure_changes_requested_followup_blocks}

-- A route is the workflow's own for `claim_next_subtask` and the request's for
-- `claim_next_routed_subtask`.
pub record ClaimNextReq : Type 0 where
  pub session_token : ℕ
  pub lease_duration_ms : ℕ
  pub routing_key : ℕ
  pub meta_task_id : Option ℕ

abbrev pub allowed_roles : List SessionRole
allowed_roles = executor ∷ reviewer ∷ []

-- The kind of subtask that a role takes.
unfoldable pub kind_for_role : SessionRole → Tx SubtaskKind
kind_for_role executor = pure SubtaskKind.work
kind_for_role reviewer = pure SubtaskKind.review
kind_for_role other = fail (wrong_role allowed_roles other)

-- The errors of a claim that mean that there is nothing to claim.
unfoldable pub is_lost_claim : CoveyError → Bool
is_lost_claim (subtask_already_claimed id owner) = true
is_lost_claim (illegal_transition from (subtask_state SubtaskState.claimed) ObjectType.subtask) =
    true
is_lost_claim _ = false

-- The `match` on the claim's result. The error is swallowed and the transaction commits, so what the
-- claim wrote before it failed stays.
unfoldable pub caught : Out ClaimResult → Out (Option ClaimResult)
unfolding is_lost_claim
caught (ok claim s) = ok (some claim) s
caught (err e s) = if is_lost_claim e then ok none s else err e s

unfoldable pub claim_or_none : Tx ClaimResult → Tx (Option ClaimResult)
unfolding caught
claim_or_none m s = caught (m s)

unfoldable pub claim_candidate :
    Session → ClaimNextReq → SubtaskKind → ℕ → ℕ → ℕ → Tx (Option ClaimResult)
unfolding claim_or_none
claim_candidate session req kind claim_id lease_now now = do
  candidate ← gets λ s.
      ordered_claim_candidate kind SubtaskState.available req.routing_key req.meta_task_id now s
  on_some candidate (pure none) λ subtask. claim_or_none (
      claim_selected_subtask session req.session_token subtask.subtask_id req.lease_duration_ms
        claim_id lease_now now)

unfoldable pub claim_next_body : Repairs → ClaimNextReq → ℕ → ℕ → ℕ → Tx (Option ClaimResult)
unfolding kind_for_role claim_candidate
claim_next_body repairs req claim_id lease_now now = do
  session ← require_active_session req.session_token
  ensure_positive_lease_duration req.lease_duration_ms
  ensure_idle session
  guard (contains_role allowed_roles session.role) (wrong_role allowed_roles session.role)
  kind ← kind_for_role session.role
  if is_role session.role executor
      then ensure_changes_requested_followup_blocks repairs now
      else pure tt
  claim_candidate session req kind claim_id lease_now now

unfoldable pub claim_next_for_route :
    Codec (Option ClaimResult) → Mutation → Repairs → ClaimNextReq → ℕ → ℕ → Tx (Option ClaimResult)
claim_next_for_route codec m repairs req claim_id now = with_write_tx do
  lease_now ← advance_lease_clock now
  with_idempotent_mutation codec m now (claim_next_body repairs req claim_id lease_now now)
