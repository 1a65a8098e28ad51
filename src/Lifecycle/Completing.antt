-- ===== src/Lifecycle/Completing.antt =====
-- src/ops/workflow/completion.rs: the fenced outcomes of direct work.
use covey.Common.{
  ℕ, Bool, true, false, not, ◌&&◌, Option, none, ◌==◌, is_null, List, map, exists_row, insert,
  select, update_where,
}
use covey.Model.State.{
  ObjectType, SubtaskState, ClaimState, CompletionPolicy, EvidencePolicy, AttemptOutcomeKind,
  ConflictResolutionState, is_state, is_live_reservation, is_unresolved,
}
use covey.Model.Errors.{
  subtask_state, outcome, illegal_transition, completion_policy_violation,
  attempt_evidence_required, database_error, invalid_observability_row,
}
use covey.Model.Rows.{
  Subtask, Claim, AttemptOutcome, EventType, OutcomeRow, subtask_finished, subtask_retried,
  subtask_failed, Reservation,
}
use covey.Txn.{
  Tx, pure, guard, gets, modify, ◌>>=◌, ◌>>◌, with_write_tx, advance_lease_clock,
  append_session_event, for_each,
}
use covey.Txn.Idempotent.{Codec, Mutation, with_idempotent_mutation}
use covey.Validators.Transitions.{ensure_subtask_transition}
use covey.Validators.{
  load_subtask, require_active_session, require_current_claim, require_session_can_claim_kind,
  ensure_meta_task_is_schedulable, close_claim_and_detach, clear_session_active_subtask,
}
use covey.MetaTasks.{refresh_meta_task_state}
use covey.Lifecycle.Statements.{update_subtasks, holds_claim, release_owner_reservations}

-- `OutcomeInput`. `finish_subtask` records a success and no failure code; `retry_subtask` and
-- `fail_subtask` record their failures with a code.
pub record OutcomeInput : Type 0 where
  pub session_token : ℕ
  pub claim_id : ℕ
  pub fence_seq : ℕ
  pub outcome_kind : AttemptOutcomeKind
  pub evidence_digest : Option ℕ
  pub failure_code : Option ℕ
  pub summary : ℕ

abbrev pub is_direct : CompletionPolicy → Bool
is_direct CompletionPolicy.direct = true
is_direct _ = false

abbrev pub is_required : EvidencePolicy → Bool
is_required EvidencePolicy.required = true
is_required EvidencePolicy.optional = false

abbrev pub next_state : AttemptOutcomeKind → SubtaskState
next_state AttemptOutcomeKind.succeeded = SubtaskState.completed
next_state AttemptOutcomeKind.retryable_failure = SubtaskState.available
next_state AttemptOutcomeKind.terminal_failure = SubtaskState.failed

-- `resolve_reservation_overlap_conflicts` of src/overlap.rs: the open conflicts that name the
-- reservation, on either side.
unfoldable pub resolve_reservation_overlap_conflicts : ℕ → ℕ → Tx (Unit {0})
resolve_reservation_overlap_conflicts now id = do
  modify λ s. record s {
    conflicts =
        update_where (λ c. is_unresolved c.resolution_state && c.reservation_id == id)
          (λ c. record c { resolution_state = ConflictResolutionState.resolved; detected_at = now })
          s.conflicts;
  }
  modify λ s. record s {
    conflicts =
        update_where (λ c. is_unresolved c.resolution_state && c.overlapping_reservation_id == id)
          (λ c. record c { resolution_state = ConflictResolutionState.resolved; detected_at = now })
          s.conflicts;
  }

abbrev pub reservation_ids : List Reservation → List ℕ
reservation_ids = map (λ r. r.reservation_id)

unfoldable pub release_active_reservations : ℕ → ℕ → Tx (Unit {0})
release_active_reservations subtask_id now = do
  ids ← gets λ s.
      reservation_ids (
        select (λ r. r.owner_subtask_id == subtask_id && is_live_reservation r.state)
          s.reservations)
  rows ← release_owner_reservations subtask_id now
  for_each ids (resolve_reservation_overlap_conflicts now)

-- `INSERT INTO subtask_attempt_outcomes`, whose key is the claim.
unfoldable pub insert_outcome : OutcomeRow → Tx (Unit {0})
insert_outcome row = do
  taken ← gets λ s. exists_row (λ r. r.outcome.claim_id == row.outcome.claim_id) s.outcomes
  guard (not taken) database_error
  modify λ s. record s { outcomes = insert row s.outcomes }

-- The outcome of `input` on a claim, as `AttemptOutcome::new` builds it.
abbrev pub attempt_outcome : OutcomeInput → Claim → Subtask → ℕ → AttemptOutcome
attempt_outcome input claim subtask now = record {
  claim_id = claim.claim_id;
  subtask_id = subtask.subtask_id;
  fence_seq = claim.fence_seq;
  outcome_kind = input.outcome_kind;
  evidence_digest = input.evidence_digest;
  failure_code = input.failure_code;
  summary = input.summary;
  recorded_at = now;
}

-- What `AttemptOutcome::new` admits: a failure code exactly for the failures.
abbrev pub code_fits : AttemptOutcomeKind → Option ℕ → Bool
code_fits AttemptOutcomeKind.succeeded code = is_null code
code_fits _ code = not (is_null code)

-- The guards of `record_direct_outcome_tx` on the subtask and its policies.
unfoldable pub check_outcome : OutcomeInput → Subtask → Tx (Unit {0})
check_outcome input subtask = do
  guard (is_direct subtask.completion_policy)
      (completion_policy_violation (outcome input.outcome_kind) subtask.completion_policy)
  guard (not (is_null input.evidence_digest && is_required subtask.evidence_policy))
      (attempt_evidence_required input.outcome_kind subtask.subtask_id)
  ensure_subtask_transition subtask.kind subtask.state (next_state input.outcome_kind)
  guard (code_fits input.outcome_kind input.failure_code) invalid_observability_row

unfoldable pub record_direct_outcome_tx : EventType → OutcomeInput → ℕ → ℕ → Tx AttemptOutcome
record_direct_outcome_tx event_type input lease_now now = do
  claim ← require_current_claim input.session_token input.claim_id input.fence_seq lease_now
  session ← require_active_session input.session_token
  subtask ← load_subtask claim.subtask_id
  ensure_meta_task_is_schedulable subtask.meta_task_id
  require_session_can_claim_kind session subtask.kind
  check_outcome input subtask
  insert_outcome (record {
    outcome = attempt_outcome input claim subtask now;
    recorded_by_session = input.session_token;
  })
  close_claim_and_detach claim ClaimState.released now
  release_active_reservations subtask.subtask_id now
  updated ←
      update_subtasks
        (λ r.
          holds_claim subtask.subtask_id claim.claim_id r
          && is_state r.state SubtaskState.in_progress)
        (λ r. record r {
          state = next_state input.outcome_kind;
          current_claim_id = none;
          updated_at = now;
        })
  guard (updated == 1) (
      illegal_transition (subtask_state subtask.state)
        (subtask_state (next_state input.outcome_kind)) ObjectType.subtask)
  clear_session_active_subtask input.session_token now
  refresh_meta_task_state subtask.meta_task_id now
  append_session_event event_type ObjectType.subtask subtask.subtask_id input.session_token now
  pure (attempt_outcome input claim subtask now)

-- The event of each outcome, as the three entry points pair them.
abbrev pub outcome_event : AttemptOutcomeKind → EventType
outcome_event AttemptOutcomeKind.succeeded = subtask_finished
outcome_event AttemptOutcomeKind.retryable_failure = subtask_retried
outcome_event AttemptOutcomeKind.terminal_failure = subtask_failed

unfoldable pub record_direct_outcome :
    Codec AttemptOutcome → Mutation → OutcomeInput → ℕ → Tx AttemptOutcome
record_direct_outcome codec m input now = with_write_tx do
  lease_now ← advance_lease_clock now
  with_idempotent_mutation codec m now
      (record_direct_outcome_tx (outcome_event input.outcome_kind) input lease_now now)
