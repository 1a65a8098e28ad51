-- ===== src/Model/State.antt =====
-- src/model/state.rs: the enumerations of the store, with the source's constructors.
use mathlib.Core.Bool.{Bool, true, false, decide}

pub data ObjectType : Type 0 where
  meta_task subtask claim artifact review ready_queue session reservation conflict : ObjectType

pub data SessionRole : Type 0 where
  executor orchestrator apply_gate reviewer : SessionRole

pub data SessionState : Type 0 where
  active stale exited : SessionState

pub data MetaTaskState : Type 0 where
  planning active completed cancelled : MetaTaskState

pub data SubtaskKind : Type 0 where
  work review cleanup : SubtaskKind

pub data SubtaskState : Type 0 where
  available blocked claimed in_progress artifact_published review_pending : SubtaskState
  changes_requested approved decided ready_for_apply applied completed failed : SubtaskState
  abandoned : SubtaskState

pub data CompletionPolicy : Type 0 where
  direct reviewed canonical_apply : CompletionPolicy

pub data EvidencePolicy : Type 0 where
  optional required : EvidencePolicy

pub data AttemptOutcomeKind : Type 0 where
  succeeded retryable_failure terminal_failure : AttemptOutcomeKind

pub data ClaimState : Type 0 where
  held released expired revoked : ClaimState

pub data ArtifactKind : Type 0 where
  patch_bundle isolated_commit_ref tree_bundle findings_bundle verification_bundle : ArtifactKind

pub data SettlementTarget : Type 0 where
  canonical : SettlementTarget

pub data ReviewVerdict : Type 0 where
  approve changes_requested blocked : ReviewVerdict

pub data ReviewState : Type 0 where
  requested in_progress decided superseded : ReviewState

pub data ScopeClass : Type 0 where
  exact_path subtree repo_global generated_set : ScopeClass

pub data ReservationState : Type 0 where
  active released expired : ReservationState

pub data ReadyQueueState : Type 0 where
  queued in_flight applied superseded cancelled : ReadyQueueState

pub data ConflictResolutionState : Type 0 where
  open_conflict acknowledged resolved : ConflictResolutionState

-- SQL's `state = ?` on the stored names, which are different for different states.
unfoldable pub SubtaskState-discrete : Discrete SubtaskState
SubtaskState-discrete = hlevel

unfoldable pub ReviewState-discrete : Discrete ReviewState
ReviewState-discrete = hlevel

unfoldable pub SessionRole-discrete : Discrete SessionRole
SessionRole-discrete = hlevel

abbrev pub is_state : SubtaskState → SubtaskState → Bool
is_state a b = decide (SubtaskState-discrete a b)

abbrev pub is_review_state : ReviewState → ReviewState → Bool
is_review_state a b = decide (ReviewState-discrete a b)

abbrev pub is_role : SessionRole → SessionRole → Bool
is_role a b = decide (SessionRole-discrete a b)

abbrev pub is_active : SessionState → Bool
is_active SessionState.active = true
is_active _ = false

abbrev pub is_held : ClaimState → Bool
is_held ClaimState.held = true
is_held _ = false

abbrev pub is_live_reservation : ReservationState → Bool
is_live_reservation ReservationState.active = true
is_live_reservation _ = false

abbrev pub is_work : SubtaskKind → Bool
is_work SubtaskKind.work = true
is_work _ = false

abbrev pub is_review : SubtaskKind → Bool
is_review SubtaskKind.review = true
is_review _ = false

-- `Completed | Cancelled` of the meta-task guards.
abbrev pub is_closed_meta : MetaTaskState → Bool
is_closed_meta MetaTaskState.completed = true
is_closed_meta MetaTaskState.cancelled = true
is_closed_meta _ = false

-- `resolution_state != 'resolved'`.
abbrev pub is_unresolved : ConflictResolutionState → Bool
is_unresolved resolved = false
is_unresolved _ = true

-- `state IN ('queued', 'in_flight')`.
abbrev pub is_pending : ReadyQueueState → Bool
is_pending ReadyQueueState.queued = true
is_pending ReadyQueueState.in_flight = true
is_pending _ = false

-- `state IN ('applied', 'completed', 'failed', 'abandoned', 'decided')`.
abbrev pub is_settled : SubtaskState → Bool
is_settled SubtaskState.applied = true
is_settled SubtaskState.completed = true
is_settled SubtaskState.failed = true
is_settled SubtaskState.abandoned = true
is_settled SubtaskState.decided = true
is_settled _ = false
