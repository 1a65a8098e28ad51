-- ===== src/Model/Rows.antt =====
-- The rows of the tables and the store that holds them. Identifiers, digests, keys and texts are
-- compared and never taken apart by these operations, so each is a number; times are milliseconds.
-- The identifier types of src/model/types.rs admit at most 256 bytes (titles 512, prompts 32 KiB),
-- so the `ensure_length` guards of the operations on them cannot fire and have no counterpart.
use covey.Common.{ℕ, Option, List, [], Bool, decide}
use covey.Model.State.{
  ObjectType, SessionRole, SessionState, MetaTaskState, SubtaskKind, SubtaskState, CompletionPolicy,
  EvidencePolicy, AttemptOutcomeKind, ClaimState, ArtifactKind, ReviewVerdict, ReviewState,
  ReservationState, ConflictResolutionState, ReadyQueueState, SettlementTarget, ScopeClass,
}

pub record Session : Type 0 where
  pub session_token : ℕ
  pub agent_principal_id : ℕ
  pub agent_instance_id : ℕ
  pub role : SessionRole
  pub state : SessionState
  pub active_subtask_id : Option ℕ
  pub last_heartbeat_at : ℕ
  pub last_heartbeat_tick : ℕ
  pub created_at : ℕ
  pub updated_at : ℕ

pub record MetaTask : Type 0 where
  pub meta_task_id : ℕ
  pub prompt_text : ℕ
  pub state : MetaTaskState
  pub created_by : ℕ
  pub created_at : ℕ
  pub updated_at : ℕ

pub record Subtask : Type 0 where
  pub subtask_id : ℕ
  pub meta_task_id : ℕ
  pub title : ℕ
  pub kind : SubtaskKind
  pub review_target_subtask_id : Option ℕ
  pub review_target_artifact_digest : Option ℕ
  pub state : SubtaskState
  pub current_claim_id : Option ℕ
  pub artifact_digest : Option ℕ
  pub priority : ℕ
  pub completion_policy : CompletionPolicy
  pub routing_key : ℕ
  pub evidence_policy : EvidencePolicy
  pub created_at : ℕ
  pub updated_at : ℕ

pub record FenceCounter : Type 0 where
  pub subtask_id : ℕ
  pub next_fence_seq : ℕ

pub record Claim : Type 0 where
  pub claim_id : ℕ
  pub subtask_id : ℕ
  pub owner_session_token : ℕ
  pub fence_seq : ℕ
  pub lease_deadline : ℕ
  pub state : ClaimState
  pub created_at : ℕ
  pub updated_at : ℕ

pub record AttemptOutcome : Type 0 where
  pub claim_id : ℕ
  pub subtask_id : ℕ
  pub fence_seq : ℕ
  pub outcome_kind : AttemptOutcomeKind
  pub evidence_digest : Option ℕ
  pub failure_code : Option ℕ
  pub summary : ℕ
  pub recorded_at : ℕ

pub record OutcomeRow : Type 0 where
  pub outcome : AttemptOutcome
  pub recorded_by_session : ℕ

pub record Artifact : Type 0 where
  pub artifact_digest : ℕ
  pub artifact_kind : ArtifactKind
  pub base_rev : ℕ
  pub produced_by_subtask_id : ℕ
  pub produced_by_session : ℕ
  pub manifest_path : ℕ
  pub changed_paths_digest : ℕ
  pub created_at : ℕ

pub record Review : Type 0 where
  pub review_id : ℕ
  pub subtask_id : ℕ
  pub artifact_digest : ℕ
  pub reviewer_session : ℕ
  pub review_subtask_id : ℕ
  pub verdict : Option ReviewVerdict
  pub findings_digest : Option ℕ
  pub state : ReviewState
  pub created_at : ℕ
  pub updated_at : ℕ

-- A row of `reservations` with its rows of `reservation_generated_members`. Scope keys and members
-- are texts, each the list of its code points.
pub record Reservation : Type 0 where
  pub reservation_id : ℕ
  pub owner_subtask_id : ℕ
  pub scope_class : ScopeClass
  pub scope_key : List ℕ
  pub generated_members : List (List ℕ)
  pub lease_deadline : ℕ
  pub state : ReservationState
  pub created_at : ℕ
  pub updated_at : ℕ

-- A `reservation_overlap` conflict, with the two reservations that its payload names.
pub record Conflict : Type 0 where
  pub conflict_id : ℕ
  pub reservation_id : ℕ
  pub overlapping_reservation_id : ℕ
  pub detected_at : ℕ
  pub resolution_state : ConflictResolutionState

-- The settlement target has one value, `canonical`, and is left out.
pub record ReadyQueueItem : Type 0 where
  pub queue_id : ℕ
  pub artifact_digest : ℕ
  pub subtask_id : ℕ
  pub settlement_target : SettlementTarget
  pub state : ReadyQueueState
  pub claimed_by_session_token : Option ℕ
  pub claim_fence_seq : Option ℕ
  pub claim_lease_deadline : Option ℕ
  pub enqueued_at : ℕ
  pub updated_at : ℕ

-- `(subtask_id, depends_on_subtask_id)` of `subtask_dependencies`.
pub record Dependency : Type 0 where
  pub subtask_id : ℕ
  pub depends_on_subtask_id : ℕ

pub record Followup : Type 0 where
  pub review_id : ℕ
  pub source_subtask_id : ℕ
  pub followup_subtask_id : ℕ

-- The kinds of events that the modelled operations append.
pub data EventType : Type 0 where
  session_registered session_heartbeat session_exited : EventType
  meta_task_submitted meta_task_cancelled work_subtask_created : EventType
  subtask_claimed subtask_started subtask_finished subtask_retried subtask_failed : EventType
  subtask_abandoned claim_released claim_renewed : EventType
  artifact_published review_requested review_decided : EventType
  sessions_reaped claims_expired reservations_expired : EventType
  reservation_requested reservation_released reservation_renewed : EventType
  conflict_resolved ready_queue_enqueued : EventType

-- Who appended the event: `EventActor` of src/schema.rs.
pub data EventActor : Type 0 where
  session : ℕ → EventActor
  system : EventActor

-- The payload of an event is the serialised request or result, and is left out.
pub record Event : Type 0 where
  pub event_type : EventType
  pub object_type : ObjectType
  pub object_id : ℕ
  pub actor : EventActor
  pub created_at : ℕ

-- The `operation` labels of idempotency records.
pub data Operation : Type 0 where
  register_session heartbeat exit_session submit_meta_task cancel_meta_task : Operation
  create_work_subtask claim_next_subtask claim_next_routed_subtask claim_subtask : Operation
  start_subtask abandon_subtask release_claim renew_claim : Operation
  finish_subtask retry_subtask fail_subtask : Operation
  publish_artifact request_review decide_review enqueue_for_apply : Operation
  request_reservation release_reservation renew_reservation resolve_conflict : Operation

unfoldable pub Operation-discrete : Discrete Operation
Operation-discrete = hlevel

abbrev pub is_operation : Operation → Operation → Bool
is_operation a b = decide (Operation-discrete a b)

pub record IdempotencyRecord : Type 0 where
  pub actor_key : ℕ
  pub operation : Operation
  pub idempotency_key : ℕ
  pub request_hash : ℕ
  pub response_json : List ℕ
  pub created_at : ℕ

pub record Store : Type 0 where
  pub sessions : List Session
  pub meta_tasks : List MetaTask
  pub subtasks : List Subtask
  pub fence_counters : List FenceCounter
  pub claims : List Claim
  pub outcomes : List OutcomeRow
  pub artifacts : List Artifact
  pub reviews : List Review
  pub reservations : List Reservation
  pub conflicts : List Conflict
  pub ready_queue : List ReadyQueueItem
  pub dependencies : List Dependency
  pub followups : List Followup
  pub events : List Event
  pub idempotency : List IdempotencyRecord
  -- `lease_clock.last_tick_ms`
  pub last_tick_ms : ℕ

-- The store that the migrations leave.
unfoldable pub empty_store : Store
empty_store = record {
  sessions = [];
  meta_tasks = [];
  subtasks = [];
  fence_counters = [];
  claims = [];
  outcomes = [];
  artifacts = [];
  reviews = [];
  reservations = [];
  conflicts = [];
  ready_queue = [];
  dependencies = [];
  followups = [];
  events = [];
  idempotency = [];
  last_tick_ms = 0;
}
