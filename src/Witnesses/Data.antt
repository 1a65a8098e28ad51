-- ===== src/Witnesses/Data.antt =====
-- A store in which an executor works on a claimed subtask, response codecs, and requests.
use covey.Common.{ℕ, zero, suc, List, [], ◌∷◌, Option, none, some, ◌≡◌, refl}
use covey.Model.State.{
  executor, SessionState, MetaTaskState, SubtaskKind, SubtaskState, CompletionPolicy,
  EvidencePolicy, AttemptOutcomeKind, ClaimState, SessionRole, orchestrator, apply_gate, reviewer,
}
use covey.Model.Rows.{
  Store, Session, MetaTask, Subtask, Claim, AttemptOutcome, IdempotencyRecord, Operation,
}
use covey.Txn.Idempotent.{Mutation}
use covey.Lifecycle.Claiming.{ClaimResult, ClaimSubtaskReq}
use covey.Lifecycle.Holding.{ClaimRef}
use covey.Lifecycle.Completing.{OutcomeInput}
use covey.Sessions.{SessionHandle}
use covey.Calls.{
  Codecs, registers, submits, creates, claims_one, starts, records_outcome, Call, mutates, reaps,
  expires_claims,
}

abbrev pub key : Operation → ℕ → Mutation
key operation k = record {
  actor_key = 2;
  operation = operation;
  idempotency_key = k;
  request_hash = 77;
}

unit_from : List ℕ → Option (Unit {0})
unit_from text = some tt

id_from : List ℕ → Option ℕ
id_from [] = none
id_from (n ∷ text) = some n

claim_from : List ℕ → Option ClaimResult
claim_from (a ∷ b ∷ c ∷ d ∷ []) =
    some (record { claim_id = a; subtask_id = b; fence_seq = c; lease_deadline = d })
claim_from text = none

role_code : SessionRole → ℕ
role_code executor = 0
role_code orchestrator = 1
role_code apply_gate = 2
role_code reviewer = 3

role_of : ℕ → SessionRole
role_of zero = executor
role_of (suc zero) = orchestrator
role_of (suc (suc zero)) = apply_gate
role_of (suc (suc (suc n))) = reviewer

role_of-code : (r : SessionRole) → role_of (role_code r) ≡ r
unfolding role_of role_code
role_of-code executor = refl
role_of-code orchestrator = refl
role_of-code apply_gate = refl
role_of-code reviewer = refl

handle_from : List ℕ → Option SessionHandle
handle_from (a ∷ b ∷ c ∷ d ∷ []) =
    some (record {
      session_token = a;
      agent_principal_id = b;
      agent_instance_id = c;
      role = role_of d;
    })
handle_from text = none

handle_to : SessionHandle → List ℕ
handle_to h = h.session_token ∷ h.agent_principal_id ∷ h.agent_instance_id ∷ role_code h.role ∷ []

handle_from-to : (h : SessionHandle) → handle_from (handle_to h) ≡ some h
unfolding handle_from handle_to
handle_from-to h = simp (role_of-code h.role)

kind_code : AttemptOutcomeKind → ℕ
kind_code AttemptOutcomeKind.succeeded = 0
kind_code AttemptOutcomeKind.retryable_failure = 1
kind_code AttemptOutcomeKind.terminal_failure = 2

kind_of : ℕ → AttemptOutcomeKind
kind_of zero = AttemptOutcomeKind.succeeded
kind_of (suc zero) = AttemptOutcomeKind.retryable_failure
kind_of (suc (suc n)) = AttemptOutcomeKind.terminal_failure

kind_of-code : (k : AttemptOutcomeKind) → kind_of (kind_code k) ≡ k
unfolding kind_of kind_code
kind_of-code AttemptOutcomeKind.succeeded = refl
kind_of-code AttemptOutcomeKind.retryable_failure = refl
kind_of-code AttemptOutcomeKind.terminal_failure = refl

option_code : Option ℕ → ℕ
option_code none = 0
option_code (some n) = suc n

option_of : ℕ → Option ℕ
option_of zero = none
option_of (suc n) = some n

option_of-code : (o : Option ℕ) → option_of (option_code o) ≡ o
unfolding option_of option_code
option_of-code none = refl
option_of-code (some n) = refl

outcome_from : List ℕ → Option AttemptOutcome
outcome_from (a ∷ b ∷ c ∷ k ∷ e ∷ f ∷ t ∷ n ∷ []) = some (record {
  claim_id = a;
  subtask_id = b;
  fence_seq = c;
  outcome_kind = kind_of k;
  evidence_digest = option_of e;
  failure_code = option_of f;
  summary = t;
  recorded_at = n;
})
outcome_from text = none

outcome_to : AttemptOutcome → List ℕ
outcome_to o =
    o.claim_id
    ∷ o.subtask_id
    ∷ o.fence_seq
    ∷ kind_code o.outcome_kind
    ∷ option_code o.evidence_digest
    ∷ option_code o.failure_code
    ∷ o.summary
    ∷ o.recorded_at
    ∷ []

outcome_from-to : (o : AttemptOutcome) → outcome_from (outcome_to o) ≡ some o
unfolding outcome_from outcome_to
outcome_from-to o =
    simp
      (kind_of-code o.outcome_kind, option_of-code o.evidence_digest, option_of-code o.failure_code)

unfoldable pub codecs : Codecs
unfolding role_of-code kind_of-code option_of-code unit_from id_from claim_from handle_from
    handle_to handle_from-to role_of outcome_from outcome_to outcome_from-to kind_of option_of
    role_code kind_code option_code
codecs = record {
  of_unit = record { to_json = λ u. []; from_json = unit_from; from_json-to_json = λ u. refl };
  of_id = record { to_json = λ n. n ∷ []; from_json = id_from; from_json-to_json = λ n. refl };
  of_handle = record {
    to_json = handle_to;
    from_json = handle_from;
    from_json-to_json = handle_from-to;
  };
  of_claim = record {
    to_json = λ r. r.claim_id ∷ r.subtask_id ∷ r.fence_seq ∷ r.lease_deadline ∷ [];
    from_json = claim_from;
    from_json-to_json = λ r. refl;
  };
  of_outcome = record {
    to_json = outcome_to;
    from_json = outcome_from;
    from_json-to_json = outcome_from-to;
  };
}

abbrev pub executor_session : Session
executor_session = record {
  session_token = 2;
  agent_principal_id = 5;
  agent_instance_id = 6;
  role = executor;
  state = SessionState.active;
  active_subtask_id = some 20;
  last_heartbeat_at = 100;
  last_heartbeat_tick = 100;
  created_at = 100;
  updated_at = 100;
}

abbrev pub task : MetaTask
task = record {
  meta_task_id = 10;
  prompt_text = 1;
  state = MetaTaskState.active;
  created_by = 1;
  created_at = 100;
  updated_at = 100;
}

abbrev pub working : Subtask
working = record {
  subtask_id = 20;
  meta_task_id = 10;
  title = 3;
  kind = SubtaskKind.work;
  review_target_subtask_id = none;
  review_target_artifact_digest = none;
  state = SubtaskState.in_progress;
  current_claim_id = some 30;
  artifact_digest = none;
  priority = 1;
  completion_policy = CompletionPolicy.direct;
  routing_key = 0;
  evidence_policy = EvidencePolicy.optional;
  created_at = 100;
  updated_at = 100;
}

abbrev pub held_until_500 : Claim
held_until_500 = record {
  claim_id = 30;
  subtask_id = 20;
  owner_session_token = 2;
  fence_seq = 1;
  lease_deadline = 500;
  state = ClaimState.held;
  created_at = 100;
  updated_at = 100;
}

-- Session 2 works on subtask 20 under claim 30.
abbrev pub working_store : Store
working_store = record {
  sessions = executor_session ∷ [];
  meta_tasks = task ∷ [];
  subtasks = working ∷ [];
  fence_counters = record { subtask_id = 20; next_fence_seq = 2 } ∷ [];
  claims = held_until_500 ∷ [];
  outcomes = [];
  artifacts = [];
  reviews = [];
  reservations = [];
  conflicts = [];
  ready_queue = [];
  dependencies = [];
  followups = [];
  events = [];
  idempotency = [];
  last_tick_ms = 100;
}

-- Session 2 is idle, and subtask 20 is available.
abbrev pub idle_store : Store
idle_store = record working_store {
  sessions = record executor_session { active_subtask_id = none } ∷ [];
  subtasks = record working { state = SubtaskState.available; current_claim_id = none } ∷ [];
  claims = [];
  fence_counters = record { subtask_id = 20; next_fence_seq = 1 } ∷ [];
}

-- The lease of claim 30 has run out.
abbrev pub late_store : Store
late_store = record working_store { last_tick_ms = 600 }

abbrev pub used_key : IdempotencyRecord
used_key = record {
  actor_key = 2;
  operation = Operation.claim_subtask;
  idempotency_key = 9;
  request_hash = 78;
  response_json = [];
  created_at = 100;
}

abbrev pub keyed_store : Store
keyed_store = record idle_store { idempotency = used_key ∷ [] }

abbrev pub claim_req : ClaimSubtaskReq
claim_req = record { session_token = 2; subtask_id = 20; lease_duration_ms = 300 }

abbrev pub held_ref : ClaimRef
held_ref = record { session_token = 2; claim_id = 30; fence_seq = 1 }

abbrev pub success : OutcomeInput
success = record {
  session_token = 2;
  claim_id = 30;
  fence_seq = 1;
  outcome_kind = AttemptOutcomeKind.succeeded;
  evidence_digest = none;
  failure_code = none;
  summary = 4;
}

-- An orchestrator registers, submits a meta-task and creates a subtask; an executor registers,
-- claims it and finishes it; then the clock runs past every lease.
abbrev pub some_calls : List Call
some_calls =
    mutates (key Operation.register_session 1) 100
      (registers (record { agent_principal_id = 4; agent_instance_id = 6; role = orchestrator }) 1)
    ∷ mutates (key Operation.submit_meta_task 2) 110
        (submits (record { session_token = 1; prompt_text = 1 }) 10)
    ∷ mutates (key Operation.create_work_subtask 3) 120 (
        creates
          (record {
            session_token = 1;
            meta_task_id = 10;
            subtask_id = none;
            title = 3;
            priority = 1;
            completion_policy = CompletionPolicy.direct;
            routing_key = 0;
            evidence_policy = EvidencePolicy.optional;
            depends_on = [];
          })
          20)
    ∷ mutates (key Operation.register_session 4) 130
        (registers (record { agent_principal_id = 5; agent_instance_id = 6; role = executor }) 2)
    ∷ mutates (key Operation.claim_subtask 5) 140 (claims_one claim_req 30)
    ∷ mutates (key Operation.start_subtask 6) 150 (starts held_ref)
    ∷ mutates (key Operation.finish_subtask 7) 160 (records_outcome success)
    ∷ expires_claims 900
    ∷ reaps 300 900
    ∷ []
