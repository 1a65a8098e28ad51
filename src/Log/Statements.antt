-- ===== src/Log/Statements.antt =====
-- The event log, the idempotency records and the lease clock under the checks of src/validators.rs
-- and the shared statements.
use covey.Common.{ℕ, ◌≡◌, Bool, List}
use covey.Model.State.{SessionRole, SubtaskKind, SubtaskState, ReviewState, ClaimState}
use covey.Model.Rows.{Store, Session, Subtask, Claim, Review, Reservation, Event, IdempotencyRecord}
use covey.Txn.Triples.{Triple, Keeps, keeps_rules, Keeps-modify}
use covey.Validators.Transitions.{ensure_subtask_transition, ensure_review_transition}
use covey.Validators.{
  load_session, load_subtask, load_claim, load_meta_task, ensure_no_other_active_session,
  require_active_session, require_role, ensure_meta_task_is_schedulable, subtask_exists,
  held_claim_owner, require_session_can_claim_kind, issue_fence_seq, require_current_claim,
  close_claim_and_detach, clear_session_active_subtask, ensure_positive_lease_duration,
}
use covey.Lifecycle.Statements.{
  update_subtasks, update_sessions, update_reviews, update_reservations,
  reset_in_progress_review_for_expired_claim, detach_expired_claim, free_claim_owner,
  release_owner_reservations,
}

pub record Logged (events : List Event) (records : List IdempotencyRecord) (tick : ℕ)
    (events' : List Event) (records' : List IdempotencyRecord) (tick' : ℕ) : Type 0 where
  pub same_events : events' ≡ events
  pub same_records : records' ≡ records
  pub same_tick : tick' ≡ tick

-- The store has this event log, these idempotency records and this lease clock.
abbrev pub Log : List Event → List IdempotencyRecord → ℕ → Store → Type 0
Log es rs tick s = Logged es rs tick s.events s.idempotency s.last_tick_ms

module _ {es : List Event} {rs : List IdempotencyRecord} {tick : ℕ} where
  pub load_session-Log : (id : ℕ) → Keeps (Log es rs tick) (load_session id)
  unfolding load_session
  load_session-Log id = search keeps_rules

  pub load_subtask-Log : (id : ℕ) → Keeps (Log es rs tick) (load_subtask id)
  unfolding load_subtask
  load_subtask-Log id = search keeps_rules

  pub load_claim-Log : (id : ℕ) → Keeps (Log es rs tick) (load_claim id)
  unfolding load_claim
  load_claim-Log id = search keeps_rules

  pub load_meta_task-Log : (id : ℕ) → Keeps (Log es rs tick) (load_meta_task id)
  unfolding load_meta_task
  load_meta_task-Log id = search keeps_rules

  pub ensure_no_other_active_session-Log :
      (id : ℕ) → Keeps (Log es rs tick) (ensure_no_other_active_session id)
  unfolding ensure_no_other_active_session
  ensure_no_other_active_session-Log id = search keeps_rules

  pub require_active_session-Log : (id : ℕ) → Keeps (Log es rs tick) (require_active_session id)
  unfolding require_active_session
  require_active_session-Log id = search (keeps_rules, load_session-Log)

  pub require_role-Log :
      (id : ℕ) (roles : List SessionRole) → Keeps (Log es rs tick) (require_role id roles)
  unfolding require_role
  require_role-Log id roles = search (keeps_rules, require_active_session-Log)

  pub ensure_meta_task_is_schedulable-Log :
      (id : ℕ) → Keeps (Log es rs tick) (ensure_meta_task_is_schedulable id)
  unfolding ensure_meta_task_is_schedulable
  ensure_meta_task_is_schedulable-Log id = search (keeps_rules, load_meta_task-Log)

  pub subtask_exists-Log : (id : ℕ) → Keeps (Log es rs tick) (subtask_exists id)
  unfolding subtask_exists
  subtask_exists-Log id = search keeps_rules

  pub held_claim_owner-Log : (id : ℕ) → Keeps (Log es rs tick) (held_claim_owner id)
  unfolding held_claim_owner
  held_claim_owner-Log id = search keeps_rules

  pub issue_fence_seq-Log : (id : ℕ) → Keeps (Log es rs tick) (issue_fence_seq id)
  unfolding issue_fence_seq
  issue_fence_seq-Log id = search (keeps_rules, Keeps-modify)

  pub require_session_can_claim_kind-Log :
      (r : Session) (k : SubtaskKind) → Keeps (Log es rs tick) (require_session_can_claim_kind r k)
  unfolding require_session_can_claim_kind
  require_session_can_claim_kind-Log r k = search keeps_rules

  pub ensure_subtask_transition-Log :
      (k : SubtaskKind) (a b : SubtaskState)
      → Keeps (Log es rs tick) (ensure_subtask_transition k a b)
  unfolding ensure_subtask_transition
  ensure_subtask_transition-Log k a b = search keeps_rules

  pub ensure_review_transition-Log :
      (a b : ReviewState) → Keeps (Log es rs tick) (ensure_review_transition a b)
  unfolding ensure_review_transition
  ensure_review_transition-Log a b = search keeps_rules

  pub ensure_positive_lease_duration-Log :
      (n : ℕ) → Keeps (Log es rs tick) (ensure_positive_lease_duration n)
  unfolding ensure_positive_lease_duration
  ensure_positive_lease_duration-Log n = search keeps_rules

  pub require_current_claim-Log :
      (token claim fence now : ℕ)
      → Keeps (Log es rs tick) (require_current_claim token claim fence now)
  unfolding require_current_claim
  require_current_claim-Log token claim fence now =
      search (keeps_rules, require_active_session-Log, load_claim-Log) depth 9

  pub update_subtasks-Log :
      (p : Subtask → Bool) (f : Subtask → Subtask) → Keeps (Log es rs tick) (update_subtasks p f)
  unfolding update_subtasks
  update_subtasks-Log p f = search (keeps_rules, Keeps-modify)

  pub update_sessions-Log :
      (p : Session → Bool) (f : Session → Session) → Keeps (Log es rs tick) (update_sessions p f)
  unfolding update_sessions
  update_sessions-Log p f = search (keeps_rules, Keeps-modify)

  pub update_reviews-Log :
      (p : Review → Bool) (f : Review → Review) → Keeps (Log es rs tick) (update_reviews p f)
  unfolding update_reviews
  update_reviews-Log p f = search (keeps_rules, Keeps-modify)

  pub update_reservations-Log :
      (p : Reservation → Bool) (f : Reservation → Reservation)
      → Keeps (Log es rs tick) (update_reservations p f)
  unfolding update_reservations
  update_reservations-Log p f = search (keeps_rules, Keeps-modify)

  pub close_claim_and_detach-Log :
      (claim : Claim) (state : ClaimState) (now : ℕ)
      → Keeps (Log es rs tick) (close_claim_and_detach claim state now)
  unfolding close_claim_and_detach
  close_claim_and_detach-Log claim state now = search (keeps_rules, Keeps-modify)

  pub clear_session_active_subtask-Log :
      (token now : ℕ) → Keeps (Log es rs tick) (clear_session_active_subtask token now)
  unfolding clear_session_active_subtask
  clear_session_active_subtask-Log token now = search (keeps_rules, Keeps-modify)

  pub reset_in_progress_review_for_expired_claim-Log :
      (id now : ℕ) → Keeps (Log es rs tick) (reset_in_progress_review_for_expired_claim id now)
  unfolding reset_in_progress_review_for_expired_claim
  reset_in_progress_review_for_expired_claim-Log id now = search (keeps_rules, update_reviews-Log)

  pub detach_expired_claim-Log :
      (claim : Claim) (now : ℕ) → Keeps (Log es rs tick) (detach_expired_claim claim now)
  unfolding detach_expired_claim
  detach_expired_claim-Log claim now = search (keeps_rules, update_subtasks-Log)

  pub free_claim_owner-Log :
      (claim : Claim) (now : ℕ) → Keeps (Log es rs tick) (free_claim_owner claim now)
  unfolding free_claim_owner
  free_claim_owner-Log claim now = search (keeps_rules, update_sessions-Log)

  pub release_owner_reservations-Log :
      (id now : ℕ) → Keeps (Log es rs tick) (release_owner_reservations id now)
  unfolding release_owner_reservations
  release_owner_reservations-Log id now = search (keeps_rules, update_reservations-Log)

pub ruleset log_rules = (
  keeps_rules, load_session-Log, load_subtask-Log, load_claim-Log, load_meta_task-Log,
  ensure_no_other_active_session-Log, require_active_session-Log, require_role-Log,
  ensure_meta_task_is_schedulable-Log, subtask_exists-Log, held_claim_owner-Log,
  issue_fence_seq-Log, require_session_can_claim_kind-Log, ensure_subtask_transition-Log,
  ensure_review_transition-Log, ensure_positive_lease_duration-Log, require_current_claim-Log,
  update_subtasks-Log, update_sessions-Log, update_reviews-Log, update_reservations-Log,
  close_claim_and_detach-Log, clear_session_active_subtask-Log,
  reset_in_progress_review_for_expired_claim-Log, detach_expired_claim-Log, free_claim_owner-Log,
  release_owner_reservations-Log,
)
