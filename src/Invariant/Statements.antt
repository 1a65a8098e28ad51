-- ===== src/Invariant/Statements.antt =====
-- The invariant under the shared checks and statements.
use covey.Common.{ℕ, ◌≡◌, refl, Bool, true, false, List}
use covey.Model.State.{
  ObjectType, SessionRole, SubtaskKind, SubtaskState, ReviewState, ClaimState, is_held,
}
use covey.Model.Rows.{Session, Subtask, Claim, Review, Reservation, EventType}
use covey.Txn.{advance_lease_clock, append_session_event, append_system_event, append_event}
use covey.Txn.Triples.{Keeps, keeps_rules, Keeps-modify, Keeps-bind, Keeps-gets}
use covey.Validators.Transitions.{ensure_subtask_transition, ensure_review_transition}
use covey.Validators.{
  load_session, load_subtask, load_claim, load_meta_task, require_active_session, require_role,
  ensure_meta_task_is_schedulable, subtask_exists, held_claim_owner, require_session_can_claim_kind,
  require_current_claim, close_claim_and_detach, clear_session_active_subtask,
  ensure_positive_lease_duration, has_token, active_of, held_claim, set_claim_state,
}
use covey.Lifecycle.Statements.{
  update_subtasks, update_sessions, update_reviews, update_reservations,
  reset_in_progress_review_for_expired_claim, detach_expired_claim, free_claim_owner,
  release_owner_reservations,
}
use covey.Invariant.Counts.{Inv, Counts-update_sessions, Counts-update_claims}

pub advance_lease_clock-Inv : (now : ℕ) → Keeps Inv (advance_lease_clock now)
unfolding advance_lease_clock
advance_lease_clock-Inv now = search (keeps_rules, Keeps-modify)

pub append_session_event-Inv :
    (e : EventType) (o : ObjectType) (id token now : ℕ)
    → Keeps Inv (append_session_event e o id token now)
unfolding append_session_event append_event
append_session_event-Inv e o id token now = Keeps-modify _ (λ s h. h)

pub append_system_event-Inv :
    (e : EventType) (o : ObjectType) (id now : ℕ) → Keeps Inv (append_system_event e o id now)
unfolding append_system_event append_event
append_system_event-Inv e o id now = Keeps-modify _ (λ s h. h)

pub load_session-Inv : (id : ℕ) → Keeps Inv (load_session id)
unfolding load_session
load_session-Inv id = search keeps_rules

pub load_subtask-Inv : (id : ℕ) → Keeps Inv (load_subtask id)
unfolding load_subtask
load_subtask-Inv id = search keeps_rules

pub load_claim-Inv : (id : ℕ) → Keeps Inv (load_claim id)
unfolding load_claim
load_claim-Inv id = search keeps_rules

pub load_meta_task-Inv : (id : ℕ) → Keeps Inv (load_meta_task id)
unfolding load_meta_task
load_meta_task-Inv id = search keeps_rules

pub require_active_session-Inv : (id : ℕ) → Keeps Inv (require_active_session id)
unfolding require_active_session
require_active_session-Inv id = search (keeps_rules, load_session-Inv)

pub require_role-Inv : (id : ℕ) (roles : List SessionRole) → Keeps Inv (require_role id roles)
unfolding require_role
require_role-Inv id roles = search (keeps_rules, require_active_session-Inv)

pub ensure_meta_task_is_schedulable-Inv : (id : ℕ) → Keeps Inv (ensure_meta_task_is_schedulable id)
unfolding ensure_meta_task_is_schedulable
ensure_meta_task_is_schedulable-Inv id = search (keeps_rules, load_meta_task-Inv)

pub subtask_exists-Inv : (id : ℕ) → Keeps Inv (subtask_exists id)
unfolding subtask_exists
subtask_exists-Inv id = search keeps_rules

pub held_claim_owner-Inv : (id : ℕ) → Keeps Inv (held_claim_owner id)
unfolding held_claim_owner
held_claim_owner-Inv id = search keeps_rules

pub require_session_can_claim_kind-Inv :
    (r : Session) (k : SubtaskKind) → Keeps Inv (require_session_can_claim_kind r k)
unfolding require_session_can_claim_kind
require_session_can_claim_kind-Inv r k = search keeps_rules

pub ensure_subtask_transition-Inv :
    (k : SubtaskKind) (a b : SubtaskState) → Keeps Inv (ensure_subtask_transition k a b)
unfolding ensure_subtask_transition
ensure_subtask_transition-Inv k a b = search keeps_rules

pub ensure_review_transition-Inv : (a b : ReviewState) → Keeps Inv (ensure_review_transition a b)
unfolding ensure_review_transition
ensure_review_transition-Inv a b = search keeps_rules

pub ensure_positive_lease_duration-Inv : (n : ℕ) → Keeps Inv (ensure_positive_lease_duration n)
unfolding ensure_positive_lease_duration
ensure_positive_lease_duration-Inv n = search keeps_rules

pub require_current_claim-Inv :
    (token claim fence now : ℕ) → Keeps Inv (require_current_claim token claim fence now)
unfolding require_current_claim
require_current_claim-Inv token claim fence now =
    search (keeps_rules, require_active_session-Inv, load_claim-Inv) depth 9

pub ruleset checks_keep = (
  advance_lease_clock-Inv, append_session_event-Inv, append_system_event-Inv, load_session-Inv,
  load_subtask-Inv, load_claim-Inv, load_meta_task-Inv, require_active_session-Inv,
  require_role-Inv, ensure_meta_task_is_schedulable-Inv, subtask_exists-Inv, held_claim_owner-Inv,
  require_session_can_claim_kind-Inv, ensure_subtask_transition-Inv, ensure_review_transition-Inv,
  ensure_positive_lease_duration-Inv, require_current_claim-Inv,
)

pub update_subtasks-Inv :
    (p : Subtask → Bool) (f : Subtask → Subtask) → Keeps Inv (update_subtasks p f)
unfolding update_subtasks
update_subtasks-Inv p f = search (keeps_rules, Keeps-modify)

pub update_reviews-Inv : (p : Review → Bool) (f : Review → Review) → Keeps Inv (update_reviews p f)
unfolding update_reviews
update_reviews-Inv p f = search (keeps_rules, Keeps-modify)

pub update_reservations-Inv :
    (p : Reservation → Bool) (f : Reservation → Reservation) → Keeps Inv (update_reservations p f)
unfolding update_reservations
update_reservations-Inv p f = search (keeps_rules, Keeps-modify)

-- Sessions keep their tokens and principals, and none becomes active.
pub update_sessions-Inv :
    (p : Session → Bool) (f : Session → Session)
    → ((r : Session) → (f r).session_token ≡ r.session_token)
    → ((r : Session) (k : ℕ) → active_of k (f r) ≡ true → active_of k r ≡ true)
    → Keeps Inv (update_sessions p f)
unfolding update_sessions
update_sessions-Inv p f token active = Keeps-bind _ _ (Keeps-gets _) λ rows.
    Keeps-bind _ _ (Keeps-modify _ (λ s v. Counts-update_sessions p f token active v))
      λ _. Keeps-gets _

pub close_claim_and_detach-Inv :
    (claim : Claim) (state : ClaimState) (now : ℕ)
    → is_held state ≡ false
    → Keeps Inv (close_claim_and_detach claim state now)
unfolding close_claim_and_detach
close_claim_and_detach-Inv claim state now closed = Keeps-bind _ _ (Keeps-gets _) λ rows.
    Keeps-bind _ _
      (Keeps-modify _ λ s v.
        Counts-update_claims (held_claim claim.claim_id) (set_claim_state state now) (λ r. refl)
          (λ r. refl) (λ r. refl) (λ r _ h. cc) v)
      λ _. search keeps_rules

pub clear_session_active_subtask-Inv :
    (token now : ℕ) → Keeps Inv (clear_session_active_subtask token now)
unfolding clear_session_active_subtask
clear_session_active_subtask-Inv token now =
    Keeps-modify _ λ s v. Counts-update_sessions (has_token token) _ (λ r. refl) (λ r k h. h) v

pub free_claim_owner-Inv : (claim : Claim) (now : ℕ) → Keeps Inv (free_claim_owner claim now)
unfolding free_claim_owner
free_claim_owner-Inv claim now = update_sessions-Inv _ _ (λ r. refl) (λ r k h. h)

pub reset_in_progress_review-Inv :
    (id now : ℕ) → Keeps Inv (reset_in_progress_review_for_expired_claim id now)
unfolding reset_in_progress_review_for_expired_claim
reset_in_progress_review-Inv id now = update_reviews-Inv _ _

pub detach_expired_claim-Inv :
    (claim : Claim) (now : ℕ) → Keeps Inv (detach_expired_claim claim now)
unfolding detach_expired_claim
detach_expired_claim-Inv claim now = update_subtasks-Inv _ _

pub release_owner_reservations-Inv : (id now : ℕ) → Keeps Inv (release_owner_reservations id now)
unfolding release_owner_reservations
release_owner_reservations-Inv id now = update_reservations-Inv _ _

pub ruleset statements_keep = (
  checks_keep, update_subtasks-Inv, update_reviews-Inv, update_reservations-Inv,
  close_claim_and_detach-Inv, clear_session_active_subtask-Inv, free_claim_owner-Inv,
  reset_in_progress_review-Inv, detach_expired_claim-Inv, release_owner_reservations-Inv,
)
