-- ===== src/Fencing/Statements.antt =====
-- Dead claims, and the checks of src/validators.rs and the shared statements on them.
use covey.Common.{
  ℕ, ◌≤◌, ◌≡◌, refl, Bool, true, false, ◌&&◌, List, arith, ltb, ◌==◌, count, insert, update_where,
  count-insert, count_mono, count-update_where-le, count-update_where-ge,
}
use covey.Model.State.{
  ObjectType, SessionRole, SubtaskKind, SubtaskState, ReviewState, ClaimState, is_held,
}
use covey.Model.Rows.{Store, Session, Subtask, Claim, Review, Reservation, EventType}
use covey.Txn.{advance_lease_clock, append_session_event, append_system_event, append_event}
use covey.Txn.Triples.{Triple, Keeps, keeps_rules, Keeps-modify, Keeps-bind, Keeps-gets}
use covey.Validators.Transitions.{ensure_subtask_transition, ensure_review_transition}
use covey.Validators.{
  load_session, load_subtask, load_claim, load_meta_task, ensure_no_other_active_session,
  require_active_session, require_role, ensure_meta_task_is_schedulable, subtask_exists,
  held_claim_owner, require_session_can_claim_kind, issue_fence_seq, require_current_claim,
  close_claim_and_detach, clear_session_active_subtask, ensure_positive_lease_duration,
  has_claim_id, held_claim, set_claim_state,
}
use covey.Lifecycle.Statements.{
  update_subtasks, update_sessions, update_reviews, update_reservations,
  reset_in_progress_review_for_expired_claim, detach_expired_claim, free_claim_owner,
  release_owner_reservations,
}

-- Held, of this identifier, and with a lease beyond the clock.
abbrev pub live : ℕ → ℕ → Claim → Bool
live id tick c = c.claim_id == id && (is_held c.state && ltb tick c.lease_deadline)

-- The claim has a row, and no row of it is live.
pub record DeadIn (id tick : ℕ) (claims : List Claim) : Type 0 where
  pub known : 1 ≤ count (has_claim_id id) claims
  pub none_live : count (live id tick) claims ≡ 0

abbrev pub Dead : ℕ → Store → Type 0
Dead id s = DeadIn id s.last_tick_ms s.claims

-- An update of claims that keeps their identifiers, and revives none.
pub DeadIn-update :
    (id tick : ℕ) (claims : List Claim) (p : Claim → Bool) (f : Claim → Claim)
    → ((r : Claim) → (f r).claim_id ≡ r.claim_id)
    → ((r : Claim) → p r ≡ true → live id tick (f r) ≡ true → live id tick r ≡ true)
    → DeadIn id tick claims
    → DeadIn id tick (update_where p f claims)
DeadIn-update id tick claims p f key dead v = record {
  known = omega (
    arith,
    v.known,
    count-update_where-ge (has_claim_id id) p f claims (λ r h. ground (arith, key r)),
  );
  none_live = omega (arith, v.none_live, count-update_where-le (live id tick) p f claims dead);
}

-- Time does not revive a claim.
pub DeadIn-later :
    (id tick later : ℕ) (claims : List Claim)
    → tick ≤ later
    → DeadIn id tick claims
    → DeadIn id later claims
DeadIn-later id tick later claims h v = record {
  known = v.known;
  none_live = omega (
    arith,
    v.none_live,
    count_mono (live id later) (live id tick) claims (λ r e. ground (arith, h, e)),
  );
}

-- A claim of another identifier is no concern of it.
pub DeadIn-insert :
    (id tick : ℕ) (row : Claim) (claims : List Claim)
    → (row.claim_id == id) ≡ false
    → DeadIn id tick claims
    → DeadIn id tick (insert row claims)
DeadIn-insert id tick row claims other v = record {
  known = omega (arith, v.known, count-insert (has_claim_id id) row claims);
  none_live = ground (arith, v.none_live, other, count-insert (live id tick) row claims);
}

module _ {dead : ℕ} where
  pub advance_lease_clock-Dead : (now : ℕ) → Keeps (Dead dead) (advance_lease_clock now)
  unfolding advance_lease_clock
  advance_lease_clock-Dead now =
      Keeps-bind _ _ (Keeps-modify _ λ s v. DeadIn-later dead _ _ s.claims (omega arith) v)
        λ _. Keeps-gets _

  pub append_session_event-Dead :
      (e : EventType) (o : ObjectType) (id token now : ℕ)
      → Keeps (Dead dead) (append_session_event e o id token now)
  unfolding append_session_event append_event
  append_session_event-Dead e o id token now = Keeps-modify _ (λ s h. h)

  pub append_system_event-Dead :
      (e : EventType) (o : ObjectType) (id now : ℕ)
      → Keeps (Dead dead) (append_system_event e o id now)
  unfolding append_system_event append_event
  append_system_event-Dead e o id now = Keeps-modify _ (λ s h. h)

  pub close_claim_and_detach-Dead :
      (claim : Claim) (state : ClaimState) (now : ℕ)
      → is_held state ≡ false
      → Keeps (Dead dead) (close_claim_and_detach claim state now)
  unfolding close_claim_and_detach
  close_claim_and_detach-Dead claim state now closed = Keeps-bind _ _ (Keeps-gets _) λ rows.
      Keeps-bind _ _
        (Keeps-modify _ λ s v.
          DeadIn-update dead s.last_tick_ms s.claims (held_claim claim.claim_id)
            (set_claim_state state now) (λ r. refl) (λ r _ h. ground (arith, h, closed)) v)
        λ _. search keeps_rules

  pub load_session-Dead : (id : ℕ) → Keeps (Dead dead) (load_session id)
  unfolding load_session
  load_session-Dead id = search keeps_rules

  pub load_subtask-Dead : (id : ℕ) → Keeps (Dead dead) (load_subtask id)
  unfolding load_subtask
  load_subtask-Dead id = search keeps_rules

  pub load_claim-Dead : (id : ℕ) → Keeps (Dead dead) (load_claim id)
  unfolding load_claim
  load_claim-Dead id = search keeps_rules

  pub load_meta_task-Dead : (id : ℕ) → Keeps (Dead dead) (load_meta_task id)
  unfolding load_meta_task
  load_meta_task-Dead id = search keeps_rules

  pub ensure_no_other_active_session-Dead :
      (id : ℕ) → Keeps (Dead dead) (ensure_no_other_active_session id)
  unfolding ensure_no_other_active_session
  ensure_no_other_active_session-Dead id = search keeps_rules

  pub require_active_session-Dead : (id : ℕ) → Keeps (Dead dead) (require_active_session id)
  unfolding require_active_session
  require_active_session-Dead id = search (keeps_rules, load_session-Dead)

  pub require_role-Dead :
      (id : ℕ) (roles : List SessionRole) → Keeps (Dead dead) (require_role id roles)
  unfolding require_role
  require_role-Dead id roles = search (keeps_rules, require_active_session-Dead)

  pub ensure_meta_task_is_schedulable-Dead :
      (id : ℕ) → Keeps (Dead dead) (ensure_meta_task_is_schedulable id)
  unfolding ensure_meta_task_is_schedulable
  ensure_meta_task_is_schedulable-Dead id = search (keeps_rules, load_meta_task-Dead)

  pub subtask_exists-Dead : (id : ℕ) → Keeps (Dead dead) (subtask_exists id)
  unfolding subtask_exists
  subtask_exists-Dead id = search keeps_rules

  pub held_claim_owner-Dead : (id : ℕ) → Keeps (Dead dead) (held_claim_owner id)
  unfolding held_claim_owner
  held_claim_owner-Dead id = search keeps_rules

  pub issue_fence_seq-Dead : (id : ℕ) → Keeps (Dead dead) (issue_fence_seq id)
  unfolding issue_fence_seq
  issue_fence_seq-Dead id = search (keeps_rules, Keeps-modify)

  pub require_session_can_claim_kind-Dead :
      (r : Session) (k : SubtaskKind) → Keeps (Dead dead) (require_session_can_claim_kind r k)
  unfolding require_session_can_claim_kind
  require_session_can_claim_kind-Dead r k = search keeps_rules

  pub ensure_subtask_transition-Dead :
      (k : SubtaskKind) (a b : SubtaskState) → Keeps (Dead dead) (ensure_subtask_transition k a b)
  unfolding ensure_subtask_transition
  ensure_subtask_transition-Dead k a b = search keeps_rules

  pub ensure_review_transition-Dead :
      (a b : ReviewState) → Keeps (Dead dead) (ensure_review_transition a b)
  unfolding ensure_review_transition
  ensure_review_transition-Dead a b = search keeps_rules

  pub ensure_positive_lease_duration-Dead :
      (n : ℕ) → Keeps (Dead dead) (ensure_positive_lease_duration n)
  unfolding ensure_positive_lease_duration
  ensure_positive_lease_duration-Dead n = search keeps_rules

  pub require_current_claim-Dead :
      (token claim fence now : ℕ) → Keeps (Dead dead) (require_current_claim token claim fence now)
  unfolding require_current_claim
  require_current_claim-Dead token claim fence now =
      search (keeps_rules, require_active_session-Dead, load_claim-Dead) depth 9

  pub update_subtasks-Dead :
      (p : Subtask → Bool) (f : Subtask → Subtask) → Keeps (Dead dead) (update_subtasks p f)
  unfolding update_subtasks
  update_subtasks-Dead p f = search (keeps_rules, Keeps-modify)

  pub update_sessions-Dead :
      (p : Session → Bool) (f : Session → Session) → Keeps (Dead dead) (update_sessions p f)
  unfolding update_sessions
  update_sessions-Dead p f = search (keeps_rules, Keeps-modify)

  pub update_reviews-Dead :
      (p : Review → Bool) (f : Review → Review) → Keeps (Dead dead) (update_reviews p f)
  unfolding update_reviews
  update_reviews-Dead p f = search (keeps_rules, Keeps-modify)

  pub update_reservations-Dead :
      (p : Reservation → Bool) (f : Reservation → Reservation)
      → Keeps (Dead dead) (update_reservations p f)
  unfolding update_reservations
  update_reservations-Dead p f = search (keeps_rules, Keeps-modify)

  pub clear_session_active_subtask-Dead :
      (token now : ℕ) → Keeps (Dead dead) (clear_session_active_subtask token now)
  unfolding clear_session_active_subtask
  clear_session_active_subtask-Dead token now = search (keeps_rules, Keeps-modify)

  pub reset_in_progress_review_for_expired_claim-Dead :
      (id now : ℕ) → Keeps (Dead dead) (reset_in_progress_review_for_expired_claim id now)
  unfolding reset_in_progress_review_for_expired_claim
  reset_in_progress_review_for_expired_claim-Dead id now = search (keeps_rules, update_reviews-Dead)

  pub detach_expired_claim-Dead :
      (claim : Claim) (now : ℕ) → Keeps (Dead dead) (detach_expired_claim claim now)
  unfolding detach_expired_claim
  detach_expired_claim-Dead claim now = search (keeps_rules, update_subtasks-Dead)

  pub free_claim_owner-Dead :
      (claim : Claim) (now : ℕ) → Keeps (Dead dead) (free_claim_owner claim now)
  unfolding free_claim_owner
  free_claim_owner-Dead claim now = search (keeps_rules, update_sessions-Dead)

  pub release_owner_reservations-Dead :
      (id now : ℕ) → Keeps (Dead dead) (release_owner_reservations id now)
  unfolding release_owner_reservations
  release_owner_reservations-Dead id now = search (keeps_rules, update_reservations-Dead)

pub ruleset dead_rules = (
  keeps_rules, advance_lease_clock-Dead, append_session_event-Dead, append_system_event-Dead,
  load_session-Dead, load_subtask-Dead, load_claim-Dead, load_meta_task-Dead,
  ensure_no_other_active_session-Dead, require_active_session-Dead, require_role-Dead,
  ensure_meta_task_is_schedulable-Dead, subtask_exists-Dead, held_claim_owner-Dead,
  issue_fence_seq-Dead, require_session_can_claim_kind-Dead, ensure_subtask_transition-Dead,
  ensure_review_transition-Dead, ensure_positive_lease_duration-Dead, require_current_claim-Dead,
  update_subtasks-Dead, update_sessions-Dead, update_reviews-Dead, update_reservations-Dead,
  clear_session_active_subtask-Dead, reset_in_progress_review_for_expired_claim-Dead,
  detach_expired_claim-Dead, free_claim_owner-Dead, release_owner_reservations-Dead,
)
