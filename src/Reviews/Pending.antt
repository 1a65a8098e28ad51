-- ===== src/Reviews/Pending.antt =====
-- The apply queue under `decide_review` of src/ops/workflow/artifact_review.rs.
use covey.Common.{
  ℕ, ◌≤◌, ◌≡◌, Bool, true, false, ◌&&◌, none, ◌==◌, insert, count, arith, count-insert,
  count-update_where-le, count-update_where_none, if◌then◌else◌, subst, Bool-cases, inl, inr, List,
}
use covey.Model.State.{SettlementTarget, ReadyQueueState, ReviewVerdict, SubtaskState}
use covey.Model.Rows.{Store, ReadyQueueItem, Subtask, Review, Claim}
use covey.Txn.{Tx, after, advance_lease_clock, append_session_event, append_event}
use covey.Txn.Idempotent.{Codec, Mutation}
use covey.Txn.Kept.{Keeps-with_write_tx, Keeps-after, Keeps-with_idempotent_mutation}
use covey.Txn.Triples.{
  Triple, Keeps, Triple-bind, Triple-weaken, Triple-modify, Triple-from, Keeps-then, Keeps-modify,
  keeps_rules,
}
use covey.Validators.{
  load_session, load_claim, load_subtask, load_meta_task, require_active_session,
  require_current_claim, require_role, ensure_meta_task_is_schedulable,
  require_session_can_claim_kind, close_claim_and_detach, clear_session_active_subtask,
  subtask_exists,
}
use covey.Validators.Transitions.{ensure_subtask_transition, ensure_review_transition}
use covey.Lifecycle.Statements.{
  update_subtasks, update_reviews, update_reservations, release_owner_reservations,
}
use covey.Lifecycle.Creating.{insert_fence_counter}
use covey.Lifecycle.Completing.{release_active_reservations, resolve_reservation_overlap_conflicts}
use covey.Lifecycle.Following.{
  Repairs, create_review_followup_subtask, insert_subtask, insert_followup,
}
use covey.MetaTasks.{refresh_meta_task_state, write_meta_state}
use covey.Reviews.Requesting.{require_review_policy}
use covey.Reviews.Enqueuing.{
  load_artifact, require_canonical_apply_policy, ensure_applyable_artifact, is_pending_item,
  supersede_pending_items, new_item, insert_ready_queue_item, unless_queued,
  enqueue_approved_subtask_for_apply,
}
use covey.Reviews.Deciding.{
  DecideReviewReq, ReviewDecisionResult, load_review, check_decision, apply_decision,
  ensure_separation_of_duties, ensure_artifact_is_current, mark_decided, close_review_subtask,
  release_producer, move_work_subtask, conclude, enqueue_if_applyable, decide_review_body,
  decide_review, Checked,
}

-- An item of the subtask that waits in the queue or is in flight.
abbrev pub pending : ℕ → ReadyQueueItem → Bool
pending k q = q.subtask_id == k && is_pending_item q.state

-- No subtask has two pending items.
abbrev pub SinglePending : Store → Type 0
SinglePending s = (k : ℕ) → count (pending k) s.ready_queue ≤ 1

-- And this one has none.
abbrev Cleared : ℕ → Store → Type 0
Cleared id s = SinglePending s × (count (pending id) s.ready_queue ≡ 0)

abbrev superseded_item : ℕ → ReadyQueueItem → ReadyQueueItem
superseded_item now q = record q {
  state = ReadyQueueState.superseded;
  claimed_by_session_token = none;
  claim_lease_deadline = none;
  updated_at = now;
}

not_pending : (k now : ℕ) (q : ReadyQueueItem) → pending k (superseded_item now q) ≡ false
not_pending k now q = ground arith

clears :
    (id now : ℕ)
    → Triple SinglePending (supersede_pending_items id now) (λ _ s. Cleared id s) SinglePending
unfolding supersede_pending_items
clears id now = Triple-modify _ λ s h. (
  (λ k. ground (
    arith,
    h k,
    count-update_where-le (pending k) (pending id) (superseded_item now) s.ready_queue
        (λ q a b. ground (arith, b, not_pending k now q)),
  )),
  count-update_where_none (pending id) (pending id) (superseded_item now) s.ready_queue (λ q a. a)
      (λ q a. not_pending id now q),
)

insert_item :
    (a : ReadyQueueItem) (rows : List ReadyQueueItem)
    → ((k : ℕ) → count (pending k) rows ≤ 1)
    → count (pending a.subtask_id) rows ≡ 0
    → (k : ℕ) → count (pending k) (insert a rows) ≤ 1
insert_item a rows h z k = elim (Bool-cases (pending k a)) [
  | inl t ↦
      let same : a.subtask_id ≡ k = ground arith in
      ground
        (arith, count-insert (pending k) a rows, subst (λ x. count (pending x) rows ≡ 0) same z, t)
  | inr t ↦ ground (arith, count-insert (pending k) a rows, h k, t)
]

still :
    {A : Type 0} (id : ℕ) (m : Tx A)
    → Keeps (Cleared id) m
    → Triple (Cleared id) m (λ _ s. Cleared id s) SinglePending
still id m h = Triple-weaken m h (λ a s p. p) (λ s p. p.0)

ends :
    {A : Type 0} (id : ℕ) (m : Tx A)
    → Keeps SinglePending m
    → Triple (Cleared id) m (λ _ s. SinglePending s) SinglePending
ends id m h = Triple-from m (λ s p. p.0) h

Triple-if :
    {A : Type 0} {P E : Store → Type 0} {Q : A → Store → Type 0} (b : Bool) (m n : Tx A)
    → Triple P m Q E
    → Triple P n Q E
    → Triple P (if b then m else n) Q E
Triple-if true m n hm hn = hm
Triple-if false m n hm hn = hn

inserts :
    (queue_id token id digest : ℕ) (target : SettlementTarget) (now : ℕ)
    → Triple
        (Cleared id)
        (insert_ready_queue_item queue_id token id digest target now)
        (λ _ s. SinglePending s)
        SinglePending
unfolding insert_ready_queue_item append_session_event append_event
inserts queue_id token id digest target now =
    Triple-bind _ _ (still _ _ (search keeps_rules)) λ existing.
      Triple-if existing _ _ (ends id _ (search keeps_rules)) (
        Triple-bind _ _ (still id _ (search keeps_rules)) λ taken.
          Triple-bind _ _ (still id _ (search keeps_rules)) λ _.
            Triple-bind _ _
              (Triple-modify {Q = SinglePending} _
                λ s h. insert_item (new_item queue_id id digest target now) s.ready_queue h.0 h.1)
              λ _. search (keeps_rules, Keeps-modify))

pub enqueue-keeps :
    (queue_id token id digest : ℕ) (target : SettlementTarget) (now : ℕ)
    → Keeps SinglePending (enqueue_approved_subtask_for_apply queue_id token id digest target now)
unfolding enqueue_approved_subtask_for_apply load_subtask require_canonical_apply_policy
    ensure_applyable_artifact load_artifact unless_queued update_subtasks
enqueue-keeps queue_id token id digest target now = Keeps-then _ _ (search keeps_rules) λ subtask.
    Keeps-then _ _ (search keeps_rules) λ _. Keeps-then _ _ (search keeps_rules) λ _.
      Triple-bind _ _ (clears id now) λ _.
        Triple-bind _ _ (still id _ (search (keeps_rules, Keeps-modify))) λ updated.
          Triple-if (updated == 0) _ _ (ends id _ (search keeps_rules))
            (inserts queue_id token id digest target now)

check-keeps :
    (req : DecideReviewReq) (lease_now : ℕ) → Keeps SinglePending (check_decision req lease_now)
unfolding check_decision require_role require_current_claim require_active_session load_session
    load_claim load_subtask load_meta_task ensure_meta_task_is_schedulable
    require_session_can_claim_kind load_review ensure_separation_of_duties load_artifact
    ensure_artifact_is_current ensure_review_transition
check-keeps req lease_now = search keeps_rules depth 60

mark-keeps :
    (req : DecideReviewReq) (review : Review) (now : ℕ)
    → Keeps SinglePending (mark_decided req review now)
unfolding mark_decided update_reviews
mark-keeps req review now = search (keeps_rules, Keeps-modify) depth 20

close-keeps :
    (req : DecideReviewReq) (claim : Claim) (subtask : Subtask) (now : ℕ)
    → Keeps SinglePending (close_review_subtask req claim subtask now)
unfolding close_review_subtask ensure_subtask_transition update_subtasks close_claim_and_detach
    clear_session_active_subtask
close-keeps req claim subtask now = search (keeps_rules, Keeps-modify) depth 30

release-keeps : (work : Subtask) (now : ℕ) → Keeps SinglePending (release_producer work now)
unfolding release_producer load_claim close_claim_and_detach clear_session_active_subtask
    release_active_reservations release_owner_reservations update_reservations
    resolve_reservation_overlap_conflicts
release-keeps work now = search (keeps_rules, Keeps-modify) depth 30

move-keeps :
    (review : Review) (work : Subtask) (state : SubtaskState) (now : ℕ)
    → Keeps SinglePending (move_work_subtask review work state now)
unfolding move_work_subtask ensure_subtask_transition update_subtasks
move-keeps review work state now = search (keeps_rules, Keeps-modify, release-keeps) depth 30

conclude-keeps :
    (repairs : Repairs) (req : DecideReviewReq) (work : Subtask) (verdict : ReviewVerdict) (now : ℕ)
    → Keeps SinglePending (conclude repairs req work verdict now)
unfolding conclude create_review_followup_subtask insert_subtask insert_followup
    insert_fence_counter subtask_exists
conclude-keeps repairs req work ReviewVerdict.approve now = search keeps_rules
conclude-keeps repairs req work ReviewVerdict.changes_requested now =
    search (keeps_rules, Keeps-modify) depth 30
conclude-keeps repairs req work ReviewVerdict.blocked now =
    search (keeps_rules, Keeps-modify) depth 30

apply-keeps :
    (repairs : Repairs) (req : DecideReviewReq) (queue_id now : ℕ) (found : Checked)
    → Keeps SinglePending (apply_decision repairs req queue_id now found)
unfolding apply_decision load_artifact require_review_policy enqueue_if_applyable
    refresh_meta_task_state write_meta_state load_meta_task append_session_event append_event
apply-keeps repairs req queue_id now found =
    search
      (
        keeps_rules, Keeps-modify, mark-keeps, close-keeps, move-keeps, conclude-keeps,
        enqueue-keeps,
      )
      depth 40

-- Deciding a review never leaves a subtask with two items that are queued or in flight, from a store
-- where none has: not when it succeeds, fails or repeats a key.
pub decide_review-SinglePending :
    (codec : Codec ReviewDecisionResult) (m : Mutation) (repairs : Repairs) (req : DecideReviewReq)
    (queue_id now : ℕ) (s : Store)
    → SinglePending s
    → SinglePending (after (decide_review codec m repairs req queue_id now s))
unfolding decide_review decide_review_body advance_lease_clock
decide_review-SinglePending codec m repairs req queue_id now s h =
    Keeps-after (decide_review codec m repairs req queue_id now) s
      (Keeps-with_write_tx _ (
        Keeps-then _ _ (search (keeps_rules, Keeps-modify)) λ lease_now.
          Keeps-with_idempotent_mutation {P = SinglePending} codec m now _ (λ rows t k. k)
            (Keeps-then _ _ (check-keeps req lease_now)
              λ found. apply-keeps repairs req queue_id now found)))
      h
