-- ===== src/Lifecycle/Following.antt =====
-- The repair follow-ups of src/ops/workflow/artifact_review.rs that an executor's `claim_next` makes
-- up: `ensure_changes_requested_followup_blocks_tx`, `revive_abandoned_review_followups_tx` and
-- `create_review_followup_subtask_tx`.
pub mod Inherited
pub mod Revived
use covey.Common.{
  ℕ, Bool, true, false, not, ◌&&◌, ◌||◌, List, [], ◌∷◌, Option, none, some, if◌then◌else◌, ◌==◌,
  ltb, is_null, exists_row, insert, select, find,
}
use covey.Model.State.{
  ObjectType, SubtaskState, SubtaskKind, EvidencePolicy, ReviewState, ReviewVerdict, is_state,
  is_review_state, is_work,
}
use covey.Model.Errors.{
  review_state, subtask_state, illegal_transition, database_error, review_not_found, CoveyError,
}
use covey.Model.Rows.{Store, Subtask, Review, Followup}
use covey.Txn.{Tx, pure, fail, guard, gets, modify, on_some, or_fail, ◌>>=◌, ◌>>◌, for_each}
use covey.Validators.{load_subtask, subtask_exists}
use covey.Lifecycle.Statements.{update_subtasks}
use covey.Lifecycle.Creating.{insert_fence_counter}

-- A decided review whose verdict asks for repair.
unfoldable pub is_failed_review : Review → Bool
is_failed_review r = is_review_state r.state ReviewState.decided && elim r.verdict [
  | some ReviewVerdict.changes_requested ↦ true
  | some ReviewVerdict.blocked ↦ true
  | some ReviewVerdict.approve ↦ false
  | none ↦ false
]

-- Work that waits for repair.
unfoldable pub awaits_repair : Subtask → Bool
awaits_repair s =
    is_work s.kind
    && (is_state s.state SubtaskState.changes_requested || is_state s.state SubtaskState.blocked)

-- A failed review of the work `subtask_id`.
unfoldable pub source_awaits : Store → ℕ → Bool
unfolding awaits_repair
source_awaits s subtask_id =
    exists_row (λ source. source.subtask_id == subtask_id && awaits_repair source) s.subtasks

-- Abandoned work without a claim or an artifact.
unfoldable pub is_revivable : Subtask → Bool
is_revivable r =
    is_state r.state SubtaskState.abandoned
    && is_null r.current_claim_id
    && is_null r.artifact_digest

-- The follow-ups that `revive_abandoned_review_followups_tx` selects: every one is updated, so
-- neither the order nor a repetition matters.
unfoldable pub is_abandoned_followup : Store → Subtask → Bool
unfolding is_failed_review source_awaits is_revivable
is_abandoned_followup s followup =
    is_work followup.kind
    && is_revivable followup
    && exists_row
        (λ f.
          f.followup_subtask_id == followup.subtask_id
          && exists_row
              (λ r.
                r.review_id == f.review_id && is_failed_review r && source_awaits s r.subtask_id)
              s.reviews)
        s.followups

unfoldable pub revive_followup : ℕ → Subtask → Tx (Unit {0})
revive_followup now followup = do
  rows ←
      update_subtasks (λ r. r.subtask_id == followup.subtask_id && is_revivable r)
        (λ r. record r { state = SubtaskState.available; updated_at = now })
  pure tt

unfoldable pub revive_abandoned_review_followups : ℕ → Tx (Unit {0})
unfolding is_abandoned_followup revive_followup
revive_abandoned_review_followups now = do
  followups ← gets λ s. select (is_abandoned_followup s) s.subtasks
  for_each followups (revive_followup now)

-- What the title of a follow-up is made of, and the identifiers that `make_id` draws for the
-- follow-ups of reviews.
pub record Repairs : Type 0 where
  pub title_for : ℕ → ℕ
  pub id_for : ℕ → ℕ

unfoldable pub insert_subtask : Subtask → Tx (Unit {0})
insert_subtask row = do
  taken ← subtask_exists row.subtask_id
  guard (not taken) database_error
  modify λ s. record s { subtasks = insert row s.subtasks }

unfoldable pub insert_followup : Followup → Tx (Unit {0})
insert_followup row = do
  taken ← gets λ s. exists_row (λ f. f.review_id == row.review_id) s.followups
  guard (not taken) database_error
  modify λ s. record s { followups = insert row s.followups }

-- The row leaves `evidence_policy` to the column's default, `required`.
abbrev pub followup_subtask : Repairs → Subtask → ℕ → ℕ → Subtask
followup_subtask repairs source review_id now = record {
  subtask_id = repairs.id_for review_id;
  meta_task_id = source.meta_task_id;
  title = repairs.title_for source.subtask_id;
  kind = SubtaskKind.work;
  review_target_subtask_id = none;
  review_target_artifact_digest = none;
  state = SubtaskState.available;
  current_claim_id = none;
  artifact_digest = none;
  priority = source.priority;
  completion_policy = source.completion_policy;
  routing_key = source.routing_key;
  evidence_policy = EvidencePolicy.required;
  created_at = now;
  updated_at = now;
}

unfoldable pub create_review_followup_subtask : Repairs → Subtask → ℕ → ℕ → Tx ℕ
unfolding insert_subtask insert_followup
create_review_followup_subtask repairs source review_id now = do
  insert_subtask (followup_subtask repairs source review_id now)
  insert_fence_counter (repairs.id_for review_id)
  insert_followup (record {
    review_id = review_id;
    source_subtask_id = source.subtask_id;
    followup_subtask_id = repairs.id_for review_id;
  })
  pure (repairs.id_for review_id)

-- Failed reviews of waiting work that have no follow-up.
unfoldable pub lacks_followup : Store → Review → Bool
unfolding is_failed_review source_awaits
lacks_followup s r =
    is_failed_review r
    && source_awaits s r.subtask_id
    && not (exists_row (λ f. f.review_id == r.review_id) s.followups)

-- `ORDER BY r.updated_at, r.created_at`.
unfoldable pub insert_by_update : Review → List Review → List Review
insert_by_update r [] = r ∷ []
insert_by_update r (q ∷ qs) =
    let rest = insert_by_update r qs in
    if ltb q.updated_at r.updated_at
      || (q.updated_at == r.updated_at && ltb q.created_at r.created_at)
    then q ∷ rest
    else r ∷ q ∷ qs

unfoldable pub sort_by_update : List Review → List Review
unfolding insert_by_update
sort_by_update [] = []
sort_by_update (r ∷ rs) = insert_by_update r (sort_by_update rs)

-- One turn of the loop: the review is loaded again, with its source.
unfoldable pub create_missing_followup : Repairs → ℕ → Review → Tx (Unit {0})
unfolding create_review_followup_subtask
create_missing_followup repairs now selected = do
  found ← gets λ s. find (λ r. r.review_id == selected.review_id) s.reviews
  review ← or_fail found review_not_found
  source ← load_subtask review.subtask_id
  on_some review.findings_digest
      (fail (
        illegal_transition (review_state review.state) (subtask_state SubtaskState.available)
          ObjectType.subtask))
      (λ digest. pure tt)
  id ← create_review_followup_subtask repairs source review.review_id now
  pure tt

unfoldable pub ensure_changes_requested_followup_blocks : Repairs → ℕ → Tx (Unit {0})
unfolding revive_abandoned_review_followups lacks_followup sort_by_update create_missing_followup
ensure_changes_requested_followup_blocks repairs now = do
  revive_abandoned_review_followups now
  reviews ← gets λ s. sort_by_update (select (lacks_followup s) s.reviews)
  for_each reviews (create_missing_followup repairs now)
