-- ===== src/Lifecycle/Following/Inherited.antt =====
-- The row that `create_review_followup_subtask_tx` of src/ops/workflow/artifact_review.rs inserts.
use covey.Common.{
  ℕ, ◌≡◌, refl, Bool, true, false, not, List, [], ◌∷◌, none, some, subst, find, exists_row,
  find-insert_new, ==_refl, arith,
}
use covey.Model.State.{EvidencePolicy}
use covey.Model.Errors.{database_error}
use covey.Model.Rows.{Store, Subtask}
use covey.Txn.{ok, guard, gets}
use covey.Txn.Triples.{
  Triple, Post, Triple-bind, Triple-weaken, Triple-pure, Keeps-then, Keeps-modify, Triple-guard,
  Triple-gets, Triple-modify, keeps_rules,
}
use covey.Validators.{has_subtask_id, subtask_exists}
use covey.Lifecycle.Creating.{insert_fence_counter}
use covey.Lifecycle.Following.{
  Repairs, followup_subtask, insert_subtask, insert_followup, create_review_followup_subtask,
}

abbrev Anything : Store → Type 0
Anything s = Unit {0}

find-none_of_exists :
    (p : Subtask → Bool) (xs : List Subtask) → exists_row p xs ≡ false → find p xs ≡ none
unfolding find exists_row
find-none_of_exists p [] h = refl
find-none_of_exists p (x ∷ xs) h = ground (arith, find-none_of_exists p xs)

-- The row is the one that its identifier finds.
abbrev Stored : Subtask → Store → Type 0
Stored row s = find (has_subtask_id row.subtask_id) s.subtasks ≡ some row

asks :
    (row : Subtask)
    → Triple Anything
        (gets (λ s. exists_row (has_subtask_id row.subtask_id) s.subtasks))
        (λ taken s. exists_row (has_subtask_id row.subtask_id) s.subtasks ≡ taken)
        Anything
asks row = Triple-gets _ (λ s h. refl)

refuses :
    (row : Subtask) (taken : Bool)
    → Triple
        (λ s. exists_row (has_subtask_id row.subtask_id) s.subtasks ≡ taken)
        (guard (not taken) database_error)
        (λ _ s. exists_row (has_subtask_id row.subtask_id) s.subtasks ≡ false)
        Anything
refuses row true = Triple-guard _ _ (λ s h k. cc) (λ s h. tt)
refuses row false = Triple-guard _ _ (λ s h k. h) (λ s h. tt)

stores : (row : Subtask) → Triple Anything (insert_subtask row) (λ _ s. Stored row s) Anything
unfolding insert_subtask subtask_exists
stores row = Triple-bind _ _ (asks row) λ taken. Triple-bind _ _ (refuses row taken) λ _.
    Triple-modify _ (λ s h.
      find-insert_new _ row s.subtasks (find-none_of_exists _ s.subtasks h)
        (==_refl row.subtask_id))

creates :
    (repairs : Repairs) (source : Subtask) (review_id now : ℕ)
    → Triple Anything
        (create_review_followup_subtask repairs source review_id now)
        (λ id s.
          (id ≡ repairs.id_for review_id)
          × Stored (followup_subtask repairs source review_id now) s)
        Anything
unfolding create_review_followup_subtask insert_fence_counter insert_followup
creates repairs source review_id now =
    Triple-bind _ _ (stores (followup_subtask repairs source review_id now)) λ _.
      Triple-weaken _
        (Keeps-then _ _ (search (keeps_rules, Keeps-modify) depth 12) λ _.
          Keeps-then _ _ (search (keeps_rules, Keeps-modify) depth 12)
            λ _. Triple-pure (repairs.id_for review_id) (λ s h. (refl, h)))
        (λ a s h. h) (λ s h. tt)

-- A repair follow-up is stored with its source's meta-task, priority, completion policy and route,
-- but its evidence policy is `required` whatever the source's is.
pub create_review_followup_subtask_inherits :
    (repairs : Repairs) (source : Subtask) (review_id now : ℕ) (s : Store) {s' : Store} {id : ℕ}
    → create_review_followup_subtask repairs source review_id now s ≡ ok id s'
    → (r : Subtask) × ((find (has_subtask_id id) s'.subtasks ≡ some r)
        × ((r.meta_task_id ≡ source.meta_task_id)
            × ((r.priority ≡ source.priority)
                × ((r.completion_policy ≡ source.completion_policy)
                    × ((r.routing_key ≡ source.routing_key)
                        × (r.evidence_policy ≡ EvidencePolicy.required))))))
create_review_followup_subtask_inherits repairs source review_id now s {s'} {id} e =
    let (i, h) =
      subst
        (Post
          (λ id s.
            (id ≡ repairs.id_for review_id)
            × Stored (followup_subtask repairs source review_id now) s)
          Anything)
        e ((creates repairs source review_id now).at s tt) in
    (followup_subtask repairs source review_id now, (rw i h, (refl, (refl, (refl, (refl, refl))))))
