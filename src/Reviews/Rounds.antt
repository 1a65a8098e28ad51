-- ===== src/Reviews/Rounds.antt =====
-- Artifacts and open review rounds under the operations of src/ops/workflow/artifact_review.rs.
use covey.Common.{
  ℕ, ◌≤◌, ◌≡◌, refl, Bool, true, false, not, some, find, exists_row, insert, count, arith,
  find-insert_found, count-insert, count-of_exists_row, subst, Bool-cases, inl, inr, List,
}
use covey.Model.Rows.{Store, Artifact, Review, Subtask}
use covey.Model.Errors.{review_already_open}
use covey.Txn.{Tx, guard, gets, after, advance_lease_clock, append_session_event, append_event}
use covey.Txn.Idempotent.{Codec, Mutation}
use covey.Txn.Kept.{Keeps-with_write_tx, Keeps-after, Keeps-with_idempotent_mutation}
use covey.Txn.Triples.{
  Triple, Keeps, Triple-bind, Triple-gets, Triple-weaken, Triple-guard, Triple-modify, Keeps-then,
  Keeps-modify, Keeps-on_some, keeps_rules,
}
use covey.Validators.{
  load_session, load_claim, load_subtask, load_meta_task, require_active_session,
  require_current_claim, ensure_meta_task_is_schedulable, require_session_can_claim_kind,
  subtask_exists,
}
use covey.Validators.Transitions.{ensure_subtask_transition}
use covey.Lifecycle.Statements.{update_subtasks, update_reviews}
use covey.Lifecycle.Creating.{insert_fence_counter}
use covey.Reviews.Publishing.{
  PublishArtifactReq, has_digest, check_publication, publish_new, publish_again, move_to_existing,
  mark_published, ensure_artifact_digest_unused, new_artifact, supersede_other_rounds,
  publish_artifact_body, publish_artifact, ensure_artifact_allowed_for_policy,
}
use covey.Reviews.Requesting.{
  RequestReviewReq, open_round, request_review_body, request_review, check_review_request,
  ensure_no_open_review_round, insert_review_subtask, insert_review, new_review,
  mark_review_pending, require_session_can_request_review, require_review_policy,
  ensure_artifact_exists,
}

-- The artifact that a digest stands for.
abbrev Published : ℕ → Artifact → Store → Type 0
Published digest a s = find (has_digest digest) s.artifacts ≡ some a

new_keeps :
    (digest : ℕ) (a : Artifact) (req : PublishArtifactReq) (subtask : Subtask) (now : ℕ)
    → Keeps (Published digest a) (publish_new req subtask now)
unfolding publish_new ensure_subtask_transition ensure_artifact_digest_unused supersede_other_rounds
    mark_published update_subtasks update_reviews append_session_event append_event
new_keeps digest a req subtask now = Keeps-then _ _ (search keeps_rules) λ _.
    Keeps-then _ _ (search keeps_rules) λ _.
      Keeps-then _ _
        (Keeps-modify _ (λ s h.
          find-insert_found (has_digest digest) (new_artifact req subtask now) s.artifacts h))
        λ _. search (keeps_rules, Keeps-modify) depth 20

again_keeps :
    (digest : ℕ) (a : Artifact) (req : PublishArtifactReq) (subtask : Subtask) (b : Artifact)
    (now : ℕ)
    → Keeps (Published digest a) (publish_again req subtask b now)
unfolding publish_again move_to_existing mark_published update_subtasks ensure_subtask_transition
again_keeps digest a req subtask b now = search (keeps_rules, Keeps-modify) depth 20

publish_artifact_body-keeps :
    (digest : ℕ) (a : Artifact) (req : PublishArtifactReq) (lease_now now : ℕ)
    → Keeps (Published digest a) (publish_artifact_body req lease_now now)
unfolding publish_artifact_body check_publication require_current_claim require_active_session
    load_session load_claim load_subtask load_meta_task ensure_meta_task_is_schedulable
    require_session_can_claim_kind ensure_artifact_allowed_for_policy
publish_artifact_body-keeps digest a req lease_now now =
    Keeps-then _ _ (search keeps_rules depth 30) λ subtask.
      Keeps-then _ _ (search keeps_rules) λ existing.
        Keeps-on_some existing _ _ (new_keeps digest a req subtask now)
          (λ b. again_keeps digest a req subtask b now)

-- A published artifact is never changed by a publication: what a digest stands for before the call,
-- it stands for afterwards, whether the call succeeds, fails or repeats a key.
pub publish_artifact_immutable :
    (codec : Codec (Unit {0})) (m : Mutation) (req : PublishArtifactReq) (now : ℕ) (s : Store)
    → (digest : ℕ) {a : Artifact} → find (has_digest digest) s.artifacts ≡ some a
    → find (has_digest digest) (after (publish_artifact codec m req now s)).artifacts ≡ some a
unfolding publish_artifact advance_lease_clock
publish_artifact_immutable codec m req now s digest {a} h =
    Keeps-after (publish_artifact codec m req now) s
      (Keeps-with_write_tx _ (
        Keeps-then _ _ (search (keeps_rules, Keeps-modify)) λ lease_now.
          Keeps-with_idempotent_mutation {P = Published digest a} codec m now _ (λ rows t k. k)
            (publish_artifact_body-keeps digest a req lease_now now)))
      h

-- No subtask has two open review rounds on one digest.
abbrev pub SingleRounds : Store → Type 0
SingleRounds s = (k d : ℕ) → count (open_round k d) s.reviews ≤ 1

-- And the round that a request opens is not open yet.
abbrev Free : ℕ → ℕ → Store → Type 0
Free k d s = SingleRounds s × (count (open_round k d) s.reviews ≡ 0)

asked :
    (k d : ℕ)
    → Triple SingleRounds
        (gets (λ s. exists_row (open_round k d) s.reviews))
        (λ b s. SingleRounds s × (exists_row (open_round k d) s.reviews ≡ b))
        SingleRounds
asked k d = Triple-gets _ (λ s h. (h, refl))

refused :
    (k d : ℕ) (existing : Bool)
    → Triple
        (λ s. SingleRounds s × (exists_row (open_round k d) s.reviews ≡ existing))
        (guard (not existing) (review_already_open k d))
        (λ _ s. Free k d s)
        SingleRounds
refused k d true = Triple-guard _ _ (λ s h e. absurd (cc)) (λ s h. h.0)
refused k d false =
    Triple-guard _ _ (λ s h e. (h.0, count-of_exists_row (open_round k d) s.reviews h.1))
      (λ s h. h.0)

open_rounds_refused :
    (k d : ℕ)
    → Triple SingleRounds (ensure_no_open_review_round k d) (λ _ s. Free k d s) SingleRounds
unfolding ensure_no_open_review_round
open_rounds_refused k d = Triple-bind _ _ (asked k d) λ existing. refused k d existing

still :
    {A : Type 0} (k d : ℕ) (m : Tx A)
    → Keeps (Free k d) m
    → Triple (Free k d) m (λ _ s. Free k d s) SingleRounds
still k d m h = Triple-weaken m h (λ a s p. p) (λ s p. p.0)

round_at :
    (k d : ℕ) (a : Review) → open_round k d a ≡ true → (a.subtask_id ≡ k) × (a.artifact_digest ≡ d)
round_at k d a t = (ground arith, ground arith)

insert_round :
    (a : Review) (rows : List Review)
    → ((k d : ℕ) → count (open_round k d) rows ≤ 1)
    → count (open_round a.subtask_id a.artifact_digest) rows ≡ 0
    → (k d : ℕ) → count (open_round k d) (insert a rows) ≤ 1
insert_round a rows h z k d = elim (Bool-cases (open_round k d a)) [
  | inl t ↦
      let (p, q) = round_at k d a t in
      let none_open : count (open_round k d) rows ≡ 0 =
        subst (λ x. count (open_round x d) rows ≡ 0) p
          (subst (λ y. count (open_round a.subtask_id y) rows ≡ 0) q z) in
      ground (arith, count-insert (open_round k d) a rows, none_open, t)
  | inr t ↦ ground (arith, count-insert (open_round k d) a rows, h k d, t)
]

opens :
    (a : Review)
    → Triple
        (Free a.subtask_id a.artifact_digest)
        (insert_review a)
        (λ _ s. SingleRounds s)
        SingleRounds
unfolding insert_review
opens a = Triple-bind _ _ (still _ _ _ (search keeps_rules)) λ taken.
    Triple-bind _ _ (still _ _ _ (search keeps_rules))
      λ _. Triple-modify _ (λ s h. insert_round a s.reviews h.0 h.1)

request_review_body-keeps :
    (title_for : ℕ → ℕ) (req : RequestReviewReq) (fresh_id review_id now : ℕ)
    → Keeps SingleRounds (request_review_body title_for req fresh_id review_id now)
unfolding request_review_body check_review_request require_active_session load_session load_subtask
    load_meta_task ensure_meta_task_is_schedulable require_session_can_request_review
    require_review_policy ensure_artifact_exists ensure_subtask_transition insert_review_subtask
    subtask_exists insert_fence_counter mark_review_pending update_subtasks append_session_event
    append_event
request_review_body-keeps title_for req fresh_id review_id now =
    Keeps-then _ _ (search keeps_rules depth 30) λ subtask.
      Triple-bind _ _ (open_rounds_refused req.subtask_id req.artifact_digest) λ _.
        Triple-bind _ _ (still _ _ _ (search keeps_rules)) λ _.
          Triple-bind _ _ (still _ _ _ (search (keeps_rules, Keeps-modify) depth 20)) λ _.
            Triple-bind _ _ (opens (new_review req review_id _ now))
              λ _. search (keeps_rules, Keeps-modify) depth 20

-- Requesting a review never leaves a subtask with two open rounds on one digest, from a store where
-- none has: not when it succeeds, fails or repeats a key.
pub request_review-SingleRounds :
    (codec : Codec ℕ) (m : Mutation) (title_for : ℕ → ℕ) (req : RequestReviewReq)
    (fresh_id review_id now : ℕ) (s : Store)
    → SingleRounds s
    → SingleRounds (after (request_review codec m title_for req fresh_id review_id now s))
unfolding request_review
request_review-SingleRounds codec m title_for req fresh_id review_id now s h =
    Keeps-after (request_review codec m title_for req fresh_id review_id now) s
      (Keeps-with_write_tx _ (
        Keeps-with_idempotent_mutation {P = SingleRounds} codec m now _ (λ rows t k. k)
          (request_review_body-keeps title_for req fresh_id review_id now)))
      h
