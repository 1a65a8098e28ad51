-- ===== src/Reviews/Publishing.antt =====
-- `publish_artifact` of src/ops/workflow/artifact_review.rs.
use covey.Common.{
  ℕ, Bool, true, false, not, ◌&&◌, some, if◌then◌else◌, ◌==◌, is_key, find, exists_row, insert,
}
use covey.Model.State.{
  ObjectType, SubtaskState, CompletionPolicy, ArtifactKind, ReviewState, is_work, is_state,
}
use covey.Model.Errors.{
  subtask_state, illegal_transition, review_kind_mismatch, completion_policy_violation,
  artifact_digest_collision, PolicyOperation,
}
use covey.Model.Rows.{Subtask, Artifact, artifact_published}
use covey.Txn.{
  Tx, pure, guard, gets, modify, on_some, ◌>>=◌, ◌>>◌, with_write_tx, advance_lease_clock,
  append_session_event,
}
use covey.Txn.Idempotent.{Codec, Mutation, with_idempotent_mutation}
use covey.Validators.Transitions.{ensure_subtask_transition}
use covey.Validators.{
  load_subtask, require_active_session, require_current_claim, ensure_meta_task_is_schedulable,
  require_session_can_claim_kind,
}
use covey.Lifecycle.Statements.{update_subtasks, update_reviews}

pub record PublishArtifactReq : Type 0 where
  pub session_token : ℕ
  pub claim_id : ℕ
  pub fence_seq : ℕ
  pub artifact_digest : ℕ
  pub artifact_kind : ArtifactKind
  pub base_rev : ℕ
  pub manifest_path : ℕ
  pub changed_paths_digest : ℕ

unfoldable pub is_applyable_artifact_kind : ArtifactKind → Bool
is_applyable_artifact_kind ArtifactKind.patch_bundle = true
is_applyable_artifact_kind ArtifactKind.isolated_commit_ref = true
is_applyable_artifact_kind ArtifactKind.tree_bundle = true
is_applyable_artifact_kind _ = false

-- `allowed` of `ensure_artifact_allowed_for_policy`.
unfoldable pub policy_allows : CompletionPolicy → ArtifactKind → Bool
unfolding is_applyable_artifact_kind
policy_allows CompletionPolicy.direct kind = false
policy_allows CompletionPolicy.reviewed kind = not (is_applyable_artifact_kind kind)
policy_allows CompletionPolicy.canonical_apply kind = true

unfoldable pub ensure_artifact_allowed_for_policy : CompletionPolicy → ArtifactKind → Tx (Unit {0})
unfolding policy_allows
ensure_artifact_allowed_for_policy policy kind =
    guard (policy_allows policy kind)
      (completion_policy_violation (PolicyOperation.publish_artifact kind) policy)

abbrev pub has_digest : ℕ → Artifact → Bool
has_digest digest a = a.artifact_digest == digest

abbrev pub same_kind : ArtifactKind → ArtifactKind → Bool
same_kind ArtifactKind.patch_bundle ArtifactKind.patch_bundle = true
same_kind ArtifactKind.isolated_commit_ref ArtifactKind.isolated_commit_ref = true
same_kind ArtifactKind.tree_bundle ArtifactKind.tree_bundle = true
same_kind ArtifactKind.findings_bundle ArtifactKind.findings_bundle = true
same_kind ArtifactKind.verification_bundle ArtifactKind.verification_bundle = true
same_kind _ _ = false

-- The existing artifact is the one that the request describes.
abbrev pub describes : PublishArtifactReq → Subtask → Artifact → Bool
describes req subtask a =
    same_kind a.artifact_kind req.artifact_kind
    && a.base_rev == req.base_rev
    && a.produced_by_subtask_id == subtask.subtask_id
    && a.changed_paths_digest == req.changed_paths_digest

-- `UPDATE subtasks SET artifact_digest, state ... WHERE subtask_id = ?1 AND state = ?5`.
unfoldable pub mark_published : PublishArtifactReq → Subtask → ℕ → Tx ℕ
mark_published req subtask now =
    update_subtasks (λ r. r.subtask_id == subtask.subtask_id && is_state r.state subtask.state)
      (λ r. record r {
        artifact_digest = some req.artifact_digest;
        state = SubtaskState.artifact_published;
        updated_at = now;
      })

-- A transition to `artifact_published` and the update; the rows that it touches are not counted.
unfoldable pub move_to_existing : PublishArtifactReq → Subtask → ℕ → Tx (Unit {0})
unfolding mark_published
move_to_existing req subtask now = do
  ensure_subtask_transition subtask.kind subtask.state SubtaskState.artifact_published
  rows ← mark_published req subtask now
  pure tt

-- The branch for a digest that is published already. It appends no event.
unfoldable pub publish_again : PublishArtifactReq → Subtask → Artifact → ℕ → Tx (Unit {0})
unfolding move_to_existing
publish_again req subtask existing now = do
  guard (describes req subtask existing) (artifact_digest_collision req.artifact_digest)
  if is_key subtask.artifact_digest req.artifact_digest
        && is_state subtask.state SubtaskState.artifact_published
      then pure tt
      else move_to_existing req subtask now

unfoldable pub ensure_artifact_digest_unused : ℕ → Tx (Unit {0})
ensure_artifact_digest_unused digest = do
  used ← gets λ s. exists_row (has_digest digest) s.artifacts
  guard (not used) (artifact_digest_collision digest)

abbrev pub new_artifact : PublishArtifactReq → Subtask → ℕ → Artifact
new_artifact req subtask now = record {
  artifact_digest = req.artifact_digest;
  artifact_kind = req.artifact_kind;
  base_rev = req.base_rev;
  produced_by_subtask_id = subtask.subtask_id;
  produced_by_session = req.session_token;
  manifest_path = req.manifest_path;
  changed_paths_digest = req.changed_paths_digest;
  created_at = now;
}

-- `state IN ('requested', 'in_progress')`.
abbrev pub is_open_round : ReviewState → Bool
is_open_round ReviewState.requested = true
is_open_round ReviewState.in_progress = true
is_open_round _ = false

-- Open rounds of the subtask's other digests are superseded.
unfoldable pub supersede_other_rounds : ℕ → ℕ → ℕ → Tx ℕ
supersede_other_rounds subtask_id digest now =
    update_reviews
      (λ r.
        r.subtask_id == subtask_id && (not (r.artifact_digest == digest) && is_open_round r.state))
      (λ r. record r { state = ReviewState.superseded; updated_at = now })

unfoldable pub publish_new : PublishArtifactReq → Subtask → ℕ → Tx (Unit {0})
unfolding ensure_artifact_digest_unused supersede_other_rounds mark_published
publish_new req subtask now = do
  ensure_subtask_transition subtask.kind subtask.state SubtaskState.artifact_published
  ensure_artifact_digest_unused req.artifact_digest
  modify λ s. record s { artifacts = insert (new_artifact req subtask now) s.artifacts }
  superseded ← supersede_other_rounds subtask.subtask_id req.artifact_digest now
  updated ← mark_published req subtask now
  guard (updated == 1) (
      illegal_transition (subtask_state subtask.state)
        (subtask_state SubtaskState.artifact_published) ObjectType.subtask)
  append_session_event artifact_published ObjectType.artifact req.artifact_digest req.session_token
      now

-- The guards down to the look at the existing artifact.
unfoldable pub check_publication : PublishArtifactReq → ℕ → Tx Subtask
unfolding ensure_artifact_allowed_for_policy
check_publication req lease_now = do
  claim ← require_current_claim req.session_token req.claim_id req.fence_seq lease_now
  session ← require_active_session req.session_token
  subtask ← load_subtask claim.subtask_id
  ensure_meta_task_is_schedulable subtask.meta_task_id
  require_session_can_claim_kind session subtask.kind
  guard (is_work subtask.kind) review_kind_mismatch
  ensure_artifact_allowed_for_policy subtask.completion_policy req.artifact_kind
  pure subtask

unfoldable pub publish_artifact_body : PublishArtifactReq → ℕ → ℕ → Tx (Unit {0})
unfolding check_publication publish_new publish_again
publish_artifact_body req lease_now now = do
  subtask ← check_publication req lease_now
  existing ← gets λ s. find (has_digest req.artifact_digest) s.artifacts
  on_some existing (publish_new req subtask now) (λ a. publish_again req subtask a now)

unfoldable pub publish_artifact :
    Codec (Unit {0}) → Mutation → PublishArtifactReq → ℕ → Tx (Unit {0})
publish_artifact codec m req now = with_write_tx do
  lease_now ← advance_lease_clock now
  with_idempotent_mutation codec m now (publish_artifact_body req lease_now now)
