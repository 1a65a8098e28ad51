-- ===== src/Witnesses/Reviewing.antt =====
-- The theorems on artifacts and review rounds at concrete stores.
use mathlib.Core.Bool.{decide}
use covey.Common.{◌≡◌, refl, none, some, [], ◌∷◌, find, count, select, update_where, arith}
use covey.Model.State.{
  CompletionPolicy, ArtifactKind, SubtaskState, SubtaskState-discrete, SessionRole-discrete,
}
use covey.Model.Rows.{Store, Artifact, Operation}
use covey.Txn.{ok, after, ◌>>=◌, fail, gets, guard, modify, on_some, or_fail, pure}
use covey.Validators.{
  require_active_session, load_session, load_subtask, ensure_meta_task_is_schedulable,
  load_meta_task, require_session_can_claim_kind, require_current_claim, load_claim,
}
use covey.Validators.Transitions.{ensure_subtask_transition, subtask_edge}
use covey.Lifecycle.Statements.{update_subtasks}
use covey.Reviews.Publishing.{
  PublishArtifactReq, has_digest, publish_artifact, publish_artifact_body, check_publication,
  publish_again, move_to_existing, mark_published, ensure_artifact_allowed_for_policy,
  policy_allows,
}
use covey.Reviews.Requesting.{RequestReviewReq, request_review}
use covey.Reviews.Rounds.{SingleRounds, publish_artifact_immutable, request_review-SingleRounds}
use covey.Reviews.Republished.{publish_artifact_body_again}
use covey.Witnesses.Data.{codecs, key, working, working_store}

abbrev pub bundle : Artifact
bundle = record {
  artifact_digest = 70;
  artifact_kind = ArtifactKind.patch_bundle;
  base_rev = 8;
  produced_by_subtask_id = 20;
  produced_by_session = 2;
  manifest_path = 9;
  changed_paths_digest = 11;
  created_at = 100;
}

-- Subtask 20 is to be applied, and its artifact 70 is already published.
abbrev pub published_store : Store
published_store = record working_store {
  subtasks = record working { completion_policy = CompletionPolicy.canonical_apply } ∷ [];
  artifacts = bundle ∷ [];
}

abbrev publish_req : PublishArtifactReq
publish_req = record {
  session_token = 2;
  claim_id = 30;
  fence_seq = 1;
  artifact_digest = 70;
  artifact_kind = ArtifactKind.patch_bundle;
  base_rev = 8;
  manifest_path = 9;
  changed_paths_digest = 11;
}

abbrev republished_store : Store
republished_store = after (publish_artifact_body publish_req 200 200 published_store)

publishes_again :
    publish_artifact_body publish_req 200 200 published_store ≡ ok tt republished_store
unfolding publish_artifact_body check_publication publish_again move_to_existing mark_published
    ensure_artifact_allowed_for_policy policy_allows require_active_session load_session
    load_subtask ensure_meta_task_is_schedulable load_meta_task require_session_can_claim_kind
    require_current_claim load_claim ensure_subtask_transition subtask_edge update_subtasks ◌>>=◌
    fail gets guard modify on_some or_fail pure find count select update_where SubtaskState-discrete
    SessionRole-discrete decide
publishes_again = refl

publish_artifact_body_again_example : republished_store.events ≡ []
unfolding find
publish_artifact_body_again_example =
    publish_artifact_body_again publish_req 200 200 published_store {a = bundle} refl
      publishes_again

publish_artifact_immutable_example :
    find
      (has_digest 70)
      (after (
        publish_artifact codecs.of_unit
          (key Operation.publish_artifact 3)
          publish_req
          200
          published_store)).artifacts
    ≡ some bundle
unfolding find
publish_artifact_immutable_example =
    publish_artifact_immutable codecs.of_unit (key Operation.publish_artifact 3) publish_req 200
      published_store 70 refl

-- The artifact of subtask 20 is published, and no review is asked for yet.
abbrev reviewable_store : Store
reviewable_store = record published_store {
  subtasks =
      record working {
        completion_policy = CompletionPolicy.canonical_apply;
        state = SubtaskState.artifact_published;
        artifact_digest = some 70;
      }
      ∷ [];
}

abbrev review_req : RequestReviewReq
review_req = record {
  session_token = 2;
  subtask_id = 20;
  artifact_digest = 70;
  review_subtask_id = none;
  priority = 1;
}

none_open : SingleRounds reviewable_store
unfolding count
none_open k d = omega arith

request_review-SingleRounds_example : SingleRounds (
    after (
      request_review codecs.of_id
        (key Operation.request_review 4)
        (λ d. d)
        review_req
        21
        40
        200
        reviewable_store))
request_review-SingleRounds_example =
    request_review-SingleRounds codecs.of_id (key Operation.request_review 4) (λ d. d) review_req 21
      40 200 reviewable_store none_open
