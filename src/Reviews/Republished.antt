-- ===== src/Reviews/Republished.antt =====
-- What `publish_artifact` of src/ops/workflow/artifact_review.rs logs.
use covey.Common.{ℕ, ◌≡◌, refl, subst, List, Option, none, some, find}
use covey.Model.Rows.{Store, Artifact, Subtask, Event}
use covey.Txn.{Tx, ok, gets, on_some}
use covey.Txn.Triples.{
  Triple, Keeps, Post, Triple-bind, Triple-gets, Triple-given, Triple-weaken, Keeps-modify,
  keeps_rules,
}
use covey.Validators.{
  load_session, load_claim, load_subtask, load_meta_task, require_active_session,
  require_current_claim, ensure_meta_task_is_schedulable, require_session_can_claim_kind,
}
use covey.Validators.Transitions.{ensure_subtask_transition}
use covey.Lifecycle.Statements.{update_subtasks}
use covey.Reviews.Publishing.{
  PublishArtifactReq, has_digest, check_publication, publish_new, publish_again, move_to_existing,
  mark_published, publish_artifact_body, ensure_artifact_allowed_for_policy,
}

-- The digest is published, and the log is this one.
abbrev Before : ℕ → Artifact → List Event → Store → Type 0
Before digest a log s = (find (has_digest digest) s.artifacts ≡ some a) × (s.events ≡ log)

silent :
    {A : Type 0} (digest : ℕ) (a : Artifact) (log : List Event) (m : Tx A)
    → Keeps (Before digest a log) m
    → Triple (Before digest a log) m (λ _ s. Before digest a log s) (λ s. s.events ≡ log)
silent digest a log m h = Triple-weaken m h (λ x s p. p) (λ s p. p.1)

looked_up :
    (digest : ℕ) (a : Artifact) (log : List Event)
    → Triple
        (Before digest a log)
        (gets (λ s. find (has_digest digest) s.artifacts))
        (λ existing s. (existing ≡ some a) × (s.events ≡ log))
        (λ s. s.events ≡ log)
looked_up digest a log = Triple-gets _ (λ s h. h)

again_silent :
    (log : List Event) (req : PublishArtifactReq) (subtask : Subtask) (a : Artifact) (now : ℕ)
    → Keeps (λ s. s.events ≡ log) (publish_again req subtask a now)
unfolding publish_again move_to_existing mark_published update_subtasks ensure_subtask_transition
again_silent log req subtask a now = search (keeps_rules, Keeps-modify) depth 20

from_found :
    (log : List Event) (req : PublishArtifactReq) (subtask : Subtask) (a : Artifact) (now : ℕ)
    (existing : Option Artifact)
    → existing ≡ some a
    → Keeps
        (λ s. s.events ≡ log)
        (on_some existing (publish_new req subtask now) (λ b. publish_again req subtask b now))
unfolding on_some
from_found log req subtask a now none k = cc
from_found log req subtask a now (some b) k = again_silent log req subtask b now

logs_nothing :
    (a : Artifact) (log : List Event) (req : PublishArtifactReq) (lease_now now : ℕ)
    → Triple
        (Before req.artifact_digest a log)
        (publish_artifact_body req lease_now now)
        (λ _ s. s.events ≡ log)
        (λ s. s.events ≡ log)
unfolding publish_artifact_body check_publication require_current_claim require_active_session
    load_session load_claim load_subtask load_meta_task ensure_meta_task_is_schedulable
    require_session_can_claim_kind ensure_artifact_allowed_for_policy
logs_nothing a log req lease_now now =
    Triple-bind _ _ (silent req.artifact_digest a log _ (search keeps_rules depth 30)) λ subtask.
      Triple-bind _ _ (looked_up req.artifact_digest a log)
        λ existing. Triple-given _ λ k. from_found log req subtask a now existing k

-- A publication of a digest that is published already appends no event, also when it succeeds.
pub publish_artifact_body_again :
    (req : PublishArtifactReq) (lease_now now : ℕ) (s : Store) {s' : Store} {u : Unit {0}}
    {a : Artifact}
    → find (has_digest req.artifact_digest) s.artifacts ≡ some a
    → publish_artifact_body req lease_now now s ≡ ok u s'
    → s'.events ≡ s.events
publish_artifact_body_again req lease_now now s {s'} {u} {a} h e =
    subst (Post (λ _ t. t.events ≡ s.events) (λ t. t.events ≡ s.events)) e
      ((logs_nothing a s.events req lease_now now).at s (h, refl))
