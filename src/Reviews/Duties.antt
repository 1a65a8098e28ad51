-- ===== src/Reviews/Duties.antt =====
-- Who decides a review in src/ops/workflow/artifact_review.rs.
use covey.Common.{ℕ, ◌≡◌, not, Option, none, some, ◌==◌, find, subst, arith, List, ap, ◌∙◌, sym}
use covey.Model.Errors.{CoveyError}
use covey.Model.State.{SessionRole}
use covey.Model.Rows.{Store, Session, Artifact, Review}
use covey.Txn.{Tx, Out, ok, err, pure, guard, gets, or_fail, ◌>>=◌}
use covey.Txn.Triples.{
  Triple, Keeps, Post, Triple-bind, Triple-gets, Triple-given, Triple-weaken, Triple-guard,
  keeps_rules,
}
use covey.Validators.{
  has_token, load_session, load_claim, load_subtask, load_meta_task, require_active_session,
  require_current_claim, require_role, ensure_meta_task_is_schedulable,
  require_session_can_claim_kind,
}
use covey.Lifecycle.Following.{Repairs}
use covey.Reviews.Publishing.{has_digest}
use covey.Reviews.Enqueuing.{load_artifact}
use covey.Reviews.Deciding.{
  DecideReviewReq, ReviewDecisionResult, has_review_id, load_review, check_decision,
  ensure_separation_of_duties, decide_review_body,
}

-- The action fails or its result has `K`.
abbrev Gives : {A : Type 0} → (Store → Type 0) → Tx A → (A → Type 0) → Type 0
Gives P m K = Triple P m (λ a s. K a × P s) (λ s. Unit)

module _ {A : Type 0} {K : Type 0} where
  left : K → (r : Out A) → Post (λ _ s. K) (λ s. Unit) r
  left k (ok a s) = k
  left k (err e s) = tt

  -- A fact that does not mention the store outlives every action.
  stays : (m : Tx A) → Triple (λ s. K) m (λ _ s. K) (λ s. Unit)
  stays m = record { at = λ s k. left k (m s) }

module _ {A : Type 0} {P : Store → Type 0} where
  passes : (m : Tx A) → Keeps P m → Triple P m (λ _ s. P s) (λ s. Unit)
  passes m h = Triple-weaken m h (λ a s p. p) (λ s p. tt)

  found_is :
      (x : A) (o : Option A) (e : CoveyError) → o ≡ some x → Gives P (or_fail o e) (λ a. a ≡ x)
  unfolding or_fail
  found_is x none e h = record { at = λ s p. tt }
  found_is x (some a) e h = record { at = λ s p. (cc, p) }

  loads :
      (x : A) (look : Store → Option A) (e : CoveyError)
      → ((s : Store) → P s → look s ≡ some x)
      → Gives P (gets look >>= (λ o. or_fail o e)) (λ a. a ≡ x)
  loads x look e h =
      Triple-bind _ _
        (Triple-gets {E = λ s. Unit} {Q = λ o s. (o ≡ some x) × P s} look (λ s p. (h s p, p)))
        λ o. Triple-given _ λ k. found_is x o e k

-- The rows that a decision reads: the review, its artifact, the session that produced it and the
-- session that decides.
abbrev Rows : DecideReviewReq → Review → Artifact → Session → Session → Store → Type 0
Rows req review artifact producer session s =
    (find (has_review_id req.review_id) s.reviews ≡ some review)
    × ((find (has_digest review.artifact_digest) s.artifacts ≡ some artifact)
        × ((find (has_token artifact.produced_by_session) s.sessions ≡ some producer)
            × (find (has_token req.session_token) s.sessions ≡ some session)))

module _ (req : DecideReviewReq) (review : Review) (artifact : Artifact)
    (producer session : Session) where
  abbrev At : Store → Type 0
  At s = Rows req review artifact producer session s

  abbrev Apart : Type 0
  Apart = ¬ (producer.agent_principal_id ≡ session.agent_principal_id)

  kept :
      {A : Type 0} {B : Type 0} {Q : A → Store → Type 0} (m : Tx B) (f : B → Tx A)
      → Keeps At m
      → ((b : B) → Triple At (f b) Q (λ s. Unit))
      → Triple At (m >>= f) Q (λ s. Unit)
  kept m f h k = Triple-bind _ _ (passes m h) k

  given :
      {A : Type 0} {B : Type 0} {Q : A → Store → Type 0} {K : B → Type 0} (m : Tx B) (f : B → Tx A)
      → Gives At m K
      → ((b : B) → K b → Triple At (f b) Q (λ s. Unit))
      → Triple At (m >>= f) Q (λ s. Unit)
  given m f h k = Triple-bind _ _ h λ b. Triple-given _ (k b)

  returns : {A : Type 0} {K : A → Type 0} (a : A) → K a → Gives At (pure a) K
  unfolding pure
  returns a k = record { at = λ s p. (k, p) }

  role_session :
      (roles : List SessionRole)
      → Gives At (require_role req.session_token roles) (λ a. a ≡ session)
  unfolding require_role require_active_session load_session
  role_session roles =
      given _ _
        (given _ _ (loads session _ _ (λ s p. p.1.1.1))
          λ a k. kept _ _ (search keeps_rules) λ _. returns a k)
        λ a k. kept _ _ (search keeps_rules) λ _. returns a k

  differ :
      (p q : ℕ) (e : CoveyError) → Triple At (guard (not (p == q)) e) (λ _ s. ¬ (p ≡ q)) (λ s. Unit)
  differ p q e = Triple-guard _ _ (λ s h t k. ground (arith, t, k)) (λ s h. tt)

  separated :
      (a : Session) (r : Review)
      → a ≡ session
      → r ≡ review
      → Triple At (ensure_separation_of_duties a r) (λ _ s. Apart) (λ s. Unit)
  unfolding ensure_separation_of_duties load_artifact load_session
  separated a r p q =
      given _ _
        (loads artifact _ _
          (λ s h. ap (λ x. find (has_digest x.artifact_digest) s.artifacts) q ∙ h.1.0))
        λ b k.
          given _ _
            (loads producer _ _
              (λ s h. ap (λ x. find (has_token x.produced_by_session) s.sessions) k ∙ h.1.1.0))
            λ c l.
              Triple-weaken _ (differ c.agent_principal_id a.agent_principal_id _)
                (λ u s n e.
                  n (ap (λ x. x.agent_principal_id) l ∙ e ∙ sym (ap (λ x. x.agent_principal_id) p)))
                (λ s u. tt)

  checked : (lease_now : ℕ) → Triple At (check_decision req lease_now) (λ _ s. Apart) (λ s. Unit)
  unfolding check_decision require_current_claim require_active_session load_session load_claim
      load_subtask load_meta_task ensure_meta_task_is_schedulable require_session_can_claim_kind
      load_review
  checked lease_now = given _ _ (role_session _) λ a p.
      kept _ _ (search keeps_rules depth 20) λ claim.
        given _ _ (loads review _ _ (λ s h. h.0)) λ r q. kept _ _ (search keeps_rules) λ _.
          kept _ _ (search keeps_rules) λ under_review.
            kept _ _ (search keeps_rules) λ _.
              kept _ _ (search keeps_rules) λ _. Triple-bind _ _ (separated a r p q) λ _. stays _

  decided :
      (repairs : Repairs) (queue_id lease_now now : ℕ)
      → Triple At (decide_review_body repairs req queue_id lease_now now) (λ _ s. Apart) (λ s. Unit)
  unfolding decide_review_body
  decided repairs queue_id lease_now now = Triple-bind _ _ (checked lease_now) λ found. stays _

-- Separation of duties: a review that is decided, whatever the verdict, was decided by another
-- principal than the one whose session produced the artifact.
pub decide_review_body_separates :
    (repairs : Repairs) (req : DecideReviewReq) (queue_id lease_now now : ℕ) (s : Store)
    {s' : Store} {decision : ReviewDecisionResult} {review : Review} {artifact : Artifact}
    {producer session : Session}
    → find (has_review_id req.review_id) s.reviews ≡ some review
    → find (has_digest review.artifact_digest) s.artifacts ≡ some artifact
    → find (has_token artifact.produced_by_session) s.sessions ≡ some producer
    → find (has_token req.session_token) s.sessions ≡ some session
    → decide_review_body repairs req queue_id lease_now now s ≡ ok decision s'
    → ¬ (producer.agent_principal_id ≡ session.agent_principal_id)
decide_review_body_separates repairs req queue_id lease_now now s {s'} {decision} {review}
      {artifact} {producer} {session} r a p q e =
    subst (Post (λ _ t. ¬ (producer.agent_principal_id ≡ session.agent_principal_id)) (λ t. Unit)) e
      ((decided req review artifact producer session repairs queue_id lease_now now).at s
        (r, (a, (p, q))))
