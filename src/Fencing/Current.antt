-- ===== src/Fencing/Current.antt =====
-- What `require_current_claim` has checked when it returns, and the operations that begin with it.
use covey.Common.{
  ℕ, ◌<◌, ◌≡◌, refl, Bool, true, Option, some, subst, find, none, sym, ap, ◌∙◌, eq_of_==, lt_of_ltb,
  find-some_holds,
}
use covey.Model.State.{is_active, is_held}
use covey.Model.Errors.{CoveyError}
use covey.Model.Rows.{Store, Session, Claim, EventType, AttemptOutcome}
use covey.Txn.{Tx, Out, ok, err, ◌>>=◌, gets, guard, or_fail}
use covey.Txn.Triples.{Post, Triple, Triple-bind, Triple-pure, Triple-guard, Triple-given}
use covey.Validators.{
  has_token, has_claim_id, load_session, load_claim, require_active_session, require_current_claim,
}
use covey.Lifecycle.Holding.{ClaimRef, release_claim_body}
use covey.Lifecycle.Completing.{OutcomeInput, record_direct_outcome_tx}

-- The store has the claim, held with this fence by an active session with this token, and its lease
-- runs beyond `lease_now`.
pub record Current (token claim_id fence_seq lease_now : ℕ) (s : Store) : Type 0 where
  pub owner : Session
  pub owner_found : find (has_token token) s.sessions ≡ some owner
  pub owner_active : is_active owner.state ≡ true
  pub claim : Claim
  pub claim_found : find (has_claim_id claim_id) s.claims ≡ some claim
  pub claim_owner : claim.owner_session_token ≡ token
  pub claim_fence : claim.fence_seq ≡ fence_seq
  pub claim_held : is_held claim.state ≡ true
  pub lease_live : lease_now < claim.lease_deadline

-- A store with no more known of it than that it is this one.
abbrev pub Only : Store → Store → Type 0
Only s0 s = s ≡ s0

abbrev pub Any : Store → Type 0
Any s = Unit {0}

module _ {A : Type 0} {s0 : Store} where
  -- A row that a query finds in this store.
  found :
      (f : Store → Option A) (e : CoveyError)
      → Triple (Only s0) (gets f >>= λ row. or_fail row e) (λ a s. (f s0 ≡ some a) × Only s0 s) Any
  unfolding gets or_fail ◌>>=◌
  found f e = record { at = λ s p. hit s p (f s) refl }
    where
      hit :
          (s : Store)
          → Only s0 s
          → (o : Option A) → f s ≡ o
          → Post (λ a s'. (f s0 ≡ some a) × Only s0 s') Any ((gets f >>= λ row. or_fail row e) s)
      hit s p none q = rw q tt
      hit s p (some a) q = rw q (sym (ap f p) ∙ q, p)

module _ {P : Type 0} {s0 : Store} where
  -- A guard adds what it has tested to what is known.
  checked :
      (b : Bool) (e : CoveyError)
      → Triple (λ s. P × Only s0 s) (guard b e) (λ _ s. (P × (b ≡ true)) × Only s0 s) Any
  checked b e = Triple-guard b e (λ s p h. ((p.0, h), p.1)) (λ s p. tt)

module _ {s0 : Store} where
  active_session :
      (token : ℕ)
      → Triple
          (Only s0)
          (require_active_session token)
          (λ r s.
            ((find (has_token token) s0.sessions ≡ some r) × (is_active r.state ≡ true))
            × Only s0 s)
          Any
  unfolding require_active_session load_session
  active_session token =
      Triple-bind _ _ (found _ _) λ r. Triple-bind _ _ (checked _ _) λ _. Triple-pure r (λ s p. p)

  pub require_current_claim-Current :
      (token claim_id fence_seq lease_now : ℕ)
      → Triple
          (Only s0)
          (require_current_claim token claim_id fence_seq lease_now)
          (λ claim s.
            (Current token claim_id fence_seq lease_now s0
              × (find (has_claim_id claim_id) s0.claims ≡ some claim))
            × Only s0 s)
          Any
  unfolding require_current_claim load_claim
  require_current_claim-Current token claim_id fence_seq lease_now =
      Triple-bind _ _ (active_session token) λ owner. Triple-given _ λ k.
        Triple-bind _ _ (found _ _) λ claim. Triple-bind _ _ (checked _ _) λ _.
          Triple-bind _ _ (checked _ _) λ _. Triple-bind _ _ (checked _ _) λ _.
            Triple-bind _ _ (checked _ _) λ _. Triple-pure claim λ s p. (
              (
                record {
                  owner = owner;
                  owner_found = k.0;
                  owner_active = k.1;
                  claim = claim;
                  claim_found = p.0.0.0.0.0;
                  claim_owner =
                      eq_of_== _ _ p.0.0.0.0.1
                      ∙ eq_of_== _ _ (find-some_holds (has_token token) s0.sessions k.0);
                  claim_fence = eq_of_== _ _ p.0.0.0.1;
                  claim_held = p.0.0.1;
                  lease_live = lt_of_ltb _ _ p.0.1;
                },
                p.0.0.0.0.0,
              ),
              p.1,
            )

begins-Current :
    {A : Type 0} (s0 : Store) (token claim_id fence_seq lease_now : ℕ) (f : Claim → Tx A)
    → Post
        (λ _ _. Current token claim_id fence_seq lease_now s0)
        Any
        ((require_current_claim token claim_id fence_seq lease_now >>= f) s0)
begins-Current {A} s0 token claim_id fence_seq lease_now f =
    (Triple-bind _ f (require_current_claim-Current token claim_id fence_seq lease_now)
        (λ claim. Triple-given _ λ k. anything (f claim) k.0)).at
      s0 refl
  where
    settled :
        (o : Out A)
        → Current token claim_id fence_seq lease_now s0
        → Post (λ _ _. Current token claim_id fence_seq lease_now s0) Any o
    settled (ok a s) k = k
    settled (err e s) k = tt

    anything :
        (m : Tx A)
        → Current token claim_id fence_seq lease_now s0
        → Triple (Only s0) m (λ _ _. Current token claim_id fence_seq lease_now s0) Any
    anything m k = record { at = λ s p. settled (m s) k }

-- A direct outcome is recorded only on a current claim: one that the store holds, with the fence
-- that the request presents, for an active session with the token that it presents, and whose lease
-- runs beyond the lease clock.
pub record_direct_outcome-Current :
    (ty : EventType) (input : OutcomeInput) (lease_now now : ℕ) (s s' : Store)
    (result : AttemptOutcome)
    → record_direct_outcome_tx ty input lease_now now s ≡ ok result s'
    → Current input.session_token input.claim_id input.fence_seq lease_now s
unfolding record_direct_outcome_tx
record_direct_outcome-Current ty input lease_now now s s' result e =
    subst (Post (λ _ _. Current input.session_token input.claim_id input.fence_seq lease_now s) Any)
      e (begins-Current s input.session_token input.claim_id input.fence_seq lease_now _)

-- A claim is released by request only while it is current, in the same sense.
pub release_claim-Current :
    (req : ClaimRef) (lease_now now : ℕ) (s s' : Store) (u : Unit {0})
    → release_claim_body req lease_now now s ≡ ok u s'
    → Current req.session_token req.claim_id req.fence_seq lease_now s
unfolding release_claim_body
release_claim-Current req lease_now now s s' u e =
    subst (Post (λ _ _. Current req.session_token req.claim_id req.fence_seq lease_now s) Any) e
      (begins-Current s req.session_token req.claim_id req.fence_seq lease_now _)
