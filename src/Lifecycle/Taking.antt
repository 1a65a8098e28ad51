-- ===== src/Lifecycle/Taking.antt =====
-- What `claim_next_for_route` of src/ops/workflow/lifecycle.rs hands out.
use covey.Common.{
  ℕ, ◌≡◌, refl, sym, subst, Option, none, some, find, find-some_holds, eq_of_==, Bool-cases, inl,
  inr,
}
use covey.Model.State.{SubtaskKind, SubtaskState}
use covey.Model.Errors.{CoveyError, subtask_not_found}
use covey.Model.Rows.{Store, Session, Subtask}
use covey.Txn.{Tx, Out, ok, err, pure, or_fail, gets, on_some, ◌>>=◌}
use covey.Txn.Triples.{
  Triple, Keeps, Post, Triple-bind, Triple-given, Triple-weaken, Triple-from, Triple-pure,
  Keeps-then,
}
use covey.Validators.{has_subtask_id, load_subtask}
use covey.Lifecycle.Claiming.{ClaimResult, check_claimable, claim_selected_subtask}
use covey.Lifecycle.Selecting.{ordered_claim_candidate}
use covey.Lifecycle.Selecting.Fair.{Next, ordered_claim_candidate-Next}
use covey.Lifecycle.ClaimingNext.{
  ClaimNextReq, is_lost_claim, caught, claim_or_none, claim_candidate,
}

abbrev Anything : Store → Type 0
Anything s = Unit {0}

-- Nothing is asked, so every action leaves it.
whatever : {A : Type 0} (r : Out A) → Post (λ _ s. Anything s) Anything r
whatever (ok a s) = tt
whatever (err e s) = tt

any : {A : Type 0} (m : Tx A) → Keeps Anything m
any m = record { at = λ s h. whatever (m s) }

found_row :
    (id : ℕ) (s : Store) (o : Option Subtask) (e : CoveyError)
    → ((r : Subtask) → o ≡ some r → r.subtask_id ≡ id)
    → Post (λ r _. r.subtask_id ≡ id) Anything (or_fail o e s)
unfolding or_fail
found_row id s none e h = tt
found_row id s (some r) e h = h r refl

loaded : (id : ℕ) → Triple Anything (load_subtask id) (λ r _. r.subtask_id ≡ id) Anything
unfolding load_subtask gets ◌>>=◌
loaded id = record {
  at = λ s h.
      found_row id s (find (has_subtask_id id) s.subtasks) subtask_not_found
        (λ r e. eq_of_== r.subtask_id id (find-some_holds (has_subtask_id id) s.subtasks e));
}

-- A fact about a value outlasts the actions that follow.
outlasts :
    {A : Type 0} {K : Type 0} (m : Tx A) → K → Triple Anything m (λ _ s. K × Anything s) Anything
outlasts m k = Triple-weaken m (any m) (λ a s h. (k, h)) (λ s h. h)

checked :
    (session : Session) (id : ℕ)
    → Triple Anything (check_claimable session id) (λ r _. r.subtask_id ≡ id) Anything
unfolding check_claimable
checked session id = Triple-bind _ _ (loaded id) λ r.
    Triple-from _ (λ s h. (h, tt))
      (Triple-given _ λ e. Keeps-then _ _ (any _) λ _. Keeps-then _ _ (any _) λ _.
        Keeps-then _ _ (any _) λ _. Keeps-then _ _ (any _) λ _.
          Keeps-then _ _ (any _)
            λ _. Keeps-then _ _ (any _) λ _. Keeps-then _ _ (any _) λ _. Triple-pure r (λ s h. e))

claimed_id :
    (session : Session) (token id lease claim_id lease_now now : ℕ)
    → Triple Anything
        (claim_selected_subtask session token id lease claim_id lease_now now)
        (λ c _. c.subtask_id ≡ id)
        Anything
unfolding claim_selected_subtask
claimed_id session token id lease claim_id lease_now now = Keeps-then _ _ (any _) λ _.
    Triple-bind _ _ (checked session id) λ r.
      Triple-from _ (λ s h. (h, tt))
        (Triple-given _ λ e. Keeps-then _ _ (any _) λ _. Keeps-then _ _ (any _) λ _.
          Keeps-then _ _ (any _)
            λ _. Keeps-then _ _ (any _) λ _. Keeps-then _ _ (any _) λ _. Triple-pure _ (λ s h. e))

-- What a claim that is handed out says of the subtask.
abbrev Names : ℕ → Option ClaimResult → Type 0
Names id none = Unit {0}
Names id (some c) = c.subtask_id ≡ id

caught-Names :
    (id : ℕ) (r : Out ClaimResult)
    → Post (λ c _. c.subtask_id ≡ id) Anything r
    → Post (λ c _. Names id c) Anything (caught r)
unfolding caught
caught-Names id (ok c s) h = h
caught-Names id (err e s) h = elim (Bool-cases (is_lost_claim e)) [
  | inl t ↦ rw t tt
  | inr t ↦ rw t tt
]

or_none :
    (id : ℕ) (m : Tx ClaimResult)
    → Triple Anything m (λ c _. c.subtask_id ≡ id) Anything
    → Triple Anything (claim_or_none m) (λ c _. Names id c) Anything
unfolding claim_or_none
or_none id m h = record { at = λ s k. caught-Names id (m s) (h.at s tt) }

of_candidate :
    (o : Option Subtask) (f : Subtask → Tx (Option ClaimResult)) (s : Store) {s' : Store}
    {claim : ClaimResult}
    → ((r : Subtask) → Triple Anything (f r) (λ c _. Names r.subtask_id c) Anything)
    → on_some o (pure none) f s ≡ ok (some claim) s'
    → (r : Subtask) × ((o ≡ some r) × (claim.subtask_id ≡ r.subtask_id))
unfolding on_some pure
of_candidate none f s h e = cc
of_candidate (some r) f s h e =
    (r, (refl, subst (Post (λ c _. Names r.subtask_id c) Anything) e ((h r).at s tt)))

-- A claim that is handed out is of a subtask that was the next of its kind in the store: a row with
-- the route that is asked for, available, of an open meta-task in the scope and, for work, with every
-- dependency satisfied or repaired, where no such row is ordered before it.
pub claim_candidate-Next :
    (session : Session) (req : ClaimNextReq) (kind : SubtaskKind) (claim_id lease_now now : ℕ)
    → (s : Store) {s' : Store} {claim : ClaimResult}
    → claim_candidate session req kind claim_id lease_now now s ≡ ok (some claim) s'
    → (r : Subtask) × ((r.subtask_id ≡ claim.subtask_id)
        × Next kind s SubtaskState.available req.routing_key req.meta_task_id now r)
unfolding claim_candidate gets ◌>>=◌
claim_candidate-Next session req kind claim_id lease_now now s e =
    let (r, (o, i)) =
      of_candidate
        (ordered_claim_candidate kind SubtaskState.available req.routing_key req.meta_task_id now s)
        _ s
        (λ r. or_none r.subtask_id _ (
          claimed_id session req.session_token r.subtask_id req.lease_duration_ms claim_id lease_now
            now))
        e in
    (
      r,
      (
        sym i,
        ordered_claim_candidate-Next kind SubtaskState.available req.routing_key req.meta_task_id
            now s o,
      ),
    )
