-- ===== src/Invariant/Claiming.antt =====
-- The invariant under `claim_selected_subtask_tx` of src/ops/workflow/lifecycle.rs.
use covey.Common.{
  ℕ, ◌+◌, ◌≡◌, refl, Option, none, some, arith, count, count-of_find-none, count-of_exists_row,
  Option-cases, inl, inr, find, exists_row,
}
use covey.Model.Rows.{Store, Session, Subtask, Claim}
use covey.Txn.{Tx, gets, modify, ◌>>=◌, pure, on_some}
use covey.Txn.Triples.{
  Keeps-then, Triple, Keeps, keeps_rules, Keeps-modify, Keeps-bind, Triple-bind, Triple-pure,
  Triple-fail, Triple-gets, Triple-guard, Triple-modify,
}
use covey.Validators.{held_on, has_claim_id, held_claim_owner, issue_fence_seq, next_fence}
use covey.Validators.Transitions.{ensure_subtask_transition}
use covey.Lifecycle.Claiming.{
  expire_claim, expire_claim_if_needed_for_subtask, insert_claim, check_claimable, undo_claim,
  mark_subtask_claimed, refuse_busy_session, mark_session_busy, claim_selected_subtask, ensure_idle,
  ClaimSubtaskReq, claim_subtask_body,
}
use covey.Invariant.Counts.{
  Inv, fence_is, Counts-bump_fence, Counts-select_claims, Counts-insert_claim, next_fence-bump_self,
}
use covey.Invariant.Statements.{statements_keep, update_sessions-Inv, close_claim_and_detach-Inv}

-- No claim on the subtask is held.
abbrev pub Free : ℕ → Store → Type 0
Free t s = Inv s × (count (held_on t) s.claims ≡ 0)

-- The fence was issued for the subtask, and no claim has it.
abbrev pub Issued : ℕ → ℕ → Store → Type 0
Issued t fence s =
    Free t s
    × ((count (fence_is t fence) s.claims ≡ 0) × (next_fence t s.fence_counters ≡ fence + 1))

pub expire_claim-Inv : (claim : Claim) (now : ℕ) → Keeps Inv (expire_claim claim now)
unfolding expire_claim
expire_claim-Inv claim now =
    Keeps-bind _ _ (close_claim_and_detach-Inv claim _ now refl)
      λ _. search (keeps_rules, statements_keep)

pub expire_claim_if_needed-Inv :
    (t lease_now now : ℕ) → Keeps Inv (expire_claim_if_needed_for_subtask t lease_now now)
unfolding expire_claim_if_needed_for_subtask
expire_claim_if_needed-Inv t lease_now now = search (keeps_rules, expire_claim-Inv)

owner-Free :
    (t : ℕ)
    → Triple Inv
        (held_claim_owner t)
        (λ o s. Inv s × (o ≡ none → count (held_on t) s.claims ≡ 0))
        Inv
unfolding held_claim_owner
owner-Free t = Triple-gets _ λ s v. (v, unowned s)
  where
    unowned :
        (s : Store)
        → (elim (find (held_on t) s.claims) [
          | none ↦ none
          | some claim ↦ some claim.owner_session_token
        ])
          ≡ none
        → count (held_on t) s.claims ≡ 0
    unowned s h = elim (Option-cases (find (held_on t) s.claims)) [
      | inl e ↦ count-of_find-none _ _ e
      | inr (c, e) ↦ ground (arith, h, e)
    ]

unless_held :
    (t : ℕ) (held : Option ℕ) (f : ℕ → Tx (Unit {0}))
    → ((a : ℕ) (s : Store) → Inv s → Triple Inv (f a) (λ _ s. Free t s) Inv)
    → Triple
        (λ s. Inv s × (held ≡ none → count (held_on t) s.claims ≡ 0))
        (on_some held (pure tt) f)
        (λ _ s. Free t s)
        Inv
unfolding on_some
unless_held t none f h = Triple-pure _ λ s p. (p.0, p.1 refl)
unless_held t (some a) f h = record { at = λ s p. (h a s p.0).at s p.0 }

pub check_claimable-Free :
    (session : Session) (t : ℕ) → Triple Inv (check_claimable session t) (λ _ s. Free t s) Inv
unfolding check_claimable ensure_subtask_transition
check_claimable-Free session t = Keeps-then _ _ (search statements_keep) λ subtask.
    Keeps-then _ _ (search statements_keep) λ _. Keeps-then _ _ (search statements_keep) λ _.
      Keeps-then _ _ (search keeps_rules) λ satisfied. Keeps-then _ _ (search keeps_rules) λ _.
        Triple-bind _ _ (owner-Free t) λ held.
          Triple-bind _ _ (unless_held t held _ (λ a s v. Triple-fail _ (λ _ w. w))) λ _.
            Triple-bind _ _ (Triple-guard _ _ (λ s p _. p) (λ s p. p.0))
              λ _. Triple-pure _ (λ s p. p)

pub issue_fence-Issued :
    (t : ℕ) → Triple (Free t) (issue_fence_seq t) (λ fence s. Issued t fence s) Inv
unfolding issue_fence_seq gets modify pure ◌>>=◌
issue_fence-Issued t = record {
  at = λ s p. (
    (Counts-bump_fence t p.0, p.1),
    (
      p.0.fence_issued t (next_fence t s.fence_counters) (omega arith),
      next_fence-bump_self t s.fence_counters,
    ),
  );
}

insert_claim-Inv :
    (row : Claim)
    → Triple (Issued row.subtask_id row.fence_seq) (insert_claim row) (λ _ s. Inv s) Inv
unfolding insert_claim
insert_claim-Inv row =
    Triple-bind
      {R = λ taken s.
        Issued row.subtask_id row.fence_seq s
        × (taken ≡ exists_row (has_claim_id row.claim_id) s.claims)}
      _ _ (Triple-gets _ (λ s p. (p, refl)))
      λ taken.
        Triple-bind
          {R = λ _ s.
            Issued row.subtask_id row.fence_seq s
            × (count (has_claim_id row.claim_id) s.claims ≡ 0)}
          _ _
          (Triple-guard _ _ (λ s p h. (p.0, count-of_exists_row _ _ (ground (arith, h, p.1))))
            (λ s p. p.0.0.0))
          λ _.
            Triple-modify _
              λ s p. Counts-insert_claim row p.1 p.0.0.1 p.0.1.0 (omega (arith, p.0.1.1)) p.0.0.0

undo_claim-Inv : (t c : ℕ) → Keeps Inv (undo_claim t c)
unfolding undo_claim
undo_claim-Inv t c =
    Keeps-bind _ _ (Keeps-modify _ λ s v. Counts-select_claims _ v)
      λ _. search (keeps_rules, statements_keep)

mark_subtask_claimed-Inv :
    (subtask : Subtask) (t c now : ℕ) → Keeps Inv (mark_subtask_claimed subtask t c now)
unfolding mark_subtask_claimed
mark_subtask_claimed-Inv subtask t c now = search (keeps_rules, statements_keep, undo_claim-Inv)

mark_session_busy-Inv :
    (subtask : Subtask) (token t now : ℕ) → Keeps Inv (mark_session_busy subtask token t now)
unfolding mark_session_busy refuse_busy_session
mark_session_busy-Inv subtask token t now =
    Keeps-bind _ _ (update_sessions-Inv _ _ (λ r. refl) (λ r k h. h))
      λ updated. search (keeps_rules, statements_keep)

pub claim_selected_subtask-Inv :
    (session : Session) (token t lease claim lease_now now : ℕ)
    → Keeps Inv (claim_selected_subtask session token t lease claim lease_now now)
unfolding claim_selected_subtask
claim_selected_subtask-Inv session token t lease claim lease_now now =
    Keeps-bind _ _ (expire_claim_if_needed-Inv t lease_now now) λ _.
      Triple-bind _ _ (check_claimable-Free session t) λ subtask.
        Triple-bind _ _ (issue_fence-Issued t) λ fence_seq.
          Triple-bind _ _ (insert_claim-Inv _) λ _.
            search (keeps_rules, statements_keep, mark_subtask_claimed-Inv, mark_session_busy-Inv)

pub ensure_idle-Inv : (session : Session) → Keeps Inv (ensure_idle session)
unfolding ensure_idle
ensure_idle-Inv session = search keeps_rules

pub claim_subtask_body-Inv :
    (req : ClaimSubtaskReq) (claim lease_now now : ℕ)
    → Keeps Inv (claim_subtask_body req claim lease_now now)
unfolding claim_subtask_body
claim_subtask_body-Inv req claim lease_now now =
    search (keeps_rules, statements_keep, claim_selected_subtask-Inv, ensure_idle-Inv) depth 9
