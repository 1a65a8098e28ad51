-- ===== src/Fencing/Dead.antt =====
-- Dead claims under the operations of src/ops/workflow/lifecycle.rs that write claims.
use covey.Common.{
  ℕ, ◌≤◌, ◌≡◌, refl, sym, subst, true, false, not, List, arith, ◌==◌, eq_of_==, count,
  count-of_exists_row, count-select-le, count-select_same, count-of_find-some, exists_row,
  find-some_holds, Bool-cases, inl, inr,
}
use covey.Model.Rows.{Store, Session, Subtask, Claim}
use covey.Txn.Triples.{
  Triple, Keeps, keeps_rules, Keeps-modify, Keeps-bind, Triple-bind, Triple-gets, Triple-guard,
  Triple-modify, Triple-given, Triple-weaken, Triple-from,
}
use covey.Validators.{has_claim_id, ensure_positive_lease_duration}
use covey.Lifecycle.Claiming.{
  expire_claim, expire_claim_if_needed_for_subtask, insert_claim, check_claimable, undo_claim,
  mark_subtask_claimed, refuse_busy_session, mark_session_busy, claim_selected_subtask, ensure_idle,
  ClaimSubtaskReq, claim_subtask_body,
}
use covey.Lifecycle.Holding.{ClaimRef, renewable, renew_claim_body}
use covey.Fencing.Current.{Current, require_current_claim-Current, Only, Any}
use covey.Fencing.Statements.{
  Dead, live, dead_rules, DeadIn-update, DeadIn-insert, close_claim_and_detach-Dead,
}

-- A claim that is known is not new.
known_other :
    (c dead : ℕ) (claims : List Claim)
    → exists_row (has_claim_id c) claims ≡ false
    → 1 ≤ count (has_claim_id dead) claims
    → (c == dead) ≡ false
known_other c dead claims e h = elim (Bool-cases (c == dead)) [
  | inl q ↦
      let absent : count (has_claim_id dead) claims ≡ 0 =
        subst (λ x. count (has_claim_id x) claims ≡ 0) (eq_of_== c dead q)
          (count-of_exists_row _ _ e) in
      ground (arith, absent, h)
  | inr q ↦ q
]

module _ {dead : ℕ} where
  pub expire_claim-Dead : (claim : Claim) (now : ℕ) → Keeps (Dead dead) (expire_claim claim now)
  unfolding expire_claim
  expire_claim-Dead claim now =
      Keeps-bind _ _ (close_claim_and_detach-Dead claim _ now refl) λ _. search dead_rules

  expire_if_needed-Dead :
      (t lease_now now : ℕ) → Keeps (Dead dead) (expire_claim_if_needed_for_subtask t lease_now now)
  unfolding expire_claim_if_needed_for_subtask
  expire_if_needed-Dead t lease_now now = search (dead_rules, expire_claim-Dead)

  insert_claim-Dead :
      (row : Claim)
      → Triple
          (Dead dead)
          (insert_claim row)
          (λ _ s. ((row.claim_id == dead) ≡ false) × Dead dead s)
          (Dead dead)
  unfolding insert_claim
  insert_claim-Dead row =
      Triple-bind
        {R = λ taken s. Dead dead s × (taken ≡ exists_row (has_claim_id row.claim_id) s.claims)} _ _
        (Triple-gets _ (λ s p. (p, refl)))
        λ taken.
          Triple-bind {R = λ _ s. ((row.claim_id == dead) ≡ false) × Dead dead s} _ _
            (Triple-guard _ _
              (λ s p h.
                (known_other row.claim_id dead s.claims (ground (arith, h, p.1)) p.0.known, p.0))
              (λ s p. p.0))
            λ _.
              Triple-modify _ λ s p. (p.0, DeadIn-insert dead s.last_tick_ms row s.claims p.0 p.1)

  check_claimable-Dead : (owner : Session) (t : ℕ) → Keeps (Dead dead) (check_claimable owner t)
  unfolding check_claimable
  check_claimable-Dead owner t = search dead_rules depth 12

  undo_claim-Dead : (t c : ℕ) → (c == dead) ≡ false → Keeps (Dead dead) (undo_claim t c)
  unfolding undo_claim
  undo_claim-Dead t c other =
      Keeps-bind _ _
        (Keeps-modify _ λ s v. record {
          known = omega (
            arith,
            v.known,
            count-select_same (has_claim_id dead) (λ r. not (r.claim_id == c)) s.claims
                (λ r h. ground (arith, h, other)),
          );
          none_live = omega (
            arith,
            v.none_live,
            count-select-le (live dead s.last_tick_ms) (λ r. not (r.claim_id == c)) s.claims,
          );
        })
        λ _. search dead_rules

  mark_subtask_claimed-Dead :
      (subtask : Subtask) (t c now : ℕ)
      → (c == dead) ≡ false
      → Keeps (Dead dead) (mark_subtask_claimed subtask t c now)
  unfolding mark_subtask_claimed
  mark_subtask_claimed-Dead subtask t c now other = search (dead_rules, undo_claim-Dead)

  mark_session_busy-Dead :
      (subtask : Subtask) (token t now : ℕ)
      → Keeps (Dead dead) (mark_session_busy subtask token t now)
  unfolding mark_session_busy refuse_busy_session
  mark_session_busy-Dead subtask token t now = search dead_rules depth 9

  ensure_idle-Dead : (owner : Session) → Keeps (Dead dead) (ensure_idle owner)
  unfolding ensure_idle
  ensure_idle-Dead owner = search dead_rules

  claim_selected_subtask-Dead :
      (owner : Session) (token t lease claim lease_now now : ℕ)
      → Keeps (Dead dead) (claim_selected_subtask owner token t lease claim lease_now now)
  unfolding claim_selected_subtask
  claim_selected_subtask-Dead owner token t lease claim lease_now now =
      Keeps-bind _ _ (expire_if_needed-Dead t lease_now now) λ _.
        Keeps-bind _ _ (check_claimable-Dead owner t) λ subtask.
          Keeps-bind _ _ (search dead_rules) λ fence_seq. Triple-bind _ _ (insert_claim-Dead _) λ _.
            Triple-given _
              λ other. search (dead_rules, mark_subtask_claimed-Dead, mark_session_busy-Dead)

  pub claim_subtask_body-Dead :
      (req : ClaimSubtaskReq) (claim lease_now now : ℕ)
      → Keeps (Dead dead) (claim_subtask_body req claim lease_now now)
  unfolding claim_subtask_body
  claim_subtask_body-Dead req claim lease_now now =
      search (dead_rules, claim_selected_subtask-Dead, ensure_idle-Dead) depth 9

  -- A current claim is not a dead one.
  pub Current-other :
      (token id fence lease_now : ℕ) (s : Store)
      → Dead dead s
      → s.last_tick_ms ≡ lease_now
      → Current token id fence lease_now s
      → (id == dead) ≡ false
  Current-other token id fence lease_now s v tick k = elim (Bool-cases (id == dead)) [
    | inl q ↦
        let same : (k.claim.claim_id == id) ≡ true =
          find-some_holds (has_claim_id id) s.claims k.claim_found in
        let one : 1 ≤ count (live dead s.last_tick_ms) s.claims =
          count-of_find-some (live dead s.last_tick_ms) (has_claim_id id) s.claims k.claim_found
            (ground (arith, q, same, k.claim_held, k.lease_live, tick)) in
        ground (arith, one, v.none_live)
    | inr q ↦ q
  ]

  pub renew_claim_body-Dead :
      (req : ClaimRef) (extend lease_now now : ℕ)
      → Triple
          (λ s. Dead dead s × (s.last_tick_ms ≡ lease_now))
          (renew_claim_body req extend lease_now now)
          (λ _ s. Dead dead s)
          Any
  unfolding renew_claim_body ensure_positive_lease_duration
  renew_claim_body-Dead req extend lease_now now = record {
    at = λ s p.
        (Triple-bind {P = Only s} _ _
            (Triple-weaken {P = Only s} {Q = λ _. Only s} {E = Only s} _ (search keeps_rules)
              (λ a s' q. q) (λ s' q. tt))
            λ _.
              Triple-bind _ _
                (require_current_claim-Current req.session_token req.claim_id req.fence_seq
                  lease_now)
                λ claim. Triple-given _ λ k.
                  Triple-from {P = Dead dead} _ (λ s' q. subst (Dead dead) (sym q) p.0)
                    (Triple-weaken {Q = λ _. Dead dead} {E = Dead dead} _
                      (Keeps-bind _ _ (search keeps_rules) λ rows.
                        Keeps-bind _ _
                          (Keeps-modify _ λ s' v.
                            DeadIn-update dead s'.last_tick_ms s'.claims (renewable req) _
                              (λ r. refl)
                              (λ r h l. ground (
                                arith,
                                h,
                                l,
                                Current-other req.session_token req.claim_id req.fence_seq lease_now
                                    s p.0 p.1 k.0,
                              ))
                              v)
                          λ _. search dead_rules)
                      (λ a s' q. q) (λ s' q. tt))).at
          s refl;
  }
