-- ===== src/Fencing/Newest.antt =====
-- What a successful `claim_subtask` of src/ops/workflow/lifecycle.rs leaves on its subtask.
use covey.Common.{
  ℕ, ◌<◌, ◌≡◌, refl, subst, Bool, true, false, ◌&&◌, List, arith, ◌==◌, ==_refl, count, count_mono,
  count-insert, if◌then◌else◌,
}
use covey.Model.State.{ObjectType, is_held}
use covey.Model.Rows.{Store, Session, Subtask, Claim, EventType}
use covey.Txn.{Tx, ok, ◌>>=◌, append_session_event, append_event}
use covey.Txn.Triples.{
  Post, Triple, Keeps, keeps_rules, Keeps-modify, Triple-bind, Triple-pure, Triple-fail,
  Triple-gets, Triple-guard, Triple-modify, Triple-weaken,
}
use covey.Validators.{held_on, load_session, load_subtask}
use covey.Lifecycle.Statements.{update_subtasks, update_sessions}
use covey.Lifecycle.Claiming.{
  ClaimResult, insert_claim, undo_claim, mark_subtask_claimed, refuse_busy_session,
  mark_session_busy, claim_selected_subtask, ClaimSubtaskReq, claim_subtask_body,
}
use covey.Invariant.Counts.{Inv, fence_is}
use covey.Invariant.Statements.{statements_keep}
use covey.Invariant.Claiming.{
  Issued, check_claimable-Free, issue_fence-Issued, expire_claim_if_needed-Inv, ensure_idle-Inv,
}
use covey.Fencing.Current.{Any}

-- The claim `id` with fence `f`, held on the subtask.
abbrev pub is_claim : ℕ → ℕ → ℕ → Claim → Bool
is_claim t id f c = held_on t c && (c.claim_id == id && c.fence_seq == f)

pub record NewestIn (t id f : ℕ) (claims : List Claim) : Type 0 where
  pub held_once : count (held_on t) claims ≡ 1
  pub held_is_it : count (is_claim t id f) claims ≡ 1
  pub fence_once : count (fence_is t f) claims ≡ 1
  pub none_later : (g : ℕ) → f < g → count (fence_is t g) claims ≡ 0

abbrev pub Newest : ℕ → ℕ → ℕ → Store → Type 0
Newest t id f s = NewestIn t id f s.claims

insert_claim-Newest :
    (row : Claim)
    → is_held row.state ≡ true
    → Triple
        (Issued row.subtask_id row.fence_seq)
        (insert_claim row)
        (λ _ s. Newest row.subtask_id row.claim_id row.fence_seq s)
        Any
unfolding insert_claim
insert_claim-Newest row held =
    Triple-bind {R = λ _. Issued row.subtask_id row.fence_seq} _ _ (Triple-gets _ (λ s p. p))
      λ taken.
        Triple-bind {R = λ _. Issued row.subtask_id row.fence_seq} _ _
          (Triple-guard _ _ (λ s p h. p) (λ s p. tt))
          λ _. Triple-modify _ λ s p. record {
            held_once = ground (
              arith,
              held,
              p.0.1,
              ==_refl row.subtask_id,
              count-insert (held_on row.subtask_id) row s.claims,
            );
            held_is_it = ground (
              arith,
              held,
              p.0.1,
              ==_refl row.subtask_id,
              ==_refl row.claim_id,
              ==_refl row.fence_seq,
              count_mono (is_claim row.subtask_id row.claim_id row.fence_seq)
                  (held_on row.subtask_id) s.claims (λ r h. ground (arith, h)),
              count-insert (is_claim row.subtask_id row.claim_id row.fence_seq) row s.claims,
            );
            fence_once = ground (
              arith,
              p.1.0,
              ==_refl row.subtask_id,
              ==_refl row.fence_seq,
              count-insert (fence_is row.subtask_id row.fence_seq) row s.claims,
            );
            none_later = λ g h. ground (
              arith,
              h,
              p.0.0.fence_issued row.subtask_id g (omega (arith, p.1.1, h)),
              count-insert (fence_is row.subtask_id g) row s.claims,
            );
          }

module _ {t id f : ℕ} where
  update_subtasks-Newest :
      (p : Subtask → Bool) (g : Subtask → Subtask) → Keeps (Newest t id f) (update_subtasks p g)
  unfolding update_subtasks
  update_subtasks-Newest p g = search (keeps_rules, Keeps-modify)

  update_sessions-Newest :
      (p : Session → Bool) (g : Session → Session) → Keeps (Newest t id f) (update_sessions p g)
  unfolding update_sessions
  update_sessions-Newest p g = search (keeps_rules, Keeps-modify)

  load_session-Newest : (token : ℕ) → Keeps (Newest t id f) (load_session token)
  unfolding load_session
  load_session-Newest token = search keeps_rules

  append_session_event-Newest :
      (e : EventType) (o : ObjectType) (x token now : ℕ)
      → Keeps (Newest t id f) (append_session_event e o x token now)
  unfolding append_session_event append_event
  append_session_event-Newest e o x token now = Keeps-modify _ (λ s h. h)

  -- Undoing ends in an error.
  undo_claim-Newest :
      (u c : ℕ) → Triple (Newest t id f) (undo_claim u c) (λ _ s. Newest t id f s) Any
  unfolding undo_claim load_subtask
  undo_claim-Newest u c =
      Triple-bind {R = λ _. Any} _ _ (Triple-modify _ (λ s p. tt)) λ _.
        Triple-bind {R = λ _. Any} _ _ (search keeps_rules) λ current. Triple-fail _ (λ s p. tt)

  either :
      {A : Type 0} (b : Bool) (m n : Tx A)
      → Triple (Newest t id f) m (λ _ s. Newest t id f s) Any
      → Triple (Newest t id f) n (λ _ s. Newest t id f s) Any
      → Triple (Newest t id f) (if b then m else n) (λ _ s. Newest t id f s) Any
  either true m n hm hn = hm
  either false m n hm hn = hn

  mark_subtask_claimed-Newest :
      (subtask : Subtask) (u c now : ℕ)
      → Triple (Newest t id f) (mark_subtask_claimed subtask u c now) (λ _ s. Newest t id f s) Any
  unfolding mark_subtask_claimed
  mark_subtask_claimed-Newest subtask u c now =
      Triple-bind _ _ (Triple-weaken _ (update_subtasks-Newest _ _) (λ a s q. q) (λ s q. tt))
        λ updated. either _ _ _ (Triple-pure _ (λ s q. q)) (undo_claim-Newest u c)

  mark_session_busy-Newest :
      (subtask : Subtask) (token u now : ℕ)
      → Keeps (Newest t id f) (mark_session_busy subtask token u now)
  unfolding mark_session_busy refuse_busy_session
  mark_session_busy-Newest subtask token u now =
      search (keeps_rules, update_sessions-Newest, load_session-Newest) depth 9

claim_selected_subtask-Newest :
    (owner : Session) (token t lease claim lease_now now : ℕ)
    → Triple Inv
        (claim_selected_subtask owner token t lease claim lease_now now)
        (λ result s. Newest t claim result.fence_seq s)
        Any
unfolding claim_selected_subtask
claim_selected_subtask-Newest owner token t lease claim lease_now now =
    Triple-bind _ _
      (Triple-weaken _ (expire_claim_if_needed-Inv t lease_now now) (λ a s q. q) (λ s q. tt))
      λ _.
        Triple-bind _ _ (Triple-weaken _ (check_claimable-Free owner t) (λ a s q. q) (λ s q. tt))
          λ subtask.
            Triple-bind _ _ (Triple-weaken _ (issue_fence-Issued t) (λ a s q. q) (λ s q. tt))
              λ fence_seq. Triple-bind _ _ (insert_claim-Newest _ refl) λ _.
                Triple-bind _ _ (mark_subtask_claimed-Newest subtask t claim now) λ _.
                  Triple-bind _ _
                    (Triple-weaken _ (mark_session_busy-Newest subtask token t now) (λ a s q. q)
                      (λ s q. tt))
                    λ _.
                      Triple-bind _ _
                        (Triple-weaken _ (append_session_event-Newest _ _ _ _ _) (λ a s q. q)
                          (λ s q. tt))
                        λ _. Triple-pure _ (λ s q. q)

claim_subtask_Newest-Triple :
    (req : ClaimSubtaskReq) (claim lease_now now : ℕ)
    → Triple Inv
        (claim_subtask_body req claim lease_now now)
        (λ result s. Newest req.subtask_id claim result.fence_seq s)
        Any
unfolding claim_subtask_body
claim_subtask_Newest-Triple req claim lease_now now =
    Inv-bind _ _ (search (keeps_rules, statements_keep)) λ owner.
      Inv-bind _ _ (search (keeps_rules, statements_keep)) λ _.
        Inv-bind _ _ (ensure_idle-Inv owner) λ _.
          Inv-bind _ _ (search (keeps_rules, statements_keep)) λ known.
            Inv-bind _ _ (search keeps_rules) λ _.
              claim_selected_subtask-Newest owner req.session_token req.subtask_id
                req.lease_duration_ms claim lease_now now
  where
    Inv-bind :
        {A B : Type 0} {Q : B → Store → Type 0} (m : Tx A) (g : A → Tx B)
        → Keeps Inv m
        → ((a : A) → Triple Inv (g a) Q Any)
        → Triple Inv (m >>= g) Q Any
    Inv-bind m g hm hg = Triple-bind m g (Triple-weaken m hm (λ a s q. q) (λ s q. tt)) hg

-- From a store with the invariant, a claim that succeeds leaves exactly one held claim on its
-- subtask, which has the requested identifier and the returned fence; no other claim on the subtask
-- has that fence, and none has a higher one.
pub claim_subtask-Newest :
    (req : ClaimSubtaskReq) (claim lease_now now : ℕ) (s s' : Store) (result : ClaimResult)
    → Inv s
    → claim_subtask_body req claim lease_now now s ≡ ok result s'
    → Newest req.subtask_id claim result.fence_seq s'
claim_subtask-Newest req claim lease_now now s s' result v e =
    subst (Post (λ r s2. Newest req.subtask_id claim r.fence_seq s2) Any) e
      ((claim_subtask_Newest-Triple req claim lease_now now).at s v)
