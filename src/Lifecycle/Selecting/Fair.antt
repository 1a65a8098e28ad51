-- ===== src/Lifecycle/Selecting/Fair.antt =====
-- The order of `ordered_claim_candidate` of src/store.rs: what is chosen, and how waiting ages a
-- subtask.
use covey.Common.{
  ℕ, ◌+◌, ◌-◌, ◌*◌, ◌≤◌, ◌≡◌, refl, Bool, true, false, Option, none, some, arith, Among,
  Option-cases, inl, inr, ◌↔◌,
}
use covey.Model.State.{SubtaskKind, SubtaskState}
use covey.Model.Rows.{Store, Subtask}
use covey.Lifecycle.Selecting.{
  effective_priority, work_before, review_before, work_candidate, review_candidate,
  ordered_claim_candidate,
}
use covey.Lifecycle.Selecting.Eligible.{
  Eligible, NotAfter, work_candidate-Eligible, review_candidate-Eligible,
}
use covey.Lifecycle.Selecting.Orders.{work_asym, work_through, review_asym, review_through}
use covey.Lifecycle.Selecting.Minimum.{Least, first_least-none, first_least-Least}

-- The rows that a kind of candidate is taken from, and their order.
abbrev pub candidate : SubtaskKind → Store → SubtaskState → ℕ → Option ℕ → Subtask → Bool
candidate SubtaskKind.work = work_candidate
candidate SubtaskKind.review = review_candidate
candidate SubtaskKind.cleanup = λ s state routing_key meta_task_id r. false

abbrev pub before : SubtaskKind → ℕ → Subtask → Subtask → Bool
before SubtaskKind.work now = work_before now
before SubtaskKind.review now = review_before
before SubtaskKind.cleanup now = λ a b. false

candidate-Least :
    (kind : SubtaskKind) (state : SubtaskState) (routing_key : ℕ) (meta_task_id : Option ℕ)
    (now : ℕ)
    → (s : Store) {r : Subtask}
    → ordered_claim_candidate kind state routing_key meta_task_id now s ≡ some r
    → Least (candidate kind s state routing_key meta_task_id) (before kind now) r s.subtasks
unfolding ordered_claim_candidate
candidate-Least SubtaskKind.work state key meta now s e =
    first_least-Least _ _ (work_asym now) (work_through now) s.subtasks e
candidate-Least SubtaskKind.review state key meta now s e =
    first_least-Least _ _ review_asym review_through s.subtasks e
candidate-Least SubtaskKind.cleanup state key meta now s e = cc

none_chosen :
    (kind : SubtaskKind) (state : SubtaskState) (routing_key : ℕ) (meta_task_id : Option ℕ)
    (now : ℕ)
    → (s : Store) → ordered_claim_candidate kind state routing_key meta_task_id now s ≡ none
    → (q : Subtask) → Among q s.subtasks
    → candidate kind s state routing_key meta_task_id q ≡ false
unfolding ordered_claim_candidate
none_chosen SubtaskKind.work state key meta now s e q m = first_least-none _ _ s.subtasks e q m
none_chosen SubtaskKind.review state key meta now s e q m = first_least-none _ _ s.subtasks e q m
none_chosen SubtaskKind.cleanup state key meta now s e q m = refl

-- The row may be selected, and no row that may be is to go before it.
abbrev pub Next : SubtaskKind → Store → SubtaskState → ℕ → Option ℕ → ℕ → Subtask → Type 0
Next kind s state key scope now r =
    Among r s.subtasks
    × (Eligible kind s state key scope r
        × ((q : Subtask)
            → Among q s.subtasks
            → Eligible kind s state key scope q
            → NotAfter kind now r q))

work_before-NotAfter :
    (now : ℕ) (q r : Subtask) → work_before now q r ≡ false → NotAfter SubtaskKind.work now r q
unfolding work_before
work_before-NotAfter now q r h = ground arith

review_before-NotAfter :
    (now : ℕ) (q r : Subtask) → review_before q r ≡ false → NotAfter SubtaskKind.review now r q
unfolding review_before
review_before-NotAfter now q r h = ground arith

-- The subtask that is selected is a row of the table with the kind, state and route that are asked
-- for, of an open meta-task in the scope and, for work, with every dependency satisfied or repaired;
-- and no such row has a lower rank, of its rank a lower priority, or of both an earlier creation.
pub ordered_claim_candidate-Next :
    (kind : SubtaskKind) (state : SubtaskState) (routing_key : ℕ) (meta_task_id : Option ℕ)
    (now : ℕ)
    → (s : Store) {r : Subtask}
    → ordered_claim_candidate kind state routing_key meta_task_id now s ≡ some r
    → Next kind s state routing_key meta_task_id now r
ordered_claim_candidate-Next SubtaskKind.work state key meta now s {r} e =
    let (m, (c, least)) = candidate-Least SubtaskKind.work state key meta now s e in
    (
      m,
      (
        (work_candidate-Eligible s state key meta r).0 c,
        λ q n l.
            work_before-NotAfter now q r
              (least q n ((work_candidate-Eligible s state key meta q).1 l)),
      ),
    )
ordered_claim_candidate-Next SubtaskKind.review state key meta now s {r} e =
    let (m, (c, least)) = candidate-Least SubtaskKind.review state key meta now s e in
    (
      m,
      (
        (review_candidate-Eligible s state key meta r).0 c,
        λ q n l.
            review_before-NotAfter now q r
              (least q n ((review_candidate-Eligible s state key meta q).1 l)),
      ),
    )
ordered_claim_candidate-Next SubtaskKind.cleanup state key meta now s e =
    let never = (candidate-Least SubtaskKind.cleanup state key meta now s e).1.0 in absurd (cc)

-- A candidate is a row that may be selected.
candidate_of :
    (kind : SubtaskKind) (s : Store) (state : SubtaskState) (key : ℕ) (scope : Option ℕ)
    → (q : Subtask) → Eligible kind s state key scope q
    → candidate kind s state key scope q ≡ true
candidate_of SubtaskKind.work s state key scope q l =
    (work_candidate-Eligible s state key scope q).1 l
candidate_of SubtaskKind.review s state key scope q l =
    (review_candidate-Eligible s state key scope q).1 l
candidate_of SubtaskKind.cleanup s state key scope q l = absurd l

-- Nothing is selected exactly when no row of the table may be: none has the kind, state and route
-- that are asked for, an open meta-task in the scope and, for work, every dependency satisfied or
-- repaired.
pub ordered_claim_candidate-none :
    (kind : SubtaskKind) (state : SubtaskState) (routing_key : ℕ) (meta_task_id : Option ℕ)
    (now : ℕ) (s : Store)
    → (ordered_claim_candidate kind state routing_key meta_task_id now s ≡ none)
      ↔ ((q : Subtask) → Among q s.subtasks → ¬ Eligible kind s state routing_key meta_task_id q)
ordered_claim_candidate-none kind state key meta now s = (to, from)
  where
    to :
        ordered_claim_candidate kind state key meta now s ≡ none
        → (q : Subtask) → Among q s.subtasks
        → ¬ Eligible kind s state key meta q
    to e q m l =
        let c = candidate_of kind s state key meta q l in
        let n = none_chosen kind state key meta now s e q m in cc

    from :
        ((q : Subtask) → Among q s.subtasks → ¬ Eligible kind s state key meta q)
        → ordered_claim_candidate kind state key meta now s ≡ none
    from h = elim (Option-cases (ordered_claim_candidate kind state key meta now s)) [
      | inl e ↦ e
      | inr (r, e) ↦
          let next = ordered_claim_candidate-Next kind state key meta now s e in
          absurd (h r next.0 next.1.0)
    ]

-- A subtask has waited out its priority at a time: thirty seconds for each step of it.
abbrev pub WaitedOut : ℕ → Subtask → Type 0
WaitedOut now r = r.created_at + r.priority * 30000 ≤ now

effective_zero : (now : ℕ) (r : Subtask) → WaitedOut now r → effective_priority now r ≡ 0
unfolding effective_priority
effective_zero now r h = omega arith

waited_out :
    (now : ℕ) (r : Subtask) → effective_priority now r ≡ 0 → r.priority * 30000 ≤ now - r.created_at
unfolding effective_priority
waited_out now r h = omega arith

first_is_zero :
    (now : ℕ) (q r : Subtask)
    → effective_priority now q ≡ 0
    → work_before now q r ≡ false
    → effective_priority now r ≡ 0
unfolding work_before
first_is_zero now q r h b = ground arith

-- While a candidate for work has waited out its priority, every work subtask that is selected has
-- waited thirty seconds for each step of its own priority, so a younger one of a lower rank is not
-- taken before it.
pub ordered_claim_candidate_aged :
    (state : SubtaskState) (routing_key : ℕ) (meta_task_id : Option ℕ) (now : ℕ)
    → (s : Store) (q : Subtask) {r : Subtask} → Among q s.subtasks
    → work_candidate s state routing_key meta_task_id q ≡ true
    → WaitedOut now q
    → ordered_claim_candidate SubtaskKind.work state routing_key meta_task_id now s ≡ some r
    → r.priority * 30000 ≤ now - r.created_at
ordered_claim_candidate_aged state key meta now s q {r} m c w e =
    let least = candidate-Least SubtaskKind.work state key meta now s e in
    waited_out now r (first_is_zero now q r (effective_zero now q w) (least.1.1 q m c))

-- The rank of a waiting subtask never exceeds its priority, does not fall back as the clock goes on,
-- and is 0 once thirty seconds have passed for each step of it.
pub effective_priority-bounds :
    (now later : ℕ) (r : Subtask)
    → now ≤ later
    → (effective_priority now r ≤ r.priority)
      × ((effective_priority later r ≤ effective_priority now r)
          × (effective_priority (r.created_at + r.priority * 30000) r ≡ 0))
effective_priority-bounds now later r h = (
  unfold effective_priority in omega arith,
  (
    unfold effective_priority in omega arith,
    effective_zero (r.created_at + r.priority * 30000) r (omega arith),
  ),
)
