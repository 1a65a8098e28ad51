-- ===== src/Lifecycle/Selecting/Eligible.antt =====
-- What `ordered_claim_candidate` of src/store.rs is to select, apart from how its queries say it.
use covey.Common.{
  ℕ, ◌<◌, ◌≤◌, ◌≡◌, refl, Bool, true, false, not, ◌&&◌, ◌⊎◌, inl, inr, ◌↔◌, Option, none, some,
  ◌==◌, arith, Among, exists_row, exists_row-Among, exists_row-of_Among, Bool-cases,
}
use mathlib.Core.Bool.{decide_iff}
use covey.Model.State.{
  SubtaskKind, SubtaskState, MetaTaskState, SubtaskState-discrete, is_state, is_work, is_review,
  is_closed_meta,
}
use covey.Model.Rows.{Store, Subtask, MetaTask, Dependency}
use covey.Dependencies.{is_satisfied, dependency_satisfied, subtask_dependencies_satisfied}
use covey.Dependencies.Depth.{Repaired, dependency_satisfied-exact}
use covey.Lifecycle.Selecting.{
  effective_priority, meta_task_is_claimable, in_scope, work_candidate, review_candidate,
}

-- The meta-task has a row that is neither completed nor cancelled.
abbrev pub Open : Store → ℕ → Type 0
Open s id =
    (m : MetaTask) × (Among m s.meta_tasks
      × ((m.meta_task_id ≡ id)
          × ((m.state ≡ MetaTaskState.planning) ⊎ (m.state ≡ MetaTaskState.active))))

-- The meta-task is open, and the one that is asked for when one is.
abbrev pub InScope : Store → Option ℕ → ℕ → Type 0
InScope s none id = Open s id
InScope s (some wanted) id = (id ≡ wanted) × Open s wanted

-- Every row that the subtask depends on is satisfied, or a chain of follow-ups leads to one that is.
abbrev pub Ready : Store → ℕ → Type 0
Ready s id =
    (d : Dependency)
    → Among d s.dependencies
    → d.subtask_id ≡ id
    → (dep : Subtask) → Among dep s.subtasks
    → dep.subtask_id ≡ d.depends_on_subtask_id
    → (is_satisfied dep ≡ true) ⊎ Repaired s dep.subtask_id

-- The rows that may be selected; work waits for what it depends on, and no cleanup is ever selected.
abbrev pub Eligible : SubtaskKind → Store → SubtaskState → ℕ → Option ℕ → Subtask → Type 0
Eligible SubtaskKind.work s state key scope r =
    (r.kind ≡ SubtaskKind.work)
    × ((r.state ≡ state)
        × ((r.routing_key ≡ key) × (InScope s scope r.meta_task_id × Ready s r.subtask_id)))
Eligible SubtaskKind.review s state key scope r =
    (r.kind ≡ SubtaskKind.review)
    × ((r.state ≡ state) × ((r.routing_key ≡ key) × InScope s scope r.meta_task_id))
Eligible SubtaskKind.cleanup s state key scope r = ⊥

-- The older of two rows of one priority goes first.
abbrev pub OlderFirst : Subtask → Subtask → Type 0
OlderFirst r q =
    (r.priority < q.priority) ⊎ ((r.priority ≡ q.priority) × (r.created_at ≤ q.created_at))

-- Work is ordered by its rank at the time first; a lower number goes first.
abbrev pub NotAfter : SubtaskKind → ℕ → Subtask → Subtask → Type 0
NotAfter SubtaskKind.work now r q =
    (effective_priority now r < effective_priority now q)
    ⊎ ((effective_priority now r ≡ effective_priority now q) × OlderFirst r q)
NotAfter SubtaskKind.review now r q = OlderFirst r q
NotAfter SubtaskKind.cleanup now r q = ⊥

same_state : (a b : SubtaskState) → (is_state a b ≡ true) ↔ (a ≡ b)
same_state a b = decide_iff (SubtaskState-discrete a b)

not_closed :
    (x : MetaTaskState)
    → (is_closed_meta x ≡ false) ↔ ((x ≡ MetaTaskState.planning) ⊎ (x ≡ MetaTaskState.active))
not_closed MetaTaskState.planning = (λ h. inl refl, λ h. refl)
not_closed MetaTaskState.active = (λ h. inr refl, λ h. refl)
not_closed MetaTaskState.completed = (λ h. absurd (cc), λ h. elim h [ inl e ↦ cc | inr e ↦ cc ])
not_closed MetaTaskState.cancelled = (λ h. absurd (cc), λ h. elim h [ inl e ↦ cc | inr e ↦ cc ])

of_work : (k : SubtaskKind) → (is_work k ≡ true) ↔ (k ≡ SubtaskKind.work)
of_work SubtaskKind.work = (λ h. refl, λ h. refl)
of_work SubtaskKind.review = (λ h. absurd (cc), λ h. absurd (cc))
of_work SubtaskKind.cleanup = (λ h. absurd (cc), λ h. absurd (cc))

of_review : (k : SubtaskKind) → (is_review k ≡ true) ↔ (k ≡ SubtaskKind.review)
of_review SubtaskKind.work = (λ h. absurd (cc), λ h. absurd (cc))
of_review SubtaskKind.review = (λ h. refl, λ h. refl)
of_review SubtaskKind.cleanup = (λ h. absurd (cc), λ h. absurd (cc))

claimable-Open : (s : Store) (id : ℕ) → (meta_task_is_claimable s id ≡ true) ↔ Open s id
unfolding meta_task_is_claimable
claimable-Open s id = (to, from)
  where
    to : meta_task_is_claimable s id ≡ true → Open s id
    to h =
        let (m, (a, t)) = exists_row-Among _ s.meta_tasks h in
        (m, (a, (ground (arith, t), (not_closed m.state).0 (ground (arith, t)))))

    from : Open s id → meta_task_is_claimable s id ≡ true
    from (m, (a, (e, o))) =
        let closed = (not_closed m.state).1 o in
        exists_row-of_Among _ m s.meta_tasks a (ground (arith, e, closed))

in_scope-InScope :
    (s : Store) (scope : Option ℕ) (id : ℕ) → (in_scope s scope id ≡ true) ↔ InScope s scope id
unfolding in_scope
in_scope-InScope s none id = claimable-Open s id
in_scope-InScope s (some wanted) id = (
  λ h. (ground (arith, h), (claimable-Open s wanted).0 (ground (arith, h))),
  λ p. ground (arith, p.0, (claimable-Open s wanted).1 p.1),
)

-- A dependency of the subtask on a row that is not satisfied.
abbrev blocks : Store → ℕ → Dependency → Bool
blocks s id d =
    d.subtask_id == id
    && exists_row
        (λ dep. dep.subtask_id == d.depends_on_subtask_id && not (dependency_satisfied s dep))
        s.subtasks

satisfied-Ready : (s : Store) (id : ℕ) → (subtask_dependencies_satisfied id s ≡ true) ↔ Ready s id
unfolding subtask_dependencies_satisfied
satisfied-Ready s id = (to, from)
  where
    to : subtask_dependencies_satisfied id s ≡ true → Ready s id
    to h d m e dep n k = elim (Bool-cases (dependency_satisfied s dep)) [
      | inl t ↦ (dependency_satisfied-exact s dep).0 t
      | inr f ↦
          let unmet =
            exists_row-of_Among
              (λ x. x.subtask_id == d.depends_on_subtask_id && not (dependency_satisfied s x)) dep
              s.subtasks n (ground (arith, k, f)) in
          let found =
            exists_row-of_Among (blocks s id) d s.dependencies m (ground (arith, e, unmet)) in
          absurd (ground (arith, h, found))
    ]

    from : Ready s id → subtask_dependencies_satisfied id s ≡ true
    from r = elim (Bool-cases (exists_row (blocks s id) s.dependencies)) [
      | inl t ↦
          let (d, (m, b)) = exists_row-Among (blocks s id) s.dependencies t in
          let (dep, (n, u)) =
            exists_row-Among
              (λ x. x.subtask_id == d.depends_on_subtask_id && not (dependency_satisfied s x))
              s.subtasks (ground (arith, b)) in
          let met =
            (dependency_satisfied-exact s dep).1
              (r d m (ground (arith, b)) dep n (ground (arith, u))) in
          absurd (ground (arith, u, met))
      | inr f ↦ ground (arith, f)
    ]

pub work_candidate-Eligible :
    (s : Store) (state : SubtaskState) (key : ℕ) (scope : Option ℕ) (r : Subtask)
    → (work_candidate s state key scope r ≡ true) ↔ Eligible SubtaskKind.work s state key scope r
unfolding work_candidate
work_candidate-Eligible s state key scope r = (
  λ h. (
    (of_work r.kind).0 (ground (arith, h)),
    (
      (same_state r.state state).0 (ground (arith, h)),
      (
        ground (arith, h),
        (
          (in_scope-InScope s scope r.meta_task_id).0 (ground (arith, h)),
          (satisfied-Ready s r.subtask_id).0 (ground (arith, h)),
        ),
      ),
    ),
  ),
  λ p.
      let kind = (of_work r.kind).1 p.0 in
      let same = (same_state r.state state).1 p.1.0 in
      let scoped = (in_scope-InScope s scope r.meta_task_id).1 p.1.1.1.0 in
      let ready = (satisfied-Ready s r.subtask_id).1 p.1.1.1.1 in
      ground (arith, kind, same, p.1.1.0, scoped, ready),
)

pub review_candidate-Eligible :
    (s : Store) (state : SubtaskState) (key : ℕ) (scope : Option ℕ) (r : Subtask)
    → (review_candidate s state key scope r ≡ true)
      ↔ Eligible SubtaskKind.review s state key scope r
unfolding review_candidate
review_candidate-Eligible s state key scope r = (
  λ h. (
    (of_review r.kind).0 (ground (arith, h)),
    (
      (same_state r.state state).0 (ground (arith, h)),
      (ground (arith, h), (in_scope-InScope s scope r.meta_task_id).0 (ground (arith, h))),
    ),
  ),
  λ p.
      let kind = (of_review r.kind).1 p.0 in
      let same = (same_state r.state state).1 p.1.0 in
      let scoped = (in_scope-InScope s scope r.meta_task_id).1 p.1.1.1 in
      ground (arith, kind, same, p.1.1.0, scoped),
)
