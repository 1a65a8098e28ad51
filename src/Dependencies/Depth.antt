-- ===== src/Dependencies/Depth.antt =====
-- The depth of `followup_chain` against the unbounded recursion of DEPENDENCY_SATISFIED_SQL in
-- src/store.rs.
use covey.Common.{
  ℕ, zero, suc, ◌<◌, ◌≤◌, ◌≡◌, refl, true, false, not, List, [], ◌∷◌, arith, ◌==◌, exists_row,
  length, Bool-cases, inl, inr, ◌⊎◌, ◌↔◌, select, eq_of_==, subst,
}
use covey.Model.Rows.{Store, Subtask, Followup}
use covey.Dependencies.{is_satisfied, is_satisfied_id, dependency_satisfied}
use covey.Dependencies.Chains.{Chain, link, more, follows, followup_chain-exact}

-- The links that do not leave `a`.
abbrev avoiding : ℕ → List Followup → List Followup
avoiding a fs = select (λ f. not (f.source_subtask_id == a)) fs

avoiding_le : (a : ℕ) (fs : List Followup) → length (avoiding a fs) ≤ length fs
unfolding select
avoiding_le a [] = omega arith
avoiding_le a (f ∷ fs) = ground (arith, avoiding_le a fs)

avoiding_fewer :
    (a b : ℕ) (fs : List Followup) → follows fs a b ≡ true → length (avoiding a fs) < length fs
unfolding select exists_row
avoiding_fewer a b [] h = ground (arith, h)
avoiding_fewer a b (f ∷ fs) h = ground (arith, avoiding_fewer a b fs, avoiding_le a fs)

follows-avoiding_self : (a b : ℕ) (fs : List Followup) → follows (avoiding a fs) a b ≡ false
unfolding select exists_row
follows-avoiding_self a b [] = refl
follows-avoiding_self a b (f ∷ fs) = ground (arith, follows-avoiding_self a b fs)

follows-avoiding :
    (a p q : ℕ) (fs : List Followup)
    → (p == a) ≡ false
    → follows fs p q ≡ true
    → follows (avoiding a fs) p q ≡ true
unfolding select exists_row
follows-avoiding a p q [] n h = ground (arith, h)
follows-avoiding a p q (f ∷ fs) n h = ground (arith, n, follows-avoiding a p q fs n)

of_avoiding :
    (a p q : ℕ) (fs : List Followup) → follows (avoiding a fs) p q ≡ true → follows fs p q ≡ true
unfolding select exists_row
of_avoiding a p q [] h = ground (arith, h)
of_avoiding a p q (f ∷ fs) h = ground (arith, of_avoiding a p q fs)

Chain-of_avoiding :
    (a : ℕ) {fs : List Followup} {n p q : ℕ} → Chain (avoiding a fs) n p q → Chain fs n p q
Chain-of_avoiding a {fs} {n} {p} {q} (link e) = link (of_avoiding a p q fs e)
Chain-of_avoiding a {fs} {n} {p} {q} (more {b = x} e c) =
    more (of_avoiding a p x fs e) (Chain-of_avoiding a c)

-- After its last visit to `a` a chain to `b` has one link, or avoids `a` from there on.
abbrev LastLeave : ℕ → List Followup → ℕ → Type 0
LastLeave a fs b =
    (follows fs a b ≡ true)
    ⊎ ((k : ℕ) × ((x : ℕ) × ((follows fs a x ≡ true) × Chain (avoiding a fs) k x b)))

last_leave :
    (a : ℕ) {fs : List Followup} {n p b : ℕ}
    → Chain fs n p b
    → Chain (avoiding a fs) n p b ⊎ LastLeave a fs b
last_leave a {fs} {n} {p} {b} (link e) = elim (Bool-cases (p == a)) [
  | inl t ↦ inr (inl (subst (λ x. follows fs x b ≡ true) (eq_of_== p a t) e))
  | inr f ↦ inl (link (follows-avoiding a p b fs f e))
]
last_leave a {fs} {n} {p} {b} (more {n = k} {b = x} e c) = elim (last_leave a c) [
  | inr l ↦ inr l
  | inl d ↦ elim (Bool-cases (p == a)) [
    | inl t ↦ inr (inr (k, (x, (subst (λ y. follows fs y x ≡ true) (eq_of_== p a t) e, d))))
    | inr f ↦ inl (more (follows-avoiding a p x fs f e) d)
  ]
]

not_avoided : (a : ℕ) (fs : List Followup) {n b : ℕ} {X : Type 0} → Chain (avoiding a fs) n a b → X
not_avoided a fs {n} {b} (link e) = absurd (ground (arith, follows-avoiding_self a b fs, e))
not_avoided a fs {n} {b} (more {b = x} e c) =
    absurd (ground (arith, follows-avoiding_self a x fs, e))

-- A chain of fewer links than there are rows.
abbrev Short : List Followup → ℕ → ℕ → Type 0
Short fs a b = (m : ℕ) × ((m < length fs) × Chain fs m a b)

shorten :
    (bound : ℕ) (fs : List Followup) (a b n : ℕ) → length fs ≤ bound → Chain fs n a b → Short fs a b
shorten zero fs a b n h (link e) = absurd (omega (arith, avoiding_fewer a b fs e, h))
shorten zero fs a b n h (more {b = x} e d) = absurd (omega (arith, avoiding_fewer a x fs e, h))
shorten (suc bound) fs a b n h c = elim (last_leave a c) [
  | inl d ↦ not_avoided a fs d
  | inr (inl e) ↦ (zero, (omega (arith, avoiding_fewer a b fs e), link e))
  | inr (inr (k, (x, (e, d)))) ↦
      let rest =
        shorten bound (avoiding a fs) x b k (omega (arith, avoiding_fewer a x fs e, h)) d in
      (
        suc rest.0,
        (omega (arith, rest.1.0, avoiding_fewer a x fs e), more e (Chain-of_avoiding a rest.1.1)),
      )
]

-- Some chain, of whatever length, leads from the row to a satisfied one.
abbrev pub Repaired : Store → ℕ → Type 0
Repaired s a =
    (n : ℕ) × ((b : ℕ) × (Chain s.followups n a b × (is_satisfied_id s.subtasks b ≡ true)))

-- A dependency counts as satisfied exactly when its own row is, or a chain of follow-ups of any
-- length leads from it to a satisfied row: the depth that the query is given is always enough.
pub dependency_satisfied-exact :
    (s : Store) (dep : Subtask)
    → (dependency_satisfied s dep ≡ true) ↔ ((is_satisfied dep ≡ true) ⊎ Repaired s dep.subtask_id)
unfolding dependency_satisfied
dependency_satisfied-exact s dep = (to, from)
  where
    to : dependency_satisfied s dep ≡ true → (is_satisfied dep ≡ true) ⊎ Repaired s dep.subtask_id
    to h = elim (Bool-cases (is_satisfied dep)) [
      | inl t ↦ inl t
      | inr f ↦
          let (n, (b, (l, (c, q)))) =
            (followup_chain-exact (length s.followups) s.followups s.subtasks dep.subtask_id).0
              (ground (arith, h, f)) in
          inr (n, (b, (c, q)))
    ]

    from : (is_satisfied dep ≡ true) ⊎ Repaired s dep.subtask_id → dependency_satisfied s dep ≡ true
    from (inl t) = ground (arith, t)
    from (inr (n, (b, (c, q)))) =
        let (m, (l, d)) =
          shorten (length s.followups) s.followups dep.subtask_id b n (omega arith) c in
        let found =
          (followup_chain-exact (length s.followups) s.followups s.subtasks dep.subtask_id).1
            (m, (b, (l, (d, q)))) in
        ground (arith, found)
