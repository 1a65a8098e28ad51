-- ===== src/Lifecycle/Deduping.antt =====
-- About `dedupe_subtask_dependencies` of src/validators.rs.
use covey.Common.{
  ℕ, ◌≤◌, ◌≡◌, true, ◌||◌, List, [], ◌∷◌, arith, ◌==◌, exists_row, count, insert, count-insert,
  count-of_exists_row, Bool-cases, inl, inr, if◌then◌else◌, eq_of_==, subst, ◌++◌,
}
use covey.Lifecycle.Creating.{contains, dedupe_from, dedupe_subtask_dependencies}

contains-append :
    (x : ℕ) (xs ys : List ℕ) → contains (xs ++ ys) x ≡ (contains xs x || contains ys x)
unfolding exists_row
contains-append x [] ys = ground arith
contains-append x (y ∷ xs) ys = ground (arith, contains-append x xs ys)

keep_new-contains :
    (x d : ℕ) (kept : List ℕ)
    → contains (if contains kept d then kept else insert d kept) x ≡ (contains kept x || d == x)
unfolding exists_row insert
keep_new-contains x d kept = elim (Bool-cases (contains kept d)) [
  | inl e ↦ elim (Bool-cases (d == x)) [
    | inl q ↦
        let there : contains kept x ≡ true =
          subst (λ y. contains kept y ≡ true) (eq_of_== d x q) e in
        ground (arith, e, q, there)
    | inr q ↦ ground (arith, e, q)
  ]
  | inr e ↦ ground (arith, e, contains-append x kept (d ∷ []))
]

dedupe_from-contains :
    (x : ℕ) (kept ds : List ℕ)
    → contains (dedupe_from kept ds) x ≡ (contains kept x || contains ds x)
unfolding dedupe_from exists_row
dedupe_from-contains x kept [] = ground arith
dedupe_from-contains x kept (d ∷ ds) = ground (
  arith,
  dedupe_from-contains x (if contains kept d then kept else insert d kept) ds,
  keep_new-contains x d kept,
)

keep_new-once :
    (d : ℕ) (kept : List ℕ)
    → ((x : ℕ) → count (λ y. y == x) kept ≤ 1)
    → (x : ℕ) → count (λ y. y == x) (if contains kept d then kept else insert d kept) ≤ 1
keep_new-once d kept h x = elim (Bool-cases (contains kept d)) [
  | inl e ↦ ground (arith, e, h x)
  | inr e ↦ elim (Bool-cases (d == x)) [
    | inl q ↦
        let none_yet : count (λ y. y == x) kept ≡ 0 =
          subst (λ z. count (λ y. y == z) kept ≡ 0) (eq_of_== d x q) (count-of_exists_row _ _ e) in
        ground (arith, e, q, none_yet, count-insert (λ y. y == x) d kept)
    | inr q ↦ ground (arith, e, q, h x, count-insert (λ y. y == x) d kept)
  ]
]

dedupe_from-once :
    (ds kept : List ℕ)
    → ((x : ℕ) → count (λ y. y == x) kept ≤ 1)
    → (x : ℕ) → count (λ y. y == x) (dedupe_from kept ds) ≤ 1
unfolding dedupe_from
dedupe_from-once [] kept h x = h x
dedupe_from-once (d ∷ ds) kept h x =
    dedupe_from-once ds (if contains kept d then kept else insert d kept) (keep_new-once d kept h) x

-- Every declared dependency is listed exactly as often as needed: an identifier is in the deduped
-- list exactly when it was declared, and it is there at most once.
pub dedupe-exact :
    (ds : List ℕ) (x : ℕ)
    → (contains (dedupe_subtask_dependencies ds) x ≡ contains ds x)
      × (count (λ y. y == x) (dedupe_subtask_dependencies ds) ≤ 1)
unfolding exists_row count
dedupe-exact ds x =
    (ground (arith, dedupe_from-contains x [] ds), dedupe_from-once ds [] (λ y. omega arith) x)
