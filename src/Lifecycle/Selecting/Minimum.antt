-- ===== src/Lifecycle/Selecting/Minimum.antt =====
-- `SELECT ... WHERE p ORDER BY ... LIMIT 1`: the first of the least rows.
use covey.Common.{
  ◌≡◌, refl, subst, sym, ◌∙◌, ◌≢◌, Bool, true, false, not, ◌&&◌, List, [], ◌∷◌, Option, none, some,
  if◌then◌else◌, ◌⊎◌, inl, inr, Among, Bool-cases, Option-cases, arith, ap,
}

true_ne_false : true ≢ false
true_ne_false e = cc

module _ {A : Type 0} (p : A → Bool) (before : A → A → Bool) where
  unfoldable pub better : A → Option A → Option A
  better x none = if p x then some x else none
  better x (some y) = if p x && not (before y x) then some x else some y

  -- The rows are read from the last one, so a row is kept unless one further on is before it.
  unfoldable pub first_least : List A → Option A
  unfolding better
  first_least [] = none
  first_least (x ∷ xs) = better x (first_least xs)

  -- A candidate that no candidate of the table is before.
  abbrev pub Least : A → List A → Type 0
  Least r xs =
      Among r xs × ((p r ≡ true) × ((q : A) → Among q xs → p q ≡ true → before q r ≡ false))

  better-none : (x : A) (o : Option A) → better x o ≡ none → (p x ≡ false) × (o ≡ none)
  unfolding better
  better-none x none e = (ground arith, refl)
  better-none x (some y) e = ground arith

  better-alone : (x : A) {r : A} → better x none ≡ some r → (r ≡ x) × (p x ≡ true)
  unfolding better
  better-alone x e = elim (Bool-cases (p x)) [ inl t ↦ (ground arith, t) | inr t ↦ ground arith ]

  -- Of a row and the least of the rest, one is kept.
  better-two :
      (x y : A) {r : A}
      → better x (some y) ≡ some r
      → ((r ≡ x) × ((p x ≡ true) × (before y x ≡ false)))
        ⊎ ((r ≡ y) × ((p x ≡ false) ⊎ (before y x ≡ true)))
  unfolding better
  better-two x y e = elim (Bool-cases (p x)) [
    | inr t ↦ inr (ground arith, inl t)
    | inl t ↦ elim (Bool-cases (before y x)) [
      | inl b ↦ inr (ground arith, inr b)
      | inr b ↦ inl (ground arith, (t, b))
    ]
  ]

  pub first_least-none : (xs : List A) → first_least xs ≡ none → (q : A) → Among q xs → p q ≡ false
  unfolding first_least
  first_least-none [] e q m = absurd m
  first_least-none (x ∷ xs) e q (inl i) = ap p i ∙ (better-none x (first_least xs) e).0
  first_least-none (x ∷ xs) e q (inr m) =
      first_least-none xs (better-none x (first_least xs) e).1 q m

  module _ (asym : (a b : A) → before a b ≡ true → before b a ≡ false)
      (through : (a b c : A) → before a b ≡ false → before b c ≡ false → before a c ≡ false) where
    irreflexive : (a : A) → before a a ≡ false
    irreflexive a = elim (Bool-cases (before a a)) [ inl t ↦ asym a a t | inr t ↦ t ]

    -- The row itself is least where every candidate of the rest is not before it.
    head-Least :
        (x : A) (xs : List A)
        → p x ≡ true
        → ((q : A) → Among q xs → p q ≡ true → before q x ≡ false)
        → Least x (x ∷ xs)
    head-Least x xs h rest = (inl refl, (h, all))
      where
        all : (q : A) → Among q (x ∷ xs) → p q ≡ true → before q x ≡ false
        all q (inl i) k = rw i (irreflexive x)
        all q (inr m) k = rest q m k

    tail-Least :
        (x y : A) (xs : List A)
        → Least y xs
        → ((p x ≡ false) ⊎ (before y x ≡ true))
        → Least y (x ∷ xs)
    tail-Least x y xs (m, (h, rest)) worse = (inr m, (h, all))
      where
        all : (q : A) → Among q (x ∷ xs) → p q ≡ true → before q y ≡ false
        all q (inr n) k = rest q n k
        all q (inl i) k = elim worse [
          | inl n ↦ absurd (true_ne_false (sym (subst (λ z. p z ≡ true) i k) ∙ n))
          | inr b ↦ rw i (asym y x b)
        ]

    pub first_least-Least : (xs : List A) {r : A} → first_least xs ≡ some r → Least r xs
    unfolding first_least
    first_least-Least [] e = cc
    first_least-Least (x ∷ xs) {r} e = elim (Option-cases (first_least xs)) [
      | inl n ↦
          let (i, h) = better-alone x (sym (ap (better x) n) ∙ e) in
          subst (λ z. Least z (x ∷ xs)) (sym i)
            (head-Least x xs h
              (λ q m k. absurd (true_ne_false (sym k ∙ first_least-none xs n q m))))
      | inr (y, s) ↦ elim (better-two x y (sym (ap (better x) s) ∙ e)) [
        | inl (i, (h, b)) ↦
            subst (λ z. Least z (x ∷ xs)) (sym i)
              (head-Least x xs h (λ q m k. through q y x ((first_least-Least xs s).1.1 q m k) b))
        | inr (i, worse) ↦
            subst (λ z. Least z (x ∷ xs)) (sym i) (tail-Least x y xs (first_least-Least xs s) worse)
      ]
    ]
