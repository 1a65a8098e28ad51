-- ===== src/Common/Tables.antt =====
-- A table is the list of its rows, oldest first. `find` is `SELECT ... WHERE p` read by `query_row`
-- with `optional`, `update_where` is `UPDATE ... SET f WHERE p`, and `count` is the number of rows
-- that such a statement touches.
use Prim.Native.Nat.{ℕ, suc, ◌+◌, ◌≤◌}
use mathlib.Core.Path.{◌≡◌, refl, subst}
use mathlib.Core.Logic.{◌⊎◌, inl, inr}
use mathlib.Core.Bool.{Bool, true, false}
use mathlib.Core.Option.{Option, none, some}
use mathlib.Core.List.{List, [], ◌∷◌, ◌++◌}
use native.Mathlib.Omega.{arith}
use covey.Common.Tests.{if◌then◌else◌, Bool-cases}

module _ {ℓ} {A : Type ℓ} where
  abbrev pub length : List A → ℕ
  length [] = 0
  length (x ∷ xs) = suc (length xs)

  unfoldable pub find : (A → Bool) → List A → Option A
  find p [] = none
  find p (x ∷ xs) = if p x then some x else find p xs

  unfoldable pub exists_row : (A → Bool) → List A → Bool
  exists_row p [] = false
  exists_row p (x ∷ xs) = if p x then true else exists_row p xs

  unfoldable pub select : (A → Bool) → List A → List A
  select p [] = []
  select p (x ∷ xs) = let rest = select p xs in if p x then x ∷ rest else rest

  unfoldable pub count : (A → Bool) → List A → ℕ
  count p [] = 0
  count p (x ∷ xs) = (if p x then 1 else 0) + count p xs

  unfoldable pub update_where : (A → Bool) → (A → A) → List A → List A
  update_where p f [] = []
  update_where p f (x ∷ xs) = (if p x then f x else x) ∷ update_where p f xs

  unfoldable pub insert : A → List A → List A
  insert a xs = xs ++ (a ∷ [])

  pub count-append : (q : A → Bool) (xs ys : List A) → count q (xs ++ ys) ≡ count q xs + count q ys
  unfolding count
  count-append q [] ys = omega arith
  count-append q (x ∷ xs) ys = omega (arith, count-append q xs ys)

  pub count-insert :
      (q : A → Bool) (a : A) (xs : List A)
      → count q (insert a xs) ≡ count q xs + (if q a then 1 else 0)
  unfolding count insert
  count-insert q a xs = omega (arith, count-append q xs (a ∷ []))

  pub count_mono :
      (q r : A → Bool) (xs : List A) → ((x : A) → q x ≡ true → r x ≡ true) → count q xs ≤ count r xs
  unfolding count
  count_mono q r [] h = omega arith
  count_mono q r (x ∷ xs) h = ground (arith, h x, count_mono q r xs h)

  -- An update that lets no row into `q` cannot raise its count.
  pub count-update_where-le :
      (q p : A → Bool) (f : A → A) (xs : List A)
      → ((x : A) → p x ≡ true → q (f x) ≡ true → q x ≡ true)
      → count q (update_where p f xs) ≤ count q xs
  unfolding count update_where
  count-update_where-le q p f [] h = omega arith
  count-update_where-le q p f (x ∷ xs) h = ground (arith, h x, count-update_where-le q p f xs h)

  -- An update that lets no row out of `q` cannot lower its count.
  pub count-update_where-ge :
      (q p : A → Bool) (f : A → A) (xs : List A)
      → ((x : A) → q x ≡ true → q (f x) ≡ true)
      → count q xs ≤ count q (update_where p f xs)
  unfolding count update_where
  count-update_where-ge q p f [] h = omega arith
  count-update_where-ge q p f (x ∷ xs) h = ground (arith, h x, count-update_where-ge q p f xs h)

  pub count-of_find-none : (p : A → Bool) (xs : List A) → find p xs ≡ none → count p xs ≡ 0
  unfolding count find
  count-of_find-none p [] h = refl
  count-of_find-none p (x ∷ xs) h = ground (arith, count-of_find-none p xs)

  pub find-some_holds : (p : A → Bool) (xs : List A) {a : A} → find p xs ≡ some a → p a ≡ true
  unfolding find
  find-some_holds p [] h = cc
  find-some_holds p (x ∷ xs) {a} h = ground (arith, find-some_holds p xs {a = a})

  pub count-of_exists_row : (p : A → Bool) (xs : List A) → exists_row p xs ≡ false → count p xs ≡ 0
  unfolding count exists_row
  count-of_exists_row p [] h = refl
  count-of_exists_row p (x ∷ xs) h = ground (arith, count-of_exists_row p xs)

  pub count-select-le : (q p : A → Bool) (xs : List A) → count q (select p xs) ≤ count q xs
  unfolding count select
  count-select-le q p [] = omega arith
  count-select-le q p (x ∷ xs) = ground (arith, count-select-le q p xs)

  pub find-insert_found :
      (p : A → Bool) (a : A) (xs : List A) {r : A}
      → find p xs ≡ some r
      → find p (insert a xs) ≡ some r
  unfolding find insert
  find-insert_found p a [] {r} h = cc
  find-insert_found p a (x ∷ xs) {r} h = ground (arith, find-insert_found p a xs {r = r})

  pub find-insert_new :
      (p : A → Bool) (a : A) (xs : List A)
      → find p xs ≡ none
      → p a ≡ true
      → find p (insert a xs) ≡ some a
  unfolding find insert
  find-insert_new p a [] h e = ground (arith, e)
  find-insert_new p a (x ∷ xs) h e = ground (arith, find-insert_new p a xs)

  pub count-select_same :
      (q p : A → Bool) (xs : List A)
      → ((x : A) → q x ≡ true → p x ≡ true)
      → count q (select p xs) ≡ count q xs
  unfolding count select
  count-select_same q p [] h = refl
  count-select_same q p (x ∷ xs) h = ground (arith, h x, count-select_same q p xs h)

  pub count-of_find-some :
      (q p : A → Bool) (xs : List A) {a : A} → find p xs ≡ some a → q a ≡ true → 1 ≤ count q xs
  unfolding count find
  count-of_find-some q p [] {a} h e = cc
  count-of_find-some q p (x ∷ xs) {a} h e = ground (arith, e, h, count-of_find-some q p xs {a = a})

  -- An update that reaches every row of `q` and leaves none in it.
  pub count-update_where_none :
      (q p : A → Bool) (f : A → A) (xs : List A)
      → ((x : A) → q x ≡ true → p x ≡ true)
      → ((x : A) → p x ≡ true → q (f x) ≡ false)
      → count q (update_where p f xs) ≡ 0
  unfolding count update_where
  count-update_where_none q p f [] h k = refl
  count-update_where_none q p f (x ∷ xs) h k =
      ground (arith, h x, k x, count-update_where_none q p f xs h k)

-- The row is one of the table's.
abbrev pub Among : {A : Type 0} → A → List A → Type 0
Among a [] = ⊥
Among a (x ∷ xs) = (a ≡ x) ⊎ Among a xs

Among-if :
    {A : Type 0} (b : Bool) (a x : A) (xs : List A)
    → Among a xs
    → Among a (if b then x ∷ xs else xs)
Among-if true a x xs m = inr m
Among-if false a x xs m = m

pub Among-select :
    {A : Type 0} (p : A → Bool) (a : A) (xs : List A)
    → p a ≡ true
    → Among a xs
    → Among a (select p xs)
unfolding select
Among-select p a [] h m = m
Among-select p a (x ∷ xs) h (inl e) =
    let t : p x ≡ true = subst (λ y. p y ≡ true) e h in rw t (inl e)
Among-select p a (x ∷ xs) h (inr m) = Among-if (p x) a x (select p xs) (Among-select p a xs h m)

pub exists_row-Among :
    {A : Type 0} (p : A → Bool) (xs : List A)
    → exists_row p xs ≡ true
    → (x : A) × (Among x xs × (p x ≡ true))
unfolding exists_row
exists_row-Among p [] h = absurd (ground (arith, h))
exists_row-Among p (x ∷ xs) h = elim (Bool-cases (p x)) [
  | inl t ↦ (x, (inl refl, t))
  | inr f ↦ let (y, (m, t)) = exists_row-Among p xs (ground (arith, h, f)) in (y, (inr m, t))
]

pub exists_row-of_Among :
    {A : Type 0} (p : A → Bool) (x : A) (xs : List A)
    → Among x xs
    → p x ≡ true
    → exists_row p xs ≡ true
unfolding exists_row
exists_row-of_Among p x [] m h = absurd m
exists_row-of_Among p x (y ∷ xs) (inl e) h =
    let t : p y ≡ true = subst (λ z. p z ≡ true) e h in ground (arith, t)
exists_row-of_Among p x (y ∷ xs) (inr m) h = ground (arith, exists_row-of_Among p x xs m h)
