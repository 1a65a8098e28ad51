-- ===== src/Reservations/Meets.antt =====
-- What a reservation covers, and when two of them cover a path in common: the reference for the
-- overlap queries of src/overlap.rs.
use covey.Common.{
  ◌≡◌, refl, sym, subst, Bool, true, false, not, ◌||◌, List, [], ◌∷◌, arith, exists_row, ap,
  Bool-cases, inl, inr,
}
use covey.Model.State.{ScopeClass}
use covey.Paths.{Text, is_empty, same, starts_with, member, same_refl, eq_of_same}
use covey.Paths.Scopes.{descendant_path_prefix}
use covey.Paths.Ancestors.{contains}

-- The paths under a scope: some paths, a subtree with its root, or all.
pub data Extent : Type 0 where
  points : List Text → Extent
  tree : Text → Extent
  everything : Extent

unfoldable pub extent : ScopeClass → Text → List Text → Extent
extent ScopeClass.exact_path key members = points (key ∷ [])
extent ScopeClass.subtree key members = tree key
extent ScopeClass.repo_global key members = everything
extent ScopeClass.generated_set key members = points members

unfoldable pub covers : Extent → Text → Bool
covers (points paths) path = member path paths
covers (tree root) path = contains root path
covers everything path = true

unfoldable pub meets : Extent → Extent → Bool
meets everything b = true
meets (points ps) everything = true
meets (points ps) (points qs) = exists_row (λ q. member q ps) qs
meets (points ps) (tree t) = exists_row (contains t) ps
meets (tree t) everything = true
meets (tree t) (points qs) = exists_row (contains t) qs
meets (tree t) (tree u) = contains t u || contains u t

-- The extent holds a path.
unfoldable pub is_inhabited : Extent → Bool
is_inhabited (points ps) = not (is_empty ps)
is_inhabited _ = true

-- Both extents cover some path.
abbrev pub Shares : Extent → Extent → Type 0
Shares a b = (path : Text) × ((covers a path ≡ true) × (covers b path ≡ true))

exists-member :
    (p : Text → Bool) (ps : List Text)
    → exists_row p ps ≡ true
    → (x : Text) × ((p x ≡ true) × (member x ps ≡ true))
unfolding exists_row member
exists-member p [] h = cc
exists-member p (x ∷ ps) h = elim (Bool-cases (p x)) [
  | inl t ↦ (x, (t, ground (arith, same_refl x)))
  | inr t ↦ let (y, (e, m)) = exists-member p ps (ground arith) in (y, (e, ground arith))
]

pub member-exists :
    (p : Text → Bool) (x : Text) (ps : List Text)
    → p x ≡ true
    → member x ps ≡ true
    → exists_row p ps ≡ true
unfolding exists_row member
member-exists p x [] e h = cc
member-exists p x (y ∷ ps) e h = elim (Bool-cases (same x y)) [
  | inl t ↦ ground (arith, ap p (eq_of_same x y t))
  | inr t ↦ ground (arith, member-exists p x ps e)
]

contains_refl : (t : Text) → contains t t ≡ true
unfolding contains
contains_refl t = ground (arith, same_refl t)

-- Two keys above one path are one above the other.
comparable :
    (a b p : Text)
    → starts_with (descendant_path_prefix a) p ≡ true
    → starts_with (descendant_path_prefix b) p ≡ true
    → (contains a b || contains b a) ≡ true
unfolding contains descendant_path_prefix starts_with same
comparable [] [] p h k = refl
comparable a b [] h k = ground arith
comparable [] (y ∷ b) (c ∷ p) h k = ground arith
comparable (x ∷ a) [] (c ∷ p) h k = ground arith
comparable (x ∷ a) (y ∷ b) (c ∷ p) h k = ground (arith, comparable a b p)

or_left : (a b : Bool) → a ≡ true → (a || b) ≡ true
or_left a b h = ground arith

or_right : (a b : Bool) → b ≡ true → (a || b) ≡ true
or_right true b h = refl
or_right false b h = h

trees_meet :
    (t u p : Text)
    → contains t p ≡ true
    → contains u p ≡ true
    → (contains t u || contains u t) ≡ true
trees_meet t u p h k = elim (Bool-cases (same t p)) [
  | inl e ↦
      or_right (contains t u) (contains u t)
        (subst (λ x. contains u x ≡ true) (sym (eq_of_same t p e)) k)
  | inr e ↦ elim (Bool-cases (same u p)) [
    | inl d ↦
        or_left (contains t u) (contains u t)
          (subst (λ x. contains t x ≡ true) (sym (eq_of_same u p d)) h)
    | inr d ↦ comparable t u p (unfold contains in ground arith) (unfold contains in ground arith)
  ]
]

inhabitant : (a : Extent) → is_inhabited a ≡ true → (path : Text) × (covers a path ≡ true)
unfolding is_inhabited covers member
inhabitant (points []) h = cc
inhabitant (points (p ∷ ps)) h = (p, ground (arith, same_refl p))
inhabitant (tree t) h = (t, contains_refl t)
inhabitant everything h = ([], refl)

pub meets-Shares :
    (a b : Extent) → is_inhabited a ≡ true → is_inhabited b ≡ true → meets a b ≡ true → Shares a b
unfolding meets covers
meets-Shares everything b ha hb h = let (p, e) = inhabitant b hb in (p, (refl, e))
meets-Shares (points ps) everything ha hb h =
    let (p, e) = inhabitant (points ps) ha in (p, (e, refl))
meets-Shares (tree t) everything ha hb h = (t, (contains_refl t, refl))
meets-Shares (points ps) (points qs) ha hb h = exists-member (λ q. member q ps) qs h
meets-Shares (points ps) (tree t) ha hb h =
    let (p, (e, m)) = exists-member (contains t) ps h in (p, (m, e))
meets-Shares (tree t) (points qs) ha hb h = exists-member (contains t) qs h
meets-Shares (tree t) (tree u) ha hb h = elim (Bool-cases (contains t u)) [
  | inl e ↦ (u, (e, contains_refl u))
  | inr e ↦ (t, (contains_refl t, ground arith))
]

pub meets-of_Shares : (a b : Extent) → Shares a b → meets a b ≡ true
unfolding meets covers
meets-of_Shares everything b h = refl
meets-of_Shares (points ps) everything h = refl
meets-of_Shares (tree t) everything h = refl
meets-of_Shares (points ps) (points qs) (p, (e, m)) = member-exists (λ q. member q ps) p qs e m
meets-of_Shares (points ps) (tree t) (p, (e, m)) = member-exists (contains t) p ps m e
meets-of_Shares (tree t) (points qs) (p, (e, m)) = member-exists (contains t) p qs e m
meets-of_Shares (tree t) (tree u) (p, (e, m)) = trees_meet t u p e m
