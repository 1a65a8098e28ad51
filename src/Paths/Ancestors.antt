-- ===== src/Paths/Ancestors.antt =====
-- The keys that `path_ancestor_scope_keys` lists.
use mathlib.Core.List.{append_assoc, append-nil}
use covey.Common.{
  ℕ, ◌≡◌, refl, ◌≢◌, Bool, true, false, not, ◌||◌, List, [], ◌∷◌, ◌++◌, arith, Bool-cases, eq_of_==,
  ◌==◌, if◌then◌else◌, inl, inr,
}
use covey.Paths.{
  Text, slash, same, starts_with, member, onto_head, split, split_ne_nil, split-slash, split-other,
}
use covey.Paths.Scopes.{ancestors_from, path_ancestor_scope_keys, descendant_path_prefix}

-- A key contains a path: it is the path, or the path goes on below it.
unfoldable pub contains : Text → Text → Bool
contains key path = same key path || starts_with (descendant_path_prefix key) path

-- A path that does not begin with a slash, and is not empty.
unfoldable pub is_relative : Text → Bool
is_relative [] = false
is_relative (c ∷ s) = not (c == slash)

-- A text in front of each text of a list.
onto : Text → List Text → List Text
onto cur [] = []
onto cur (p ∷ ps) = (cur ++ p) ∷ onto cur ps

-- The beginnings of a text that end before a slash or with the text.
heads : Text → List Text
heads [] = [] ∷ []
heads (c ∷ s) = let rest = onto (c ∷ []) (heads s) in if c == slash then [] ∷ rest else rest

-- The loop from a current text that is not empty, the first component added without a slash.
walk : Text → List Text → List Text
walk cur [] = []
walk cur (c ∷ cs) = (cur ++ c) ∷ ancestors_from (cur ++ c) cs

walk-onto_head :
    (a : ℕ) (cur : Text) (c : ℕ) (ps : List Text)
    → ps ≢ []
    → walk (a ∷ cur) (onto_head c ps) ≡ walk (a ∷ (cur ++ (c ∷ []))) ps
unfolding walk onto_head
walk-onto_head a cur c [] h = absurd (h refl)
walk-onto_head a cur c (p ∷ ps) h = simp (append_assoc)

walk-empty :
    (a : ℕ) (cur : Text) (ps : List Text)
    → ps ≢ []
    → walk (a ∷ cur) ([] ∷ ps) ≡ (a ∷ cur) ∷ walk (a ∷ (cur ++ (slash ∷ []))) ps
unfolding walk ancestors_from
walk-empty a cur [] h = absurd (h refl)
walk-empty a cur (p ∷ ps) h = simp (append_assoc, append-nil)

onto-onto : (cur next : Text) (ps : List Text) → onto cur (onto next ps) ≡ onto (cur ++ next) ps
unfolding onto
onto-onto cur next [] = refl
onto-onto cur next (p ∷ ps) = simp (append_assoc, onto-onto cur next ps)

heads-slash :
    (c : ℕ) (s : Text) → (c == slash) ≡ true → heads (c ∷ s) ≡ [] ∷ onto (slash ∷ []) (heads s)
unfolding heads
heads-slash c s e = ground (arith, eq_of_== c slash)

heads-other : (c : ℕ) (s : Text) → (c == slash) ≡ false → heads (c ∷ s) ≡ onto (c ∷ []) (heads s)
unfolding heads
heads-other c s e = ground arith

onto-heads :
    (cur : Text) (ps : List Text)
    → cur ∷ onto (cur ++ (slash ∷ [])) ps ≡ onto cur ([] ∷ onto (slash ∷ []) ps)
unfolding onto
onto-heads cur ps = simp (append-nil, onto-onto)

walk-split : (a : ℕ) (cur s : Text) → walk (a ∷ cur) (split s) ≡ onto (a ∷ cur) (heads s)
walk-split a cur [] = unfold split heads walk onto ancestors_from in refl
walk-split a cur (c ∷ s) = elim (Bool-cases (c == slash)) [
  | inl e ↦
      rw
        (
          split-slash c s e,
          heads-slash c s e,
          walk-empty a cur _ (split_ne_nil s),
          walk-split a (cur ++ (slash ∷ [])) s,
        )
        (onto-heads (a ∷ cur) (heads s))
  | inr e ↦ rw (
    split-other c s e,
    heads-other c s e,
    walk-onto_head a cur c _ (split_ne_nil s),
    walk-split a (cur ++ (c ∷ [])) s,
    onto-onto,
  )
]

ancestors_from-walk :
    (c : ℕ) (ps : List Text) → ps ≢ [] → ancestors_from [] (onto_head c ps) ≡ walk (c ∷ []) ps
unfolding walk ancestors_from onto_head
ancestors_from-walk c [] h = absurd (h refl)
ancestors_from-walk c (p ∷ ps) h = refl

ancestors-heads :
    (c : ℕ) (s : Text) → (c == slash) ≡ false → path_ancestor_scope_keys (c ∷ s) ≡ heads (c ∷ s)
unfolding path_ancestor_scope_keys
ancestors-heads c s h = rw (
  split-other c s h,
  ancestors_from-walk c _ (split_ne_nil s),
  walk-split c [] s,
  heads-other c s h,
)

member-onto_same :
    (c : ℕ) (k : Text) (ps : List Text) → member (c ∷ k) (onto (c ∷ []) ps) ≡ member k ps
unfolding member onto same
member-onto_same c k [] = refl
member-onto_same c k (p ∷ ps) = ground (arith, member-onto_same c k ps)

member-onto_other :
    (b c : ℕ) (k : Text) (ps : List Text)
    → (b == c) ≡ false
    → member (b ∷ k) (onto (c ∷ []) ps) ≡ false
unfolding member onto same
member-onto_other b c k [] e = refl
member-onto_other b c k (p ∷ ps) e = ground (arith, member-onto_other b c k ps)

member-onto_nil : (c : ℕ) (ps : List Text) → member [] (onto (c ∷ []) ps) ≡ false
unfolding member onto same
member-onto_nil c [] = refl
member-onto_nil c (p ∷ ps) = ground (arith, member-onto_nil c ps)

member-heads : (k s : Text) → member k (heads s) ≡ contains k s
unfolding heads member contains descendant_path_prefix same starts_with
member-heads [] [] = refl
member-heads (a ∷ k) [] = refl
member-heads [] (c ∷ s) = ground (arith, member-onto_nil c (heads s))
member-heads (b ∷ k) (c ∷ s) =
    ground
      (arith, member-onto_same c k (heads s), member-onto_other b c k (heads s), member-heads k s)

not_slash : (b : Bool) → not b ≡ true → b ≡ false
not_slash true h = cc
not_slash false h = refl

-- The keys that the query for containing subtrees asks for are the keys that contain the path, at
-- every path that does not begin with a slash and is not empty.
pub member-path_ancestor_scope_keys :
    (k path : Text)
    → is_relative path ≡ true
    → member k (path_ancestor_scope_keys path) ≡ contains k path
unfolding is_relative
member-path_ancestor_scope_keys k [] h = cc
member-path_ancestor_scope_keys k (c ∷ s) h =
    rw (ancestors-heads c s (not_slash (c == slash) h)) (member-heads k (c ∷ s))
