-- ===== src/Paths/Ranges.antt =====
-- The index range that the queries below a path scan: from `descendant_path_prefix` up to
-- `lexicographic_prefix_upper_bound` of it.
use covey.Common.{◌≡◌, refl, Bool, false, not, ◌&&◌, Option, none, some, [], ◌∷◌, ◌++◌, arith}
use covey.Paths.{Text, slash, starts_with, precedes}
use covey.Paths.Scopes.{descendant_path_prefix, has_successor, lexicographic_prefix_upper_bound}

-- `key >= prefix AND key < upper_bound`.
unfoldable pub in_range : Text → Option Text → Text → Bool
in_range prefix none key = false
in_range prefix (some bound) key = not (precedes key prefix) && precedes key bound

descendant_bound :
    (path : Text)
    → lexicographic_prefix_upper_bound (descendant_path_prefix path) ≡ some (path ++ (48 ∷ []))
unfolding lexicographic_prefix_upper_bound descendant_path_prefix has_successor
descendant_bound [] = refl
descendant_bound (c ∷ path) = rw (descendant_bound path)

precedes_range :
    (path key : Text)
    → (not (precedes key (path ++ (slash ∷ []))) && precedes key (path ++ (48 ∷ [])))
      ≡ starts_with (path ++ (slash ∷ [])) key
unfolding precedes starts_with
precedes_range [] [] = refl
precedes_range [] (c ∷ []) = ground arith
precedes_range [] (c ∷ d ∷ key) = ground arith
precedes_range (a ∷ path) [] = refl
precedes_range (a ∷ path) (c ∷ key) = ground (arith, precedes_range path key)

-- The range scanned below a path has a bound, and holds exactly the keys that go on below the path.
pub in_range_descendants :
    (path key : Text)
    → in_range
        (descendant_path_prefix path)
        (lexicographic_prefix_upper_bound (descendant_path_prefix path))
        key
      ≡ starts_with (descendant_path_prefix path) key
unfolding in_range descendant_path_prefix
in_range_descendants path key = rw (descendant_bound path) (precedes_range path key)
