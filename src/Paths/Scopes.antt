-- ===== src/Paths/Scopes.antt =====
-- `normalize_scope_key`, `normalize_generated_members`' step, and the keys that the overlap queries
-- of src/overlap.rs ask for.
use covey.Common.{
  ℕ, suc, Bool, false, not, ◌&&◌, ◌||◌, Option, none, some, List, [], ◌∷◌, ◌++◌, leb, ltb, ◌==◌,
  if◌then◌else◌,
}
use covey.Model.State.{ScopeClass}
use covey.Paths.{Text, slash, is_empty, same, starts_with, trim, forward_slashes, split, join}

-- The `components` of the loop, the last one first; `none` is `InvalidPath`.
unfoldable pub pop : List Text → Option (List Text)
pop [] = none
pop (c ∷ stack) = some stack

-- A component `"."`, and a component `".."`.
abbrev pub dot : Text
dot = 46 ∷ []

abbrev pub dot_dot : Text
dot_dot = 46 ∷ 46 ∷ []

unfoldable pub enter : Text → List Text → Option (List Text)
unfolding pop
enter component stack =
    if is_empty component || same component dot
    then some stack
    else if same component dot_dot
    then pop stack
    else some (component ∷ stack)

unfoldable pub resolve : List Text → List Text → Option (List Text)
resolve [] stack = some stack
resolve (c ∷ cs) stack = elim (enter c stack) [ none ↦ none | some next ↦ resolve cs next ]

unfoldable pub reversed_onto : List Text → List Text → List Text
reversed_onto [] out = out
reversed_onto (c ∷ cs) out = reversed_onto cs (c ∷ out)

-- `path.len() >= 2 && path.as_bytes()[1] == b':'`: the second byte is a colon when a colon follows
-- a character of one byte.
unfoldable pub has_drive : Text → Bool
has_drive (c ∷ d ∷ s) = ltb c 128 && d == 58
has_drive _ = false

-- The prefixes that are refused before the components are read.
unfoldable pub is_refused : Text → Bool
unfolding has_drive
is_refused path =
    starts_with (slash ∷ []) path
    || starts_with (46 ∷ slash ∷ 46 ∷ 46 ∷ slash ∷ []) path
    || same path dot_dot
    || has_drive path

unfoldable pub joined : Option (List Text) → Option Text
unfolding reversed_onto
joined none = none
joined (some []) = none
joined (some (c ∷ stack)) = some (join (reversed_onto (c ∷ stack) []))

unfoldable pub normalize_relative_repo_path : Text → Option Text
unfolding is_refused joined resolve
normalize_relative_repo_path raw =
    let path = forward_slashes (trim raw) in
    if is_empty (trim raw) || is_refused path then none else joined (resolve (split path) [])

-- The key of a repository-wide scope: `"repo"`.
abbrev pub repo_key : Text
repo_key = 114 ∷ 101 ∷ 112 ∷ 111 ∷ []

unfoldable pub normalize_scope_key : ScopeClass → Text → Option Text
normalize_scope_key ScopeClass.repo_global raw = some repo_key
normalize_scope_key ScopeClass.generated_set raw =
    if is_empty (trim raw) then none else some (trim raw)
normalize_scope_key ScopeClass.exact_path raw = normalize_relative_repo_path raw
normalize_scope_key ScopeClass.subtree raw = normalize_relative_repo_path raw

unfoldable pub ancestors_from : Text → List Text → List Text
ancestors_from current [] = []
ancestors_from current (c ∷ cs) =
    let next = (if is_empty current then c else current ++ (slash ∷ c)) in
    next ∷ ancestors_from next cs

unfoldable pub path_ancestor_scope_keys : Text → List Text
unfolding ancestors_from
path_ancestor_scope_keys path = ancestors_from [] (split path)

unfoldable pub descendant_path_prefix : Text → Text
descendant_path_prefix path = path ++ (slash ∷ [])

-- `char::from_u32(u32::from(ch) + 1)` is a character.
unfoldable pub has_successor : ℕ → Bool
has_successor c = ltb c 1114111 && not (leb 55295 c && ltb c 57343)

-- The loop from the last character: a bound found in the rest keeps this character, else the
-- character's own successor ends the text.
unfoldable pub lexicographic_prefix_upper_bound : Text → Option Text
unfolding has_successor
lexicographic_prefix_upper_bound [] = none
lexicographic_prefix_upper_bound (c ∷ s) = elim (lexicographic_prefix_upper_bound s) [
  | some bound ↦ some (c ∷ bound)
  | none ↦ if has_successor c then some (suc c ∷ []) else none
]
