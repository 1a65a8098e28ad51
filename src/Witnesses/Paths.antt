-- ===== src/Witnesses/Paths.antt =====
-- The theorems on paths at concrete texts.
use covey.Common.{◌≡◌, refl, none, some, [], ◌∷◌, exists_row}
use covey.Model.State.{ScopeClass}
use covey.Model.Errors.{panicked}
use covey.Model.Rows.{empty_store}
use covey.Txn.{err}
use covey.Paths.{
  Text, same, starts_with, member, trim, trim_start, trim_end, is_whitespace, forward_slashes,
  onto_head, split, join,
}
use covey.Paths.Scopes.{
  pop, enter, resolve, reversed_onto, has_drive, is_refused, joined, normalize_relative_repo_path,
  path_ancestor_scope_keys, descendant_path_prefix, lexicographic_prefix_upper_bound,
}
use covey.Paths.Ancestors.{contains, is_relative, member-path_ancestor_scope_keys}
use covey.Paths.Ranges.{in_range, in_range_descendants}
use covey.Paths.Normal.{
  Normal, lacks, is_plain, is_component, every, normalize_relative_repo_path-Normal,
}
use covey.Paths.Fixed.{
  dotted, normalize_relative_repo_path_twice, normalize_relative_repo_path_drive,
}
use covey.Reservations.Scope as Scope
use covey.Reservations.Scope.{
  HasParts, from_parts, from_parts-HasParts, is_scope_key, members_fit, is_member_path, is_control,
}
use covey.Reservations.Requests.{byte_length}
use covey.Reservations.Operations.{find_overlapping}
use covey.Reservations.Panics.{find_overlapping-panicked}

-- "src/../lib//a" and "lib/a".
abbrev pub raw_path : Text
raw_path = 115 ∷ 47 ∷ 46 ∷ 46 ∷ 47 ∷ 108 ∷ 47 ∷ 47 ∷ 97 ∷ []

abbrev pub lib : Text
lib = 108 ∷ []

abbrev pub lib_a : Text
lib_a = 108 ∷ 47 ∷ 97 ∷ []

normalizes : normalize_relative_repo_path raw_path ≡ some lib_a
unfolding normalize_relative_repo_path trim trim_start trim_end is_whitespace forward_slashes
    is_refused has_drive starts_with same split onto_head resolve enter pop joined reversed_onto
    join
normalizes = refl

normalize_relative_repo_path-Normal_example : Normal lib_a
normalize_relative_repo_path-Normal_example =
    normalize_relative_repo_path-Normal raw_path normalizes

normalize_relative_repo_path_twice_example : normalize_relative_repo_path lib_a ≡ some lib_a
unfolding trim trim_start trim_end is_whitespace has_drive
normalize_relative_repo_path_twice_example =
    normalize_relative_repo_path_twice raw_path normalizes refl refl

-- "c:" and "x".
abbrev drive : Text
drive = 99 ∷ 58 ∷ []

abbrev file : Text
file = 120 ∷ []

normalize_relative_repo_path_drive_example :
    (normalize_relative_repo_path (join (drive ∷ file ∷ [])) ≡ none)
    × (normalize_relative_repo_path (dotted (join (drive ∷ file ∷ [])))
        ≡ some (join (drive ∷ file ∷ [])))
unfolding trim trim_start trim_end is_whitespace has_drive every is_component is_plain lacks same
    join
normalize_relative_repo_path_drive_example =
    normalize_relative_repo_path_drive drive (file ∷ []) refl refl refl refl

-- " a", a component that begins with a blank.
abbrev blank_a : Text
blank_a = 32 ∷ 97 ∷ []

find_overlapping-panicked_example :
    (from_parts ScopeClass.exact_path (dotted (join (blank_a ∷ []))) []
      ≡ some (Scope.exact_path (dotted (join (blank_a ∷ [])))))
    × (find_overlapping (Scope.exact_path (dotted (join (blank_a ∷ [])))) empty_store
        ≡ err panicked empty_store)
unfolding trim trim_start trim_end is_whitespace every is_component is_plain lacks same join
    byte_length
find_overlapping-panicked_example =
    find_overlapping-panicked blank_a [] empty_store refl refl refl refl refl

in_range_descendants_example :
    in_range
      (descendant_path_prefix lib)
      (lexicographic_prefix_upper_bound (descendant_path_prefix lib))
      lib_a
    ≡ starts_with (descendant_path_prefix lib) lib_a
in_range_descendants_example = in_range_descendants lib lib_a

member-path_ancestor_scope_keys_example :
    member lib (path_ancestor_scope_keys lib_a) ≡ contains lib lib_a
unfolding is_relative
member-path_ancestor_scope_keys_example = member-path_ancestor_scope_keys lib lib_a refl

from_parts-HasParts_example :
    HasParts (Scope.generated_set lib (lib_a ∷ [])) ScopeClass.generated_set lib (lib_a ∷ [])
unfolding from_parts is_scope_key members_fit is_member_path is_control trim trim_start trim_end
    is_whitespace same member exists_row
from_parts-HasParts_example =
    from_parts-HasParts ScopeClass.generated_set lib (lib_a ∷ [])
      (Scope.generated_set lib (lib_a ∷ [])) refl
