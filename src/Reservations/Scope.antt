-- ===== src/Reservations/Scope.antt =====
-- `ReservationScope` of src/model/records.rs, between its flat parts and its typed form.
use covey.Common.{
  ℕ, ◌≡◌, Bool, true, not, ◌&&◌, ◌||◌, Option, none, some, List, [], ◌∷◌, leb, ltb, if◌then◌else◌,
  exists_row, arith,
}
use covey.Model.State.{ScopeClass}
use covey.Paths.{Text, is_empty, same, member, trim, eq_of_same}
use covey.Paths.Scopes.{repo_key}

pub data ReservationScope : Type 0 where
  exact_path subtree : Text → ReservationScope
  repo_global : ReservationScope
  generated_set : Text → List Text → ReservationScope

-- `ReservationScopeKey::parse_for_scope`.
unfoldable pub is_scope_key : Text → Bool
is_scope_key key = not (is_empty (trim key)) && same (trim key) key

-- `char::is_control`.
unfoldable pub is_control : ℕ → Bool
is_control c = ltb c 32 || (leb 127 c && leb c 159)

-- `validate_generated_reservation_member_for_scope`.
unfoldable pub is_member_path : Text → Bool
unfolding is_control
is_member_path path =
    not (is_empty (trim path)) && same (trim path) path && not (exists_row is_control path)

-- The loop of `GeneratedReservationMembers::parse_for_scope`, with the members `seen` so far.
unfoldable pub members_fit : List Text → List Text → Bool
members_fit seen [] = true
members_fit seen (m ∷ ms) =
    let rest = members_fit (m ∷ seen) ms in is_member_path m && not (member m seen) && rest

-- `ReservationScope::from_parts`; `none` is one of its errors.
unfoldable pub from_parts : ScopeClass → Text → List Text → Option ReservationScope
from_parts ScopeClass.exact_path key members =
    if is_empty members && is_scope_key key then some (exact_path key) else none
from_parts ScopeClass.subtree key members =
    if is_empty members && is_scope_key key then some (subtree key) else none
from_parts ScopeClass.repo_global key members =
    if is_empty members && same key repo_key then some repo_global else none
from_parts ScopeClass.generated_set key members =
    if is_scope_key key && (not (is_empty members) && members_fit [] members)
    then some (generated_set key members)
    else none

unfoldable pub scope_class : ReservationScope → ScopeClass
scope_class (exact_path key) = ScopeClass.exact_path
scope_class (subtree key) = ScopeClass.subtree
scope_class repo_global = ScopeClass.repo_global
scope_class (generated_set key members) = ScopeClass.generated_set

unfoldable pub scope_key : ReservationScope → Text
scope_key (exact_path key) = key
scope_key (subtree key) = key
scope_key repo_global = repo_key
scope_key (generated_set key members) = key

unfoldable pub generated_members : ReservationScope → List Text
generated_members (generated_set key members) = members
generated_members (exact_path key) = []
generated_members (subtree key) = []
generated_members repo_global = []

-- `into_parts` gives exactly these three.
abbrev pub HasParts : ReservationScope → ScopeClass → Text → List Text → Type 0
HasParts scope class key members =
    (scope_class scope ≡ class) × ((scope_key scope ≡ key) × (generated_members scope ≡ members))

-- Building a scope from flat parts and taking it apart again gives the parts.
pub from_parts-HasParts :
    (class : ScopeClass) (key : Text) (members : List Text) (scope : ReservationScope)
    → from_parts class key members ≡ some scope
    → HasParts scope class key members
unfolding from_parts scope_class scope_key generated_members
from_parts-HasParts ScopeClass.exact_path key [] scope e = ground arith
from_parts-HasParts ScopeClass.exact_path key (m ∷ ms) scope e = ground arith
from_parts-HasParts ScopeClass.subtree key [] scope e = ground arith
from_parts-HasParts ScopeClass.subtree key (m ∷ ms) scope e = ground arith
from_parts-HasParts ScopeClass.repo_global key [] scope e = ground (arith, eq_of_same key repo_key)
from_parts-HasParts ScopeClass.repo_global key (m ∷ ms) scope e = ground arith
from_parts-HasParts ScopeClass.generated_set key ms scope e = ground arith

-- A scope that was built is built again from the parts that it is taken into.
pub from_parts_again :
    (class : ScopeClass) (key : Text) (members : List Text) (scope : ReservationScope)
    → from_parts class key members ≡ some scope
    → from_parts (scope_class scope) (scope_key scope) (generated_members scope) ≡ some scope
from_parts_again class key members scope e =
    let (c, (k, m)) = from_parts-HasParts class key members scope e in rw (c, k, m) e
