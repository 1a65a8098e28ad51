-- ===== src/Reservations/Overlaps.antt =====
-- The overlap queries of src/overlap.rs against what the two scopes cover.
use covey.Common.{
  ℕ, ◌≡◌, refl, sym, ◌∙◌, ◌↔◌, Bool, true, false, not, ◌&&◌, ◌||◌, List, [], ◌∷◌, ◌++◌, arith,
  exists_row,
}
use covey.Model.State.{ScopeClass}
use covey.Model.Rows.{Reservation}
use covey.Paths.{Text, is_empty, same, member}
use covey.Paths.Scopes.{path_ancestor_scope_keys}
use covey.Paths.Ancestors.{contains, is_relative, member-path_ancestor_scope_keys}
use covey.Paths.Ranges.{in_range_descendants}
use covey.Reservations.Scope as Scope
use covey.Reservations.Scope.{ReservationScope}
use covey.Reservations.Queries.{
  is_class, is_current, of_class, is_under, ancestor_keys, query_overlaps,
  query_overlap_ids_for_exact, query_overlap_ids_for_subtree, query_overlap_ids_for_generated,
}
use covey.Reservations.Meets.{
  Extent, points, tree, extent, meets, is_inhabited, Shares, meets-Shares, meets-of_Shares,
}

unfoldable pub all_relative : List Text → Bool
all_relative [] = true
all_relative (p ∷ ps) = is_relative p && all_relative ps

-- The keys of a scope that stand for paths are relative and not empty, and a generated set has a
-- member.
unfoldable pub is_grounded : ScopeClass → Text → List Text → Bool
unfolding all_relative
is_grounded ScopeClass.exact_path key members = is_relative key
is_grounded ScopeClass.subtree key members = is_relative key
is_grounded ScopeClass.repo_global key members = true
is_grounded ScopeClass.generated_set key members = not (is_empty members) && all_relative members

unfoldable pub scope_extent : ReservationScope → Extent
scope_extent scope =
    extent (Scope.scope_class scope) (Scope.scope_key scope) (Scope.generated_members scope)

unfoldable pub row_extent : Reservation → Extent
row_extent r = extent r.scope_class r.scope_key r.generated_members

same-sym : (a b : Text) → same a b ≡ same b a
unfolding same
same-sym [] [] = refl
same-sym [] (y ∷ b) = refl
same-sym (x ∷ a) [] = refl
same-sym (x ∷ a) (y ∷ b) = ground (arith, same-sym a b)

is_under-contains : (t key : Text) → (same key t || is_under t key) ≡ contains t key
unfolding is_under contains
is_under-contains t key = ground (arith, in_range_descendants t key, same-sym key t)

contains_same : (k t : Text) → same k t ≡ true → contains k t ≡ true
unfolding contains
contains_same k t h = ground arith

contains_or_under :
    (t key : Text) → (contains key t || is_under t key) ≡ (contains t key || contains key t)
contains_or_under t key = ground (arith, is_under-contains t key, contains_same key t)

exists-one :
    (path : Text) (qs : List Text) → exists_row (λ q. member q (path ∷ [])) qs ≡ member path qs
unfolding exists_row member
exists-one path [] = refl
exists-one path (q ∷ qs) = ground (arith, exists-one path qs, same-sym q path)

exists_under :
    (t : Text) (ms : List Text)
    → (member t ms || exists_row (is_under t) ms) ≡ exists_row (contains t) ms
unfolding exists_row member
exists_under t [] = refl
exists_under t (m ∷ ms) = ground (arith, exists_under t ms, is_under-contains t m, same-sym m t)

member-append : (k : Text) (xs ys : List Text) → member k (xs ++ ys) ≡ (member k xs || member k ys)
unfolding member
member-append k [] ys = refl
member-append k (x ∷ xs) ys = ground (arith, member-append k xs ys)

member-ancestor_keys :
    (k : Text) (ms : List Text)
    → all_relative ms ≡ true
    → member k (ancestor_keys ms) ≡ exists_row (contains k) ms
unfolding ancestor_keys all_relative exists_row member
member-ancestor_keys k [] h = refl
member-ancestor_keys k (m ∷ ms) h = ground (
  arith,
  member-append k (path_ancestor_scope_keys m) (ancestor_keys ms),
  member-ancestor_keys k ms,
  member-path_ancestor_scope_keys k m,
)

-- The three queries at a row of each class, `live` being whether the row is current.
exact_rows :
    (live : Bool) (path : Text) (class : ScopeClass) (key : Text) (members : List Text)
    → is_relative path ≡ true
    → ((live && is_class class ScopeClass.repo_global)
        || ((live && is_class class ScopeClass.exact_path) && same key path)
        || ((live && is_class class ScopeClass.subtree)
            && member key (path_ancestor_scope_keys path))
        || ((live && is_class class ScopeClass.generated_set) && member path members))
      ≡ (live && meets (points (path ∷ [])) (extent class key members))
unfolding extent meets exists_row member
exact_rows false path class key members h = ground arith
exact_rows true path ScopeClass.exact_path key members h = ground arith
exact_rows true path ScopeClass.subtree key members h =
    ground (arith, member-path_ancestor_scope_keys key path)
exact_rows true path ScopeClass.repo_global key members h = ground arith
exact_rows true path ScopeClass.generated_set key members h =
    ground (arith, exists-one path members)

exact-meets :
    (now : ℕ) (path : Text) (r : Reservation)
    → is_relative path ≡ true
    → query_overlap_ids_for_exact now path r
      ≡ (is_current now r && meets (points (path ∷ [])) (row_extent r))
unfolding query_overlap_ids_for_exact of_class row_extent
exact-meets now path r h =
    exact_rows (is_current now r) path r.scope_class r.scope_key r.generated_members h

subtree_rows :
    (live : Bool) (t : Text) (class : ScopeClass) (key : Text) (members : List Text)
    → is_relative t ≡ true
    → ((live && is_class class ScopeClass.repo_global)
        || (((live && is_class class ScopeClass.exact_path) && same key t)
            || ((live && is_class class ScopeClass.exact_path) && is_under t key))
        || (((live && is_class class ScopeClass.subtree) && member key (path_ancestor_scope_keys t))
            || ((live && is_class class ScopeClass.subtree) && is_under t key))
        || (((live && is_class class ScopeClass.generated_set) && member t members)
            || ((live && is_class class ScopeClass.generated_set)
                && exists_row (is_under t) members)))
      ≡ (live && meets (tree t) (extent class key members))
unfolding extent meets
subtree_rows false t class key members h = ground arith
subtree_rows true t ScopeClass.exact_path key members h =
    unfold exists_row in ground (arith, is_under-contains t key)
subtree_rows true t ScopeClass.subtree key members h =
    ground (arith, member-path_ancestor_scope_keys key t, contains_or_under t key)
subtree_rows true t ScopeClass.repo_global key members h = ground arith
subtree_rows true t ScopeClass.generated_set key members h = ground (arith, exists_under t members)

subtree-meets :
    (now : ℕ) (t : Text) (r : Reservation)
    → is_relative t ≡ true
    → query_overlap_ids_for_subtree now t r ≡ (is_current now r && meets (tree t) (row_extent r))
unfolding query_overlap_ids_for_subtree of_class row_extent
subtree-meets now t r h =
    subtree_rows (is_current now r) t r.scope_class r.scope_key r.generated_members h

generated_rows :
    (live : Bool) (ms : List Text) (class : ScopeClass) (key : Text) (members : List Text)
    → all_relative ms ≡ true
    → ((live && is_class class ScopeClass.repo_global)
        || ((live && is_class class ScopeClass.exact_path) && member key ms)
        || ((live && is_class class ScopeClass.subtree) && member key (ancestor_keys ms))
        || ((live && is_class class ScopeClass.generated_set)
            && exists_row (λ path. member path ms) members))
      ≡ (live && meets (points ms) (extent class key members))
unfolding extent meets
generated_rows false ms class key members h = ground arith
generated_rows true ms ScopeClass.exact_path key members h = unfold exists_row in ground arith
generated_rows true ms ScopeClass.subtree key members h =
    ground (arith, member-ancestor_keys key ms)
generated_rows true ms ScopeClass.repo_global key members h = ground arith
generated_rows true ms ScopeClass.generated_set key members h = ground arith

generated-meets :
    (now : ℕ) (ms : List Text) (r : Reservation)
    → all_relative ms ≡ true
    → query_overlap_ids_for_generated now ms r
      ≡ (is_current now r && meets (points ms) (row_extent r))
unfolding query_overlap_ids_for_generated of_class row_extent
generated-meets now ms r h =
    generated_rows (is_current now r) ms r.scope_class r.scope_key r.generated_members h

query-meets :
    (now : ℕ) (scope : ReservationScope) (r : Reservation)
    → is_grounded (Scope.scope_class scope) (Scope.scope_key scope) (Scope.generated_members scope)
      ≡ true
    → query_overlaps now scope r ≡ (is_current now r && meets (scope_extent scope) (row_extent r))
unfolding query_overlaps scope_extent extent is_grounded Scope.scope_class Scope.scope_key
    Scope.generated_members
query-meets now Scope.repo_global r h = unfold meets in ground arith
query-meets now (Scope.exact_path path) r h = exact-meets now path r h
query-meets now (Scope.subtree t) r h = subtree-meets now t r h
query-meets now (Scope.generated_set key ms) r h = generated-meets now ms r (ground arith)

inhabited_extent :
    (class : ScopeClass) (key : Text) (members : List Text)
    → is_grounded class key members ≡ true
    → is_inhabited (extent class key members) ≡ true
unfolding is_grounded extent is_inhabited
inhabited_extent ScopeClass.exact_path key members h = refl
inhabited_extent ScopeClass.subtree key members h = refl
inhabited_extent ScopeClass.repo_global key members h = refl
inhabited_extent ScopeClass.generated_set key members h = ground arith

-- What the overlap query promises of a row: it is active, in its lease, and covers a path that the
-- candidate covers too.
abbrev pub Overlaps : ℕ → ReservationScope → Reservation → Type 0
Overlaps now scope r = (is_current now r ≡ true) × Shares (scope_extent scope) (row_extent r)

-- For a candidate and a row whose keys and members are relative paths, the query of the candidate's
-- class returns the row exactly when the row is active, in its lease, and some path is covered by
-- both scopes.
pub query_overlaps_iff :
    (now : ℕ) (scope : ReservationScope) (r : Reservation)
    → is_grounded (Scope.scope_class scope) (Scope.scope_key scope) (Scope.generated_members scope)
      ≡ true
    → is_grounded r.scope_class r.scope_key r.generated_members ≡ true
    → (query_overlaps now scope r ≡ true) ↔ Overlaps now scope r
query_overlaps_iff now scope r h k = (
  λ e.
      let both : (is_current now r && meets (scope_extent scope) (row_extent r)) ≡ true =
        sym (query-meets now scope r h) ∙ e in
      (
        ground arith,
        meets-Shares (scope_extent scope) (row_extent r)
            (unfold scope_extent in
              inhabited_extent (Scope.scope_class scope) (Scope.scope_key scope)
                (Scope.generated_members scope) h)
            (unfold row_extent in inhabited_extent r.scope_class r.scope_key r.generated_members k)
            (ground arith),
      ),
  λ o.
      query-meets now scope r h
      ∙ (let shared = meets-of_Shares (scope_extent scope) (row_extent r) o.1 in
          ground (arith, o.0)),
)
