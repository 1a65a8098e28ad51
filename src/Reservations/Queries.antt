-- ===== src/Reservations/Queries.antt =====
-- The overlap queries of src/overlap.rs. A query is the set of rows that it returns; the identifiers
-- that several queries return are joined without repetition, which is `||` of their rows. Keys go
-- to the store in chunks, whose results are joined too.
use covey.Common.{
  ℕ, Bool, true, false, ◌&&◌, ◌||◌, List, [], ◌∷◌, ◌++◌, ltb, if◌then◌else◌, exists_row, select,
}
use covey.Model.State.{ScopeClass, is_live_reservation}
use covey.Model.Rows.{Store, Reservation}
use covey.Paths.{Text, same, member}
use covey.Paths.Scopes.{
  path_ancestor_scope_keys, descendant_path_prefix, lexicographic_prefix_upper_bound,
}
use covey.Paths.Ranges.{in_range}
use covey.Reservations.Scope as Scope
use covey.Reservations.Scope.{ReservationScope}

-- `scope_class = ?`.
abbrev pub is_class : ScopeClass → ScopeClass → Bool
is_class ScopeClass.exact_path ScopeClass.exact_path = true
is_class ScopeClass.subtree ScopeClass.subtree = true
is_class ScopeClass.repo_global ScopeClass.repo_global = true
is_class ScopeClass.generated_set ScopeClass.generated_set = true
is_class _ _ = false

-- `state = 'active' AND lease_deadline > ?1`.
unfoldable pub is_current : ℕ → Reservation → Bool
is_current lease_now r = is_live_reservation r.state && ltb lease_now r.lease_deadline

-- The rows of one class that a query looks at.
unfoldable pub of_class : ℕ → ScopeClass → Reservation → Bool
unfolding is_current
of_class lease_now class r = is_current lease_now r && is_class r.scope_class class

unfoldable pub query_repo_global_ids_at : ℕ → Reservation → Bool
query_repo_global_ids_at lease_now r = of_class lease_now ScopeClass.repo_global r

unfoldable pub query_exact_path_ids_at : ℕ → Text → Reservation → Bool
query_exact_path_ids_at lease_now path r =
    of_class lease_now ScopeClass.exact_path r && same r.scope_key path

unfoldable pub query_containing_subtree_ids_at : ℕ → Text → Reservation → Bool
query_containing_subtree_ids_at lease_now path r =
    of_class lease_now ScopeClass.subtree r && member r.scope_key (path_ancestor_scope_keys path)

unfoldable pub query_generated_member_ids_at : ℕ → Text → Reservation → Bool
query_generated_member_ids_at lease_now path r =
    of_class lease_now ScopeClass.generated_set r && member path r.generated_members

unfoldable pub query_overlap_ids_for_exact : ℕ → Text → Reservation → Bool
unfolding query_repo_global_ids_at query_exact_path_ids_at query_containing_subtree_ids_at
    query_generated_member_ids_at
query_overlap_ids_for_exact lease_now path r =
    query_repo_global_ids_at lease_now r
    || query_exact_path_ids_at lease_now path r
    || query_containing_subtree_ids_at lease_now path r
    || query_generated_member_ids_at lease_now path r

-- `key >= descendant_path_prefix AND key < upper_bound`; without a bound nothing is returned.
unfoldable pub is_under : Text → Text → Bool
is_under path key =
    in_range (descendant_path_prefix path)
      (lexicographic_prefix_upper_bound (descendant_path_prefix path)) key

unfoldable pub query_reservation_scope_ids_under_path_at :
    ℕ → ScopeClass → Text → Reservation → Bool
query_reservation_scope_ids_under_path_at lease_now class path r =
    of_class lease_now class r && is_under path r.scope_key

unfoldable pub query_generated_member_ids_in_descendant_range_at : ℕ → Text → Reservation → Bool
query_generated_member_ids_in_descendant_range_at lease_now path r =
    of_class lease_now ScopeClass.generated_set r && exists_row (is_under path) r.generated_members

unfoldable pub query_overlap_ids_for_subtree : ℕ → Text → Reservation → Bool
unfolding query_repo_global_ids_at query_exact_path_ids_at query_containing_subtree_ids_at
    query_generated_member_ids_at query_reservation_scope_ids_under_path_at
    query_generated_member_ids_in_descendant_range_at
query_overlap_ids_for_subtree lease_now subtree r =
    query_repo_global_ids_at lease_now r
    || (query_exact_path_ids_at lease_now subtree r
        || query_reservation_scope_ids_under_path_at lease_now ScopeClass.exact_path subtree r)
    || (query_containing_subtree_ids_at lease_now subtree r
        || query_reservation_scope_ids_under_path_at lease_now ScopeClass.subtree subtree r)
    || (query_generated_member_ids_at lease_now subtree r
        || query_generated_member_ids_in_descendant_range_at lease_now subtree r)

unfoldable pub query_reservation_scope_ids_for_keys_at :
    ℕ → ScopeClass → List Text → Reservation → Bool
query_reservation_scope_ids_for_keys_at lease_now class keys r =
    of_class lease_now class r && member r.scope_key keys

-- The ancestors of every member, which `sort_unstable` and `dedup` only rearrange.
unfoldable pub ancestor_keys : List Text → List Text
ancestor_keys [] = []
ancestor_keys (m ∷ ms) = path_ancestor_scope_keys m ++ ancestor_keys ms

unfoldable pub query_generated_member_ids_for_members : ℕ → List Text → Reservation → Bool
query_generated_member_ids_for_members lease_now members r =
    of_class lease_now ScopeClass.generated_set r
    && exists_row (λ path. member path members) r.generated_members

unfoldable pub query_overlap_ids_for_generated : ℕ → List Text → Reservation → Bool
unfolding query_repo_global_ids_at query_reservation_scope_ids_for_keys_at ancestor_keys
    query_generated_member_ids_for_members
query_overlap_ids_for_generated lease_now members r =
    query_repo_global_ids_at lease_now r
    || query_reservation_scope_ids_for_keys_at lease_now ScopeClass.exact_path members r
    || query_reservation_scope_ids_for_keys_at lease_now ScopeClass.subtree (ancestor_keys members)
        r
    || query_generated_member_ids_for_members lease_now members r

unfoldable pub query_overlaps : ℕ → ReservationScope → Reservation → Bool
unfolding query_overlap_ids_for_exact query_overlap_ids_for_subtree query_overlap_ids_for_generated
query_overlaps lease_now Scope.repo_global r = is_current lease_now r
query_overlaps lease_now (Scope.exact_path path) r = query_overlap_ids_for_exact lease_now path r
query_overlaps lease_now (Scope.subtree path) r = query_overlap_ids_for_subtree lease_now path r
query_overlaps lease_now (Scope.generated_set key members) r =
    query_overlap_ids_for_generated lease_now members r

-- `ORDER BY created_at`.
unfoldable pub insert_by_creation : Reservation → List Reservation → List Reservation
insert_by_creation r [] = r ∷ []
insert_by_creation r (q ∷ qs) =
    if ltb q.created_at r.created_at then q ∷ insert_by_creation r qs else r ∷ q ∷ qs

unfoldable pub sort_by_creation : List Reservation → List Reservation
unfolding insert_by_creation
sort_by_creation [] = []
sort_by_creation (r ∷ rs) = insert_by_creation r (sort_by_creation rs)

unfoldable pub find_overlapping_reservations : ReservationScope → Store → List Reservation
unfolding sort_by_creation query_overlaps
find_overlapping_reservations candidate s =
    sort_by_creation (select (query_overlaps s.last_tick_ms candidate) s.reservations)
