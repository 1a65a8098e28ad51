-- ===== src/Reservations/Panics.antt =====
-- Requests on which an `expect` of src/ops/reservation.rs fails.
use covey.Common.{◌≡◌, refl, true, false, some, List, [], ◌∷◌, leb, arith}
use covey.Model.State.{ScopeClass}
use covey.Model.Errors.{panicked, CoveyError}
use covey.Model.Rows.{Store}
use covey.Txn.{Tx, err, pure, guard, or_fail, ◌>>=◌, for_each}
use covey.Paths.{Text, is_empty, same, same_refl, trim, trim_end, join}
use covey.Paths.Scopes.{normalize_scope_key, normalize_relative_repo_path}
use covey.Paths.Normal.{is_component, every}
use covey.Paths.Fixed.{dotted, dotted-trim, normalize_relative_repo_path-dotted}
use covey.Reservations.Scope as Scope
use covey.Reservations.Scope.{ReservationScope, from_parts, is_scope_key}
use covey.Reservations.Requests.{
  byte_length, ensure_length, ensure_generated_member_count, normalize_generated_members, sorted,
  normalize_members, sorted_unique_ids, ensure_reservation_scope_shape, max_path_len,
}
use covey.Reservations.Operations.{query_candidate, find_overlapping}

dotted_is_key : (path : Text) → trim_end path ≡ path → is_scope_key (dotted path) ≡ true
unfolding is_scope_key
dotted_is_key path e = rw (dotted-trim path e, same_refl (dotted path)) (unfold dotted in refl)

from_parts-dotted :
    (path : Text)
    → trim_end path ≡ path
    → from_parts ScopeClass.exact_path (dotted path) [] ≡ some (Scope.exact_path (dotted path))
unfolding from_parts
from_parts-dotted path e = rw (dotted_is_key path e) refl

query_candidate-key :
    (raw key : Text) (s : Store)
    → normalize_relative_repo_path raw ≡ some key
    → leb (byte_length key) max_path_len ≡ true
    → is_empty (trim key) ≡ false
    → is_scope_key key ≡ false
    → query_candidate ScopeClass.exact_path raw [] s ≡ err panicked s
unfolding query_candidate normalize_scope_key ensure_generated_member_count ensure_length
    normalize_generated_members sorted normalize_members sorted_unique_ids
    ensure_reservation_scope_shape for_each from_parts or_fail guard ◌>>=◌ pure
query_candidate-key raw key s e l t n = rw (e, l, t, n) refl

bind_err :
    {A B : Type 0} (m : Tx A) (f : A → Tx B) (s : Store) (x : CoveyError) {t : Store}
    → m s ≡ err x t
    → (m >>= f) s ≡ err x t
unfolding ◌>>=◌
bind_err m f s x e = rw (e, ◌>>=◌) refl

overlap_panics :
    (raw : Text) (s : Store)
    → query_candidate ScopeClass.exact_path raw [] s ≡ err panicked s
    → find_overlapping (Scope.exact_path raw) s ≡ err panicked s
unfolding find_overlapping Scope.scope_class Scope.scope_key Scope.generated_members
overlap_panics raw s e = bind_err (query_candidate ScopeClass.exact_path raw []) _ s panicked e

-- A scope whose raw key is `./` before a path in normal form that begins with a blank is admitted as
-- a request's scope, but reading it as a candidate panics.
pub find_overlapping-panicked :
    (c : Text) (cs : List Text) (s : Store)
    → every is_component (c ∷ cs) ≡ true
    → trim_end (join (c ∷ cs)) ≡ join (c ∷ cs)
    → same (trim (join (c ∷ cs))) (join (c ∷ cs)) ≡ false
    → is_empty (trim (join (c ∷ cs))) ≡ false
    → leb (byte_length (join (c ∷ cs))) max_path_len ≡ true
    → (from_parts ScopeClass.exact_path (dotted (join (c ∷ cs))) []
        ≡ some (Scope.exact_path (dotted (join (c ∷ cs)))))
      × (find_overlapping (Scope.exact_path (dotted (join (c ∷ cs)))) s ≡ err panicked s)
find_overlapping-panicked c cs s k te n f l = (
  from_parts-dotted (join (c ∷ cs)) te,
  overlap_panics (dotted (join (c ∷ cs))) s (
      query_candidate-key (dotted (join (c ∷ cs))) (join (c ∷ cs)) s
        (normalize_relative_repo_path-dotted c cs k te) l f (unfold is_scope_key in ground arith)),
)
