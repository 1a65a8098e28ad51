-- ===== src/Reservations/Candidates.antt =====
-- The scopes that the guards of `request_reservation` of src/ops/reservation.rs let through.
use covey.Common.{◌≡◌, refl, Bool, true, false, Option, none, some, List, [], ◌∷◌, arith}
use covey.Model.State.{ScopeClass}
use covey.Model.Errors.{invalid_path, panicked}
use covey.Model.Rows.{Store}
use covey.Txn.Triples.{
  Triple, Triple-bind, Triple-given, Triple-weaken, Keeps-then, Triple-or_fail, keeps_rules,
}
use covey.Paths.{Text, is_empty, join}
use covey.Paths.Ancestors.{is_relative}
use covey.Paths.Normal.{
  Normal, is_component, is_plain, lacks, every, normalize_relative_repo_path-Normal,
}
use covey.Paths.Scopes.{normalize_scope_key, normalize_relative_repo_path}
use covey.Reservations.Scope as Scope
use covey.Reservations.Scope.{ReservationScope, from_parts, from_parts-HasParts}
use covey.Reservations.Overlaps.{is_grounded, all_relative}
use covey.Reservations.Requests.{
  insert_unique, sorted_unique_ids, consed, sorted, normalize_members, normalize_generated_members,
  read_candidate, ensure_generated_member_count, ensure_length, ensure_reservation_scope_shape,
}

join-is_relative :
    (cs : List Text)
    → is_empty cs ≡ false
    → every is_component cs ≡ true
    → is_relative (join cs) ≡ true
unfolding every is_component is_plain lacks join is_relative
join-is_relative [] h k = cc
join-is_relative ([] ∷ cs) h k = ground arith
join-is_relative ((c ∷ p) ∷ []) h k = ground arith
join-is_relative ((c ∷ p) ∷ q ∷ cs) h k = ground arith

Normal-is_relative : (path : Text) → Normal path → is_relative path ≡ true
Normal-is_relative path (cs, (h, (k, e))) = rw e (join-is_relative cs h k)

normalize-is_relative :
    (raw : Text) {path : Text}
    → normalize_relative_repo_path raw ≡ some path
    → is_relative path ≡ true
normalize-is_relative raw {path} e =
    Normal-is_relative path (normalize_relative_repo_path-Normal raw e)

insert_unique-relative :
    (k : Text) (xs : List Text)
    → is_relative k ≡ true
    → all_relative xs ≡ true
    → all_relative (insert_unique k xs) ≡ true
unfolding insert_unique all_relative
insert_unique-relative k [] h e = ground arith
insert_unique-relative k (x ∷ xs) h e = ground (arith, insert_unique-relative k xs)

sorted-relative :
    (xs : List Text) → all_relative xs ≡ true → all_relative (sorted_unique_ids xs) ≡ true
unfolding sorted_unique_ids all_relative
sorted-relative [] h = refl
sorted-relative (x ∷ xs) h =
    insert_unique-relative x (sorted_unique_ids xs) (ground arith)
      (sorted-relative xs (ground arith))

consed_parts :
    (o : Option Text) (q : Option (List Text)) {members : List Text}
    → consed o q ≡ some members
    → (m : Text) × ((ms : List Text) × ((o ≡ some m) × ((q ≡ some ms) × (members ≡ m ∷ ms))))
unfolding consed
consed_parts none none e = cc
consed_parts none (some ms) e = cc
consed_parts (some m) none e = cc
consed_parts (some m) (some ms) e = (m, (ms, (refl, (refl, cc))))

members-relative :
    (raw : List Text) {members : List Text}
    → normalize_members raw ≡ some members
    → all_relative members ≡ true
unfolding normalize_members all_relative
members-relative [] e = ground arith
members-relative (r ∷ rs) e =
    let (m, (ms, (em, (ems, eq)))) =
      consed_parts (normalize_relative_repo_path r) (normalize_members rs) e in
    rw eq (ground (arith, normalize-is_relative r em, members-relative rs ems))

sorted_parts :
    (o : Option (List Text)) {members : List Text}
    → sorted o ≡ some members
    → (ms : List Text) × ((o ≡ some ms) × (members ≡ sorted_unique_ids ms))
unfolding sorted
sorted_parts none e = cc
sorted_parts (some ms) e = (ms, (refl, cc))

generated-relative :
    (raw members : List Text)
    → normalize_generated_members raw ≡ some members
    → all_relative members ≡ true
unfolding normalize_generated_members
generated-relative raw members e =
    let (ms, (n, eq)) = sorted_parts (normalize_members raw) e in
    rw eq (sorted-relative ms (members-relative raw n))

-- What `from_parts` asks of a generated set's members.
from_parts-full :
    (key : Text) (members : List Text) {c : ReservationScope}
    → from_parts ScopeClass.generated_set key members ≡ some c
    → is_empty members ≡ false
unfolding from_parts
from_parts-full key [] e = ground arith
from_parts-full key (m ∷ ms) e = refl

-- The scope of normalized parts that fit together.
abbrev pub grounded : ReservationScope → Bool
grounded c = is_grounded (Scope.scope_class c) (Scope.scope_key c) (Scope.generated_members c)

parts-grounded :
    (class : ScopeClass) (raw key : Text) (raws members : List Text) (c : ReservationScope)
    → normalize_scope_key class raw ≡ some key
    → normalize_generated_members raws ≡ some members
    → from_parts class key members ≡ some c
    → is_grounded class key members ≡ true
unfolding is_grounded normalize_scope_key
parts-grounded ScopeClass.exact_path raw key raws members c k m e = normalize-is_relative raw k
parts-grounded ScopeClass.subtree raw key raws members c k m e = normalize-is_relative raw k
parts-grounded ScopeClass.repo_global raw key raws members c k m e = refl
parts-grounded ScopeClass.generated_set raw key raws members c k m e =
    ground (arith, generated-relative raws members m, from_parts-full key members e)

from_parts-grounded :
    (class : ScopeClass) (raw key : Text) (raws members : List Text) (c : ReservationScope)
    → normalize_scope_key class raw ≡ some key
    → normalize_generated_members raws ≡ some members
    → from_parts class key members ≡ some c
    → grounded c ≡ true
from_parts-grounded class raw key raws members c k m e =
    let (ec, (ek, em)) = from_parts-HasParts class key members c e in
    rw (ec, ek, em) (parts-grounded class raw key raws members c k m e)

-- A candidate that is read from raw parts has relative keys, and reading it writes nothing.
pub read_candidate-grounded :
    (P : Store → Type 0) (class : ScopeClass) (raw : Text) (raws : List Text)
    → Triple P (read_candidate class raw raws) (λ c s. (grounded c ≡ true) × P s) P
unfolding read_candidate ensure_generated_member_count
read_candidate-grounded P class raw raws = Keeps-then _ _ (search keeps_rules) λ _.
    Triple-bind _ _ (Triple-or_fail (normalize_scope_key class raw) invalid_path) λ key.
      Triple-given _ λ k. Keeps-then _ _ (unfold ensure_length in search keeps_rules) λ _.
        Triple-bind _ _ (Triple-or_fail (normalize_generated_members raws) invalid_path) λ ms.
          Triple-given _ λ m.
            Keeps-then _ _ (unfold ensure_reservation_scope_shape in search keeps_rules) λ _.
              Keeps-then _ _ (unfold ensure_length in search keeps_rules) λ _.
                Triple-weaken _ (Triple-or_fail (from_parts class key ms) panicked)
                  (λ c s h. (from_parts-grounded class raw key raws ms c k m h.0, h.1)) (λ s h. h)
