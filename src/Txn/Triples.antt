-- ===== src/Txn/Triples.antt =====
-- Assertions about actions: from a store with `P`, an action that returns leaves `Q` of its result
-- and store, and one that fails leaves `E` of the store at that point.
use covey.Common.{◌≡◌, refl, Bool, true, false, List, [], ◌∷◌, Option, none, some, if◌then◌else◌}
use covey.Model.Errors.{CoveyError}
use covey.Model.Rows.{Store}
use covey.Txn.{Out, ok, err, Tx, pure, fail, guard, or_fail, gets, modify, on_some, ◌>>=◌, for_each}

abbrev pub Post : {A : Type 0} → (A → Store → Type 0) → (Store → Type 0) → Out A → Type 0
Post Q E (ok a s) = Q a s
Post Q E (err e s) = E s

pub record Triple {A : Type 0} (P : Store → Type 0) (m : Tx A) (Q : A → Store → Type 0)
    (E : Store → Type 0) : Type 0 where
  pub at : (s : Store) → P s → Post Q E (m s)

-- `P` holds after the action as before, whether it returns or fails.
abbrev pub Keeps : {A : Type 0} → (Store → Type 0) → Tx A → Type 0
Keeps P m = Triple P m (λ _ s. P s) P

module _ {A : Type 0} {P : Store → Type 0} where
  pub Keeps-pure : (a : A) → Keeps P (pure a)
  unfolding pure
  Keeps-pure a = record { at = λ s h. h }

  pub Keeps-fail : (e : CoveyError) → Keeps P (fail {A = A} e)
  unfolding fail
  Keeps-fail e = record { at = λ s h. h }

  pub Keeps-gets : (f : Store → A) → Keeps P (gets f)
  unfolding gets
  Keeps-gets f = record { at = λ s h. h }

  pub Keeps-or_fail : (o : Option A) (e : CoveyError) → Keeps P (or_fail o e)
  unfolding or_fail
  Keeps-or_fail none e = record { at = λ s h. h }
  Keeps-or_fail (some a) e = record { at = λ s h. h }

  pub Keeps-if : (b : Bool) (m n : Tx A) → Keeps P m → Keeps P n → Keeps P (if b then m else n)
  Keeps-if true m n km kn = km
  Keeps-if false m n km kn = kn

module _ {P : Store → Type 0} where
  pub Keeps-guard : (b : Bool) (e : CoveyError) → Keeps P (guard b e)
  unfolding guard
  Keeps-guard true e = record { at = λ s h. h }
  Keeps-guard false e = record { at = λ s h. h }

  pub Keeps-modify : (f : Store → Store) → ((s : Store) → P s → P (f s)) → Keeps P (modify f)
  unfolding modify
  Keeps-modify f h = record { at = h }

module _ {A B : Type 0} {E : Store → Type 0} where
  continue-Post :
      {R : A → Store → Type 0} {Q : B → Store → Type 0} (f : A → Tx B)
      → ((a : A) → Triple (R a) (f a) Q E)
      → (m : Tx A) (s : Store) (r : Out A) → m s ≡ r
      → Post R E r
      → Post Q E ((m >>= f) s)
  unfolding ◌>>=◌
  continue-Post f h m s (ok a s') e p = rw (e, ◌>>=◌) ((h a).at s' p)
  continue-Post f h m s (err x s') e p = rw (e, ◌>>=◌) p

module _ {A B : Type 0} {P E : Store → Type 0} where
  pub Triple-bind :
      {R : A → Store → Type 0} {Q : B → Store → Type 0} (m : Tx A) (f : A → Tx B)
      → Triple P m R E
      → ((a : A) → Triple (R a) (f a) Q E)
      → Triple P (m >>= f) Q E
  Triple-bind m f hm hf = record { at = λ s p. continue-Post f hf m s (m s) refl (hm.at s p) }

module _ {A B : Type 0} {P : Store → Type 0} where
  pub Keeps-then :
      {Q : B → Store → Type 0} (m : Tx A) (f : A → Tx B)
      → Keeps P m
      → ((a : A) → Triple P (f a) Q P)
      → Triple P (m >>= f) Q P
  Keeps-then m f hm hf = Triple-bind m f hm hf

  pub Keeps-bind :
      (m : Tx A) (f : A → Tx B) → Keeps P m → ((a : A) → Keeps P (f a)) → Keeps P (m >>= f)
  Keeps-bind m f hm hf = Triple-bind m f hm hf

  pub Keeps-on_some :
      (o : Option A) (m : Tx B) (f : A → Tx B)
      → Keeps P m
      → ((a : A) → Keeps P (f a))
      → Keeps P (on_some o m f)
  unfolding on_some
  Keeps-on_some none m f hm hf = hm
  Keeps-on_some (some a) m f hm hf = hf a

module _ {A : Type 0} {P : Store → Type 0} where
  pub Keeps-for_each :
      (xs : List A) (body : A → Tx (Unit {0}))
      → ((x : A) → Keeps P (body x))
      → Keeps P (for_each xs body)
  unfolding for_each
  Keeps-for_each [] body h = Keeps-pure tt
  Keeps-for_each (x ∷ xs) body h =
      Triple-bind (body x) (λ _. for_each xs body) (h x) (λ _. Keeps-for_each xs body h)

module _ {A : Type 0} {P E : Store → Type 0} {Q : A → Store → Type 0} where
  pub Triple-pure : (a : A) → ((s : Store) → P s → Q a s) → Triple P (pure a) Q E
  unfolding pure
  Triple-pure a h = record { at = h }

  pub Triple-fail : (e : CoveyError) → ((s : Store) → P s → E s) → Triple P (fail e) Q E
  unfolding fail
  Triple-fail e h = record { at = h }

  pub Triple-gets : (f : Store → A) → ((s : Store) → P s → Q (f s) s) → Triple P (gets f) Q E
  unfolding gets
  Triple-gets f h = record { at = h }

module _ {A : Type 0} {P : Store → Type 0} where
  pub Triple-weaken :
      {Q R : A → Store → Type 0} {E F : Store → Type 0} (m : Tx A)
      → Triple P m Q E
      → ((a : A) (s : Store) → Q a s → R a s)
      → ((s : Store) → E s → F s)
      → Triple P m R F
  Triple-weaken {Q} {R} {E} {F} m h q e = record { at = λ s p. weaken (m s) (h.at s p) }
    where
      weaken : (r : Out A) → Post Q E r → Post R F r
      weaken (ok a s) p = q a s p
      weaken (err x s) p = e s p

module _ {A : Type 0} {P E : Store → Type 0} {Q : A → Store → Type 0} where
  pub Triple-from :
      {R : Store → Type 0} (m : Tx A) → ((s : Store) → R s → P s) → Triple P m Q E → Triple R m Q E
  Triple-from m f h = record { at = λ s p. h.at s (f s p) }

module _ {A : Type 0} {P E : Store → Type 0} {Q : A → Store → Type 0} {K : Type 0} where
  -- A fact that does not mention the store becomes a hypothesis.
  pub Triple-given : (m : Tx A) → (K → Triple P m Q E) → Triple (λ s. K × P s) m Q E
  Triple-given m h = record { at = λ s p. (h p.0).at s p.1 }

module _ {P Q E : Store → Type 0} where
  pub Triple-guard :
      (b : Bool) (e : CoveyError)
      → ((s : Store) → P s → b ≡ true → Q s)
      → ((s : Store) → P s → E s)
      → Triple P (guard b e) (λ _ s. Q s) E
  unfolding guard
  Triple-guard true e h k = record { at = λ s p. h s p refl }
  Triple-guard false e h k = record { at = k }

  pub Triple-modify :
      (f : Store → Store) → ((s : Store) → P s → Q (f s)) → Triple P (modify f) (λ _ s. Q s) E
  unfolding modify
  Triple-modify f h = record { at = h }

module _ {A : Type 0} {P : Store → Type 0} where
  -- What `or_fail` returns is the value of the option.
  pub Triple-or_fail :
      (o : Option A) (e : CoveyError) → Triple P (or_fail o e) (λ a s. (o ≡ some a) × P s) P
  unfolding or_fail
  Triple-or_fail none e = record { at = λ s h. h }
  Triple-or_fail (some a) e = record { at = λ s h. (refl, h) }

pub ruleset keeps_rules = (
  Keeps-pure, Keeps-fail, Keeps-gets, Keeps-or_fail, Keeps-if, Keeps-guard, Keeps-bind,
  Keeps-on_some, Keeps-for_each,
)
