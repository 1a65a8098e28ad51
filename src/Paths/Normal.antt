-- ===== src/Paths/Normal.antt =====
-- The normal form of paths that `normalize_relative_repo_path` of src/overlap.rs returns.
use covey.Common.{
  ℕ, ◌≡◌, refl, ◌≢◌, Bool-cases, Bool, true, false, not, ◌&&◌, ◌||◌, Option, none, some, List, [],
  ◌∷◌, arith, ◌==◌, Option-cases, inl, inr,
}
use covey.Paths.{Text, slash, is_empty, same, trim, forward_slashes, onto_head, split, join}
use covey.Paths.Scopes.{
  dot, dot_dot, pop, enter, resolve, reversed_onto, is_refused, joined,
  normalize_relative_repo_path,
}

none_ne_some : {A : Type 0} (out : A) → none ≢ some out
none_ne_some out e = cc

-- No character of the text is `k`.
unfoldable pub lacks : ℕ → Text → Bool
lacks k [] = true
lacks k (c ∷ s) = not (c == k) && lacks k s

-- A text with neither separator in it.
unfoldable pub is_plain : Text → Bool
unfolding lacks
is_plain c = lacks slash c && lacks 92 c

-- What the loop keeps: a plain text that is not empty, `.` or `..`.
unfoldable pub is_component : Text → Bool
unfolding is_plain
is_component c = is_plain c && not (is_empty c || same c dot) && not (same c dot_dot)

unfoldable pub every : (Text → Bool) → List Text → Bool
every p [] = true
every p (x ∷ xs) = p x && every p xs

-- A path in normal form: one component or more, with a slash between two.
abbrev pub Normal : Text → Type 0
Normal path =
    (components : List Text) × ((is_empty components ≡ false)
      × ((every is_component components ≡ true) × (path ≡ join components)))

forward_slashes-lacks : (s : Text) → lacks 92 (forward_slashes s) ≡ true
unfolding lacks forward_slashes
forward_slashes-lacks [] = refl
forward_slashes-lacks (c ∷ s) = ground (arith, forward_slashes-lacks s)

onto_head-plain :
    (c : ℕ) (ps : List Text)
    → (c == slash) ≡ false
    → (c == 92) ≡ false
    → every is_plain ps ≡ true
    → every is_plain (onto_head c ps) ≡ true
unfolding every is_plain lacks onto_head
onto_head-plain c [] h k e = ground arith
onto_head-plain c (p ∷ ps) h k e = ground arith

split-plain : (s : Text) → lacks 92 s ≡ true → every is_plain (split s) ≡ true
unfolding every is_plain lacks split
split-plain [] h = refl
split-plain (c ∷ s) h = ground (arith, split-plain s, onto_head-plain c (split s))

enter-components :
    (c : Text) (stack : List Text) {next : List Text}
    → is_plain c ≡ true
    → every is_component stack ≡ true
    → enter c stack ≡ some next
    → every is_component next ≡ true
unfolding every is_component enter pop
enter-components c [] h k e = ground arith
enter-components c (d ∷ stack) h k e = ground arith

pub resolve-step :
    (c : Text) (cs stack : List Text) {next : List Text}
    → enter c stack ≡ some next
    → resolve (c ∷ cs) stack ≡ resolve cs next
unfolding resolve
resolve-step c cs stack e = ground arith

resolve-stop :
    (c : Text) (cs stack : List Text) → enter c stack ≡ none → resolve (c ∷ cs) stack ≡ none
unfolding resolve
resolve-stop c cs stack e = ground arith

resolve-components :
    (cs stack : List Text) {out : List Text}
    → every is_plain cs ≡ true
    → every is_component stack ≡ true
    → resolve cs stack ≡ some out
    → every is_component out ≡ true
resolve-components [] stack h k e = unfold resolve in ground arith
resolve-components (c ∷ cs) stack {out} h k e = elim (Option-cases (enter c stack)) [
  | inl stop ↦ absurd (none_ne_some out (cc (resolve-stop c cs stack stop)))
  | inr (next, go) ↦
      resolve-components cs next (unfold every in ground arith)
        (enter-components c stack (unfold every in ground arith) k go)
        (cc (resolve-step c cs stack go))
]

reversed_onto-every :
    (p : Text → Bool) (cs out : List Text)
    → every p cs ≡ true
    → every p out ≡ true
    → every p (reversed_onto cs out) ≡ true
unfolding every reversed_onto
reversed_onto-every p [] out h k = k
reversed_onto-every p (c ∷ cs) out h k =
    reversed_onto-every p cs (c ∷ out) (ground arith) (ground arith)

pub reversed_onto-full :
    (c : Text) (cs out : List Text) → is_empty (reversed_onto cs (c ∷ out)) ≡ false
unfolding reversed_onto
reversed_onto-full c [] out = refl
reversed_onto-full c (d ∷ cs) out = reversed_onto-full d cs (c ∷ out)

joined-Normal :
    (o : Option (List Text)) {path : Text}
    → ((stack : List Text) → o ≡ some stack → every is_component stack ≡ true)
    → joined o ≡ some path
    → Normal path
unfolding joined
joined-Normal none h e = cc
joined-Normal (some []) h e = cc
joined-Normal (some (c ∷ stack)) h e = (
  reversed_onto (c ∷ stack) [],
  (
    unfold reversed_onto in reversed_onto-full c stack [],
    (
      reversed_onto-every is_component (c ∷ stack) [] (h (c ∷ stack) refl) (unfold every in refl),
      cc,
    ),
  ),
)

-- Every path that is returned is in normal form.
pub normalize_relative_repo_path-Normal :
    (raw : Text) {out : Text} → normalize_relative_repo_path raw ≡ some out → Normal out
unfolding normalize_relative_repo_path
normalize_relative_repo_path-Normal raw {out} e =
    let path = forward_slashes (trim raw) in
    elim (Bool-cases (is_empty (trim raw) || is_refused path)) [
      | inl t ↦ absurd (none_ne_some out (ground arith))
      | inr t ↦
          joined-Normal (resolve (split path) [])
            (λ stack go.
              resolve-components (split path) []
                (split-plain path (forward_slashes-lacks (trim raw))) (unfold every in refl) go)
            (ground arith)
    ]
