-- ===== src/Paths/Strings.antt =====
-- What src/overlap.rs uses of Rust's strings. A text is the list of its code points; SQLite's
-- BINARY order on UTF-8 is the lexicographic order of the code points.
use covey.Common.{
  ℕ, ◌≡◌, refl, ◌≢◌, Bool, true, false, ◌&&◌, ◌||◌, List, [], ◌∷◌, ◌++◌, arith, ltb, leb, ◌==◌,
  if◌then◌else◌, eq_of_==,
}

abbrev pub Text : Type 0
Text = List ℕ

-- The code point of `/`.
abbrev pub slash : ℕ
slash = 47

abbrev pub is_empty {ℓ} : {A : Type ℓ} → List A → Bool
is_empty [] = true
is_empty (x ∷ xs) = false

unfoldable pub same : Text → Text → Bool
same [] [] = true
same [] (b ∷ bs) = false
same (a ∷ as_) [] = false
same (a ∷ as_) (b ∷ bs) = a == b && same as_ bs

-- `str::starts_with`, with the prefix first.
unfoldable pub starts_with : Text → Text → Bool
starts_with [] s = true
starts_with (a ∷ p) [] = false
starts_with (a ∷ p) (c ∷ s) = a == c && starts_with p s

unfoldable pub member : Text → List Text → Bool
member k [] = false
member k (x ∷ xs) = same k x || member k xs

-- `a < b` in the order of the column.
unfoldable pub precedes : Text → Text → Bool
precedes a [] = false
precedes [] (b ∷ bs) = true
precedes (a ∷ as_) (b ∷ bs) = ltb a b || (a == b && precedes as_ bs)

-- `char::is_whitespace`.
unfoldable pub is_whitespace : ℕ → Bool
is_whitespace c =
    (leb 9 c && leb c 13)
    || (c == 32 || c == 133 || c == 160 || c == 5760 || (leb 8192 c && leb c 8202))
    || (c == 8232 || c == 8233 || c == 8239 || c == 8287 || c == 12288)

unfoldable pub trim_start : Text → Text
trim_start [] = []
trim_start (c ∷ s) = let rest = trim_start s in if is_whitespace c then rest else c ∷ s

unfoldable pub trim_end : Text → Text
trim_end [] = []
trim_end (c ∷ s) =
    let rest = trim_end s in if is_whitespace c && is_empty rest then [] else c ∷ rest

unfoldable pub trim : Text → Text
trim s = trim_end (trim_start s)

-- `replace('\\', "/")`.
unfoldable pub forward_slashes : Text → Text
forward_slashes [] = []
forward_slashes (c ∷ s) = (if c == 92 then slash else c) ∷ forward_slashes s

unfoldable pub onto_head : ℕ → List Text → List Text
onto_head c [] = (c ∷ []) ∷ []
onto_head c (p ∷ ps) = (c ∷ p) ∷ ps

-- `split('/')`.
unfoldable pub split : Text → List Text
split [] = [] ∷ []
split (c ∷ s) = let rest = split s in if c == slash then [] ∷ rest else onto_head c rest

-- `join("/")`.
unfoldable pub join : List Text → Text
join [] = []
join (p ∷ []) = p
join (p ∷ q ∷ ps) = p ++ (slash ∷ join (q ∷ ps))

pub same_refl : (a : Text) → same a a ≡ true
unfolding same
same_refl [] = refl
same_refl (a ∷ as_) = ground (arith, same_refl as_)

pub eq_of_same : (a b : Text) → same a b ≡ true → a ≡ b
unfolding same
eq_of_same [] [] h = refl
eq_of_same [] (b ∷ bs) h = cc
eq_of_same (a ∷ as_) [] h = cc
eq_of_same (a ∷ as_) (b ∷ bs) h = ground (arith, eq_of_same as_ bs, eq_of_== a b)

pub starts_with-append : (p s : Text) → starts_with p (p ++ s) ≡ true
unfolding starts_with
starts_with-append [] s = refl
starts_with-append (a ∷ p) s = ground (arith, starts_with-append p s)

onto_head_ne_nil : (c : ℕ) (ps : List Text) → onto_head c ps ≢ []
unfolding onto_head
onto_head_ne_nil c [] = λ e. cc
onto_head_ne_nil c (p ∷ ps) = λ e. cc

pub split_ne_nil : (s : Text) → split s ≢ []
unfolding split
split_ne_nil [] = λ e. cc
split_ne_nil (c ∷ s) = ground (arith, onto_head_ne_nil c (split s))

-- One character further, `split` starts a component or goes on with one.
pub split-slash : (c : ℕ) (s : Text) → (c == slash) ≡ true → split (c ∷ s) ≡ [] ∷ split s
unfolding split
split-slash c s e = ground arith

pub split-other : (c : ℕ) (s : Text) → (c == slash) ≡ false → split (c ∷ s) ≡ onto_head c (split s)
unfolding split
split-other c s e = ground arith
