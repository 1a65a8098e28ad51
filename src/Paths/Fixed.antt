-- ===== src/Paths/Fixed.antt =====
-- `normalize_relative_repo_path` of src/overlap.rs on paths that are in normal form already.
use mathlib.Core.List.{append-nil}
use covey.Common.{
  ℕ, ◌≡◌, refl, ◌∙◌, sym, subst, true, false, ◌&&◌, none, some, List, [], ◌∷◌, ◌++◌, arith,
}
use covey.Paths.{
  Text, slash, is_empty, same, starts_with, trim, trim_start, trim_end, is_whitespace,
  forward_slashes, onto_head, split, join, split-other, split-slash,
}
use covey.Paths.Scopes.{
  dot, enter, resolve, reversed_onto, has_drive, is_refused, joined, normalize_relative_repo_path,
}
use covey.Paths.Normal.{
  lacks, is_plain, is_component, every, Normal, resolve-step, reversed_onto-full,
  normalize_relative_repo_path-Normal,
}

split-lacks : (c : Text) → lacks slash c ≡ true → split c ≡ c ∷ []
unfolding split lacks onto_head
split-lacks [] h = refl
split-lacks (a ∷ c) h = ground (arith, split-lacks c)

split-append : (c rest : Text) → lacks slash c ≡ true → split (c ++ (slash ∷ rest)) ≡ c ∷ split rest
unfolding split lacks onto_head
split-append [] rest h = refl
split-append (a ∷ c) rest h = ground (arith, split-append c rest)

-- Splitting a joined path gives its components back.
pub split-join :
    (cs : List Text) → is_empty cs ≡ false → every is_component cs ≡ true → split (join cs) ≡ cs
unfolding join every is_component is_plain
split-join [] h k = cc
split-join (c ∷ []) h k = split-lacks c (ground arith)
split-join (c ∷ d ∷ cs) h k =
    rw (split-append c _ (ground arith), split-join (d ∷ cs) refl (ground arith))

lacks-append : (k : ℕ) (s t : Text) → lacks k (s ++ t) ≡ (lacks k s && lacks k t)
unfolding lacks
lacks-append k [] t = refl
lacks-append k (c ∷ s) t = ground (arith, lacks-append k s t)

lacks-join : (cs : List Text) → every is_component cs ≡ true → lacks 92 (join cs) ≡ true
unfolding join every is_component is_plain lacks
lacks-join [] k = refl
lacks-join (c ∷ []) k = ground arith
lacks-join (c ∷ d ∷ cs) k =
    ground (arith, lacks-append 92 c (slash ∷ join (d ∷ cs)), lacks-join (d ∷ cs))

enter-component :
    (c : Text) (stack : List Text) → is_component c ≡ true → enter c stack ≡ some (c ∷ stack)
unfolding enter is_component
enter-component c stack h = ground arith

resolve-reversed :
    (cs stack : List Text)
    → every is_component cs ≡ true
    → resolve cs stack ≡ some (reversed_onto cs stack)
unfolding every reversed_onto
resolve-reversed [] stack h = unfold resolve in refl
resolve-reversed (c ∷ cs) stack h =
    resolve-step c cs stack (enter-component c stack (ground arith))
    ∙ resolve-reversed cs (c ∷ stack) (ground arith)

reversed_onto-twice :
    (cs out more : List Text)
    → reversed_onto (reversed_onto cs out) more ≡ reversed_onto out (cs ++ more)
unfolding reversed_onto
reversed_onto-twice [] out more = refl
reversed_onto-twice (c ∷ cs) out more = reversed_onto-twice cs (c ∷ out) more

forward_slashes-same : (s : Text) → lacks 92 s ≡ true → forward_slashes s ≡ s
unfolding lacks forward_slashes
forward_slashes-same [] h = refl
forward_slashes-same (c ∷ s) h = ground (arith, forward_slashes-same s)

-- The prefixes that are refused are not those of a path in normal form, drives apart.
normal_prefix :
    (c : Text) (cs : List Text)
    → every is_component (c ∷ cs) ≡ true
    → has_drive (join (c ∷ cs)) ≡ false
    → is_refused (join (c ∷ cs)) ≡ false
unfolding is_refused every is_component is_plain lacks join starts_with same
normal_prefix [] cs h d = ground arith
normal_prefix (a ∷ []) [] h d = ground arith
normal_prefix (a ∷ []) (e ∷ cs) h d = ground arith
normal_prefix (a ∷ b ∷ []) [] h d = ground arith
normal_prefix (a ∷ b ∷ []) (e ∷ cs) h d = ground arith
normal_prefix (a ∷ b ∷ f ∷ c) [] h d = ground arith
normal_prefix (a ∷ b ∷ f ∷ c) (e ∷ cs) h d = ground arith

reads_components :
    (path : Text)
    → trim path ≡ path
    → lacks 92 path ≡ true
    → is_empty path ≡ false
    → is_refused path ≡ false
    → normalize_relative_repo_path path ≡ joined (resolve (split path) [])
unfolding normalize_relative_repo_path
reads_components path t l n r = ground (arith, forward_slashes-same path, t)

joined-full :
    (l : List Text) → is_empty l ≡ false → joined (some l) ≡ some (join (reversed_onto l []))
unfolding joined
joined-full [] h = cc
joined-full (c ∷ l) h = refl

joined-reversed :
    (c : Text) (cs : List Text) → joined (some (reversed_onto (c ∷ cs) [])) ≡ some (join (c ∷ cs))
joined-reversed c cs =
    rw
      (
        joined-full (reversed_onto (c ∷ cs) [])
            (unfold reversed_onto in reversed_onto-full c cs []),
        reversed_onto-twice (c ∷ cs) [] [],
      )
      (unfold reversed_onto in rw (append-nil cs) refl)

join-full :
    (c : Text) (cs : List Text)
    → every is_component (c ∷ cs) ≡ true
    → is_empty (join (c ∷ cs)) ≡ false
unfolding every is_component join
join-full [] cs h = ground arith
join-full (a ∷ c) [] h = refl
join-full (a ∷ c) (d ∷ cs) h = refl

join-fixed :
    (c : Text) (cs : List Text)
    → every is_component (c ∷ cs) ≡ true
    → trim (join (c ∷ cs)) ≡ join (c ∷ cs)
    → has_drive (join (c ∷ cs)) ≡ false
    → normalize_relative_repo_path (join (c ∷ cs)) ≡ some (join (c ∷ cs))
join-fixed c cs k t d =
    reads_components (join (c ∷ cs)) t (lacks-join (c ∷ cs) k) (join-full c cs k)
      (normal_prefix c cs k d)
    ∙ rw (split-join (c ∷ cs) refl k, resolve-reversed (c ∷ cs) [] k) (joined-reversed c cs)

-- A path in normal form that has no blank at an end and does not begin like a drive is returned as
-- it is.
pub normalize_relative_repo_path_fixed :
    (path : Text)
    → Normal path
    → trim path ≡ path
    → has_drive path ≡ false
    → normalize_relative_repo_path path ≡ some path
normalize_relative_repo_path_fixed path ([], (full, (k, e))) t d = absurd (cc)
normalize_relative_repo_path_fixed path (c ∷ cs, (full, (k, e))) t d =
    subst (λ p. normalize_relative_repo_path p ≡ some p) (sym e)
      (join-fixed c cs k (subst (λ p. trim p ≡ p) e t) (subst (λ p. has_drive p ≡ false) e d))

-- Normalizing twice is normalizing once, for a result that has no blank at an end and does not
-- begin like a drive.
pub normalize_relative_repo_path_twice :
    (raw : Text) {path : Text}
    → normalize_relative_repo_path raw ≡ some path
    → trim path ≡ path
    → has_drive path ≡ false
    → normalize_relative_repo_path path ≡ some path
normalize_relative_repo_path_twice raw {path} e t d =
    normalize_relative_repo_path_fixed path (normalize_relative_repo_path-Normal raw e) t d

-- A path behind `./`.
unfoldable pub dotted : Text → Text
dotted path = 46 ∷ slash ∷ path

pub dotted-trim : (path : Text) → trim_end path ≡ path → trim (dotted path) ≡ dotted path
unfolding dotted trim trim_start trim_end is_whitespace
dotted-trim path e = rw e

dotted-refused :
    (c : Text) (cs : List Text)
    → every is_component (c ∷ cs) ≡ true
    → is_refused (dotted (join (c ∷ cs))) ≡ false
unfolding dotted has_drive is_refused starts_with same every is_component is_plain lacks join
dotted-refused [] cs h = ground arith
dotted-refused (a ∷ []) [] h = ground arith
dotted-refused (a ∷ []) (e ∷ cs) h = ground arith
dotted-refused (a ∷ b ∷ []) [] h = ground arith
dotted-refused (a ∷ b ∷ []) (e ∷ cs) h = ground arith
dotted-refused (a ∷ b ∷ f ∷ c) [] h = ground arith
dotted-refused (a ∷ b ∷ f ∷ c) (e ∷ cs) h = ground arith

skips_dot : (cs : List Text) → resolve (dot ∷ cs) [] ≡ resolve cs []
skips_dot cs = resolve-step dot cs [] (unfold enter same in refl)

refused_drive :
    (path : Text)
    → trim path ≡ path
    → lacks 92 path ≡ true
    → has_drive path ≡ true
    → normalize_relative_repo_path path ≡ none
unfolding normalize_relative_repo_path is_refused
refused_drive path t l d = ground (arith, t, forward_slashes-same path)

dotted-split : (path : Text) → split (dotted path) ≡ dot ∷ split path
unfolding dotted
dotted-split path =
    rw (split-other 46 (slash ∷ path) refl, split-slash slash path refl) (unfold onto_head in refl)

-- A path in normal form with no blank at its end is what `./` before it is normalized to, whatever
-- it begins with.
pub normalize_relative_repo_path-dotted :
    (c : Text) (cs : List Text)
    → every is_component (c ∷ cs) ≡ true
    → trim_end (join (c ∷ cs)) ≡ join (c ∷ cs)
    → normalize_relative_repo_path (dotted (join (c ∷ cs))) ≡ some (join (c ∷ cs))
normalize_relative_repo_path-dotted c cs k te =
    reads_components (dotted (join (c ∷ cs))) (dotted-trim _ te)
      (unfold lacks dotted in lacks-join (c ∷ cs) k) (unfold dotted in refl) (dotted-refused c cs k)
    ∙ rw (dotted-split (join (c ∷ cs)), split-join (c ∷ cs) refl k, skips_dot)
        (rw (resolve-reversed (c ∷ cs) [] k) (joined-reversed c cs))

-- A path in normal form that begins like a drive and has no blank at an end is refused, and behind
-- `./` it is returned.
pub normalize_relative_repo_path_drive :
    (c : Text) (cs : List Text)
    → every is_component (c ∷ cs) ≡ true
    → trim (join (c ∷ cs)) ≡ join (c ∷ cs)
    → trim_end (join (c ∷ cs)) ≡ join (c ∷ cs)
    → has_drive (join (c ∷ cs)) ≡ true
    → (normalize_relative_repo_path (join (c ∷ cs)) ≡ none)
      × (normalize_relative_repo_path (dotted (join (c ∷ cs))) ≡ some (join (c ∷ cs)))
normalize_relative_repo_path_drive c cs k t te d = (
  refused_drive (join (c ∷ cs)) t (lacks-join (c ∷ cs) k) d,
  normalize_relative_repo_path-dotted c cs k te,
)
