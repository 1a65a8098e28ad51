-- ===== src/Dependencies/Chains.antt =====
-- The recursive `followup_chain` of DEPENDENCY_SATISFIED_SQL as a relation on the follow-up rows.
use covey.Common.{
  ℕ, zero, suc, ◌<◌, ◌≡◌, Bool, true, ◌&&◌, List, [], ◌∷◌, arith, ◌==◌, exists_row, Bool-cases, inl,
  inr, eq_of_==, ==_refl, ◌↔◌, subst, sym,
}
use covey.Model.Rows.{Subtask, Followup}
use covey.Dependencies.{any_followup, followup_chain, is_satisfied_id}

-- Some row makes `b` a follow-up of `a`.
abbrev pub follows : List Followup → ℕ → ℕ → Bool
follows fs a b = exists_row (λ f. f.source_subtask_id == a && f.followup_subtask_id == b) fs

-- `Chain fs n a b`: a chain of `n + 1` links from `a` to `b`.
pub data Chain (fs : List Followup) : ℕ → ℕ → ℕ → Type 0 where
  link : {a b : ℕ} → follows fs a b ≡ true → Chain fs zero a b
  more : {n a b c : ℕ} → follows fs a b ≡ true → Chain fs n b c → Chain fs (suc n) a c

any_followup_sound :
    (a : ℕ) (p : ℕ → Bool) (fs : List Followup)
    → any_followup a p fs ≡ true
    → (b : ℕ) × ((follows fs a b ≡ true) × (p b ≡ true))
unfolding any_followup exists_row
any_followup_sound a p [] h = ground (arith, h)
any_followup_sound a p (f ∷ fs) h =
    elim (Bool-cases (f.source_subtask_id == a && p f.followup_subtask_id)) [
      | inl e ↦ (
        f.followup_subtask_id,
        (ground (arith, e, ==_refl f.followup_subtask_id), ground (arith, e)),
      )
      | inr e ↦
          let rest = any_followup_sound a p fs (ground (arith, h, e)) in
          (rest.0, (ground (arith, rest.1.0), rest.1.1))
    ]

any_followup_complete :
    (a b : ℕ) (p : ℕ → Bool) (fs : List Followup)
    → follows fs a b ≡ true
    → p b ≡ true
    → any_followup a p fs ≡ true
unfolding any_followup exists_row
any_followup_complete a b p [] h q = ground (arith, h)
any_followup_complete a b p (f ∷ fs) h q =
    elim (Bool-cases (f.source_subtask_id == a && f.followup_subtask_id == b)) [
      | inl e ↦
          let same : p f.followup_subtask_id ≡ true =
            subst (λ x. p x ≡ true) (sym (eq_of_== f.followup_subtask_id b (ground (arith, e))))
              q in
          ground (arith, e, same)
      | inr e ↦ ground (arith, any_followup_complete a b p fs (ground (arith, h, e)) q)
    ]

-- A chain of at most `depth` links to a satisfied row.
abbrev pub Supplied : ℕ → List Followup → List Subtask → ℕ → Type 0
Supplied depth fs subtasks a =
    (n : ℕ) × ((b : ℕ) × ((n < depth) × (Chain fs n a b × (is_satisfied_id subtasks b ≡ true))))

followup_chain_sound :
    (depth : ℕ) (fs : List Followup) (subtasks : List Subtask) (a : ℕ)
    → followup_chain depth fs subtasks a ≡ true
    → Supplied depth fs subtasks a
unfolding followup_chain
followup_chain_sound zero fs subtasks a h = ground (arith, h)
followup_chain_sound (suc depth) fs subtasks a h =
    let found = any_followup_sound a _ fs h in
    elim (Bool-cases (is_satisfied_id subtasks found.0)) [
      | inl e ↦ (zero, (found.0, (omega arith, (link found.1.0, e))))
      | inr e ↦
          let rest =
            followup_chain_sound depth fs subtasks found.0 (ground (arith, found.1.1, e)) in
          (
            suc rest.0,
            (rest.1.0, (omega (arith, rest.1.1.0), (more found.1.0 rest.1.1.1.0, rest.1.1.1.1))),
          )
    ]

followup_chain_complete :
    (depth n : ℕ) (fs : List Followup) (subtasks : List Subtask) (a b : ℕ)
    → n < depth
    → Chain fs n a b
    → is_satisfied_id subtasks b ≡ true
    → followup_chain depth fs subtasks a ≡ true
unfolding followup_chain
followup_chain_complete zero n fs subtasks a b h c q = ground (arith, h)
followup_chain_complete (suc depth) n fs subtasks a b h (link e) q =
    any_followup_complete a b _ fs e (ground (arith, q))
followup_chain_complete (suc depth) n fs subtasks a b h (more {n = k} {b = x} e c) q =
    any_followup_complete a x _ fs e
      (ground (arith, followup_chain_complete depth k fs subtasks x b (omega (arith, h)) c q))

-- The chain query to a depth answers yes exactly when a chain of at most that many links leads from
-- the row to a satisfied one.
pub followup_chain-exact :
    (depth : ℕ) (fs : List Followup) (subtasks : List Subtask) (a : ℕ)
    → (followup_chain depth fs subtasks a ≡ true) ↔ Supplied depth fs subtasks a
followup_chain-exact depth fs subtasks a = (
  followup_chain_sound depth fs subtasks a,
  λ p. followup_chain_complete depth p.0 fs subtasks a p.1.0 p.1.1.0 p.1.1.1.0 p.1.1.1.1,
)
