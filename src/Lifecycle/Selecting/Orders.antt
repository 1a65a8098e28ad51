-- ===== src/Lifecycle/Selecting/Orders.antt =====
-- `ORDER BY` of `ordered_claim_candidate` of src/store.rs as strict orders on rows.
use covey.Common.{ℕ, ◌≡◌, Bool, true, false, ◌&&◌, ◌||◌, ltb, ◌==◌, arith}
use covey.Model.Rows.{Subtask}
use covey.Lifecycle.Selecting.{effective_priority, work_before, review_before}

-- The order of `ORDER BY a, b, c` on the keys.
key_before : ℕ → ℕ → ℕ → ℕ → ℕ → ℕ → Bool
key_before a b c a' b' c' = ltb a a' || (a == a' && (ltb b b' || (b == b' && ltb c c')))

key_asym :
    (a b c a' b' c' : ℕ) → key_before a b c a' b' c' ≡ true → key_before a' b' c' a b c ≡ false
unfolding key_before
key_asym a b c a' b' c' h = ground arith

key_through :
    (a b c d e f g h i : ℕ)
    → key_before a b c d e f ≡ false
    → key_before d e f g h i ≡ false
    → key_before a b c g h i ≡ false
unfolding key_before
key_through a b c d e f g h i u v = ground arith

pub work_asym : (now : ℕ) (a b : Subtask) → work_before now a b ≡ true → work_before now b a ≡ false
unfolding work_before key_before
work_asym now a b h =
    key_asym (effective_priority now a) a.priority a.created_at (effective_priority now b)
      b.priority b.created_at h

pub work_through :
    (now : ℕ) (a b c : Subtask)
    → work_before now a b ≡ false
    → work_before now b c ≡ false
    → work_before now a c ≡ false
unfolding work_before key_before
work_through now a b c h k =
    key_through (effective_priority now a) a.priority a.created_at (effective_priority now b)
      b.priority b.created_at (effective_priority now c) c.priority c.created_at h k

pub review_asym : (a b : Subtask) → review_before a b ≡ true → review_before b a ≡ false
unfolding review_before
review_asym a b h = ground arith

pub review_through :
    (a b c : Subtask)
    → review_before a b ≡ false
    → review_before b c ≡ false
    → review_before a c ≡ false
unfolding review_before
review_through a b c h k = ground arith
