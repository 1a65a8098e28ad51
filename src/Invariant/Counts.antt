-- ===== src/Invariant/Counts.antt =====
-- The invariant, as counts of rows: at most one row has each primary key, at most one session of a
-- principal is active, at most one claim on a subtask is held, every fence of a claim was issued by
-- the subtask's counter, and no two claims on a subtask have one fence.
use covey.Common.{
  ℕ, ◌+◌, ◌≤◌, ◌<◌, ◌≡◌, Bool, true, ◌&&◌, ◌==◌, List, [], ◌∷◌, arith, count, count-insert,
  count-select-le, select, count-update_where-le, insert, update_where,
}
use covey.Model.State.{is_held}
use covey.Model.Rows.{Store, Session, Claim, FenceCounter, empty_store}
use covey.Validators.{has_token, has_claim_id, active_of, held_on, next_fence, bump_fence}

-- A claim on a subtask with a fence.
abbrev pub fence_is : ℕ → ℕ → Claim → Bool
fence_is subtask_id fence r = r.subtask_id == subtask_id && r.fence_seq == fence

pub record Counts (sessions : List Session) (claims : List Claim) (fences : List FenceCounter)
    : Type 0 where
  pub session_key : (t : ℕ) → count (has_token t) sessions ≤ 1
  pub one_active : (p : ℕ) → count (active_of p) sessions ≤ 1
  pub claim_key : (c : ℕ) → count (has_claim_id c) claims ≤ 1
  pub one_held : (t : ℕ) → count (held_on t) claims ≤ 1
  pub fence_issued : (t f : ℕ) → next_fence t fences ≤ f → count (fence_is t f) claims ≡ 0
  pub fence_unique : (t f : ℕ) → count (fence_is t f) claims ≤ 1

abbrev pub Inv : Store → Type 0
Inv s = Counts s.sessions s.claims s.fence_counters

pub empty_store-Inv : Inv empty_store
unfolding empty_store count
empty_store-Inv = record {
  session_key = λ t. omega arith;
  one_active = λ p. omega arith;
  claim_key = λ c. omega arith;
  one_held = λ t. omega arith;
  fence_issued = λ t f h. omega arith;
  fence_unique = λ t f. omega arith;
}

pub next_fence-bump_self :
    (t : ℕ) (fences : List FenceCounter)
    → next_fence t (bump_fence t fences) ≡ next_fence t fences + 1
unfolding next_fence bump_fence
next_fence-bump_self t [] = ground arith
next_fence-bump_self t (r ∷ rs) = ground (arith, next_fence-bump_self t rs)

pub next_fence-le-bump :
    (t u : ℕ) (fences : List FenceCounter)
    → next_fence t fences ≤ next_fence t (bump_fence u fences)
unfolding next_fence bump_fence
next_fence-le-bump t u [] = ground arith
next_fence-le-bump t u (r ∷ rs) = ground (arith, next_fence-le-bump t u rs)

module _ {sessions : List Session} {claims : List Claim} {fences : List FenceCounter} where
  -- An update of sessions that keeps their tokens and principals, and activates none.
  pub Counts-update_sessions :
      (p : Session → Bool) (f : Session → Session)
      → ((r : Session) → (f r).session_token ≡ r.session_token)
      → ((r : Session) (k : ℕ) → active_of k (f r) ≡ true → active_of k r ≡ true)
      → Counts sessions claims fences
      → Counts (update_where p f sessions) claims fences
  Counts-update_sessions p f token active v = record {
    session_key = λ t. omega (
      arith,
      v.session_key t,
      count-update_where-le (has_token t) p f sessions (λ r _ h. ground (arith, token r)),
    );
    one_active = λ k. omega (
      arith,
      v.one_active k,
      count-update_where-le (active_of k) p f sessions (λ r _ h. active r k h),
    );
    claim_key = v.claim_key;
    one_held = v.one_held;
    fence_issued = v.fence_issued;
    fence_unique = v.fence_unique;
  }

  -- An update of claims that keeps their keys and fences, and takes none back into `held`.
  pub Counts-update_claims :
      (p : Claim → Bool) (f : Claim → Claim)
      → ((r : Claim) → (f r).claim_id ≡ r.claim_id)
      → ((r : Claim) → (f r).subtask_id ≡ r.subtask_id)
      → ((r : Claim) → (f r).fence_seq ≡ r.fence_seq)
      → ((r : Claim) → p r ≡ true → is_held (f r).state ≡ true → is_held r.state ≡ true)
      → Counts sessions claims fences
      → Counts sessions (update_where p f claims) fences
  Counts-update_claims p f key subtask fence held v = record {
    session_key = v.session_key;
    one_active = v.one_active;
    claim_key = λ c. omega (
      arith,
      v.claim_key c,
      count-update_where-le (has_claim_id c) p f claims (λ r _ h. ground (arith, key r)),
    );
    one_held = λ t. omega (
      arith,
      v.one_held t,
      count-update_where-le (held_on t) p f claims (λ r q h. ground (arith, subtask r, held r q)),
    );
    fence_issued = λ t n h. omega (
      arith,
      v.fence_issued t n h,
      count-update_where-le (fence_is t n) p f claims (λ r _ h. ground (arith, subtask r, fence r)),
    );
    fence_unique = λ t n. omega (
      arith,
      v.fence_unique t n,
      count-update_where-le (fence_is t n) p f claims (λ r _ h. ground (arith, subtask r, fence r)),
    );
  }

  pub Counts-select_claims :
      (p : Claim → Bool) → Counts sessions claims fences → Counts sessions (select p claims) fences
  Counts-select_claims p v = record {
    session_key = v.session_key;
    one_active = v.one_active;
    claim_key = λ c. omega (arith, v.claim_key c, count-select-le (has_claim_id c) p claims);
    one_held = λ t. omega (arith, v.one_held t, count-select-le (held_on t) p claims);
    fence_issued =
        λ t n h. omega (arith, v.fence_issued t n h, count-select-le (fence_is t n) p claims);
    fence_unique =
        λ t n. omega (arith, v.fence_unique t n, count-select-le (fence_is t n) p claims);
  }

  -- A new session with a fresh token, of a principal that has no active one.
  pub Counts-insert_session :
      (row : Session)
      → count (has_token row.session_token) sessions ≡ 0
      → count (active_of row.agent_principal_id) sessions ≡ 0
      → Counts sessions claims fences
      → Counts (insert row sessions) claims fences
  Counts-insert_session row fresh idle v = record {
    session_key = λ t. ground (arith, v.session_key t, count-insert (has_token t) row sessions);
    one_active = λ k. ground (arith, v.one_active k, count-insert (active_of k) row sessions);
    claim_key = v.claim_key;
    one_held = v.one_held;
    fence_issued = v.fence_issued;
    fence_unique = v.fence_unique;
  }

  pub Counts-bump_fence :
      (t : ℕ) → Counts sessions claims fences → Counts sessions claims (bump_fence t fences)
  Counts-bump_fence t v = record {
    session_key = v.session_key;
    one_active = v.one_active;
    claim_key = v.claim_key;
    one_held = v.one_held;
    fence_issued = λ u f h. v.fence_issued u f (omega (arith, next_fence-le-bump u t fences));
    fence_unique = v.fence_unique;
  }

  -- A new claim with a fresh key and a fresh fence below the counter, on a free subtask.
  pub Counts-insert_claim :
      (row : Claim)
      → count (has_claim_id row.claim_id) claims ≡ 0
      → count (held_on row.subtask_id) claims ≡ 0
      → count (fence_is row.subtask_id row.fence_seq) claims ≡ 0
      → row.fence_seq < next_fence row.subtask_id fences
      → Counts sessions claims fences
      → Counts sessions (insert row claims) fences
  Counts-insert_claim row fresh free unused issued v = record {
    session_key = v.session_key;
    one_active = v.one_active;
    claim_key = λ c. ground (arith, v.claim_key c, count-insert (has_claim_id c) row claims);
    one_held = λ t. ground (arith, v.one_held t, count-insert (held_on t) row claims);
    fence_issued =
        λ t n h. ground (arith, v.fence_issued t n h, count-insert (fence_is t n) row claims);
    fence_unique =
        λ t n. ground (arith, v.fence_unique t n, count-insert (fence_is t n) row claims);
  }
