-- ===== src/Log/Answers.antt =====
-- The answers to retried requests.
use covey.Common.{ℕ, ◌≡◌, sym, subst, false, List, none, some, find, find-insert_new, ==_refl, ◌==◌}
use covey.Model.Errors.{idempotency_conflict}
use covey.Model.Rows.{Store, EventType, AttemptOutcome}
use covey.Txn.{Tx, Out, ok, err}
use covey.Txn.Idempotent.{Codec, Mutation, matches}
use covey.Txn.Triples.{Post}
use covey.Lifecycle.Claiming.{ClaimResult, ClaimSubtaskReq, claim_subtask}
use covey.Lifecycle.Completing.{OutcomeInput, record_direct_outcome}
use covey.Calls.{Codecs, Call, run}
use covey.Log.Operations.{Appends, claim_subtask_body-Appends}
use covey.Log.Closing.{record_direct_outcome_tx-Appends}
use covey.Log.Retries.{
  clocked, ticked, recorded, FirstUse, clocked-FirstUse, clocked-answer, clocked-conflict,
  matches-recorded,
}
use covey.Log.Replays.{Has, run-Has}

-- The same actor, operation and key, for another request.
abbrev pub with_hash : Mutation → ℕ → Mutation
with_hash m hash = record m { request_hash = hash }

module _ {A : Type 0} (codec : Codec A) (m : Mutation) where
  found_after :
      (now : ℕ) (ty : EventType) (token : ℕ) (s s0 : Store) (o : Out A) {a : A} {s1 : Store}
      → find (matches m) s.idempotency ≡ none
      → Post (λ a s'. FirstUse ty token (recorded codec m now a) s s') (λ s'. s' ≡ s0) o
      → o ≡ ok a s1
      → Has (matches m) (recorded codec m now a) s1
  found_after now ty token s s0 o {a} {s1} e h q =
      subst (λ rs. find (matches m) rs ≡ some (recorded codec m now a)) (sym u.one_record)
        (find-insert_new (matches m) _ _ e (matches-recorded codec m now a))
    where
      u : FirstUse ty token (recorded codec m now a) s s1
      u = subst (Post (λ a s'. FirstUse ty token (recorded codec m now a) s s') (λ s'. s' ≡ s0)) q h

  retried :
      (now now' : ℕ) (ty : EventType) (token : ℕ) (f g : ℕ → Tx A) (s : Store) {a : A} {s1 : Store}
      (c : Codecs) (calls : List Call)
      → ((lease_now : ℕ) → Appends ty token (f lease_now))
      → find (matches m) s.idempotency ≡ none
      → clocked codec m now f s ≡ ok a s1
      → clocked codec m now' g (run c calls s1) ≡ ok a (ticked now' (run c calls s1))
  retried now now' ty token f g s {a} {s1} c calls h e q =
      clocked-answer codec m now' g (run c calls s1)
        (run-Has c calls s1 (matches m) (recorded codec m now a) (
          found_after now ty token (ticked now s) s (clocked codec m now f s) e
            (clocked-FirstUse codec m now ty token f s h e) q))
        (==_refl m.request_hash) (codec.from_json-to_json a)

  reused :
      (now now' hash : ℕ) (ty : EventType) (token : ℕ) (f g : ℕ → Tx A) (s : Store) {a : A}
      {s1 : Store} (c : Codecs) (calls : List Call)
      → ((lease_now : ℕ) → Appends ty token (f lease_now))
      → find (matches m) s.idempotency ≡ none
      → clocked codec m now f s ≡ ok a s1
      → (m.request_hash == hash) ≡ false
      → clocked codec (with_hash m hash) now' g (run c calls s1)
        ≡ err (idempotency_conflict m.actor_key m.idempotency_key) (run c calls s1)
  reused now now' hash ty token f g s {a} {s1} c calls h e q n =
      clocked-conflict codec (with_hash m hash) now' g (run c calls s1)
        (run-Has c calls s1 (matches m) (recorded codec m now a) (
          found_after now ty token (ticked now s) s (clocked codec m now f s) e
            (clocked-FirstUse codec m now ty token f s h e) q))
        n

-- A `claim_subtask` that returned a claim returns the same claim when it is retried under its key,
-- whatever calls came between, and the retry changes nothing but the lease clock: the subtask is
-- not claimed twice.
pub claim_subtask-retry :
    (codec : Codec ClaimResult) (m : Mutation) (req : ClaimSubtaskReq) (id id' now now' : ℕ)
    (s s1 : Store) (result : ClaimResult) (c : Codecs) (calls : List Call)
    → find (matches m) s.idempotency ≡ none
    → claim_subtask codec m req id now s ≡ ok result s1
    → claim_subtask codec m req id' now' (run c calls s1) ≡ ok result (ticked now' (run c calls s1))
unfolding claim_subtask
claim_subtask-retry codec m req id id' now now' s s1 result c calls e q =
    retried codec m now now' _ _ _ _ s c calls (λ t. claim_subtask_body-Appends req id t now) e q

-- A direct outcome that was recorded is returned again when it is retried under its key, whatever
-- calls came between, and the retry changes nothing but the lease clock.
pub record_direct_outcome-retry :
    (codec : Codec AttemptOutcome) (m : Mutation) (input : OutcomeInput) (now now' : ℕ)
    (s s1 : Store) (result : AttemptOutcome) (c : Codecs) (calls : List Call)
    → find (matches m) s.idempotency ≡ none
    → record_direct_outcome codec m input now s ≡ ok result s1
    → record_direct_outcome codec m input now' (run c calls s1)
      ≡ ok result (ticked now' (run c calls s1))
unfolding record_direct_outcome
record_direct_outcome-retry codec m input now now' s s1 result c calls e q =
    retried codec m now now' _ _ _ _ s c calls (λ t. record_direct_outcome_tx-Appends _ input t now)
      e q

-- A key under which a `claim_subtask` returned a claim is refused to a request with another hash,
-- whatever calls came between: the answer is a conflict, and nothing changes, the lease clock
-- included.
pub claim_subtask-conflict :
    (codec : Codec ClaimResult) (m : Mutation) (req req' : ClaimSubtaskReq)
    (id id' now now' other_hash : ℕ) (s s1 : Store) (result : ClaimResult) (c : Codecs)
    (calls : List Call)
    → find (matches m) s.idempotency ≡ none
    → claim_subtask codec m req id now s ≡ ok result s1
    → (m.request_hash == other_hash) ≡ false
    → claim_subtask codec (with_hash m other_hash) req' id' now' (run c calls s1)
      ≡ err (idempotency_conflict m.actor_key m.idempotency_key) (run c calls s1)
unfolding claim_subtask
claim_subtask-conflict codec m req req' id id' now now' hash s s1 result c calls e q h =
    reused codec m now now' hash _ _ _ _ s c calls (λ t. claim_subtask_body-Appends req id t now) e
      q h
