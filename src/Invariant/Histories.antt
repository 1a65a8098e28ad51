-- ===== src/Invariant/Histories.antt =====
-- The invariant through histories of calls.
use covey.Common.{ℕ, ◌≡◌, List, [], ◌∷◌, arith, insert}
use covey.Model.Rows.{Store, FenceCounter}
use covey.Txn.{Tx, Out, with_write_tx, ok, err, after, advance_lease_clock, ◌>>=◌}
use covey.Txn.Idempotent.{Codec, Mutation, with_idempotent_mutation}
use covey.Txn.Triples.{Post, Keeps, keeps_rules, Keeps-modify, Keeps-bind}
use covey.Validators.{next_fence}
use covey.Lifecycle.Creating.{
  CreateWorkSubtaskReq, create_work_subtask_tx, create_work_subtask, insert_work_subtask,
  insert_fence_counter, insert_subtask_dependencies, insert_dependency,
  normalize_subtask_dependencies,
}
use covey.Lifecycle.Claiming.{claim_subtask}
use covey.Lifecycle.Holding.{start_subtask, abandon_subtask, release_claim, renew_claim}
use covey.Lifecycle.Completing.{record_direct_outcome}
use covey.MetaTasks.{submit_meta_task, cancel_meta_task}
use covey.Sessions.{register_session, heartbeat, exit_session}
use covey.Calls.{
  Codecs, Request, registers, heartbeats, exits, submits, cancels, creates, claims_one, starts,
  abandons, releases, renews, records_outcome, Call, mutates, reaps, expires_claims,
  expires_reservations, perform, step, run,
}
use covey.Invariant.Counts.{Inv}
use covey.Invariant.Statements.{statements_keep, advance_lease_clock-Inv}
use covey.Invariant.Claiming.{claim_subtask_body-Inv}
use covey.Invariant.Operations.{
  with_write_tx-Inv, with_idempotent_mutation-Inv, start_subtask_body-Inv, abandon_subtask_body-Inv,
  release_claim_body-Inv, renew_claim_body-Inv, refresh_meta_task_state-Inv,
}
use covey.Invariant.Closing.{
  record_direct_outcome_tx-Inv, submit_meta_task_tx-Inv, cancel_meta_task_body-Inv,
  register_session_body-Inv, heartbeat_body-Inv, exit_session_body-Inv, reap_stale_sessions-Inv,
  expire_old_claims-Inv, expire_old_reservations-Inv,
}

-- A counter that starts at 1 issues what a missing one would.
next_fence-insert :
    (t u : ℕ) (fences : List FenceCounter)
    → next_fence t (insert (record { subtask_id = u; next_fence_seq = 1 }) fences)
      ≡ next_fence t fences
unfolding next_fence insert
next_fence-insert t u [] = ground arith
next_fence-insert t u (r ∷ rs) = ground (arith, next_fence-insert t u rs)

insert_fence_counter-Inv : (t : ℕ) → Keeps Inv (insert_fence_counter t)
unfolding insert_fence_counter
insert_fence_counter-Inv t = Keeps-bind _ _ (search keeps_rules) λ taken.
    Keeps-bind _ _ (search keeps_rules) λ _. Keeps-modify _ λ s v. record {
      session_key = v.session_key;
      one_active = v.one_active;
      claim_key = v.claim_key;
      one_held = v.one_held;
      fence_issued =
          λ u f h. v.fence_issued u f (omega (arith, next_fence-insert u t s.fence_counters));
      fence_unique = v.fence_unique;
    }

insert_work_subtask-Inv :
    (req : CreateWorkSubtaskReq) (id now : ℕ) → Keeps Inv (insert_work_subtask req id now)
unfolding insert_work_subtask
insert_work_subtask-Inv req id now =
    search
      (
        keeps_rules, statements_keep, Keeps-modify, insert_fence_counter-Inv,
        refresh_meta_task_state-Inv,
      )
      depth 14

insert_dependency-Inv : (id d : ℕ) → Keeps Inv (insert_dependency id d)
unfolding insert_dependency
insert_dependency-Inv id d = search (keeps_rules, statements_keep, Keeps-modify)

normalize_subtask_dependencies-Inv :
    (id : ℕ) (ds : List ℕ) → Keeps Inv (normalize_subtask_dependencies id ds)
unfolding normalize_subtask_dependencies
normalize_subtask_dependencies-Inv id ds = search keeps_rules

insert_subtask_dependencies-Inv :
    (id : ℕ) (ds : List ℕ) → Keeps Inv (insert_subtask_dependencies id ds)
unfolding insert_subtask_dependencies
insert_subtask_dependencies-Inv id ds =
    search (keeps_rules, normalize_subtask_dependencies-Inv, insert_dependency-Inv)

create_work_subtask_tx-Inv :
    (req : CreateWorkSubtaskReq) (id now : ℕ) → Keeps Inv (create_work_subtask_tx req id now)
unfolding create_work_subtask_tx
create_work_subtask_tx-Inv req id now =
    search (keeps_rules, insert_work_subtask-Inv, insert_subtask_dependencies-Inv)

module _ {A : Type 0} where
  -- A transaction around an idempotent mutation, and one that reads the lease clock first.
  mutation-Inv :
      (codec : Codec A) (m : Mutation) (now : ℕ) (f : Tx A)
      → Keeps Inv f
      → Keeps Inv (with_write_tx (with_idempotent_mutation codec m now f))
  mutation-Inv codec m now f k = with_write_tx-Inv _ (with_idempotent_mutation-Inv codec m now f k)

  clocked-Inv :
      (codec : Codec A) (m : Mutation) (now : ℕ) (f : ℕ → Tx A)
      → ((lease_now : ℕ) → Keeps Inv (f lease_now))
      → Keeps Inv (
          with_write_tx
            (advance_lease_clock now >>= λ t. with_idempotent_mutation codec m now (f t)))
  clocked-Inv codec m now f k = with_write_tx-Inv _ (
      Keeps-bind _ _ (advance_lease_clock-Inv now)
        λ t. with_idempotent_mutation-Inv codec m now (f t) (k t))

  after-Inv : (m : Tx A) → Keeps Inv m → (s : Store) → Inv s → Inv (after (m s))
  after-Inv m k s v = settled (m s) (k.at s v)
    where
      settled : (r : Out A) → Post (λ _ s'. Inv s') Inv r → Inv (after r)
      settled (ok a s') h = h
      settled (err e s') h = h

perform-Inv :
    (c : Codecs) (m : Mutation) (now : ℕ) (request : Request) (s : Store)
    → Inv s
    → Inv (perform c m now request s)
unfolding perform create_work_subtask claim_subtask start_subtask abandon_subtask release_claim
    renew_claim record_direct_outcome submit_meta_task cancel_meta_task register_session heartbeat
    exit_session
perform-Inv c m now (registers req token) s =
    after-Inv _ (clocked-Inv _ m now _ (λ t. register_session_body-Inv req token t now)) s
perform-Inv c m now (heartbeats token) s =
    after-Inv _ (clocked-Inv _ m now _ (λ t. heartbeat_body-Inv token t now)) s
perform-Inv c m now (exits token) s =
    after-Inv _ (mutation-Inv _ m now _ (exit_session_body-Inv token now)) s
perform-Inv c m now (submits req id) s =
    after-Inv _ (mutation-Inv _ m now _ (submit_meta_task_tx-Inv req id now)) s
perform-Inv c m now (cancels req) s =
    after-Inv _ (mutation-Inv _ m now _ (cancel_meta_task_body-Inv req now)) s
perform-Inv c m now (creates req id) s =
    after-Inv _ (mutation-Inv _ m now _ (create_work_subtask_tx-Inv req id now)) s
perform-Inv c m now (claims_one req id) s =
    after-Inv _ (clocked-Inv _ m now _ (λ t. claim_subtask_body-Inv req id t now)) s
perform-Inv c m now (starts req) s =
    after-Inv _ (clocked-Inv _ m now _ (λ t. start_subtask_body-Inv req t now)) s
perform-Inv c m now (abandons req) s =
    after-Inv _ (clocked-Inv _ m now _ (λ t. abandon_subtask_body-Inv req t now)) s
perform-Inv c m now (releases req) s =
    after-Inv _ (clocked-Inv _ m now _ (λ t. release_claim_body-Inv req t now)) s
perform-Inv c m now (renews req extend) s =
    after-Inv _ (clocked-Inv _ m now _ (λ t. renew_claim_body-Inv req extend t now)) s
perform-Inv c m now (records_outcome input) s =
    after-Inv _ (clocked-Inv _ m now _ (λ t. record_direct_outcome_tx-Inv _ input t now)) s

-- One call keeps the invariant.
step-Inv : (c : Codecs) (call : Call) (s : Store) → Inv s → Inv (step c call s)
unfolding step
step-Inv c (mutates m now request) s = perform-Inv c m now request s
step-Inv c (reaps threshold now) s = after-Inv _ (reap_stale_sessions-Inv threshold now) s
step-Inv c (expires_claims now) s = after-Inv _ (expire_old_claims-Inv now) s
step-Inv c (expires_reservations now) s = after-Inv _ (expire_old_reservations-Inv now) s

-- From a store with the invariant, every history of calls leads to one with it: one row per
-- session token and per claim identifier, at most one active session of a principal, at most one
-- held claim on a subtask, every claim's fence issued by its subtask's counter, and no fence of a
-- subtask carried by two claims. Primary keys are checked on insertion; no other index is assumed.
pub run-Inv : (c : Codecs) (calls : List Call) (s : Store) → Inv s → Inv (run c calls s)
unfolding run
run-Inv c [] s v = v
run-Inv c (call ∷ calls) s v = run-Inv c calls (step c call s) (step-Inv c call s v)
