-- ===== src/Witnesses/Examples.antt =====
-- The theorems applied at concrete stores and requests, and runs of the operations.
use mathlib.Core.Bool.{decide}
use covey.Common.{◌≤◌, ◌≡◌, ◌≢◌, refl, ◌⊎◌, [], ◌∷◌, none, some, arith, max, ◌==◌, count, find}
use covey.Model.Rows.{empty_store, AttemptOutcome, Operation, Operation-discrete, subtask_finished}
use covey.Txn.{ok}
use covey.Txn.Idempotent.{matches}
use covey.Lifecycle.Creating.{contains, dedupe_subtask_dependencies}
use covey.Lifecycle.Deduping.{dedupe-exact}
use covey.Lifecycle.Completing.{record_direct_outcome_tx}
use covey.Dependencies.{dependency_satisfied, is_satisfied}
use covey.Dependencies.Depth.{Repaired, dependency_satisfied-exact}
use covey.Common.{◌↔◌, List, true}
use covey.Model.State.{SubtaskState}
use covey.Model.Rows.{Store, Followup, Subtask}
use covey.Witnesses.Data.{working, working_store}
use covey.Dependencies.{followup_chain}
use covey.Dependencies.Chains.{Supplied, followup_chain-exact}
use covey.Calls.{claims_one, perform, run}
use covey.Invariant.Counts.{Inv, empty_store-Inv}
use covey.Invariant.Histories.{run-Inv}
use covey.Log.Retries.{ticked}
use covey.Log.Histories.{Logs, reading, perform-one_event}
use covey.Log.Replays.{perform-replayed}
use covey.Fencing.Statements.{Dead}
use covey.Fencing.Histories.{run-Dead, run-Dead_fenced}
use covey.Witnesses.Data.{
  codecs, key, idle_store, late_store, keyed_store, used_key, claim_req, success, some_calls,
}

run-Inv_example : Inv (run codecs some_calls empty_store)
run-Inv_example = run-Inv codecs some_calls empty_store empty_store-Inv

late_claim-Dead : Dead 30 late_store
unfolding count
late_claim-Dead = record { known = omega arith; none_live = refl }

abbrev success_result : AttemptOutcome
success_result = record {
  claim_id = 30;
  subtask_id = 20;
  fence_seq = 1;
  outcome_kind = success.outcome_kind;
  evidence_digest = none;
  failure_code = none;
  summary = 4;
  recorded_at = 200;
}

run-Dead_example : Dead 30 (run codecs some_calls late_store)
run-Dead_example = run-Dead codecs some_calls late_store 30 late_claim-Dead

run-Dead_fenced_example :
    record_direct_outcome_tx subtask_finished success
      (max (run codecs some_calls late_store).last_tick_ms 200)
      200
      (ticked 200 (run codecs some_calls late_store))
    ≢ ok success_result late_store
run-Dead_fenced_example =
    run-Dead_fenced codecs some_calls late_store late_store subtask_finished success 200
      success_result late_claim-Dead

dedupe-exact_example :
    (contains (dedupe_subtask_dependencies (7 ∷ 8 ∷ 7 ∷ [])) 7 ≡ contains (7 ∷ 8 ∷ 7 ∷ []) 7)
    × (count (λ y. y == 7) (dedupe_subtask_dependencies (7 ∷ 8 ∷ 7 ∷ [])) ≤ 1)
dedupe-exact_example = dedupe-exact (7 ∷ 8 ∷ 7 ∷ []) 7

perform-one_event_example :
    (perform codecs (key Operation.claim_subtask 9) 200 (claims_one claim_req 30) idle_store
      ≡ idle_store)
    ⊎ Logs
        (key Operation.claim_subtask 9)
        200
        (claims_one claim_req 30)
        idle_store
        (perform codecs (key Operation.claim_subtask 9) 200 (claims_one claim_req 30) idle_store)
unfolding find
perform-one_event_example =
    perform-one_event codecs (key Operation.claim_subtask 9) 200 (claims_one claim_req 30)
      idle_store refl

used_key-found :
    find (matches (key Operation.claim_subtask 9)) keyed_store.idempotency ≡ some used_key
unfolding find decide Operation-discrete
used_key-found = refl

perform-replayed_example :
    (perform codecs (key Operation.claim_subtask 9) 200 (claims_one claim_req 30) keyed_store
      ≡ keyed_store)
    ⊎ (perform codecs (key Operation.claim_subtask 9) 200 (claims_one claim_req 30) keyed_store
        ≡ reading (claims_one claim_req 30) 200 keyed_store)
perform-replayed_example =
    perform-replayed codecs (key Operation.claim_subtask 9) 200 (claims_one claim_req 30)
      keyed_store used_key used_key-found

abbrev reworked : List Followup
reworked = record { review_id = 50; source_subtask_id = 20; followup_subtask_id = 21 } ∷ []

abbrev rework_done : List Subtask
rework_done = record working { subtask_id = 21; state = SubtaskState.completed } ∷ []

followup_chain-exact_example :
    (followup_chain 1 reworked rework_done 20 ≡ true) ↔ Supplied 1 reworked rework_done 20
followup_chain-exact_example = followup_chain-exact 1 reworked rework_done 20

-- Subtask 20 has failed its review and was repaired by subtask 21.
abbrev repaired_source : Store
repaired_source = record working_store { subtasks = working ∷ rework_done; followups = reworked }

dependency_satisfied-exact_example :
    (dependency_satisfied repaired_source working ≡ true)
    ↔ ((is_satisfied working ≡ true) ⊎ Repaired repaired_source working.subtask_id)
dependency_satisfied-exact_example = dependency_satisfied-exact repaired_source working
