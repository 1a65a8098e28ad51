-- ===== src/Log/Histories.antt =====
-- What a call appends to the event log and to the idempotency records, and what a retry returns
-- after any history.
use covey.Common.{ℕ, ◌≡◌, ◌⊎◌, inl, inr, true, none, find}
use covey.Model.Rows.{
  Store, EventType, IdempotencyRecord, session_registered, session_heartbeat, session_exited,
  meta_task_submitted, meta_task_cancelled, work_subtask_created, subtask_claimed, subtask_started,
  subtask_abandoned, claim_released, claim_renewed,
}
use covey.Txn.{Out, ok, err, after}
use covey.Txn.Idempotent.{Codec, Mutation, matches}
use covey.Txn.Triples.{Post}
use covey.Lifecycle.Creating.{create_work_subtask}
use covey.Lifecycle.Claiming.{claim_subtask}
use covey.Lifecycle.Holding.{start_subtask, abandon_subtask, release_claim, renew_claim}
use covey.Lifecycle.Completing.{record_direct_outcome, outcome_event}
use covey.MetaTasks.{submit_meta_task, cancel_meta_task}
use covey.Sessions.{register_session, heartbeat, exit_session}
use covey.Calls.{
  Codecs, Request, registers, heartbeats, exits, submits, cancels, creates, claims_one, starts,
  abandons, releases, renews, records_outcome, perform,
}
use covey.Log.Operations.{claim_subtask_body-Appends}
use covey.Log.Closing.{
  register_session_body-Appends, heartbeat_body-Appends, exit_session_body-Appends,
  submit_meta_task_tx-Appends, cancel_meta_task_body-Appends, start_subtask_body-Appends,
  abandon_subtask_body-Appends, release_claim_body-Appends, renew_claim_body-Appends,
  record_direct_outcome_tx-Appends, create_work_subtask_tx-Appends,
}
use covey.Log.Retries.{
  ticked, recorded, FirstUse, clocked-FirstUse, unclocked-FirstUse, matches-recorded,
}

-- The event of a request, and the session that it is by.
abbrev pub event_of : Request → EventType
event_of (registers req token) = session_registered
event_of (heartbeats token) = session_heartbeat
event_of (exits token) = session_exited
event_of (submits req id) = meta_task_submitted
event_of (cancels req) = meta_task_cancelled
event_of (creates req id) = work_subtask_created
event_of (claims_one req id) = subtask_claimed
event_of (starts req) = subtask_started
event_of (abandons req) = subtask_abandoned
event_of (releases req) = claim_released
event_of (renews req extend) = claim_renewed
event_of (records_outcome input) = outcome_event input.outcome_kind

abbrev pub actor_of : Request → ℕ
actor_of (registers req token) = token
actor_of (heartbeats token) = token
actor_of (exits token) = token
actor_of (submits req id) = req.session_token
actor_of (cancels req) = req.session_token
actor_of (creates req id) = req.session_token
actor_of (claims_one req id) = req.session_token
actor_of (starts req) = req.session_token
actor_of (abandons req) = req.session_token
actor_of (releases req) = req.session_token
actor_of (renews req extend) = req.session_token
actor_of (records_outcome input) = input.session_token

-- The requests that leave the lease clock alone.
abbrev pub reading : Request → ℕ → Store → Store
reading (exits token) now s = s
reading (submits req id) now s = s
reading (cancels req) now s = s
reading (creates req id) now s = s
reading _ now s = ticked now s

-- The request's first use: one event of its type by its session, one record of its key.
abbrev pub Logs : Mutation → ℕ → Request → Store → Store → Type 0
Logs m now request s s' =
    (r : IdempotencyRecord) × ((matches m r ≡ true)
      × FirstUse (event_of request) (actor_of request) r (reading request now s) s')

module _ {A : Type 0} (codec : Codec A) (m : Mutation) (now : ℕ) where
  one_of :
      (ty : EventType) (token : ℕ) (s s0 : Store) (o : Out A)
      → Post (λ a s'. FirstUse ty token (recorded codec m now a) s s') (λ s'. s' ≡ s0) o
      → (after o ≡ s0)
        ⊎ ((r : IdempotencyRecord) × ((matches m r ≡ true) × FirstUse ty token r s (after o)))
  one_of ty token s s0 (ok a s') h = inr (_, (matches-recorded codec m now a, h))
  one_of ty token s s0 (err e s') h = inl h

-- The first use of an idempotency key either fails and changes nothing at all, the lease clock
-- included, or appends exactly one event, of the request's type and by its session, and exactly
-- one idempotency record, of that key, and leaves the lease clock where the request's reading of
-- it put it.
pub perform-one_event :
    (c : Codecs) (m : Mutation) (now : ℕ) (request : Request) (s : Store)
    → find (matches m) s.idempotency ≡ none
    → (perform c m now request s ≡ s) ⊎ Logs m now request s (perform c m now request s)
unfolding perform create_work_subtask claim_subtask start_subtask abandon_subtask release_claim
    renew_claim record_direct_outcome submit_meta_task cancel_meta_task register_session heartbeat
    exit_session
perform-one_event c m now (registers req token) s e =
    one_of c.of_handle m now _ _ _ s _
      (clocked-FirstUse _ m now _ _ _ s (λ t. register_session_body-Appends req token t now) e)
perform-one_event c m now (heartbeats token) s e =
    one_of c.of_unit m now _ _ _ s _
      (clocked-FirstUse _ m now _ _ _ s (λ t. heartbeat_body-Appends token t now) e)
perform-one_event c m now (exits token) s e =
    one_of c.of_unit m now _ _ _ s _
      (unclocked-FirstUse _ m now _ _ _ s (exit_session_body-Appends token now) e)
perform-one_event c m now (submits req id) s e =
    one_of c.of_id m now _ _ _ s _
      (unclocked-FirstUse _ m now _ _ _ s (submit_meta_task_tx-Appends req id now) e)
perform-one_event c m now (cancels req) s e =
    one_of c.of_unit m now _ _ _ s _
      (unclocked-FirstUse _ m now _ _ _ s (cancel_meta_task_body-Appends req now) e)
perform-one_event c m now (creates req id) s e =
    one_of c.of_id m now _ _ _ s _
      (unclocked-FirstUse _ m now _ _ _ s (create_work_subtask_tx-Appends req id now) e)
perform-one_event c m now (claims_one req id) s e =
    one_of c.of_claim m now _ _ _ s _
      (clocked-FirstUse _ m now _ _ _ s (λ t. claim_subtask_body-Appends req id t now) e)
perform-one_event c m now (starts req) s e =
    one_of c.of_unit m now _ _ _ s _
      (clocked-FirstUse _ m now _ _ _ s (λ t. start_subtask_body-Appends req t now) e)
perform-one_event c m now (abandons req) s e =
    one_of c.of_unit m now _ _ _ s _
      (clocked-FirstUse _ m now _ _ _ s (λ t. abandon_subtask_body-Appends req t now) e)
perform-one_event c m now (releases req) s e =
    one_of c.of_unit m now _ _ _ s _
      (clocked-FirstUse _ m now _ _ _ s (λ t. release_claim_body-Appends req t now) e)
perform-one_event c m now (renews req extend) s e =
    one_of c.of_claim m now _ _ _ s _
      (clocked-FirstUse _ m now _ _ _ s (λ t. renew_claim_body-Appends req extend t now) e)
perform-one_event c m now (records_outcome input) s e =
    one_of c.of_outcome m now _ _ _ s _
      (clocked-FirstUse _ m now _ _ _ s (λ t. record_direct_outcome_tx-Appends _ input t now) e)
