-- ===== src/Log/Operations.antt =====
-- The actions of src/ops/workflow and the event log: rules for what an action appends, and claiming.
use covey.Common.{ℕ, ◌≡◌, refl, ap, List, insert}
use covey.Model.State.{ObjectType}
use covey.Model.Rows.{
  Store, Session, Subtask, Claim, Event, EventType, IdempotencyRecord, session, subtask_claimed,
}
use covey.Txn.{Tx, ◌>>=◌, append_session_event, append_event}
use covey.Txn.Triples.{Triple, Keeps, Keeps-modify, Triple-weaken, Triple-bind, Triple-modify}
use covey.Lifecycle.Claiming.{
  expire_claim, expire_claim_if_needed_for_subtask, insert_claim, check_claimable, undo_claim,
  mark_subtask_claimed, refuse_busy_session, mark_session_busy, claim_selected_subtask, ensure_idle,
  ClaimSubtaskReq, claim_subtask_body,
}
use covey.Log.Statements.{Log, log_rules}

-- The log `es` with one more event of the type, by the session; the rest of `Log` as it was.
abbrev pub Appended : List Event → List IdempotencyRecord → ℕ → EventType → ℕ → Store → Type 0
Appended es rs tick event_type token s =
    (x : Event) × ((x.event_type ≡ event_type)
      × ((x.actor ≡ session token) × Log (insert x es) rs tick s))

-- What holds of a store that a transaction drops.
abbrev pub Dropped : Store → Type 0
Dropped s = Unit {0}

abbrev pub Appends : {A : Type 0} → EventType → ℕ → Tx A → Type 0
Appends event_type token m =
    (es : List Event) (rs : List IdempotencyRecord) (tick : ℕ)
    → Triple (Log es rs tick) m (λ _ s. Appended es rs tick event_type token s) Dropped

-- After the event, the rest keeps the log that it finds.
pub Log-after :
    {A : Type 0} {rs : List IdempotencyRecord} {tick : ℕ} {ty : EventType} {token : ℕ}
    (es : List Event) (m : Tx A)
    → ((x : Event) → Keeps (Log (insert x es) rs tick) m)
    → Triple (Appended es rs tick ty token) m (λ _ s. Appended es rs tick ty token s) Dropped
Log-after es m h = record {
  at = λ s p.
      (Triple-weaken m (h p.0) (λ a s' q. (p.0, (p.1.0, (p.1.1.0, q)))) (λ s' q. tt)).at s p.1.1.1;
}

module _ {es : List Event} {rs : List IdempotencyRecord} {tick : ℕ} {ty : EventType}
    {token : ℕ} where
  pub Log-before :
      {A B : Type 0} (m : Tx A) (f : A → Tx B)
      → Keeps (Log es rs tick) m
      → ((a : A) → Triple (Log es rs tick) (f a) (λ _ s. Appended es rs tick ty token s) Dropped)
      → Triple (Log es rs tick) (m >>= f) (λ _ s. Appended es rs tick ty token s) Dropped
  Log-before m f hm hf = Triple-bind m f (Triple-weaken m hm (λ a s p. p) (λ s p. tt)) hf

  pub Log-append :
      (object : ObjectType) (id now : ℕ)
      → Triple
          (Log es rs tick)
          (append_session_event ty object id token now)
          (λ _ s. Appended es rs tick ty token s)
          Dropped
  unfolding append_session_event append_event
  Log-append object id now = Triple-modify _ λ s v. (
    _,
    (
      refl,
      (
        refl,
        record {
          same_events = ap (insert _) v.same_events;
          same_records = v.same_records;
          same_tick = v.same_tick;
        },
      ),
    ),
  )

  pub Log-append_then :
      {A : Type 0} (object : ObjectType) (id now : ℕ) (f : Unit {0} → Tx A)
      → ((x : Event) (u : Unit {0}) → Keeps (Log (insert x es) rs tick) (f u))
      → Triple
          (Log es rs tick)
          (append_session_event ty object id token now >>= f)
          (λ _ s. Appended es rs tick ty token s)
          Dropped
  Log-append_then object id now f h =
      Triple-bind _ f (Log-append object id now) (λ u. Log-after es (f u) (λ x. h x u))

pub ruleset appends_rules = (Log-before, Log-append, Log-append_then)

module _ {es : List Event} {rs : List IdempotencyRecord} {tick : ℕ} where
  pub expire_claim-Log : (claim : Claim) (now : ℕ) → Keeps (Log es rs tick) (expire_claim claim now)
  unfolding expire_claim
  expire_claim-Log claim now = search log_rules

  expire_if_needed-Log :
      (t lease_now now : ℕ)
      → Keeps (Log es rs tick) (expire_claim_if_needed_for_subtask t lease_now now)
  unfolding expire_claim_if_needed_for_subtask
  expire_if_needed-Log t lease_now now = search (log_rules, expire_claim-Log)

  insert_claim-Log : (claim : Claim) → Keeps (Log es rs tick) (insert_claim claim)
  unfolding insert_claim
  insert_claim-Log claim = search (log_rules, Keeps-modify)

  check_claimable-Log : (owner : Session) (t : ℕ) → Keeps (Log es rs tick) (check_claimable owner t)
  unfolding check_claimable
  check_claimable-Log owner t = search log_rules depth 12

  mark_subtask_claimed-Log :
      (subtask : Subtask) (t c now : ℕ)
      → Keeps (Log es rs tick) (mark_subtask_claimed subtask t c now)
  unfolding mark_subtask_claimed undo_claim
  mark_subtask_claimed-Log subtask t c now = search (log_rules, Keeps-modify) depth 9

  mark_session_busy-Log :
      (subtask : Subtask) (token t now : ℕ)
      → Keeps (Log es rs tick) (mark_session_busy subtask token t now)
  unfolding mark_session_busy refuse_busy_session
  mark_session_busy-Log subtask token t now = search log_rules depth 9

  ensure_idle-Log : (owner : Session) → Keeps (Log es rs tick) (ensure_idle owner)
  unfolding ensure_idle
  ensure_idle-Log owner = search log_rules

claim_selected_subtask-Appends :
    (owner : Session) (token t lease claim lease_now now : ℕ)
    → Appends subtask_claimed token (claim_selected_subtask owner token t lease claim lease_now now)
unfolding claim_selected_subtask
claim_selected_subtask-Appends owner token t lease claim lease_now now es rs tick =
    search
      (
        appends_rules, log_rules, expire_if_needed-Log, check_claimable-Log, insert_claim-Log,
        mark_subtask_claimed-Log, mark_session_busy-Log,
      )
      depth 14

pub claim_subtask_body-Appends :
    (req : ClaimSubtaskReq) (claim lease_now now : ℕ)
    → Appends subtask_claimed req.session_token (claim_subtask_body req claim lease_now now)
unfolding claim_subtask_body
claim_subtask_body-Appends req claim lease_now now es rs tick =
    search (appends_rules, log_rules, ensure_idle-Log, claim_selected_subtask-Appends) depth 14
