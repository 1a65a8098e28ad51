-- ===== src/Log/Retries.antt =====
-- Idempotent mutations inside a write transaction: the first use of a key, and its retries.
use covey.Common.{
  ℕ, max, ◌≡◌, refl, sym, ap, subst, ◌∙◌, true, false, none, some, arith, find, insert, ==_refl,
  ◌==◌,
}
use mathlib.Core.Bool.{decide}
use covey.Model.Errors.{idempotency_conflict}
use covey.Model.Rows.{
  Store, Event, EventType, IdempotencyRecord, Operation, is_operation, Operation-discrete, session,
}
use covey.Txn.{Tx, Out, ok, err, with_write_tx, advance_lease_clock, rollback, ◌>>=◌}
use covey.Txn.Idempotent.{
  Codec, Mutation, matches, replay, run_and_record, with_idempotent_mutation,
}
use covey.Txn.Triples.{Post, Triple-bind, Triple-modify, Triple-pure, Keeps, keeps_rules}
use covey.Log.Operations.{Appends, Dropped}

-- The two shapes of a mutation: with the lease clock, and without.
abbrev pub clocked : {A : Type 0} → Codec A → Mutation → ℕ → (ℕ → Tx A) → Tx A
clocked codec m now f =
    with_write_tx
      (advance_lease_clock now >>= λ lease_now. with_idempotent_mutation codec m now (f lease_now))

abbrev pub unclocked : {A : Type 0} → Codec A → Mutation → ℕ → Tx A → Tx A
unclocked codec m now f = with_write_tx (with_idempotent_mutation codec m now f)

-- The store after `advance_lease_clock`.
abbrev pub ticked : ℕ → Store → Store
ticked now s = record s { last_tick_ms = max s.last_tick_ms now }

abbrev pub recorded : {A : Type 0} → Codec A → Mutation → ℕ → A → IdempotencyRecord
recorded codec m now a = record {
  actor_key = m.actor_key;
  operation = m.operation;
  idempotency_key = m.idempotency_key;
  request_hash = m.request_hash;
  response_json = codec.to_json a;
  created_at = now;
}

-- What the first use of a key appends: one event, and the record.
pub record FirstUse (ty : EventType) (token : ℕ) (r : IdempotencyRecord) (s s' : Store)
    : Type 0 where
  pub event : Event
  pub event_kind : event.event_type ≡ ty
  pub event_actor : event.actor ≡ session token
  pub one_event : s'.events ≡ insert event s.events
  pub one_record : s'.idempotency ≡ insert r s.idempotency
  pub clock : s'.last_tick_ms ≡ s.last_tick_ms

is_operation_refl : (o : Operation) → is_operation o o ≡ true
unfolding decide
is_operation_refl o = elim (Operation-discrete o o) as (λ d. decide d ≡ true) [
  | yes e ↦ refl
  | no n ↦ absurd (n refl)
]

pub matches-recorded :
    {A : Type 0} (codec : Codec A) (m : Mutation) (now : ℕ) (a : A)
    → matches m (recorded codec m now a) ≡ true
matches-recorded codec m now a =
    ground (arith, ==_refl m.actor_key, ==_refl m.idempotency_key, is_operation_refl m.operation)

module _ {A : Type 0} (codec : Codec A) (m : Mutation) (now : ℕ) where
  run_and_record-FirstUse :
      (ty : EventType) (token : ℕ) (f : Tx A)
      → Appends ty token f
      → (s : Store)
      → Post
          (λ a s'. FirstUse ty token (recorded codec m now a) s s')
          Dropped
          (run_and_record codec m now f s)
  unfolding run_and_record
  run_and_record-FirstUse ty token f h s =
      (Triple-bind f _ (h s.events s.idempotency s.last_tick_ms) (λ a.
          Triple-bind _ _
            (Triple-modify _ (λ s' p. record {
              event = p.0;
              event_kind = p.1.0;
              event_actor = p.1.1.0;
              one_event = p.1.1.1.same_events;
              one_record = ap (insert (recorded codec m now a)) p.1.1.1.same_records;
              clock = p.1.1.1.same_tick;
            }))
            (λ _. Triple-pure a (λ s' p. p)))).at
        s (record { same_events = refl; same_records = refl; same_tick = refl })

  with_idempotent_mutation-first :
      (f : Tx A) (s : Store)
      → find (matches m) s.idempotency ≡ none
      → with_idempotent_mutation codec m now f s ≡ run_and_record codec m now f s
  unfolding with_idempotent_mutation
  with_idempotent_mutation-first f s e = rw (e, with_idempotent_mutation) refl

  with_idempotent_mutation-again :
      (f : Tx A) (s : Store) {r : IdempotencyRecord}
      → find (matches m) s.idempotency ≡ some r
      → with_idempotent_mutation codec m now f s ≡ replay codec m r s
  unfolding with_idempotent_mutation
  with_idempotent_mutation-again f s e = rw (e, with_idempotent_mutation) refl

  replay-answer :
      (r : IdempotencyRecord) (s : Store) {a : A}
      → (r.request_hash == m.request_hash) ≡ true
      → codec.from_json r.response_json ≡ some a
      → replay codec m r s ≡ ok a s
  unfolding replay ◌>>=◌
  replay-answer r s {a} h e = simp (h, e)

  replay-conflict :
      (r : IdempotencyRecord) (s : Store)
      → (r.request_hash == m.request_hash) ≡ false
      → replay codec m r s ≡ err (idempotency_conflict m.actor_key m.idempotency_key) s
  unfolding replay ◌>>=◌
  replay-conflict r s h = simp h

  -- A repeated key touches nothing, whether its answer is the recorded one or a conflict.
  replay-same :
      (r : IdempotencyRecord) (s : Store)
      → Post (λ _ s'. s' ≡ s) (λ s'. s' ≡ s) (replay codec m r s)
  replay-same r s = (replayed r).at s refl
    where
      replayed : (r : IdempotencyRecord) → Keeps (λ s'. s' ≡ s) (replay codec m r)
      replayed r = unfold replay in search keeps_rules

  clocked_run :
      (f : ℕ → Tx A) (s : Store)
      → clocked codec m now f s
        ≡ rollback s
            (with_idempotent_mutation codec m now (f (max s.last_tick_ms now)) (ticked now s))
  unfolding with_write_tx ◌>>=◌ advance_lease_clock
  clocked_run f s = refl

  unclocked_run :
      (f : Tx A) (s : Store)
      → unclocked codec m now f s ≡ rollback s (with_idempotent_mutation codec m now f s)
  unfolding with_write_tx
  unclocked_run f s = refl

  dropped :
      (Q : A → Store → Type 0) (s : Store) (r : Out A)
      → Post Q Dropped r
      → Post Q (λ s'. s' ≡ s) (rollback s r)
  dropped Q s (ok a s') h = h
  dropped Q s (err e s') h = refl

  pub clocked-FirstUse :
      (ty : EventType) (token : ℕ) (f : ℕ → Tx A) (s : Store)
      → ((lease_now : ℕ) → Appends ty token (f lease_now))
      → find (matches m) s.idempotency ≡ none
      → Post
          (λ a s'. FirstUse ty token (recorded codec m now a) (ticked now s) s')
          (λ s'. s' ≡ s)
          (clocked codec m now f s)
  clocked-FirstUse ty token f s h e = subst (Post _ _) (sym (clocked_run f s)) (
      dropped (λ a s'. FirstUse ty token (recorded codec m now a) (ticked now s) s') s
        (with_idempotent_mutation codec m now (f (max s.last_tick_ms now)) (ticked now s))
        (subst (Post (λ a s'. FirstUse ty token (recorded codec m now a) (ticked now s) s') Dropped)
          (sym (with_idempotent_mutation-first (f (max s.last_tick_ms now)) (ticked now s) e))
          (run_and_record-FirstUse ty token (f _) (h _) (ticked now s))))

  pub unclocked-FirstUse :
      (ty : EventType) (token : ℕ) (f : Tx A) (s : Store)
      → Appends ty token f
      → find (matches m) s.idempotency ≡ none
      → Post
          (λ a s'. FirstUse ty token (recorded codec m now a) s s')
          (λ s'. s' ≡ s)
          (unclocked codec m now f s)
  unclocked-FirstUse ty token f s h e = subst (Post _ _) (sym (unclocked_run f s)) (
      dropped (λ a s'. FirstUse ty token (recorded codec m now a) s s') s
        (with_idempotent_mutation codec m now f s)
        (subst (Post (λ a s'. FirstUse ty token (recorded codec m now a) s s') Dropped)
          (sym (with_idempotent_mutation-first f s e)) (run_and_record-FirstUse ty token f h s)))

  rollback-same :
      (s s0 : Store) (r : Out A)
      → Post (λ _ s'. s' ≡ s) (λ s'. s' ≡ s) r
      → Post (λ _ s'. s' ≡ s) (λ s'. s' ≡ s0) (rollback s0 r)
  rollback-same s s0 (ok a s') h = h
  rollback-same s s0 (err e s') h = refl

  -- A repeated key moves at most the lease clock.
  pub clocked-same :
      (f : ℕ → Tx A) (s : Store) {r : IdempotencyRecord}
      → find (matches m) s.idempotency ≡ some r
      → Post (λ _ s'. s' ≡ ticked now s) (λ s'. s' ≡ s) (clocked codec m now f s)
  clocked-same f s {r} e =
      subst (Post _ _)
        (sym (
          clocked_run f s
          ∙ ap (rollback s) (with_idempotent_mutation-again (f _) (ticked now s) e)))
        (rollback-same (ticked now s) s _ (replay-same r (ticked now s)))

  pub unclocked-same :
      (f : Tx A) (s : Store) {r : IdempotencyRecord}
      → find (matches m) s.idempotency ≡ some r
      → Post (λ _ s'. s' ≡ s) (λ s'. s' ≡ s) (unclocked codec m now f s)
  unclocked-same f s {r} e =
      subst (Post _ _)
        (sym (unclocked_run f s ∙ ap (rollback s) (with_idempotent_mutation-again f s e)))
        (rollback-same s s _ (replay-same r s))

  pub clocked-answer :
      (f : ℕ → Tx A) (s : Store) {r : IdempotencyRecord} {a : A}
      → find (matches m) s.idempotency ≡ some r
      → (r.request_hash == m.request_hash) ≡ true
      → codec.from_json r.response_json ≡ some a
      → clocked codec m now f s ≡ ok a (ticked now s)
  clocked-answer f s {r} e h j =
      clocked_run f s
      ∙ ap (rollback s) (
          with_idempotent_mutation-again (f _) (ticked now s) e
          ∙ replay-answer r (ticked now s) h j)

  pub clocked-conflict :
      (f : ℕ → Tx A) (s : Store) {r : IdempotencyRecord}
      → find (matches m) s.idempotency ≡ some r
      → (r.request_hash == m.request_hash) ≡ false
      → clocked codec m now f s ≡ err (idempotency_conflict m.actor_key m.idempotency_key) s
  clocked-conflict f s {r} e h =
      clocked_run f s
      ∙ ap (rollback s) (
          with_idempotent_mutation-again (f _) (ticked now s) e
          ∙ replay-conflict r (ticked now s) h)
