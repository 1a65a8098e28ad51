-- ===== src/Txn/Kept.antt =====
-- Write transactions and idempotent mutations of src/store.rs keep what their action keeps, where
-- idempotency records do not bear on it.
use covey.Common.{ℕ, List, Option, none, some, find}
use covey.Model.Rows.{Store, IdempotencyRecord}
use covey.Txn.{Tx, Out, ok, err, rollback, with_write_tx, after}
use covey.Txn.Idempotent.{
  Codec, Mutation, matches, replay, run_and_record, with_idempotent_mutation,
}
use covey.Txn.Triples.{Post, Keeps, keeps_rules, Keeps-modify, Keeps-then, Keeps-pure}

module _ {A : Type 0} (P : Store → Type 0) where
  drop_writes :
      (s : Store)
      → P s
      → (r : Out A) → Post (λ _ s'. P s') P r
      → Post (λ _ s'. P s') P (rollback s r)
  drop_writes s v (ok a s') h = h
  drop_writes s v (err e s') h = v

  ends : (r : Out A) → Post (λ _ s'. P s') P r → P (after r)
  ends (ok a s) h = h
  ends (err e s) h = h

module _ {A : Type 0} {P : Store → Type 0} where
  pub Keeps-with_write_tx : (m : Tx A) → Keeps P m → Keeps P (with_write_tx m)
  unfolding with_write_tx
  Keeps-with_write_tx m k = record { at = λ s v. drop_writes P s v (m s) (k.at s v) }

  -- Whatever an action returns, what it keeps holds afterwards.
  pub Keeps-after : (m : Tx A) (s : Store) → Keeps P m → P s → P (after (m s))
  Keeps-after m s k v = ends P (m s) (k.at s v)

  replayed :
      (codec : Codec A) (m : Mutation) (existing : IdempotencyRecord)
      → Keeps P (replay codec m existing)
  unfolding replay
  replayed codec m existing = search keeps_rules

  recorded :
      (codec : Codec A) (m : Mutation) (now : ℕ) (f : Tx A)
      → ((rows : List IdempotencyRecord) (s : Store) → P s → P (record s { idempotency = rows }))
      → Keeps P f
      → Keeps P (run_and_record codec m now f)
  unfolding run_and_record
  recorded codec m now f stable k =
      Keeps-then _ _ k
        λ value. Keeps-then _ _ (Keeps-modify _ (λ s h. stable _ s h)) λ _. Keeps-pure value

  pub Keeps-with_idempotent_mutation :
      (codec : Codec A) (m : Mutation) (now : ℕ) (f : Tx A)
      → ((rows : List IdempotencyRecord) (s : Store) → P s → P (record s { idempotency = rows }))
      → Keeps P f
      → Keeps P (with_idempotent_mutation codec m now f)
  unfolding with_idempotent_mutation
  Keeps-with_idempotent_mutation codec m now f stable k = record {
    at = λ s v. first s v (find (matches m) s.idempotency);
  }
    where
      first :
          (s : Store)
          → P s
          → (o : Option IdempotencyRecord)
          → Post
              (λ _ s'. P s')
              P
              (elim o [
                | some existing ↦ replay codec m existing s
                | none ↦ run_and_record codec m now f s
              ])
      first s v none = (recorded codec m now f stable k).at s v
      first s v (some existing) = (replayed codec m existing).at s v
