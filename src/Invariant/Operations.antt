-- ===== src/Invariant/Operations.antt =====
-- The invariant under write transactions, idempotent mutations and the operations on a held claim.
use covey.Common.{ℕ, refl, Option, none, some, find}
use covey.Model.State.{ClaimState}
use covey.Model.Rows.{Store, Claim, Review, IdempotencyRecord}
use covey.Txn.{Tx, Out, ok, err, rollback, with_write_tx}
use covey.Txn.Idempotent.{Codec, Mutation, replay, run_and_record, with_idempotent_mutation}
use covey.Txn.Triples.{Post, Keeps, keeps_rules, Keeps-modify, Keeps-bind}
use covey.Validators.{close_claim_and_detach}
use covey.Lifecycle.Holding.{
  ClaimRef, begin_review, start_review, start_subtask_body, abandon_subtask_body,
  release_claim_body, renewable, renew_claim_body,
}
use covey.MetaTasks.{write_meta_state, refresh_meta_task_state}
use covey.Invariant.Counts.{Inv, Counts-update_claims}
use covey.Invariant.Statements.{statements_keep, close_claim_and_detach-Inv}

module _ {A : Type 0} where
  drop_writes :
      (s : Store)
      → Inv s
      → (r : Out A) → Post (λ _ s'. Inv s') Inv r
      → Post (λ _ s'. Inv s') Inv (rollback s r)
  drop_writes s v (ok a s') h = h
  drop_writes s v (err e s') h = v

  pub with_write_tx-Inv : (m : Tx A) → Keeps Inv m → Keeps Inv (with_write_tx m)
  unfolding with_write_tx
  with_write_tx-Inv m k = record { at = λ s v. drop_writes s v (m s) (k.at s v) }

  replay-Inv :
      (codec : Codec A) (m : Mutation) (existing : IdempotencyRecord)
      → Keeps Inv (replay codec m existing)
  unfolding replay
  replay-Inv codec m existing = search keeps_rules

  run_and_record-Inv :
      (codec : Codec A) (m : Mutation) (now : ℕ) (f : Tx A)
      → Keeps Inv f
      → Keeps Inv (run_and_record codec m now f)
  unfolding run_and_record
  run_and_record-Inv codec m now f k = search (keeps_rules, Keeps-modify)

  pub with_idempotent_mutation-Inv :
      (codec : Codec A) (m : Mutation) (now : ℕ) (f : Tx A)
      → Keeps Inv f
      → Keeps Inv (with_idempotent_mutation codec m now f)
  unfolding with_idempotent_mutation
  with_idempotent_mutation-Inv codec m now f k = record { at = λ s v. first s v (find _ _) }
    where
      first :
          (s : Store)
          → Inv s
          → (o : Option IdempotencyRecord)
          → Post
              (λ _ s'. Inv s')
              Inv
              (elim o [
                | some existing ↦ replay codec m existing s
                | none ↦ run_and_record codec m now f s
              ])
      first s v none = (run_and_record-Inv codec m now f k).at s v
      first s v (some existing) = (replay-Inv codec m existing).at s v

begin_review-Inv : (r : Review) (id token now : ℕ) → Keeps Inv (begin_review r id token now)
unfolding begin_review
begin_review-Inv r id token now = search (keeps_rules, statements_keep)

start_review-Inv : (id token now : ℕ) → Keeps Inv (start_review id token now)
unfolding start_review
start_review-Inv id token now = search (keeps_rules, begin_review-Inv)

pub start_subtask_body-Inv :
    (req : ClaimRef) (lease_now now : ℕ) → Keeps Inv (start_subtask_body req lease_now now)
unfolding start_subtask_body
start_subtask_body-Inv req lease_now now =
    search (keeps_rules, statements_keep, start_review-Inv) depth 12

write_meta_state-Inv :
    (id : ℕ) (desired : _) (now : ℕ) → Keeps Inv (write_meta_state id desired now)
unfolding write_meta_state
write_meta_state-Inv id desired now = Keeps-modify _ (λ s v. v)

pub refresh_meta_task_state-Inv : (id now : ℕ) → Keeps Inv (refresh_meta_task_state id now)
unfolding refresh_meta_task_state
refresh_meta_task_state-Inv id now = search (keeps_rules, statements_keep, write_meta_state-Inv)

-- What a claim's holder closes it with is not `held`.
pub released-Inv :
    (claim : Claim) (now : ℕ) → Keeps Inv (close_claim_and_detach claim ClaimState.released now)
released-Inv claim now = close_claim_and_detach-Inv claim _ now refl

pub expired-Inv :
    (claim : Claim) (now : ℕ) → Keeps Inv (close_claim_and_detach claim ClaimState.expired now)
expired-Inv claim now = close_claim_and_detach-Inv claim _ now refl

pub abandon_subtask_body-Inv :
    (req : ClaimRef) (lease_now now : ℕ) → Keeps Inv (abandon_subtask_body req lease_now now)
unfolding abandon_subtask_body
abandon_subtask_body-Inv req lease_now now =
    search (keeps_rules, statements_keep, released-Inv, refresh_meta_task_state-Inv) depth 12

pub release_claim_body-Inv :
    (req : ClaimRef) (lease_now now : ℕ) → Keeps Inv (release_claim_body req lease_now now)
unfolding release_claim_body
release_claim_body-Inv req lease_now now =
    search (keeps_rules, statements_keep, released-Inv) depth 12

pub renew_claim_body-Inv :
    (req : ClaimRef) (extend lease_now now : ℕ)
    → Keeps Inv (renew_claim_body req extend lease_now now)
unfolding renew_claim_body
renew_claim_body-Inv req extend lease_now now = Keeps-bind _ _ (search statements_keep) λ _.
    Keeps-bind _ _ (search statements_keep) λ claim. Keeps-bind _ _ (search keeps_rules) λ updated.
      Keeps-bind _ _
        (Keeps-modify _ λ s v.
          Counts-update_claims (renewable req) _ (λ r. refl) (λ r. refl) (λ r. refl) (λ r _ h. h) v)
        λ _. search (keeps_rules, statements_keep)
