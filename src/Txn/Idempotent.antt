-- ===== src/Txn/Idempotent.antt =====
-- `with_idempotent_mutation` of src/store.rs. The request arrives as its hash, which `hash_request`
-- computes with `serde_json` and BLAKE3, and the response as the text that `serde_json` writes.
use covey.Common.{ℕ, ◌≡◌, Bool, ◌&&◌, List, Option, none, some, ◌==◌, find, insert}
use covey.Model.Errors.{idempotency_conflict, json_error}
use covey.Model.Rows.{Operation, is_operation, IdempotencyRecord}
use covey.Txn.{Tx, pure, guard, or_fail, modify, ◌>>=◌, ◌>>◌}

-- What the store relies on of `serde_json` at a response type.
pub record Codec (A : Type 0) : Type 0 where
  pub to_json : A → List ℕ
  pub from_json : List ℕ → Option A
  pub from_json-to_json : (a : A) → from_json (to_json a) ≡ some a

-- What every mutating request carries to `with_idempotent_mutation`.
pub record Mutation : Type 0 where
  pub actor_key : ℕ
  pub operation : Operation
  pub idempotency_key : ℕ
  pub request_hash : ℕ

abbrev pub matches : Mutation → IdempotencyRecord → Bool
matches m r =
    r.actor_key == m.actor_key
    && is_operation r.operation m.operation
    && r.idempotency_key == m.idempotency_key

-- The answer to a repeated key: the recorded response, or a conflict.
unfoldable pub replay : {A : Type 0} → Codec A → Mutation → IdempotencyRecord → Tx A
replay codec m existing = do
  guard (existing.request_hash == m.request_hash)
      (idempotency_conflict m.actor_key m.idempotency_key)
  or_fail (codec.from_json existing.response_json) json_error

-- The first use of a key: the action, and then its record.
unfoldable pub run_and_record : {A : Type 0} → Codec A → Mutation → ℕ → Tx A → Tx A
run_and_record codec m created_at f = do
  value ← f
  modify λ s. record s {
    idempotency =
        insert
          (record {
            actor_key = m.actor_key;
            operation = m.operation;
            idempotency_key = m.idempotency_key;
            request_hash = m.request_hash;
            response_json = codec.to_json value;
            created_at = created_at;
          })
          s.idempotency;
  }
  pure value

unfoldable pub with_idempotent_mutation : {A : Type 0} → Codec A → Mutation → ℕ → Tx A → Tx A
unfolding replay run_and_record
with_idempotent_mutation codec m created_at f s = elim (find (matches m) s.idempotency) [
  | some existing ↦ replay codec m existing s
  | none ↦ run_and_record codec m created_at f s
]
