-- ===== src/Txn.antt =====
-- src/store.rs: write transactions and idempotent mutations, and the lease clock and event log of
-- src/schema.rs. An action threads the store; where it fails, what it wrote before is still in the
-- store that comes back beside the error, and `with_write_tx` is what rolls it back.
pub mod Idempotent
pub mod Triples
pub mod Kept
use covey.Common.{
  ℕ, max, Bool, true, false, List, Option, none, some, if◌then◌else◌, insert, [], ◌∷◌,
}
use covey.Model.State.{ObjectType}
use covey.Model.Errors.{CoveyError}
use covey.Model.Rows.{Store, EventType, EventActor, Event, session, system}

pub data Out (A : Type 0) : Type 0 where
  ok : A → Store → Out A
  err : CoveyError → Store → Out A

abbrev pub Tx : Type 0 → Type 0
Tx A = Store → Out A

unfoldable pub pure : {A : Type 0} → A → Tx A
pure a s = ok a s

unfoldable pub fail : {A : Type 0} → CoveyError → Tx A
fail e s = err e s

-- An early return of an error unless a test holds.
unfoldable pub guard : Bool → CoveyError → Tx (Unit {0})
guard true e s = ok tt s
guard false e s = err e s

-- `map_missing_row`: the row, or the not-found error.
unfoldable pub or_fail : {A : Type 0} → Option A → CoveyError → Tx A
or_fail none e s = err e s
or_fail (some a) e s = ok a s

-- A query.
unfoldable pub gets : {A : Type 0} → (Store → A) → Tx A
gets f s = ok (f s) s

-- A statement that writes.
unfoldable pub modify : (Store → Store) → Tx (Unit {0})
modify f s = ok tt (f s)

-- `match` on an optional value.
unfoldable pub on_some : {A B : Type 0} → Option A → Tx B → (A → Tx B) → Tx B
on_some none m f = m
on_some (some a) m f = f a

-- Opening this opens the actions above too.
infixl 5 ◌>>=◌ ◌>>◌
unfoldable pub ◌>>=◌ : {A B : Type 0} → Tx A → (A → Tx B) → Tx B
unfolding pure fail guard or_fail gets modify on_some
◌>>=◌ m f s = elim (m s) [ ok a s' ↦ f a s' | err e s' ↦ err e s' ]

abbrev pub ◌>>◌ : {B : Type 0} → Tx (Unit {0}) → Tx B → Tx B
m >> n = m >>= λ _. n

-- The store after an action, whatever its outcome.
abbrev pub after : {A : Type 0} → Out A → Store
after (ok a s) = s
after (err e s) = s

abbrev pub rollback : {A : Type 0} → Store → Out A → Out A
rollback s (ok a s') = ok a s'
rollback s (err e s') = err e s

-- `with_write_tx`: an error drops the transaction, and with it all that was written.
unfoldable pub with_write_tx : {A : Type 0} → Tx A → Tx A
with_write_tx m s = rollback s (m s)

-- `advance_lease_clock`: the clock never goes back.
unfoldable pub advance_lease_clock : ℕ → Tx ℕ
advance_lease_clock wall_now_ms = do
  modify λ s. record s { last_tick_ms = max s.last_tick_ms wall_now_ms }
  gets λ s. s.last_tick_ms

unfoldable pub append_event : EventType → ObjectType → ℕ → EventActor → ℕ → Tx (Unit {0})
append_event event_type object_type object_id actor now = modify λ s. record s {
  events =
      insert
        (record {
          event_type = event_type;
          object_type = object_type;
          object_id = object_id;
          actor = actor;
          created_at = now;
        })
        s.events;
}

unfoldable pub append_session_event : EventType → ObjectType → ℕ → ℕ → ℕ → Tx (Unit {0})
append_session_event event_type object_type object_id session_token now =
    append_event event_type object_type object_id (session session_token) now

unfoldable pub append_system_event : EventType → ObjectType → ℕ → ℕ → Tx (Unit {0})
append_system_event event_type object_type object_id now =
    append_event event_type object_type object_id system now

-- A loop that runs a statement for each row of a result.
unfoldable pub for_each : {A : Type 0} → List A → (A → Tx (Unit {0})) → Tx (Unit {0})
for_each [] body = pure tt
for_each (x ∷ xs) body = body x >>= λ _. for_each xs body
