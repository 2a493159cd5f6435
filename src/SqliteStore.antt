-- ===== src/SqliteStore.antt =====
-- The checks of `SqliteStore::commit_batch` before it writes (src/adapters/sqlite/store.rs). The greatest
-- sequence number that the table of events holds is an argument.
pub mod Leases
use hekate.Core.Env.{Env}
use hekate.Core.Events.{ExperienceEvent}
use hekate.Core.Ids.{EventId}
use hekate.Core.Integrity.{verify_integrity}
use hekate.Core.State.{CurrentState}
use hekate.Prelude.{
  ℕ, zero, suc, ◌+◌, ◌-◌, ◌%◌, Option, none, some, List, [], ◌∷◌, length, is_empty, not, ◌!=◌, ℕ_eq,
  option_eq,
}
use hekate.Prelude.Results.{Result, ok, ◌>>=◌, ◌>>◌, map_err, reject_if, for_each}
use hekate.Projector.Apply.{u64_modulus}
use hekate.Storage.Errors.{
  StorageError, backend, integrity, invalid_state, revision_conflict, stale_context,
}

-- `[T]::get`
unfoldable pub get_elem? : {A : Type 0} → List A → ℕ → Option A
get_elem? [] n = none
get_elem? (x ∷ xs) zero = some x
get_elem? (x ∷ xs) (suc n) = get_elem? xs n

-- The body of the first loop.
unfoldable pub check_integrity : Env → ExperienceEvent → Result StorageError (Unit {0})
check_integrity env event = do
  valid ← map_err backend (verify_integrity env event)
  reject_if (not valid) (integrity (env.uuid_text event.event_id))

unfoldable pub check_base_revision : Option ℕ → ℕ → Result StorageError (Unit {0})
check_base_revision none actual = ok tt
check_base_revision (some expected) actual =
    reject_if (actual != expected) (stale_context expected actual)

-- The second loop, from the index `start`.
unfoldable pub check_ledger_end :
    List EventId → ℕ → List ExperienceEvent → Result StorageError (Unit {0})
check_ledger_end applied_events start [] = ok tt
check_ledger_end applied_events start (event ∷ events) =
    reject_if (get_elem? applied_events start != some event.event_id)
      (invalid_state "projected state does not end with the committed event batch")
    >> check_ledger_end applied_events (start + 1) events

unfoldable pub check_batch :
    Env → ℕ → List ExperienceEvent → CurrentState → Option ℕ → Result StorageError (Unit {0})
check_batch env actual events state expected_base_revision = do
  reject_if (is_empty events) (invalid_state "cannot commit an empty event batch")
  for_each (check_integrity env) events
  check_base_revision expected_base_revision actual
  let expected = (actual + length events) % u64_modulus
  reject_if (state.revision != expected) (revision_conflict expected state.revision)
  check_ledger_end state.applied_events (length state.applied_events - length events) events
