-- ===== src/Storage.antt =====
-- What the projector uses of the storage port (src/ports/storage.rs). The store
-- is a value that a commit replaces. The cognitive trace is only handed on, so its type is a parameter.
pub mod Errors
use hekate.Core.Env.{Env}
use hekate.Core.Events.{ExperienceEvent}
use hekate.Core.State.{CurrentState}
use hekate.Prelude.{ℕ, Option, List, ◌++◌, ◌≡◌}
use hekate.Prelude.Results.{Result, ok}
use hekate.Projector.Apply.{apply_all}
use hekate.Storage.Errors.{StorageError}

pub record Storage (Store Trace : Type 0) : Type 0 where
  pub load_state : Store → Result StorageError CurrentState
  pub commit_batch :
      Store
      → List ExperienceEvent
      → CurrentState
      → Option ℕ
      → Option Trace
      → Result StorageError Store
  -- What is committed is loaded, when it is the projection of events onto the state that was loaded. (The
  -- SQLite store gives another state back for some that no projection makes: it fills in a candidate's
  -- `as_of_revision` of 0 and keeps the revision as a signed number.)
  pub load-commit :
      (env : Env) (store : Store) (before : CurrentState) (events : List ExperienceEvent)
      (state : CurrentState) (expected : Option ℕ) (trace : Option Trace) (after : Store)
      → load_state store ≡ ok before
      → apply_all env before events ≡ ok state
      → commit_batch store events state expected trace ≡ ok after
      → load_state after ≡ ok state

-- The log of the same store, which a commit extends by its events.
pub record EventLog {Store Trace : Type 0} (port : Storage Store Trace) : Type 0 where
  pub load_events : Store → Result StorageError (List ExperienceEvent)
  pub events-commit :
      (store : Store) (events : List ExperienceEvent) (state : CurrentState) (expected : Option ℕ)
      (trace : Option Trace) (after : Store) (log : List ExperienceEvent)
      → port.commit_batch store events state expected trace ≡ ok after
      → load_events store ≡ ok log
      → load_events after ≡ ok (log ++ events)
