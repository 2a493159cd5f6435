-- ===== src/Projector/Batch.antt =====
-- `Projector::record_batch` and `Projector::record` (src/runtime/projector.rs), which load the state, apply
-- the events and commit. The store is passed through.
use hekate.Core.Env.{Env}
use hekate.Core.Events.{ExperienceEvent}
use hekate.Core.State.{CurrentState}
use hekate.Prelude.{ℕ, Option, none, some, List, [], ◌∷◌, ◌!=◌, ℕ_eq}
use hekate.Prelude.Results.{ok, ◌>>=◌, ◌>>◌, map_err, reject_if}
use hekate.Projector.Apply.{apply_all}
use hekate.Projector.Errors.{Outcome, stale_context, storage}
use hekate.Storage.{Storage}

-- The check of the base revision that the caller expects.
unfoldable pub check_base : CurrentState → Option ℕ → Outcome (Unit {0})
check_base state none = ok tt
check_base state (some expected) =
    reject_if (state.revision != expected) (stale_context expected state.revision)

module _ {Store Trace : Type 0} (port : Storage Store Trace) (env : Env) where
  unfoldable pub record_batch :
      Store → List ExperienceEvent → Option ℕ → Option Trace → Outcome (CurrentState × Store)
  record_batch store events expected_base_revision cognitive_trace = do
    state ← map_err storage (port.load_state store)
    check_base state expected_base_revision
    projected ← apply_all env state events
    committed ←
        map_err storage
          (port.commit_batch store events projected expected_base_revision cognitive_trace)
    ok (projected, committed)

  -- `Projector::record`
  unfoldable pub record_event : Store → ExperienceEvent → Outcome (CurrentState × Store)
  record_event store event = record_batch store (event ∷ []) none none
