-- ===== src/Recovery.antt =====
-- `recover` (src/runtime/recovery.rs), which compares the stored state with the replay of the log.
pub mod Laws
use hekate.Core.Actions.{Approval, Operation}
use hekate.Core.Env.{Env}
use hekate.Core.Ids.{ApprovalId, AttemptId, OperationId, RunId}
use hekate.Core.State.{CurrentState}
use hekate.Core.StateEq.{current_state_eq}
use hekate.Core.Work.{Attempt, AttemptStatus, Run, RunStatus}
use hekate.Completion.Gate.{is_pending, is_unsettled}
use hekate.Prelude.{ℕ, Bool, true, false, List, filter, map, ◌!=◌, ℕ_eq}
use hekate.Prelude.BTreeMap.{values}
use hekate.Prelude.Results.{Result, ok, ◌>>=◌, ◌>>◌, map_err, reject_if}
use hekate.Projector.Apply.{replay}
use hekate.Projector.Errors.{ProjectionError}
use hekate.Storage.{EventLog, Storage}
use hekate.Storage.Errors.{StorageError}

pub record RecoveryReport : Type 0 where
  pub revision : ℕ
  pub active_runs : List RunId
  pub pending_approvals : List ApprovalId
  pub incomplete_attempts : List AttemptId
  pub unknown_operations : List OperationId
  pub projection_verified : Bool

pub data RecoveryError : Type 0 where
  storage_failed : StorageError → RecoveryError
  projection_failed : ProjectionError → RecoveryError
  revision_mismatch : ℕ → ℕ → RecoveryError
  projection_mismatch : RecoveryError

-- The `matches!` of the runs and of the attempts.
abbrev pub is_active : RunStatus → Bool
is_active RunStatus.pending = true
is_active RunStatus.running = true
is_active RunStatus.suspended = true
is_active RunStatus.needs_attention = true
is_active _ = false

abbrev pub is_incomplete : AttemptStatus → Bool
is_incomplete AttemptStatus.started = true
is_incomplete _ = false

-- The report on a state that is verified.
unfoldable pub report_of : CurrentState → RecoveryReport
report_of state = record {
  revision = state.revision;
  active_runs =
      map (λ run. Run.id run) (filter (λ (run : Run). is_active run.status) (values state.runs));
  pending_approvals =
      map (λ approval. Approval.id approval) (filter is_pending (values state.approvals));
  incomplete_attempts =
      map (λ attempt. Attempt.id attempt)
        (filter (λ (attempt : Attempt). is_incomplete attempt.status) (values state.attempts));
  unknown_operations =
      map (λ operation. Operation.id operation) (filter is_unsettled (values state.operations));
  projection_verified = true;
}

module _ {Store Trace : Type 0} (port : Storage Store Trace) (log : EventLog port) (env : Env) where
  unfoldable pub recover : Store → Result RecoveryError RecoveryReport
  recover store = do
    state ← map_err storage_failed (port.load_state store)
    events ← map_err storage_failed (log.load_events store)
    replayed ← map_err projection_failed (replay env events)
    reject_if (CurrentState.revision replayed != CurrentState.revision state)
        (revision_mismatch (CurrentState.revision state) (CurrentState.revision replayed))
    reject_if (state != replayed) projection_mismatch
    ok (report_of state)
