-- ===== src/Completion.antt =====
-- The types of the completion service (src/runtime/completion.rs). An error of serde_json or of an event is
-- a string.
pub mod Checks
pub mod Commits
pub mod Gate
pub mod GateLaws
pub mod Progress
pub mod Readiness
pub mod Service
pub mod TaskLaws
use hekate.Core.Evidence.{CompletionClaim, VerificationDisposition}
use hekate.Core.Ids.{
  ApprovalId, ArtifactId, CompletionClaimId, CompletionCriterionId, EventId, OperationId, TaskId,
  Uuid,
}
use hekate.Prelude.{ℕ, Bool, String, Option, List}
use hekate.Prelude.Results.{Result}
use hekate.Prelude.Text.{Text}
use hekate.Projector.Errors.{ProjectionError}
use hekate.Storage.Errors.{StorageError}
use hekate.Transition.{TransitionError}

pub data CompletionGateResult : Type 0 where
  ready : List CompletionClaimId → CompletionGateResult
  blocked :
      List CompletionCriterionId
      → List CompletionClaimId
      → List CompletionClaimId
      → List Text
      → List ApprovalId
      → List OperationId
      → CompletionGateResult

pub data CompletionError : Type 0 where
  unknown_task : TaskId → CompletionError
  unknown_criterion : CompletionCriterionId → CompletionError
  criterion_task_mismatch : CompletionCriterionId → TaskId → CompletionError
  unknown_claim unknown_superseded_claim : CompletionClaimId → CompletionError
  empty_criterion_description duplicate_criterion superseded_claim_mismatch evidence_required
        blocker_present invalid_reason model_cannot_verify :
      CompletionError
  invalid_confidence : ℕ → CompletionError
  invalid_source_hash duplicate_fingerprint : Text → CompletionError
  unknown_event_evidence : EventId → CompletionError
  unknown_artifact_evidence : ArtifactId → CompletionError
  artifact_provenance_mismatch : ArtifactId → EventId → CompletionError
  artifact_hash_mismatch : ArtifactId → CompletionError
  event_hash_mismatch : EventId → CompletionError
  future_evidence_sequence stale_revision : ℕ → ℕ → CompletionError
  invalid_disposition_transition :
      VerificationDisposition → VerificationDisposition → CompletionError
  gate_blocked : CompletionGateResult → CompletionError
  transition_failed : TransitionError → CompletionError
  storage_failed : StorageError → CompletionError
  projection_failed : ProjectionError → CompletionError
  serialization event_failed : String → CompletionError

abbrev pub Outcome : Type 0 → Type 0
Outcome A = Result CompletionError A

pub record CompletionCriterionStatus : Type 0 where
  pub criterion_id : CompletionCriterionId
  pub description : Text
  pub required : Bool
  pub latest_claim : Option CompletionClaim

pub record CompletionStatusReport : Type 0 where
  pub task_id : TaskId
  pub as_of_sequence : ℕ
  pub criteria : List CompletionCriterionStatus
  pub gate : CompletionGateResult

-- What an operation takes from the generator of ids and from the clock: the id and the two instants of its
-- event, and the id and the instant of what it creates.
pub record Stamp : Type 0 where
  pub event_id : EventId
  pub occurred_at : Text
  pub recorded_at : Text
  pub new_id : Uuid
  pub created_at : Text
