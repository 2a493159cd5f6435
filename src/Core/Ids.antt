-- ===== src/Core/Ids.antt =====
-- The ids of src/core/model.rs. Each is a UUID, taken as the number that its sixteen bytes spell, so the
-- order of ids is the order of numbers. A `serde_json::Value` is taken as its text.
use hekate.Prelude.{ℕ}
use hekate.Prelude.Text.{Text}

abbrev pub Uuid : Type 0
Uuid = ℕ

abbrev pub Json : Type 0
Json = Text

abbrev pub PrincipalId : Type 0
PrincipalId = Uuid

abbrev pub IdentityVersionId : Type 0
IdentityVersionId = Uuid

abbrev pub RelationshipId : Type 0
RelationshipId = Uuid

abbrev pub GoalId : Type 0
GoalId = Uuid

abbrev pub TaskId : Type 0
TaskId = Uuid

abbrev pub RunId : Type 0
RunId = Uuid

abbrev pub AttemptId : Type 0
AttemptId = Uuid

abbrev pub WorkingStateId : Type 0
WorkingStateId = Uuid

abbrev pub PositionId : Type 0
PositionId = Uuid

abbrev pub ConflictId : Type 0
ConflictId = Uuid

abbrev pub CommitmentId : Type 0
CommitmentId = Uuid

abbrev pub ObservationId : Type 0
ObservationId = Uuid

abbrev pub DecisionId : Type 0
DecisionId = Uuid

abbrev pub ActionIntentId : Type 0
ActionIntentId = Uuid

abbrev pub OperationId : Type 0
OperationId = Uuid

abbrev pub ArtifactId : Type 0
ArtifactId = Uuid

abbrev pub EventId : Type 0
EventId = Uuid

abbrev pub MemoryCandidateId : Type 0
MemoryCandidateId = Uuid

abbrev pub MemoryId : Type 0
MemoryId = Uuid

abbrev pub ApprovalId : Type 0
ApprovalId = Uuid

abbrev pub ReceiptId : Type 0
ReceiptId = Uuid

abbrev pub VerificationId : Type 0
VerificationId = Uuid

abbrev pub SleepRunId : Type 0
SleepRunId = Uuid

abbrev pub IntegrationCandidateId : Type 0
IntegrationCandidateId = Uuid

abbrev pub CompletionCriterionId : Type 0
CompletionCriterionId = Uuid

abbrev pub CompletionClaimId : Type 0
CompletionClaimId = Uuid
