-- ===== src/Core/State.antt =====
-- The state that the events are projected onto (src/core/model.rs).
use hekate.Core.Actions.{
  ActionIntent, Approval, Artifact, Decision, Observation, Operation, Receipt, Verification,
}
use hekate.Core.Continuity.{FocusResolution}
use hekate.Core.Evidence.{CompletionClaim, CompletionCriterion}
use hekate.Core.Ids.{EventId}
use hekate.Core.Initiatives.{InitiativeProposal}
use hekate.Core.Integration.{
  IntegrationMaterialization, IntegrationVerification, MemoryRevisionMaterialization,
  PositionIntegrationMaterialization,
}
use hekate.Core.Memories.{ActiveMemory, MemoryCandidate}
use hekate.Core.Sleep.{IntegrationCandidate, SleepRun}
use hekate.Core.Social.{IdentityVersion, Principal, Relationship}
use hekate.Core.Stances.{Commitment, Conflict, Position}
use hekate.Core.Work.{Attempt, Goal, Run, Task, WorkingState}
use hekate.Prelude.{List, [], ℕ}
use hekate.Prelude.BTreeMap.{BTreeMap}

pub record CurrentState : Type 0 where
  pub revision : ℕ
  pub principals : BTreeMap Principal
  pub identity_versions : BTreeMap IdentityVersion
  pub relationships : BTreeMap Relationship
  pub goals : BTreeMap Goal
  pub tasks : BTreeMap Task
  pub runs : BTreeMap Run
  pub attempts : BTreeMap Attempt
  pub working_states : BTreeMap WorkingState
  pub positions : BTreeMap Position
  pub conflicts : BTreeMap Conflict
  pub commitments : BTreeMap Commitment
  pub observations : BTreeMap Observation
  pub focus_resolutions : BTreeMap FocusResolution
  pub decisions : BTreeMap Decision
  pub action_intents : BTreeMap ActionIntent
  pub operations : BTreeMap Operation
  pub artifacts : BTreeMap Artifact
  pub memory_candidates : BTreeMap MemoryCandidate
  pub active_memories : BTreeMap ActiveMemory
  pub approvals : BTreeMap Approval
  pub receipts : BTreeMap Receipt
  pub verifications : BTreeMap Verification
  pub sleep_runs : BTreeMap SleepRun
  pub integration_candidates : BTreeMap IntegrationCandidate
  pub integration_verifications : BTreeMap IntegrationVerification
  pub integration_materializations : BTreeMap IntegrationMaterialization
  pub position_integration_materializations : BTreeMap PositionIntegrationMaterialization
  pub memory_revision_materializations : BTreeMap MemoryRevisionMaterialization
  pub sleep_cursor : ℕ
  pub completion_criteria : BTreeMap CompletionCriterion
  pub completion_claims : BTreeMap CompletionClaim
  pub initiatives : BTreeMap InitiativeProposal
  pub applied_events : List EventId

-- `CurrentState::default`
abbrev pub empty : CurrentState
empty = record {
  revision = 0;
  principals = [];
  identity_versions = [];
  relationships = [];
  goals = [];
  tasks = [];
  runs = [];
  attempts = [];
  working_states = [];
  positions = [];
  conflicts = [];
  commitments = [];
  observations = [];
  focus_resolutions = [];
  decisions = [];
  action_intents = [];
  operations = [];
  artifacts = [];
  memory_candidates = [];
  active_memories = [];
  approvals = [];
  receipts = [];
  verifications = [];
  sleep_runs = [];
  integration_candidates = [];
  integration_verifications = [];
  integration_materializations = [];
  position_integration_materializations = [];
  memory_revision_materializations = [];
  sleep_cursor = 0;
  completion_criteria = [];
  completion_claims = [];
  initiatives = [];
  applied_events = [];
}
