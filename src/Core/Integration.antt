-- ===== src/Core/Integration.antt =====
-- Verification and materialization records of integration candidates (src/core/integration.rs).
use hekate.Core.Evidence.{EvidenceRef, VerificationDisposition}
use hekate.Core.Ids.{
  EventId, IntegrationCandidateId, MemoryCandidateId, MemoryId, PositionId, PrincipalId,
}
use hekate.Core.Stances.{Position}
use hekate.Prelude.{Eq, List, Option, eq_of_discrete, ℕ}
use hekate.Prelude.Text.{Text}

pub data PositionIntegrationActionKind : Type 0 where
  establish revise withdraw : PositionIntegrationActionKind

unfoldable pub PositionIntegrationActionKind-discrete : Discrete PositionIntegrationActionKind
PositionIntegrationActionKind-discrete = hlevel

instance unfoldable pub position_integration_action_kind_eq : Eq PositionIntegrationActionKind
unfolding PositionIntegrationActionKind-discrete
position_integration_action_kind_eq = eq_of_discrete PositionIntegrationActionKind-discrete

pub data MemoryRevisionActionKind : Type 0 where
  replace expire : MemoryRevisionActionKind

pub record IntegrationVerification : Type 0 where
  pub candidate_id : IntegrationCandidateId
  pub verification_event_id : Option EventId
  pub previous_disposition : VerificationDisposition
  pub new_disposition : VerificationDisposition
  pub actor_id : PrincipalId
  pub reason : Text
  pub evidence_refs : List EvidenceRef
  pub as_of_revision : ℕ
  pub created_at : Text

pub record IntegrationMaterialization : Type 0 where
  pub candidate_id : IntegrationCandidateId
  pub memory_candidate_id : MemoryCandidateId
  pub memory_id : MemoryId
  pub source_event_ids : List EventId
  pub counterevidence_event_ids : List EventId
  pub evidence_refs : List EvidenceRef
  pub fingerprint : Text
  pub as_of_revision : ℕ
  pub created_at : Text

pub record PositionIntegrationMaterialization : Type 0 where
  pub candidate_id : IntegrationCandidateId
  pub position_id : PositionId
  pub position_event_id : EventId
  pub verification_event_id : EventId
  pub action : PositionIntegrationActionKind
  pub prior_position : Option Position
  pub source_event_ids : List EventId
  pub counterevidence_event_ids : List EventId
  pub evidence_refs : List EvidenceRef
  pub fingerprint : Text
  pub as_of_revision : ℕ
  pub created_at : Text

pub record PositionIntegrationEventPayload : Type 0 where
  pub position : Position
  pub position_integration : PositionIntegrationMaterialization

pub record MemoryRevisionMaterialization : Type 0 where
  pub candidate_id : IntegrationCandidateId
  pub verification_event_id : EventId
  pub target_memory_id : MemoryId
  pub replacement_memory_id : Option MemoryId
  pub expected_event_id : EventId
  pub expected_event_hash : Text
  pub action : MemoryRevisionActionKind
  pub source_event_ids : List EventId
  pub counterevidence_event_ids : List EventId
  pub evidence_refs : List EvidenceRef
  pub fingerprint : Text
  pub as_of_revision : ℕ
  pub created_at : Text
