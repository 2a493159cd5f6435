-- ===== src/Core/Env.antt =====
-- What the program takes from elsewhere: the crates uuid, sha2 and serde_json, Unicode's tables, and the
-- clock. A value of this record fixes one behaviour of them; two runs of the program differ in the clock.
use hekate.Core.Social.{Principal, IdentityVersion, Relationship}
use hekate.Core.Actions.{
  Observation, Decision, ActionIntent, Operation, Artifact, Approval, Receipt, Verification,
  ResponseRecord,
}
use hekate.Core.Continuity.{FocusResolution}
use hekate.Core.Work.{Goal, Task, Run, Attempt, WorkingState}
use hekate.Core.Stances.{Position, Conflict, Commitment}
use hekate.Core.Evidence.{CompletionCriterion, CompletionClaim, CompletionClaimTransition}
use hekate.Core.Initiatives.{InitiativeProposal, InitiativeKind}
use hekate.Core.Memories.{MemoryCandidate, ActiveMemory}
use hekate.Core.Sleep.{SleepRun, IntegrationCandidate, IntegrationCandidateKind}
use hekate.Core.Integration.{
  PositionIntegrationEventPayload, IntegrationVerification, IntegrationMaterialization,
  MemoryRevisionMaterialization,
}
use hekate.Core.Events.{EntityRef, ExperienceEvent}
use hekate.Core.Ids.{EventId, Json, PrincipalId, Uuid}
use hekate.Core.Proposals.{MemoryRevisionProposal, PositionIntegrationProposal}
use hekate.Prelude.{ℕ, Bool, List, String}
use hekate.Prelude.Text.{Text}
use hekate.Prelude.Results.{Result}

pub record Env : Type 0 where
  -- `Uuid`'s `Display`, `str::to_lowercase`, `Sha256::digest`.
  pub uuid_text : Uuid → Text
  pub to_lowercase : Text → Text
  -- `char::is_alphanumeric`
  pub is_alphanumeric : ℕ → Bool
  pub digest : List ℕ → List ℕ
  -- `serde_json::to_string(kind)`, and `to_vec` of the tuple of an initiative's fingerprint.
  pub kind_json : IntegrationCandidateKind → Text
  pub initiative_json : InitiativeKind → EntityRef → ℕ → PrincipalId → List EventId → List ℕ
  -- `serde_json::to_vec(event)`
  pub event_json : ExperienceEvent → Result String (List ℕ)
  -- The text of the object that `prepare` makes of the current item, the others and the evidence.
  pub user_json : Json → List Json → List EventId → Text
  -- `payload.get(name).is_some()`
  pub has_member : Json → Text → Bool
  -- `serde_json::from_str` of a proposal.
  pub from_str_position : Text → Result String PositionIntegrationProposal
  pub from_str_memory : Text → Result String MemoryRevisionProposal
  -- The clock as it is read while the projector, or the agenda, decodes the payload of an event.
  pub projected_at : ExperienceEvent → Text
  pub consulted_at : ExperienceEvent → Text
  -- `serde_json::from_value` at each type of payload. Three types have a `created_at` whose default is the
  -- reading of the clock, which their decoders take.
  pub decode_principal : Json → Result String Principal
  pub decode_identity_version : Text → Json → Result String IdentityVersion
  pub decode_relationship : Json → Result String Relationship
  pub decode_observation : Json → Result String Observation
  pub decode_decision : Json → Result String Decision
  pub decode_action_intent : Json → Result String ActionIntent
  pub decode_operation : Json → Result String Operation
  pub decode_artifact : Json → Result String Artifact
  pub decode_approval : Json → Result String Approval
  pub decode_receipt : Json → Result String Receipt
  pub decode_verification : Json → Result String Verification
  pub decode_focus_resolution : Json → Result String FocusResolution
  pub decode_goal : Json → Result String Goal
  pub decode_task : Json → Result String Task
  pub decode_run : Json → Result String Run
  pub decode_attempt : Json → Result String Attempt
  pub decode_working_state : Json → Result String WorkingState
  pub decode_position : Text → Json → Result String Position
  pub decode_conflict : Text → Json → Result String Conflict
  pub decode_commitment : Json → Result String Commitment
  pub decode_completion_criterion : Json → Result String CompletionCriterion
  pub decode_completion_claim : Json → Result String CompletionClaim
  pub decode_completion_claim_transition : Json → Result String CompletionClaimTransition
  pub decode_initiative_proposal : Json → Result String InitiativeProposal
  pub decode_memory_candidate : Json → Result String MemoryCandidate
  pub decode_active_memory : Json → Result String ActiveMemory
  pub decode_sleep_run : Json → Result String SleepRun
  pub decode_integration_candidate : Json → Result String IntegrationCandidate
  pub decode_position_integration_event_payload :
      Json → Result String PositionIntegrationEventPayload
  pub decode_integration_verification : Json → Result String IntegrationVerification
  pub decode_integration_materialization : Json → Result String IntegrationMaterialization
  pub decode_memory_revision_materialization : Json → Result String MemoryRevisionMaterialization
  -- `serde_json::to_value` of the payloads that the completion service and the engine make.
  pub encode_task : Task → Result String Json
  pub encode_completion_criterion : CompletionCriterion → Result String Json
  pub encode_completion_claim : CompletionClaim → Result String Json
  pub encode_completion_claim_transition : CompletionClaimTransition → Result String Json
  pub encode_decision : Decision → Result String Json
  pub encode_position : Position → Result String Json
  pub encode_conflict : Conflict → Result String Json
  pub encode_action_intent : ActionIntent → Result String Json
  pub encode_operation : Operation → Result String Json
  pub encode_approval : Approval → Result String Json
  pub encode_response_record : ResponseRecord → Result String Json
  pub encode_working_state : WorkingState → Result String Json
  pub encode_run : Run → Result String Json
  pub encode_attempt : Attempt → Result String Json
