-- ===== src/Core/Events.antt =====
-- Experience events (src/core/event.rs).
use hekate.Core.Ids.{EventId, Json, PrincipalId, Uuid}
use hekate.Prelude.{Eq, Option, eq_of_discrete, ℕ}
use hekate.Prelude.Text.{Text}
use native.Mathlib.Decide.{ℕ_discrete}

pub data EventKind : Type 0 where
  principal_created identity_version_created relationship_created user_message_received
        observation_recorded focus_resolved goal_created task_created task_completed run_started
        run_suspended run_completed working_state_updated decision_created response_produced
        position_established position_maintained position_revised position_retracted
        position_recorded conflict_opened conflict_updated conflict_resolved conflict_recorded
        commitment_created commitment_fulfilled action_intent_created operation_planned
        operation_authorized approval_requested approval_resolved operation_started
        operation_succeeded operation_failed operation_state_unknown receipt_recorded
        verification_recorded memory_candidate_created memory_promoted memory_rejected
        memory_superseded memory_expired attempt_started attempt_completed artifact_created
        sleep_run_started integration_candidate_created sleep_run_completed sleep_run_interrupted
        sleep_run_failed integration_candidate_verified integration_candidate_rejected
        integration_candidate_materialized memory_revision_materialized completion_criterion_defined
        completion_claim_created completion_claim_verified completion_claim_rejected
        initiative_proposed initiative_readied initiative_dismissed state_changed :
      EventKind

pub data EntityKind : Type 0 where
  principal identity_version relationship observation goal task run working_state decision position
        conflict commitment action_intent operation approval receipt verification memory_candidate
        memory attempt artifact sleep_run integration_candidate completion_criterion
        completion_claim initiative :
      EntityKind

unfoldable pub EntityKind-discrete : Discrete EntityKind
EntityKind-discrete = hlevel

instance unfoldable pub entity_kind_eq : Eq EntityKind
unfolding EntityKind-discrete
entity_kind_eq = eq_of_discrete EntityKind-discrete

pub record EntityRef : Type 0 where
  pub kind : EntityKind
  pub id : Uuid

unfoldable pub EntityRef-discrete : Discrete EntityRef
unfolding ℕ_discrete EntityKind-discrete
EntityRef-discrete = hlevel (ℕ_discrete, EntityKind-discrete)

instance unfoldable pub entity_ref_eq : Eq EntityRef
unfolding EntityRef-discrete
entity_ref_eq = eq_of_discrete EntityRef-discrete

pub record EventSource : Type 0 where
  pub source_type : Text
  pub source_ref : Option Text

-- `confidence` is a 32-bit float in the source, here the number of its bits: nothing computes with it.
pub record ExperienceEvent : Type 0 where
  pub event_id : EventId
  pub occurred_at : Text
  pub recorded_at : Text
  pub actor_id : PrincipalId
  pub event_kind : EventKind
  pub subject : Option EntityRef
  pub payload : Json
  pub source : EventSource
  pub causation_id : Option EventId
  pub correlation_id : Option Text
  pub confidence : Option ℕ
  pub integrity_hash : Text
