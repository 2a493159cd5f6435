-- ===== src/Projector/Apply.antt =====
-- `Projector::apply` and `replay` (src/runtime/projector.rs). The source changes the state in place and
-- its callers drop a state whose event fails, so a handler returns the new state or the error.

use hekate.Core.Env.{Env}
use hekate.Core.Evidence.{VerificationDisposition}
use hekate.Core.Events.{EventKind, ExperienceEvent}
use hekate.Core.Initiatives.{InitiativeStatus}
use hekate.Core.State.{CurrentState, empty}
use hekate.Prelude.{ℕ, ◌+◌, ◌%◌, ◌^◌, List, [], ◌∷◌, ◌++◌, contains, ℕ_eq}
use hekate.Prelude.Results.{ok, ◌>>=◌, ◌>>◌, reject_if, try_fold}
use hekate.Projector.Candidates.{apply_candidate_created, apply_integration_transition}
use hekate.Projector.Claims.{
  apply_claim_created_event, apply_claim_transition_event, apply_criterion_defined,
}
use hekate.Projector.Errors.{Outcome, Handler, duplicate}
use hekate.Projector.Focus.{apply_focus_resolution}
use hekate.Projector.Initiatives.{
  apply_initiative_dismissed, apply_initiative_proposed, apply_initiative_transition,
}
use hekate.Projector.Materialize.{
  apply_integration_materialization, apply_memory_revision_materialization,
}
use hekate.Projector.Positions.{apply_position_event}
use hekate.Projector.Sleep.{apply_sleep_run}
use hekate.Projector.Tasks.{apply_task_completion}
use hekate.Projector.Inserts.{
  apply_identity, apply_verification, apply_memory, apply_conflict, apply_working_state,
  insert_principal, insert_relationship, insert_observation, insert_goal, insert_task, insert_run,
  insert_attempt, insert_decision, insert_commitment, insert_action_intent, insert_operation,
  insert_artifact, insert_approval, insert_receipt, insert_memory_candidate,
}

-- The match over the kinds.
unfoldable pub dispatch : EventKind → Env → Handler
dispatch EventKind.principal_created env = insert_principal env
dispatch EventKind.identity_version_created env = apply_identity env
dispatch EventKind.relationship_created env = insert_relationship env
dispatch EventKind.user_message_received env = insert_observation env
dispatch EventKind.observation_recorded env = insert_observation env
dispatch EventKind.focus_resolved env = apply_focus_resolution env
dispatch EventKind.goal_created env = insert_goal env
dispatch EventKind.task_created env = insert_task env
dispatch EventKind.task_completed env = apply_task_completion env
dispatch EventKind.run_started env = insert_run env
dispatch EventKind.run_suspended env = insert_run env
dispatch EventKind.run_completed env = insert_run env
dispatch EventKind.working_state_updated env = apply_working_state env
dispatch EventKind.decision_created env = insert_decision env
dispatch EventKind.response_produced env = λ state event. ok state
dispatch EventKind.position_established env = apply_position_event env
dispatch EventKind.position_maintained env = apply_position_event env
dispatch EventKind.position_revised env = apply_position_event env
dispatch EventKind.position_retracted env = apply_position_event env
dispatch EventKind.position_recorded env = apply_position_event env
dispatch EventKind.conflict_opened env = apply_conflict env
dispatch EventKind.conflict_updated env = apply_conflict env
dispatch EventKind.conflict_resolved env = apply_conflict env
dispatch EventKind.conflict_recorded env = apply_conflict env
dispatch EventKind.commitment_created env = insert_commitment env
dispatch EventKind.commitment_fulfilled env = insert_commitment env
dispatch EventKind.action_intent_created env = insert_action_intent env
dispatch EventKind.operation_planned env = insert_operation env
dispatch EventKind.operation_authorized env = insert_operation env
dispatch EventKind.approval_requested env = insert_approval env
dispatch EventKind.approval_resolved env = insert_approval env
dispatch EventKind.operation_started env = insert_operation env
dispatch EventKind.operation_succeeded env = insert_operation env
dispatch EventKind.operation_failed env = insert_operation env
dispatch EventKind.operation_state_unknown env = insert_operation env
dispatch EventKind.receipt_recorded env = insert_receipt env
dispatch EventKind.verification_recorded env = apply_verification env
dispatch EventKind.memory_candidate_created env = insert_memory_candidate env
dispatch EventKind.memory_promoted env = apply_memory env
dispatch EventKind.memory_rejected env = insert_memory_candidate env
dispatch EventKind.memory_superseded env = apply_memory env
dispatch EventKind.memory_expired env = apply_memory env
dispatch EventKind.attempt_started env = insert_attempt env
dispatch EventKind.attempt_completed env = insert_attempt env
dispatch EventKind.artifact_created env = insert_artifact env
dispatch EventKind.sleep_run_started env = apply_sleep_run env
dispatch EventKind.integration_candidate_created env = apply_candidate_created env
dispatch EventKind.sleep_run_completed env = apply_sleep_run env
dispatch EventKind.sleep_run_interrupted env = apply_sleep_run env
dispatch EventKind.sleep_run_failed env = apply_sleep_run env
dispatch EventKind.integration_candidate_verified env =
    apply_integration_transition env VerificationDisposition.verified
dispatch EventKind.integration_candidate_rejected env =
    apply_integration_transition env VerificationDisposition.rejected
dispatch EventKind.integration_candidate_materialized env = apply_integration_materialization env
dispatch EventKind.memory_revision_materialized env = apply_memory_revision_materialization env
dispatch EventKind.completion_criterion_defined env = apply_criterion_defined env
dispatch EventKind.completion_claim_created env = apply_claim_created_event env
dispatch EventKind.completion_claim_verified env =
    apply_claim_transition_event env VerificationDisposition.verified
dispatch EventKind.completion_claim_rejected env =
    apply_claim_transition_event env VerificationDisposition.rejected
dispatch EventKind.initiative_proposed env = apply_initiative_proposed env
dispatch EventKind.initiative_readied env = λ state event.
    apply_initiative_transition env state event InitiativeStatus.proposed InitiativeStatus.ready
dispatch EventKind.initiative_dismissed env = apply_initiative_dismissed env
dispatch EventKind.state_changed env = λ state event. ok state

abbrev pub u64_modulus : ℕ
u64_modulus = 2 ^ 64

-- The last two lines: the revision goes up by one, and the event joins the ledger.
unfoldable pub advance : CurrentState → ExperienceEvent → CurrentState
advance state event = record state {
  revision = (state.revision + 1) % u64_modulus;
  applied_events = state.applied_events ++ event.event_id ∷ [];
}

unfoldable pub apply : Env → Handler
apply env state event = do
  reject_if (contains state.applied_events event.event_id)
      (duplicate (env.uuid_text event.event_id))
  moved ← dispatch event.event_kind env state event
  ok (advance moved event)

-- `for event in events { Self::apply(&mut state, event)?; }`
abbrev pub apply_all : Env → CurrentState → List ExperienceEvent → Outcome CurrentState
apply_all env state events = try_fold (apply env) state events

unfoldable pub replay : Env → List ExperienceEvent → Outcome CurrentState
replay env events = apply_all env empty events
