-- ===== src/Projector/Footprint.antt =====
-- What each kind of event leaves alone (src/runtime/projector.rs): the revision and the ledger by all, and
-- the other parts by every kind that is not listed for them.
use hekate.Core.Env.{Env}
use hekate.Core.Evidence.{VerificationDisposition}
use hekate.Core.Events.{EventKind, ExperienceEvent}
use hekate.Core.Initiatives.{InitiativeStatus}
use hekate.Core.State.{CurrentState}
use hekate.Prelude.{◌≡◌, Bool, true, false, arith}
use hekate.Prelude.Results.{Ensures, Ensures-ok}
use hekate.Projector.Apply.{dispatch}
use hekate.Projector.Errors.{Outcome}
use hekate.Projector.Frames.{
  apply_candidate_created-frame, apply_claim_created_event-frame,
  apply_claim_transition_event-frame, apply_conflict-frame, apply_criterion_defined-frame,
  apply_focus_resolution-frame, apply_identity-frame, apply_initiative_dismissed-frame,
  apply_initiative_proposed-frame, apply_initiative_transition-frame,
  apply_integration_materialization-frame, apply_integration_transition-frame, apply_memory-frame,
  apply_memory_revision_materialization-frame, apply_position_event-frame, apply_sleep_run-frame,
  apply_task_completion-frame, apply_verification-frame, apply_working_state-frame,
  insert_action_intent-frame, insert_approval-frame, insert_artifact-frame, insert_attempt-frame,
  insert_commitment-frame, insert_decision-frame, insert_goal-frame, insert_memory_candidate-frame,
  insert_observation-frame, insert_operation-frame, insert_principal-frame, insert_receipt-frame,
  insert_relationship-frame, insert_run-frame, insert_task-frame,
}

abbrev pub touches_tasks : EventKind → Bool
touches_tasks EventKind.task_created = true
touches_tasks EventKind.task_completed = true
touches_tasks _ = false

abbrev pub touches_criteria : EventKind → Bool
touches_criteria EventKind.completion_criterion_defined = true
touches_criteria _ = false

abbrev pub touches_claims : EventKind → Bool
touches_claims EventKind.completion_claim_created = true
touches_claims EventKind.completion_claim_verified = true
touches_claims EventKind.completion_claim_rejected = true
touches_claims _ = false

abbrev pub touches_initiatives : EventKind → Bool
touches_initiatives EventKind.initiative_proposed = true
touches_initiatives EventKind.initiative_readied = true
touches_initiatives EventKind.initiative_dismissed = true
touches_initiatives _ = false

abbrev pub touches_sleep : EventKind → Bool
touches_sleep EventKind.sleep_run_started = true
touches_sleep EventKind.sleep_run_completed = true
touches_sleep EventKind.sleep_run_interrupted = true
touches_sleep EventKind.sleep_run_failed = true
touches_sleep _ = false

abbrev pub touches_candidates : EventKind → Bool
touches_candidates EventKind.integration_candidate_created = true
touches_candidates EventKind.integration_candidate_verified = true
touches_candidates EventKind.integration_candidate_rejected = true
touches_candidates _ = false

abbrev pub touches_verifications : EventKind → Bool
touches_verifications EventKind.integration_candidate_verified = true
touches_verifications EventKind.integration_candidate_rejected = true
touches_verifications _ = false

abbrev pub touches_materializations : EventKind → Bool
touches_materializations EventKind.integration_candidate_materialized = true
touches_materializations _ = false

abbrev pub touches_position_materializations : EventKind → Bool
touches_position_materializations EventKind.position_established = true
touches_position_materializations EventKind.position_maintained = true
touches_position_materializations EventKind.position_revised = true
touches_position_materializations EventKind.position_retracted = true
touches_position_materializations EventKind.position_recorded = true
touches_position_materializations _ = false

abbrev pub touches_revisions : EventKind → Bool
touches_revisions EventKind.memory_revision_materialized = true
touches_revisions _ = false

abbrev pub touches_principals : EventKind → Bool
touches_principals EventKind.principal_created = true
touches_principals EventKind.identity_version_created = true
touches_principals _ = false

abbrev pub touches_focus : EventKind → Bool
touches_focus EventKind.focus_resolved = true
touches_focus _ = false

abbrev pub touches_conflicts : EventKind → Bool
touches_conflicts EventKind.conflict_opened = true
touches_conflicts EventKind.conflict_updated = true
touches_conflicts EventKind.conflict_resolved = true
touches_conflicts EventKind.conflict_recorded = true
touches_conflicts _ = false

abbrev pub Unless : Bool → Type 0 → Type 0
Unless true P = Unit
Unless false P = P

pub record Footprint (kind : EventKind) (s s' : CurrentState) : Type 0 where
  pub revision : s'.revision ≡ s.revision
  pub applied_events : s'.applied_events ≡ s.applied_events
  pub tasks : Unless (touches_tasks kind) (s'.tasks ≡ s.tasks)
  pub completion_criteria :
      Unless (touches_criteria kind) (s'.completion_criteria ≡ s.completion_criteria)
  pub completion_claims : Unless (touches_claims kind) (s'.completion_claims ≡ s.completion_claims)
  pub initiatives : Unless (touches_initiatives kind) (s'.initiatives ≡ s.initiatives)
  pub sleep_runs : Unless (touches_sleep kind) (s'.sleep_runs ≡ s.sleep_runs)
  pub sleep_cursor : Unless (touches_sleep kind) (s'.sleep_cursor ≡ s.sleep_cursor)
  pub integration_candidates :
      Unless (touches_candidates kind) (s'.integration_candidates ≡ s.integration_candidates)
  pub integration_verifications :
      Unless
        (touches_verifications kind)
        (s'.integration_verifications ≡ s.integration_verifications)
  pub integration_materializations :
      Unless
        (touches_materializations kind)
        (s'.integration_materializations ≡ s.integration_materializations)
  pub position_integration_materializations :
      Unless
        (touches_position_materializations kind)
        (s'.position_integration_materializations ≡ s.position_integration_materializations)
  pub memory_revision_materializations :
      Unless
        (touches_revisions kind)
        (s'.memory_revision_materializations ≡ s.memory_revision_materializations)
  pub principals : Unless (touches_principals kind) (s'.principals ≡ s.principals)
  pub conflicts : Unless (touches_conflicts kind) (s'.conflicts ≡ s.conflicts)
  pub focus_resolutions : Unless (touches_focus kind) (s'.focus_resolutions ≡ s.focus_resolutions)

Ensures-map :
    {P Q : CurrentState → Type 0} (r : Outcome CurrentState)
    → Ensures P r
    → ((s' : CurrentState) → P s' → Q s')
    → Ensures Q r
Ensures-map r h f = record { at = λ s' q. f s' (h.at s' q) }

-- Every successful arm of the match keeps to its footprint.
pub dispatch-Footprint :
    (kind : EventKind) (env : Env) (s : CurrentState) (e : ExperienceEvent)
    → Ensures (Footprint kind s) (dispatch kind env s e)
unfolding dispatch
dispatch-Footprint EventKind.principal_created env s e =
    Ensures-map _ (insert_principal-frame env s e) λ s' p. ground arith
dispatch-Footprint EventKind.identity_version_created env s e =
    Ensures-map _ (apply_identity-frame env s e) λ s' p. ground arith
dispatch-Footprint EventKind.relationship_created env s e =
    Ensures-map _ (insert_relationship-frame env s e) λ s' p. ground arith
dispatch-Footprint EventKind.user_message_received env s e =
    Ensures-map _ (insert_observation-frame env s e) λ s' p. ground arith
dispatch-Footprint EventKind.observation_recorded env s e =
    Ensures-map _ (insert_observation-frame env s e) λ s' p. ground arith
dispatch-Footprint EventKind.focus_resolved env s e =
    Ensures-map _ (apply_focus_resolution-frame env s e) λ s' p. ground arith
dispatch-Footprint EventKind.goal_created env s e =
    Ensures-map _ (insert_goal-frame env s e) λ s' p. ground arith
dispatch-Footprint EventKind.task_created env s e =
    Ensures-map _ (insert_task-frame env s e) λ s' p. ground arith
dispatch-Footprint EventKind.task_completed env s e =
    Ensures-map _ (apply_task_completion-frame env s e) λ s' p. ground arith
dispatch-Footprint EventKind.run_started env s e =
    Ensures-map _ (insert_run-frame env s e) λ s' p. ground arith
dispatch-Footprint EventKind.run_suspended env s e =
    Ensures-map _ (insert_run-frame env s e) λ s' p. ground arith
dispatch-Footprint EventKind.run_completed env s e =
    Ensures-map _ (insert_run-frame env s e) λ s' p. ground arith
dispatch-Footprint EventKind.working_state_updated env s e =
    Ensures-map _ (apply_working_state-frame env s e) λ s' p. ground arith
dispatch-Footprint EventKind.decision_created env s e =
    Ensures-map _ (insert_decision-frame env s e) λ s' p. ground arith
dispatch-Footprint EventKind.response_produced env s e =
    Ensures-ok (Footprint EventKind.response_produced s) s (ground arith)
dispatch-Footprint EventKind.position_established env s e =
    Ensures-map _ (apply_position_event-frame env s e) λ s' p. ground arith
dispatch-Footprint EventKind.position_maintained env s e =
    Ensures-map _ (apply_position_event-frame env s e) λ s' p. ground arith
dispatch-Footprint EventKind.position_revised env s e =
    Ensures-map _ (apply_position_event-frame env s e) λ s' p. ground arith
dispatch-Footprint EventKind.position_retracted env s e =
    Ensures-map _ (apply_position_event-frame env s e) λ s' p. ground arith
dispatch-Footprint EventKind.position_recorded env s e =
    Ensures-map _ (apply_position_event-frame env s e) λ s' p. ground arith
dispatch-Footprint EventKind.conflict_opened env s e =
    Ensures-map _ (apply_conflict-frame env s e) λ s' p. ground arith
dispatch-Footprint EventKind.conflict_updated env s e =
    Ensures-map _ (apply_conflict-frame env s e) λ s' p. ground arith
dispatch-Footprint EventKind.conflict_resolved env s e =
    Ensures-map _ (apply_conflict-frame env s e) λ s' p. ground arith
dispatch-Footprint EventKind.conflict_recorded env s e =
    Ensures-map _ (apply_conflict-frame env s e) λ s' p. ground arith
dispatch-Footprint EventKind.commitment_created env s e =
    Ensures-map _ (insert_commitment-frame env s e) λ s' p. ground arith
dispatch-Footprint EventKind.commitment_fulfilled env s e =
    Ensures-map _ (insert_commitment-frame env s e) λ s' p. ground arith
dispatch-Footprint EventKind.action_intent_created env s e =
    Ensures-map _ (insert_action_intent-frame env s e) λ s' p. ground arith
dispatch-Footprint EventKind.operation_planned env s e =
    Ensures-map _ (insert_operation-frame env s e) λ s' p. ground arith
dispatch-Footprint EventKind.operation_authorized env s e =
    Ensures-map _ (insert_operation-frame env s e) λ s' p. ground arith
dispatch-Footprint EventKind.approval_requested env s e =
    Ensures-map _ (insert_approval-frame env s e) λ s' p. ground arith
dispatch-Footprint EventKind.approval_resolved env s e =
    Ensures-map _ (insert_approval-frame env s e) λ s' p. ground arith
dispatch-Footprint EventKind.operation_started env s e =
    Ensures-map _ (insert_operation-frame env s e) λ s' p. ground arith
dispatch-Footprint EventKind.operation_succeeded env s e =
    Ensures-map _ (insert_operation-frame env s e) λ s' p. ground arith
dispatch-Footprint EventKind.operation_failed env s e =
    Ensures-map _ (insert_operation-frame env s e) λ s' p. ground arith
dispatch-Footprint EventKind.operation_state_unknown env s e =
    Ensures-map _ (insert_operation-frame env s e) λ s' p. ground arith
dispatch-Footprint EventKind.receipt_recorded env s e =
    Ensures-map _ (insert_receipt-frame env s e) λ s' p. ground arith
dispatch-Footprint EventKind.verification_recorded env s e =
    Ensures-map _ (apply_verification-frame env s e) λ s' p. ground arith
dispatch-Footprint EventKind.memory_candidate_created env s e =
    Ensures-map _ (insert_memory_candidate-frame env s e) λ s' p. ground arith
dispatch-Footprint EventKind.memory_promoted env s e =
    Ensures-map _ (apply_memory-frame env s e) λ s' p. ground arith
dispatch-Footprint EventKind.memory_rejected env s e =
    Ensures-map _ (insert_memory_candidate-frame env s e) λ s' p. ground arith
dispatch-Footprint EventKind.memory_superseded env s e =
    Ensures-map _ (apply_memory-frame env s e) λ s' p. ground arith
dispatch-Footprint EventKind.memory_expired env s e =
    Ensures-map _ (apply_memory-frame env s e) λ s' p. ground arith
dispatch-Footprint EventKind.attempt_started env s e =
    Ensures-map _ (insert_attempt-frame env s e) λ s' p. ground arith
dispatch-Footprint EventKind.attempt_completed env s e =
    Ensures-map _ (insert_attempt-frame env s e) λ s' p. ground arith
dispatch-Footprint EventKind.artifact_created env s e =
    Ensures-map _ (insert_artifact-frame env s e) λ s' p. ground arith
dispatch-Footprint EventKind.sleep_run_started env s e =
    Ensures-map _ (apply_sleep_run-frame env s e) λ s' p. ground arith
dispatch-Footprint EventKind.integration_candidate_created env s e =
    Ensures-map _ (apply_candidate_created-frame env s e) λ s' p. ground arith
dispatch-Footprint EventKind.sleep_run_completed env s e =
    Ensures-map _ (apply_sleep_run-frame env s e) λ s' p. ground arith
dispatch-Footprint EventKind.sleep_run_interrupted env s e =
    Ensures-map _ (apply_sleep_run-frame env s e) λ s' p. ground arith
dispatch-Footprint EventKind.sleep_run_failed env s e =
    Ensures-map _ (apply_sleep_run-frame env s e) λ s' p. ground arith
dispatch-Footprint EventKind.integration_candidate_verified env s e =
    Ensures-map _ (apply_integration_transition-frame env s e VerificationDisposition.verified)
      λ s' p. ground arith
dispatch-Footprint EventKind.integration_candidate_rejected env s e =
    Ensures-map _ (apply_integration_transition-frame env s e VerificationDisposition.rejected)
      λ s' p. ground arith
dispatch-Footprint EventKind.integration_candidate_materialized env s e =
    Ensures-map _ (apply_integration_materialization-frame env s e) λ s' p. ground arith
dispatch-Footprint EventKind.memory_revision_materialized env s e =
    Ensures-map _ (apply_memory_revision_materialization-frame env s e) λ s' p. ground arith
dispatch-Footprint EventKind.completion_criterion_defined env s e =
    Ensures-map _ (apply_criterion_defined-frame env s e) λ s' p. ground arith
dispatch-Footprint EventKind.completion_claim_created env s e =
    Ensures-map _ (apply_claim_created_event-frame env s e) λ s' p. ground arith
dispatch-Footprint EventKind.completion_claim_verified env s e =
    Ensures-map _ (apply_claim_transition_event-frame env s e VerificationDisposition.verified)
      λ s' p. ground arith
dispatch-Footprint EventKind.completion_claim_rejected env s e =
    Ensures-map _ (apply_claim_transition_event-frame env s e VerificationDisposition.rejected)
      λ s' p. ground arith
dispatch-Footprint EventKind.initiative_proposed env s e =
    Ensures-map _ (apply_initiative_proposed-frame env s e) λ s' p. ground arith
dispatch-Footprint EventKind.initiative_readied env s e =
    Ensures-map _
      (apply_initiative_transition-frame env s e InitiativeStatus.proposed InitiativeStatus.ready)
      λ s' p. ground arith
dispatch-Footprint EventKind.initiative_dismissed env s e =
    Ensures-map _ (apply_initiative_dismissed-frame env s e) λ s' p. ground arith
dispatch-Footprint EventKind.state_changed env s e =
    Ensures-ok (Footprint EventKind.state_changed s) s (ground arith)
