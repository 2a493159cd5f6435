-- ===== src/Projector/Frames.antt =====
-- The fields of the state that each handler may change: the new state is the old one with those fields
-- given anew (src/runtime/projector.rs).
use hekate.Core.Env.{Env}
use hekate.Core.Evidence.{VerificationDisposition}
use hekate.Core.Events.{EventKind, ExperienceEvent}
use hekate.Core.Sleep.{SleepRun}
use hekate.Core.Stances.{Position}
use hekate.Core.Integration.{PositionIntegrationEventPayload}
use hekate.Prelude.BTreeMap.{insert}
use hekate.Prelude.Text.{codes}
use hekate.Core.Initiatives.{InitiativeStatus}
use hekate.Core.State.{CurrentState}
use hekate.Prelude.{◌≡◌, ap, inl, inr, Bool-cases, arith}
use hekate.Prelude.Results.{Ensures, Ensures-bind, Ensures-ok}
use hekate.Projector.Conflicts.{store_conflict}
use hekate.Projector.Errors.{Outcome, payload}
use hekate.Projector.Focus.{apply_focus_resolution}
use hekate.Projector.Tasks.{apply_task_completion}
use hekate.Projector.Initiatives.{
  apply_initiative_proposed, apply_initiative_dismissed, apply_initiative_transition,
  apply_initiative_status,
}
use hekate.Projector.Inserts.{
  apply_conflict, apply_identity, apply_working_state, apply_verification, apply_memory,
  insert_principal, insert_relationship, insert_observation, insert_goal, insert_task, insert_run,
  insert_attempt, insert_decision, insert_commitment, insert_action_intent, insert_operation,
  insert_artifact, insert_approval, insert_receipt, insert_memory_candidate,
}
use hekate.Projector.Sleep.{
  apply_sleep_run, sleep_transition, start_sleep_run, complete_sleep_run, interrupt_sleep_run,
  fail_sleep_run,
}
use hekate.Projector.Claims.{
  apply_criterion_defined, apply_claim_created_event, apply_claim_created,
  apply_claim_transition_event, apply_claim_transition,
}
use hekate.Projector.Candidates.{
  apply_candidate_created, store_candidate, apply_integration_transition,
}
use hekate.Projector.Materialize.{
  apply_integration_materialization, apply_memory_revision_materialization,
}
use hekate.Projector.Positions.{
  apply_position_event, apply_position_integration, store_position_event, supersede,
}

-- A successful outcome differs from `state` only in what `keep` gives anew.
abbrev pub Only : (CurrentState → CurrentState) → Outcome CurrentState → Type 0
Only keep r = Ensures (λ s'. s' ≡ keep s') r

module _ (env : Env) (s : CurrentState) (e : ExperienceEvent) where
  pub apply_focus_resolution-frame :
      Only
        (λ s'. record s { focus_resolutions = s'.focus_resolutions })
        (apply_focus_resolution env s e)
  unfolding apply_focus_resolution
  apply_focus_resolution-frame = record { at = λ s' q. ground arith }

  pub apply_task_completion-frame :
      Only (λ s'. record s { tasks = s'.tasks }) (apply_task_completion env s e)
  unfolding apply_task_completion
  apply_task_completion-frame = record { at = λ s' q. ground arith }

  pub apply_initiative_proposed-frame :
      Only (λ s'. record s { initiatives = s'.initiatives }) (apply_initiative_proposed env s e)
  unfolding apply_initiative_proposed
  apply_initiative_proposed-frame = record { at = λ s' q. ground arith }

  pub apply_initiative_dismissed-frame :
      Only (λ s'. record s { initiatives = s'.initiatives }) (apply_initiative_dismissed env s e)
  unfolding apply_initiative_dismissed apply_initiative_status
  apply_initiative_dismissed-frame = record { at = λ s' q. ground arith }

  pub apply_conflict-frame :
      Only
        (λ s'. record s { relationships = s'.relationships; conflicts = s'.conflicts })
        (apply_conflict env s e)
  unfolding apply_conflict store_conflict
  apply_conflict-frame = record { at = λ s' q. ground arith }

  pub apply_criterion_defined-frame :
      Only
        (λ s'. record s { completion_criteria = s'.completion_criteria })
        (apply_criterion_defined env s e)
  unfolding apply_criterion_defined
  apply_criterion_defined-frame = record { at = λ s' q. ground arith }

  pub apply_claim_created_event-frame :
      Only
        (λ s'. record s { completion_claims = s'.completion_claims })
        (apply_claim_created_event env s e)
  unfolding apply_claim_created_event apply_claim_created
  apply_claim_created_event-frame = record { at = λ s' q. ground arith }

  pub apply_candidate_created-frame :
      Only
        (λ s'. record s { integration_candidates = s'.integration_candidates })
        (apply_candidate_created env s e)
  unfolding apply_candidate_created store_candidate
  apply_candidate_created-frame = record { at = λ s' q. ground arith }

  pub apply_integration_materialization-frame :
      Only
        (λ s'. record s { integration_materializations = s'.integration_materializations })
        (apply_integration_materialization env s e)
  unfolding apply_integration_materialization
  apply_integration_materialization-frame = record { at = λ s' q. ground arith }

  pub apply_memory_revision_materialization-frame :
      Only
        (λ s'. record s { memory_revision_materializations = s'.memory_revision_materializations })
        (apply_memory_revision_materialization env s e)
  unfolding apply_memory_revision_materialization
  apply_memory_revision_materialization-frame = record { at = λ s' q. ground arith }

  pub apply_identity-frame :
      Only
        (λ s'. record s { principals = s'.principals; identity_versions = s'.identity_versions })
        (apply_identity env s e)
  unfolding apply_identity
  apply_identity-frame = record { at = λ s' q. ground arith }

  pub apply_working_state-frame :
      Only (λ s'. record s { working_states = s'.working_states }) (apply_working_state env s e)
  unfolding apply_working_state
  apply_working_state-frame = record { at = λ s' q. ground arith }

  pub apply_verification-frame :
      Only
        (λ s'. record s { operations = s'.operations; verifications = s'.verifications })
        (apply_verification env s e)
  unfolding apply_verification
  apply_verification-frame = record { at = λ s' q. ground arith }

  pub apply_memory-frame :
      Only
        (λ s'. record s {
          memory_candidates = s'.memory_candidates;
          active_memories = s'.active_memories;
        })
        (apply_memory env s e)
  unfolding apply_memory
  apply_memory-frame = record { at = λ s' q. ground arith }

  pub insert_principal-frame :
      Only (λ s'. record s { principals = s'.principals }) (insert_principal env s e)
  unfolding insert_principal
  insert_principal-frame = record { at = λ s' q. ground arith }

  pub insert_relationship-frame :
      Only (λ s'. record s { relationships = s'.relationships }) (insert_relationship env s e)
  unfolding insert_relationship
  insert_relationship-frame = record { at = λ s' q. ground arith }

  pub insert_observation-frame :
      Only (λ s'. record s { observations = s'.observations }) (insert_observation env s e)
  unfolding insert_observation
  insert_observation-frame = record { at = λ s' q. ground arith }

  pub insert_goal-frame : Only (λ s'. record s { goals = s'.goals }) (insert_goal env s e)
  unfolding insert_goal
  insert_goal-frame = record { at = λ s' q. ground arith }

  pub insert_task-frame : Only (λ s'. record s { tasks = s'.tasks }) (insert_task env s e)
  unfolding insert_task
  insert_task-frame = record { at = λ s' q. ground arith }

  pub insert_run-frame : Only (λ s'. record s { runs = s'.runs }) (insert_run env s e)
  unfolding insert_run
  insert_run-frame = record { at = λ s' q. ground arith }

  pub insert_attempt-frame :
      Only (λ s'. record s { attempts = s'.attempts }) (insert_attempt env s e)
  unfolding insert_attempt
  insert_attempt-frame = record { at = λ s' q. ground arith }

  pub insert_decision-frame :
      Only (λ s'. record s { decisions = s'.decisions }) (insert_decision env s e)
  unfolding insert_decision
  insert_decision-frame = record { at = λ s' q. ground arith }

  pub insert_commitment-frame :
      Only (λ s'. record s { commitments = s'.commitments }) (insert_commitment env s e)
  unfolding insert_commitment
  insert_commitment-frame = record { at = λ s' q. ground arith }

  pub insert_action_intent-frame :
      Only (λ s'. record s { action_intents = s'.action_intents }) (insert_action_intent env s e)
  unfolding insert_action_intent
  insert_action_intent-frame = record { at = λ s' q. ground arith }

  pub insert_operation-frame :
      Only (λ s'. record s { operations = s'.operations }) (insert_operation env s e)
  unfolding insert_operation
  insert_operation-frame = record { at = λ s' q. ground arith }

  pub insert_artifact-frame :
      Only (λ s'. record s { artifacts = s'.artifacts }) (insert_artifact env s e)
  unfolding insert_artifact
  insert_artifact-frame = record { at = λ s' q. ground arith }

  pub insert_approval-frame :
      Only (λ s'. record s { approvals = s'.approvals }) (insert_approval env s e)
  unfolding insert_approval
  insert_approval-frame = record { at = λ s' q. ground arith }

  pub insert_receipt-frame :
      Only (λ s'. record s { receipts = s'.receipts }) (insert_receipt env s e)
  unfolding insert_receipt
  insert_receipt-frame = record { at = λ s' q. ground arith }

  pub insert_memory_candidate-frame :
      Only
        (λ s'. record s { memory_candidates = s'.memory_candidates })
        (insert_memory_candidate env s e)
  unfolding insert_memory_candidate
  insert_memory_candidate-frame = record { at = λ s' q. ground arith }

  pub apply_claim_transition_event-frame :
      (expected : VerificationDisposition)
      → Only
          (λ s'. record s { completion_claims = s'.completion_claims })
          (apply_claim_transition_event env expected s e)
  unfolding apply_claim_transition_event apply_claim_transition
  apply_claim_transition_event-frame expected = record { at = λ s' q. ground arith }

  pub apply_integration_transition-frame :
      (expected : VerificationDisposition)
      → Only
          (λ s'. record s {
            integration_candidates = s'.integration_candidates;
            integration_verifications = s'.integration_verifications;
          })
          (apply_integration_transition env expected s e)
  unfolding apply_integration_transition
  apply_integration_transition-frame expected = record { at = λ s' q. ground arith }

  pub apply_initiative_transition-frame :
      (from to : InitiativeStatus)
      → Only
          (λ s'. record s { initiatives = s'.initiatives })
          (apply_initiative_transition env s e from to)
  unfolding apply_initiative_transition apply_initiative_status
  apply_initiative_transition-frame from to = record { at = λ s' q. ground arith }

  moved_by_sleep :
      (kind : EventKind) (run : SleepRun)
      → Only (λ s'. record s { sleep_cursor = s'.sleep_cursor }) (sleep_transition kind s e run)
  unfolding sleep_transition start_sleep_run complete_sleep_run interrupt_sleep_run fail_sleep_run
  moved_by_sleep EventKind.sleep_run_started run = record { at = λ s' q. ground arith }
  moved_by_sleep _ run = record { at = λ s' q. ground arith }

  pub apply_sleep_run-frame :
      Only
        (λ s'. record s { sleep_runs = s'.sleep_runs; sleep_cursor = s'.sleep_cursor })
        (apply_sleep_run env s e)
  unfolding apply_sleep_run
  apply_sleep_run-frame = Ensures-bind _ (payload env.decode_sleep_run e) _ λ run decoded.
      Ensures-bind _ (sleep_transition e.event_kind s e run) _ λ moved went.
        Ensures-ok _ (record moved { sleep_runs = insert moved.sleep_runs run.id run })
          (ap (λ (t : CurrentState). record t { sleep_runs = insert moved.sleep_runs run.id run })
            ((moved_by_sleep e.event_kind run).at moved went))

  stored_by_kind :
      (kind : EventKind) (position : Position)
      → Only (λ s'. record s { positions = s'.positions }) (store_position_event kind s e position)
  unfolding store_position_event supersede
  stored_by_kind EventKind.position_established position = record { at = λ s' q. ground arith }
  stored_by_kind _ position = record { at = λ s' q. ground arith }

  integrated :
      (integration_event : PositionIntegrationEventPayload)
      → Only
          (λ s'. record s {
            positions = s'.positions;
            position_integration_materializations = s'.position_integration_materializations;
          })
          (apply_position_integration env s e integration_event)
  unfolding apply_position_integration supersede
  integrated integration_event = record { at = λ s' q. ground arith }

  pub apply_position_event-frame :
      Only
        (λ s'. record s {
          positions = s'.positions;
          position_integration_materializations = s'.position_integration_materializations;
        })
        (apply_position_event env s e)
  unfolding apply_position_event
  apply_position_event-frame =
      elim (Bool-cases (env.has_member e.payload (codes "position_integration"))) [
        | inl yes_integration ↦ rw yes_integration (
            Ensures-bind _ (payload env.decode_position_integration_event_payload e) _
              λ integration_event decoded. integrated integration_event)
        | inr plain ↦ rw plain (
            Ensures-bind _ (payload (env.decode_position (env.projected_at e)) e) _
              λ position decoded. record {
                at = λ s' q.
                    ap
                      (λ (t : CurrentState). record t {
                        position_integration_materializations =
                            s'.position_integration_materializations;
                      })
                      ((stored_by_kind e.event_kind position).at s' q);
              })
      ]
