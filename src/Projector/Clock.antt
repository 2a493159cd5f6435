-- ===== src/Projector/Clock.antt =====
-- The projector under another clock (src/runtime/projector.rs): an event whose payload carries its dates is
-- applied alike, whenever that is done.
use hekate.Core.Env.{Env}
use hekate.Core.Events.{EventKind, ExperienceEvent}
use hekate.Core.State.{CurrentState}
use hekate.Core.Blocked.{position_integration_blocked}
use hekate.Core.Fingerprints.{
  completion_fingerprint, initiative_fingerprint, integration_candidate_fingerprint,
}
use hekate.Prelude.Results.{try_fold, >>=-cong}
use hekate.Projector.Errors.{payload}
use hekate.Projector.Apply.{apply, apply_all, replay}
use hekate.Core.State.{empty}
use hekate.Prelude.{◌≡◌, refl, List, [], ◌∷◌}
use hekate.Prelude.Text.{Text}
use hekate.Projector.Apply.{dispatch}
use hekate.Projector.Candidates.{
  with_revision, store_candidate, apply_candidate_created, check_typed_proposal,
  apply_integration_transition,
}
use hekate.Projector.Claims.{
  apply_criterion_defined, apply_claim_created, apply_claim_created_event,
  apply_claim_transition_event,
}
use hekate.Projector.Focus.{apply_focus_resolution}
use hekate.Projector.Initiatives.{
  initiative_subject_matches, proposal_is_invalid, apply_initiative_proposed,
  apply_initiative_status, apply_initiative_transition, apply_initiative_dismissed,
}
use hekate.Projector.Inserts.{
  apply_identity, apply_verification, apply_memory, apply_conflict, apply_working_state,
  insert_principal, insert_relationship, insert_observation, insert_goal, insert_task, insert_run,
  insert_attempt, insert_decision, insert_commitment, insert_action_intent, insert_operation,
  insert_artifact, insert_approval, insert_receipt, insert_memory_candidate,
}
use hekate.Projector.Materialize.{
  apply_integration_materialization, revision_provenance_differs, revision_differs,
  apply_memory_revision_materialization,
}
use hekate.Projector.Positions.{apply_position_integration, apply_position_event}
use hekate.Projector.Positions.Checks.{
  position_matches_proposal, check_event, check_candidate, check_position,
}
use hekate.Projector.Sleep.{apply_sleep_run}
use hekate.Projector.Tasks.{apply_task_completion}

-- The same run of the program at other times.
abbrev pub at_time : Env → (ExperienceEvent → Text) → Env
at_time env clock = record env { projected_at = clock }

-- The payload decodes alike at any time, as it does when its `created_at` is there.
pub record HasDates (env : Env) (e : ExperienceEvent) : Type 0 where
  pub positions :
      (now later : Text) → env.decode_position now e.payload ≡ env.decode_position later e.payload
  pub conflicts :
      (now later : Text) → env.decode_conflict now e.payload ≡ env.decode_conflict later e.payload
  pub identities :
      (now later : Text)
      → env.decode_identity_version now e.payload ≡ env.decode_identity_version later e.payload

module _ (env : Env) (now later : ExperienceEvent → Text) (s : CurrentState)
    (e : ExperienceEvent) where
  dispatch-at_time :
      (kind : EventKind)
      → HasDates env e
      → dispatch kind (at_time env now) s e ≡ dispatch kind (at_time env later) s e
  unfolding dispatch with_revision store_candidate apply_candidate_created check_typed_proposal
      apply_integration_transition apply_criterion_defined apply_claim_created
      apply_claim_created_event apply_claim_transition_event apply_focus_resolution
      initiative_subject_matches proposal_is_invalid apply_initiative_proposed
      apply_initiative_status apply_initiative_transition apply_initiative_dismissed apply_identity
      apply_verification apply_memory apply_conflict apply_working_state insert_principal
      insert_relationship insert_observation insert_goal insert_task insert_run insert_attempt
      insert_decision insert_commitment insert_action_intent insert_operation insert_artifact
      insert_approval insert_receipt insert_memory_candidate apply_integration_materialization
      revision_provenance_differs revision_differs apply_memory_revision_materialization
      apply_position_integration apply_position_event position_matches_proposal check_event
      check_candidate check_position apply_sleep_run apply_task_completion payload
      integration_candidate_fingerprint position_integration_blocked completion_fingerprint
      initiative_fingerprint
  dispatch-at_time EventKind.position_established h = rw (h.positions (now e) (later e)) refl
  dispatch-at_time EventKind.position_maintained h = rw (h.positions (now e) (later e)) refl
  dispatch-at_time EventKind.position_revised h = rw (h.positions (now e) (later e)) refl
  dispatch-at_time EventKind.position_retracted h = rw (h.positions (now e) (later e)) refl
  dispatch-at_time EventKind.position_recorded h = rw (h.positions (now e) (later e)) refl
  dispatch-at_time EventKind.conflict_opened h = rw (h.conflicts (now e) (later e)) refl
  dispatch-at_time EventKind.conflict_updated h = rw (h.conflicts (now e) (later e)) refl
  dispatch-at_time EventKind.conflict_resolved h = rw (h.conflicts (now e) (later e)) refl
  dispatch-at_time EventKind.conflict_recorded h = rw (h.conflicts (now e) (later e)) refl
  dispatch-at_time EventKind.identity_version_created h = rw (h.identities (now e) (later e)) refl
  dispatch-at_time _ h = refl

  apply-at_time : HasDates env e → apply (at_time env now) s e ≡ apply (at_time env later) s e
  unfolding apply
  apply-at_time h = rw (dispatch-at_time e.event_kind h) refl

-- Every event of the list has its dates.
pub data AllHaveDates (env : Env) : List ExperienceEvent → Type 0 where
  no_events : AllHaveDates env []
  one_more :
      {e : ExperienceEvent}
      → {es : List ExperienceEvent} → HasDates env e
      → AllHaveDates env es
      → AllHaveDates env (e ∷ es)

module _ (env : Env) (now later : ExperienceEvent → Text) where
  pub apply_all-at_time :
      (s : CurrentState) (es : List ExperienceEvent)
      → AllHaveDates env es
      → apply_all (at_time env now) s es ≡ apply_all (at_time env later) s es
  unfolding try_fold
  apply_all-at_time s [] h = refl
  apply_all-at_time s (e ∷ es) (one_more h rest) =
      rw (apply-at_time env now later s e h)
        (>>=-cong (apply (at_time env later) s e) _ _ (λ t. apply_all-at_time t es rest))

  pub replay-at_time :
      (es : List ExperienceEvent)
      → AllHaveDates env es
      → replay (at_time env now) es ≡ replay (at_time env later) es
  unfolding replay
  replay-at_time es h = apply_all-at_time empty es h
