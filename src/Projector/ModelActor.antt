-- ===== src/Projector/ModelActor.antt =====
-- What an event of the model itself cannot change (src/runtime/projector.rs).
use hekate.Core.Env.{Env}
use hekate.Core.Evidence.{VerificationDisposition}
use hekate.Core.Events.{EntityKind, EventKind, ExperienceEvent}
use hekate.Core.Integration.{
  IntegrationVerification, PositionIntegrationEventPayload, PositionIntegrationMaterialization,
}
use hekate.Core.Social.{principal_kind_eq}
use hekate.Core.Stances.{Position}
use hekate.Core.State.{CurrentState}
use hekate.Prelude.{
  ◌≡◌, ◌∙◌, sym, subst, inl, inr, true, not, arith, Bool-cases, is_some_and, ◌!=◌, ℕ_eq,
}
use mathlib.Core.Bool.{false≢true}
use hekate.Prelude.Results.{Ensures, Ensures-bind, Ensures-reject, ok}
use hekate.Prelude.Text.{codes}
use hekate.Projector.Apply.{advance, apply, dispatch}
use hekate.Projector.Candidates.{apply_integration_transition, is_ineligible}
use hekate.Projector.Claims.{apply_claim_created_event, apply_claim_transition_event}
use hekate.Projector.Errors.{is_model_actor, payload, subject_is}
use hekate.Projector.Footprint.{dispatch-Footprint}
use hekate.Projector.Materialize.{apply_memory_revision_materialization}
use hekate.Projector.Positions.{
  apply_position_event, apply_position_integration, store_position_event, supersede,
}
use hekate.Projector.Positions.Checks.{check_event}
use hekate.Projector.Steps.{apply-Applied}

-- The decisions that the state holds are those of `s`.
pub record SameDecisions (s s' : CurrentState) : Type 0 where
  pub claims : s'.completion_claims ≡ s.completion_claims
  pub verifications : s'.integration_verifications ≡ s.integration_verifications
  pub positions : s'.position_integration_materializations ≡ s.position_integration_materializations
  pub revisions : s'.memory_revision_materializations ≡ s.memory_revision_materializations

module _ (env : Env) (s : CurrentState) (e : ExperienceEvent)
    (model : is_model_actor s e.actor_id ≡ true) where
  no_claim : Ensures (SameDecisions s) (apply_claim_created_event env s e)
  unfolding apply_claim_created_event
  no_claim = record { at = λ s' q. ground arith }

  no_claim_decision :
      (d : VerificationDisposition)
      → Ensures (SameDecisions s) (apply_claim_transition_event env d s e)
  unfolding apply_claim_transition_event
  no_claim_decision d = record { at = λ s' q. ground arith }

  -- The model is not an eligible verifier.
  ineligible : (v : IntegrationVerification) → e.actor_id ≡ v.actor_id → is_ineligible s v ≡ true
  unfolding is_model_actor is_ineligible
  ineligible v same = ground arith

  no_decision :
      (d : VerificationDisposition)
      → Ensures (SameDecisions s) (apply_integration_transition env d s e)
  unfolding apply_integration_transition
  no_decision d = Ensures-bind _ (payload env.decode_integration_verification e) _ λ v _.
      Ensures-reject _ (not (subject_is e EntityKind.integration_candidate v.candidate_id)) _ _ λ _.
        Ensures-reject _ (e.actor_id != v.actor_id) _ _ λ same.
          Ensures-reject _ (is_some_and v.verification_event_id λ id. id != e.event_id) _ _ λ _.
            Ensures-reject _ (is_ineligible s v) _ _
              λ eligible. absurd (false≢true (sym eligible ∙ ineligible v (ground arith)))

  no_revision : Ensures (SameDecisions s) (apply_memory_revision_materialization env s e)
  unfolding apply_memory_revision_materialization
  no_revision = record { at = λ s' q. ground arith }

  refused_event :
      (position : Position) (m : PositionIntegrationMaterialization)
      → Ensures (λ _. ⊥) (check_event env s e position m)
  unfolding check_event
  refused_event position m = record { at = λ u q. ground arith }

  no_integration :
      (p : PositionIntegrationEventPayload)
      → Ensures (SameDecisions s) (apply_position_integration env s e p)
  unfolding apply_position_integration
  no_integration p =
      Ensures-bind _ (check_event env s e p.position p.position_integration) _
        λ u went. absurd ((refused_event p.position p.position_integration).at u went)

  plain_position :
      (kind : EventKind) (position : Position)
      → Ensures (SameDecisions s) (store_position_event kind s e position)
  unfolding store_position_event supersede
  plain_position EventKind.position_established position = record { at = λ s' q. ground arith }
  plain_position _ position = record { at = λ s' q. ground arith }

  no_position : Ensures (SameDecisions s) (apply_position_event env s e)
  unfolding apply_position_event
  no_position = elim (Bool-cases (env.has_member e.payload (codes "position_integration"))) [
    | inl integrates ↦ rw integrates (
        Ensures-bind _ (payload env.decode_position_integration_event_payload e) _
          λ p _. no_integration p)
    | inr plain ↦ rw plain (
        Ensures-bind _ (payload (env.decode_position (env.projected_at e)) e) _
          λ position _. plain_position e.event_kind position)
  ]

  dispatch-SameDecisions : (kind : EventKind) → Ensures (SameDecisions s) (dispatch kind env s e)
  unfolding dispatch
  dispatch-SameDecisions EventKind.completion_claim_created = no_claim
  dispatch-SameDecisions EventKind.completion_claim_verified =
      no_claim_decision VerificationDisposition.verified
  dispatch-SameDecisions EventKind.completion_claim_rejected =
      no_claim_decision VerificationDisposition.rejected
  dispatch-SameDecisions EventKind.integration_candidate_verified =
      no_decision VerificationDisposition.verified
  dispatch-SameDecisions EventKind.integration_candidate_rejected =
      no_decision VerificationDisposition.rejected
  dispatch-SameDecisions EventKind.memory_revision_materialized = no_revision
  dispatch-SameDecisions EventKind.position_established = no_position
  dispatch-SameDecisions EventKind.position_maintained = no_position
  dispatch-SameDecisions EventKind.position_revised = no_position
  dispatch-SameDecisions EventKind.position_retracted = no_position
  dispatch-SameDecisions EventKind.position_recorded = no_position
  dispatch-SameDecisions kind = record {
    at = λ s' q.
        let f = (dispatch-Footprint kind env s e).at s' q in
        record {
          claims = f.completion_claims;
          verifications = f.integration_verifications;
          positions = f.position_integration_materializations;
          revisions = f.memory_revision_materializations;
        };
  }

-- An event whose actor is the model (a principal of kind Hekate) never changes the completion claims, the
-- verification records of integration candidates, or the records of materialized Positions and Memory
-- revisions, whatever its kind and payload.
pub model_decides_nothing :
    (env : Env) (s : CurrentState) (e : ExperienceEvent) (s' : CurrentState)
    → is_model_actor s e.actor_id ≡ true
    → apply env s e ≡ ok s'
    → SameDecisions s s'
unfolding advance
model_decides_nothing env s e s' model q =
    let a = apply-Applied env s e s' q in
    let kept = (dispatch-SameDecisions env s e model e.event_kind).at a.moved a.ran in
    subst (SameDecisions s) (sym a.counted) (record {
      claims = kept.claims;
      verifications = kept.verifications;
      positions = kept.positions;
      revisions = kept.revisions;
    })
