-- ===== src/Projector/Positions/Checks.antt =====
-- What `apply_position_integration` checks (src/runtime/projector.rs).
use hekate.Core.Blocked.{position_integration_blocked}
use hekate.Core.Env.{Env}
use hekate.Core.Evidence.{VerificationDisposition, verification_disposition_eq, evidence_ref_eq}
use hekate.Core.Events.{EntityKind, EventKind, ExperienceEvent}
use hekate.Core.Fingerprints.{normalize_evidence_refs}
use hekate.Core.Integration.{
  IntegrationVerification, PositionIntegrationActionKind, PositionIntegrationMaterialization,
  position_integration_action_kind_eq,
}
use hekate.Core.Proposals.{
  PositionIntegrationOperation, PositionIntegrationProposal, establish, revise, withdraw,
  parse_position_proposal,
}
use hekate.Core.Sleep.{
  IntegrationCandidate, IntegrationCandidateKind, integration_candidate_kind_eq,
}
use hekate.Core.Social.{PrincipalKind, Principal, principal_kind_eq}
use hekate.Core.Stances.{Position, PositionStatus, position_eq, position_status_eq, stance_eq}
use hekate.Core.State.{CurrentState}
use hekate.Deliberation.{checked_suc, validate_position_revision}
use hekate.Prelude.{
  ℕ, Bool, true, false, not, ◌||◌, ◌&&◌, List, [], ◌∷◌, ◌++◌, Option, none, some, is_some, map, any,
  contains, leb, nat_eq, ltb, ◌==◌, ◌!=◌, ℕ_eq, option_eq, list_eq,
}
use hekate.Prelude.BTreeMap.{get, contains_key}
use hekate.Prelude.Results.{ok, err, ◌>>=◌, ◌>>◌, reject_if, ok_or, map_err}
use hekate.Prelude.Sort.{sort, dedup_by}
use hekate.Prelude.Text.{codes, trim}
use hekate.Projector.Candidates.{fingerprint_of}
use hekate.Projector.Errors.{Outcome, invalid, subject_is, is_model_actor}
use hekate.Projector.Evidence.{validate_integration_evidence}

-- The Position that a withdrawal leaves.
unfoldable pub withdrawn : Position → PositionIntegrationMaterialization → List ℕ → Position
withdrawn prior materialization reason = record prior {
  status = PositionStatus.retracted;
  reasons = prior.reasons ++ trim reason ∷ [];
  evidence_refs =
      dedup_by nat_eq (sort leb (prior.evidence_refs ++ materialization.source_event_ids));
}

-- The match over the operation, the action and the prior Position.
unfoldable pub operation_matches :
    PositionIntegrationOperation
    → PositionIntegrationActionKind
    → Option Position
    → Position
    → PositionIntegrationMaterialization
    → Bool
operation_matches (establish subject stance reasons conditions)
      PositionIntegrationActionKind.establish none position materialization =
    position.subject == trim subject
    && position.stance == stance
    && position.reasons == map trim reasons
    && position.reconsideration_conditions == map trim conditions
operation_matches (revise position_id expected_version stance reasons conditions)
      PositionIntegrationActionKind.revise (some prior) position materialization =
    position_id == prior.id
    && expected_version == prior.version
    && position.subject == prior.subject
    && position.stance == stance
    && position.reasons == map trim reasons
    && position.reconsideration_conditions == map trim conditions
operation_matches (withdraw position_id expected_version reason)
      PositionIntegrationActionKind.withdraw (some prior) position materialization =
    position_id == prior.id
    && expected_version == prior.version
    && position == withdrawn prior materialization reason
operation_matches _ _ _ position materialization = false

unfoldable pub position_matches_proposal :
    Env → IntegrationCandidate → Position → PositionIntegrationMaterialization → Bool
position_matches_proposal env candidate position materialization =
    elim (parse_position_proposal env.from_str_position candidate.content) [
      | err e ↦ false
      | ok proposal ↦
          operation_matches (PositionIntegrationProposal.operation proposal) materialization.action
            materialization.prior_position position materialization
    ]

-- The match over the action. A revision and a withdrawal need the stored Position unchanged.
unfoldable pub check_action :
    PositionIntegrationActionKind
    → CurrentState
    → ExperienceEvent
    → Position
    → Option Position
    → Outcome (Unit {0})
check_action PositionIntegrationActionKind.establish state event position prior_position =
    reject_if
      (is_some prior_position
        || position.status != PositionStatus.active
        || position.version != 1
        || is_some position.supersedes)
      (invalid event "invalid Position establishment")
check_action PositionIntegrationActionKind.revise state event position prior_position = do
  prior ← ok_or prior_position (invalid event "Position revision has no prior Position")
  reject_if
      (get state.positions (Position.id prior) != some prior
        || Position.status prior != PositionStatus.active
        || position.id == Position.id prior
        || position.supersedes != some (Position.id prior)
        || position.principal_id != Position.principal_id prior
        || position.subject != Position.subject prior
        || checked_suc (Position.version prior) != some position.version
        || position.status != PositionStatus.active)
      (invalid event "Position changed or revision is invalid")
check_action PositionIntegrationActionKind.withdraw state event position prior_position = do
  prior ← ok_or prior_position (invalid event "Position withdrawal has no prior Position")
  reject_if
      (get state.positions (Position.id prior) != some prior
        || Position.status prior != PositionStatus.active
        || position.id != Position.id prior
        || is_some position.supersedes
        || position.status != PositionStatus.retracted
        || position.version != Position.version prior
        || position.principal_id != Position.principal_id prior
        || position.subject != Position.subject prior
        || position.stance != Position.stance prior)
      (invalid event "Position changed or withdrawal is invalid")

-- The kind of event is the one that the action asks for.
unfoldable pub kind_fits : PositionIntegrationActionKind → EventKind → Bool
kind_fits PositionIntegrationActionKind.establish EventKind.position_established = true
kind_fits PositionIntegrationActionKind.revise EventKind.position_revised = true
kind_fits PositionIntegrationActionKind.withdraw EventKind.position_retracted = true
kind_fits _ _ = false

-- The checks of the event itself: subject, provenance and actor.
unfoldable pub check_event :
    Env
    → CurrentState
    → ExperienceEvent
    → Position
    → PositionIntegrationMaterialization
    → Outcome (Unit {0})
check_event env state event position materialization = do
  let candidate_id = env.uuid_text materialization.candidate_id
  reject_if
      (not (subject_is event EntityKind.position position.id)
        || materialization.position_id != position.id
        || materialization.position_event_id != event.event_id)
      (invalid event "Position integration event subject does not match payload")
  reject_if
      (event.source.source_type != codes "position_integration"
        || event.source.source_ref != some candidate_id
        || event.correlation_id != some candidate_id
        || event.causation_id != some materialization.verification_event_id)
      (invalid event "Position integration event provenance does not match candidate")
  reject_if
      (not (contains_key state.principals event.actor_id) || is_model_actor state event.actor_id)
      (invalid event "model or unknown actor cannot materialize a Position")
  principal ←
      ok_or (get state.principals position.principal_id)
        (invalid event "Position references an unknown principal")
  reject_if (Principal.kind principal != PrincipalKind.hekate_principal)
      (invalid event "Position integration can only change HEKATE's Position")

-- The checks of the candidate and of its verification, which end in the candidate.
unfoldable pub check_candidate :
    Env
    → CurrentState
    → ExperienceEvent
    → PositionIntegrationMaterialization
    → Outcome IntegrationCandidate
check_candidate env state event materialization = do
  candidate ←
      ok_or (get state.integration_candidates materialization.candidate_id)
        (invalid event "Position materialization references an unknown candidate")
  reject_if
      (IntegrationCandidate.kind candidate != IntegrationCandidateKind.position
        || IntegrationCandidate.disposition candidate != VerificationDisposition.verified)
      (invalid event "only a verified Position candidate can be materialized")
  reject_if (contains_key state.position_integration_materializations materialization.candidate_id)
      (invalid event "Position candidate has already been materialized")
  verification ←
      ok_or (get state.integration_verifications materialization.candidate_id)
        (invalid event "Position materialization has no verification record")
  let evidence_refs = normalize_evidence_refs materialization.evidence_refs
  reject_if
      (IntegrationVerification.new_disposition verification != VerificationDisposition.verified
        || IntegrationVerification.verification_event_id verification
          != some materialization.verification_event_id
        || evidence_refs != IntegrationVerification.evidence_refs verification
        || not (contains state.applied_events materialization.verification_event_id))
      (invalid event "Position materialization does not match verification")
  reject_if
      (materialization.fingerprint != IntegrationCandidate.fingerprint candidate
        || fingerprint_of env candidate != IntegrationCandidate.fingerprint candidate
        || materialization.source_event_ids != IntegrationCandidate.source_event_ids candidate
        || materialization.counterevidence_event_ids
          != IntegrationCandidate.counterevidence_event_ids candidate
        || materialization.as_of_revision != IntegrationCandidate.as_of_revision candidate
        || ltb state.revision (IntegrationCandidate.as_of_revision candidate)
        || any (λ id. not (contains state.applied_events id))
            (IntegrationCandidate.source_event_ids candidate
              ++ IntegrationCandidate.counterevidence_event_ids candidate))
      (invalid event "Position materialization provenance does not match candidate")
  validate_integration_evidence state event candidate evidence_refs materialization.as_of_revision
  ok candidate

-- The checks of the Position against the candidate, the stored Positions and the conflicts.
unfoldable pub check_position :
    Env
    → CurrentState
    → ExperienceEvent
    → Position
    → PositionIntegrationMaterialization
    → IntegrationCandidate
    → Outcome (Unit {0})
check_position env state event position materialization candidate = do
  reject_if (not (position_matches_proposal env candidate position materialization))
      (invalid event "Position does not match its typed proposal")
  reject_if (position.confidence != candidate.confidence)
      (invalid event "Position confidence does not match candidate")
  check_action materialization.action state event position materialization.prior_position
  reject_if (not (kind_fits materialization.action event.event_kind))
      (invalid event "Position event kind does not match integration operation")
  reject_if
      (position_integration_blocked env state position.principal_id position.subject
        (elim materialization.prior_position [
          | none ↦ none
          | some prior ↦ some (Position.id prior)
        ]))
      (invalid event "an active Position conflict blocks materialization")
  map_err (λ e. invalid event "Position transition violates its lifecycle")
      (validate_position_revision state position)
  reject_if
      (materialization.action != PositionIntegrationActionKind.withdraw
        && position.evidence_refs != candidate.source_event_ids)
      (invalid event "Position evidence does not match candidate sources")
  reject_if
      (materialization.action == PositionIntegrationActionKind.withdraw
        && any (λ id. not (contains position.evidence_refs id)) candidate.source_event_ids)
      (invalid event "Position evidence omits candidate sources")
