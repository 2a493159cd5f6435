-- ===== src/Projector/Positions.antt =====
-- The handlers of Positions (src/runtime/projector.rs).
pub mod Checks
use hekate.Core.Blocked.{position_integration_blocked}
use hekate.Core.Env.{Env}
use hekate.Core.Evidence.{VerificationDisposition, verification_disposition_eq, evidence_ref_eq}
use hekate.Core.Events.{EntityKind, EventKind, ExperienceEvent}
use hekate.Core.Fingerprints.{normalize_evidence_refs}
use hekate.Core.Ids.{PositionId}
use hekate.Core.Integration.{
  IntegrationVerification, PositionIntegrationActionKind, PositionIntegrationEventPayload,
  PositionIntegrationMaterialization, position_integration_action_kind_eq,
}
use hekate.Core.Proposals.{
  PositionIntegrationOperation, PositionIntegrationProposal, establish, revise, withdraw,
  parse_position_proposal,
}
use hekate.Core.Sleep.{
  IntegrationCandidate, IntegrationCandidateKind, integration_candidate_kind_eq,
}
use hekate.Core.Social.{PrincipalKind, Principal, principal_kind_eq}
use hekate.Core.Stances.{Position, PositionStatus, position_eq, position_status_eq, stance_eq}
use hekate.Core.State.{CurrentState}
use hekate.Deliberation.{checked_suc, validate_position_revision}
use hekate.Prelude.{
  ℕ, Bool, true, false, not, ◌||◌, ◌&&◌, List, [], ◌∷◌, ◌++◌, Option, none, some, is_some, map, any,
  contains, leb, nat_eq, ltb, if◌then◌else◌, ◌==◌, ◌!=◌, ℕ_eq, option_eq, list_eq,
}
use hekate.Prelude.BTreeMap.{get, insert, modify, contains_key}
use hekate.Prelude.Results.{ok, err, ◌>>=◌, ◌>>◌, reject_if, ok_or, map_err}
use hekate.Prelude.Sort.{sort, dedup_by}
use hekate.Prelude.Text.{codes, trim}
use hekate.Projector.Candidates.{fingerprint_of}
use hekate.Projector.Errors.{Outcome, Handler, invalid, payload, subject_is, is_model_actor}
use hekate.Projector.Evidence.{validate_integration_evidence}
use Checks.{check_candidate, check_event, check_position}

abbrev superseded : Position → Position
superseded previous = record previous { status = PositionStatus.superseded }

-- `if let Some(id) = supersedes { if let Some(p) = positions.get_mut(&id) { … } }`
unfoldable pub supersede : CurrentState → Option PositionId → CurrentState
supersede state none = state
supersede state (some previous_id) = record state {
  positions = modify superseded state.positions previous_id;
}

abbrev pub store_position : CurrentState → Position → CurrentState
store_position state position = record state {
  positions = insert state.positions position.id position;
}

unfoldable pub apply_position_integration :
    Env → CurrentState → ExperienceEvent → PositionIntegrationEventPayload → Outcome CurrentState
apply_position_integration env state event integration_event = do
  let position = integration_event.position
  let materialization = integration_event.position_integration
  check_event env state event position materialization
  candidate ← check_candidate env state event materialization
  check_position env state event position materialization candidate
  let moved =
      if materialization.action == PositionIntegrationActionKind.revise
      then supersede state position.supersedes
      else state
  ok (record (store_position moved position) {
    position_integration_materializations =
        insert state.position_integration_materializations materialization.candidate_id
          materialization;
  })

-- The match over the kinds for a Position that no integration made.
unfoldable pub store_position_event :
    EventKind → CurrentState → ExperienceEvent → Position → Outcome CurrentState
store_position_event EventKind.position_established state event position =
    ok (store_position state position)
store_position_event EventKind.position_maintained state event position =
    ok (store_position state position)
store_position_event EventKind.position_recorded state event position =
    ok (store_position state position)
store_position_event EventKind.position_revised state event position =
    ok (store_position (supersede state position.supersedes) position)
store_position_event EventKind.position_retracted state event position =
    ok (store_position state position)
store_position_event _ state event position =
    err (invalid event "event is not a Position lifecycle event")

abbrev integrate_payload : Env → Handler
integrate_payload env state event = do
  integration_event ← payload env.decode_position_integration_event_payload event
  apply_position_integration env state event integration_event

abbrev store_payload : Env → Handler
store_payload env state event = do
  position ← payload (env.decode_position (env.projected_at event)) event
  store_position_event event.event_kind state event position

unfoldable pub apply_position_event : Env → Handler
apply_position_event env state event =
    if env.has_member event.payload (codes "position_integration")
    then integrate_payload env state event
    else store_payload env state event
