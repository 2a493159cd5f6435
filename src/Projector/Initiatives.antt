-- ===== src/Projector/Initiatives.antt =====
-- The handlers of initiatives (src/runtime/projector.rs).
use hekate.Core.Env.{Env}
use hekate.Core.Events.{EntityKind, EntityRef, ExperienceEvent}
use hekate.Core.Fingerprints.{initiative_fingerprint}
use hekate.Core.Ids.{Uuid}
use hekate.Core.Initiatives.{
  InitiativeProposal, InitiativeStatus, initiative_proposal_eq, initiative_status_eq,
}
use hekate.Core.Social.{PrincipalKind, principal_kind_eq}
use hekate.Core.State.{CurrentState}
use hekate.Core.Work.{WorkingState}
use hekate.Prelude.{
  Bool, false, not, ◌||◌, ◌&&◌, some, is_some_and, is_empty, any, contains, nat_eq, ◌==◌, ◌!=◌,
  ℕ_eq, option_eq, list_eq,
}
use hekate.Prelude.BTreeMap.{BTreeMap, get, insert, contains_key, keys, values}
use hekate.Prelude.Results.{ok, ◌>>=◌, ◌>>◌, reject_if, ok_or}
use hekate.Prelude.Text.{codes, trim}
use hekate.Projector.Errors.{Outcome, Handler, invalid, payload, subject_is, is_model_actor}

unfoldable pub initiative_subject_matches : Env → ExperienceEvent → Uuid → Bool
initiative_subject_matches env event id =
    subject_is event EntityKind.initiative id
    && event.source.source_type == codes "initiative"
    && event.source.source_ref == some (env.uuid_text id)
    && event.correlation_id == some (env.uuid_text id)

-- `map.keys().any(|id| id.uuid() == wanted)`
unfoldable pub has_key : {V : Type 0} → BTreeMap V → Uuid → Bool
has_key m wanted = any (λ id. nat_eq id wanted) (keys m)

unfoldable pub source_exists : EntityKind → CurrentState → Uuid → Bool
source_exists EntityKind.principal state id = has_key state.principals id
source_exists EntityKind.identity_version state id = has_key state.identity_versions id
source_exists EntityKind.relationship state id = has_key state.relationships id
source_exists EntityKind.observation state id = has_key state.observations id
source_exists EntityKind.goal state id = has_key state.goals id
source_exists EntityKind.task state id = has_key state.tasks id
source_exists EntityKind.run state id = has_key state.runs id
source_exists EntityKind.working_state state id =
    any (λ (item : WorkingState). nat_eq item.id id) (values state.working_states)
source_exists EntityKind.decision state id = has_key state.decisions id
source_exists EntityKind.position state id = has_key state.positions id
source_exists EntityKind.conflict state id = has_key state.conflicts id
source_exists EntityKind.commitment state id = has_key state.commitments id
source_exists EntityKind.action_intent state id = has_key state.action_intents id
source_exists EntityKind.operation state id = has_key state.operations id
source_exists EntityKind.approval state id = has_key state.approvals id
source_exists EntityKind.receipt state id = has_key state.receipts id
source_exists EntityKind.verification state id = has_key state.verifications id
source_exists EntityKind.memory_candidate state id = has_key state.memory_candidates id
source_exists EntityKind.memory state id = has_key state.active_memories id
source_exists EntityKind.attempt state id = has_key state.attempts id
source_exists EntityKind.artifact state id = has_key state.artifacts id
source_exists EntityKind.sleep_run state id = has_key state.sleep_runs id
source_exists EntityKind.integration_candidate state id = has_key state.integration_candidates id
source_exists EntityKind.completion_criterion state id = has_key state.completion_criteria id
source_exists EntityKind.completion_claim state id = has_key state.completion_claims id
source_exists EntityKind.initiative state id = false

abbrev pub initiative_source_exists : CurrentState → EntityRef → Bool
initiative_source_exists state source = source_exists source.kind state source.id

-- The condition under which a proposal is refused as invalid.
unfoldable pub proposal_is_invalid :
    Env → CurrentState → ExperienceEvent → InitiativeProposal → Bool
proposal_is_invalid env state event proposal =
    proposal.status != InitiativeStatus.proposed
    || is_empty (trim proposal.content)
    || is_empty (trim proposal.rationale)
    || proposal.as_of_revision != state.revision
    || is_empty proposal.source_event_ids
    || any (λ id. not (contains state.applied_events id)) proposal.source_event_ids
    || not (
        is_some_and (get state.principals proposal.target_principal_id)
          (λ principal. principal.kind == PrincipalKind.user))
    || not (is_model_actor state event.actor_id)
    || not (initiative_subject_matches env event proposal.id)
    || not (initiative_source_exists state proposal.source_entity)
    || initiative_fingerprint env proposal.kind proposal.source_entity proposal.source_version
        proposal.target_principal_id proposal.source_event_ids
      != proposal.fingerprint

unfoldable pub apply_initiative_proposed : Env → Handler
apply_initiative_proposed env state event = do
  proposal ← payload env.decode_initiative_proposal event
  reject_if (proposal_is_invalid env state event proposal)
      (invalid event "invalid initiative proposal")
  reject_if
      (contains_key state.initiatives proposal.id
        || any (λ (existing : InitiativeProposal). existing.fingerprint == proposal.fingerprint)
            (values state.initiatives))
      (invalid event "duplicate initiative ID or fingerprint")
  ok (record state { initiatives = insert state.initiatives proposal.id proposal })

unfoldable pub apply_initiative_status :
    Env
    → CurrentState
    → ExperienceEvent
    → InitiativeProposal
    → InitiativeStatus
    → InitiativeStatus
    → Outcome CurrentState
apply_initiative_status env state event proposal from to = do
  current ←
      ok_or (get state.initiatives proposal.id)
        (invalid event "initiative transition references an unknown proposal")
  reject_if (current.status != from) (invalid event "invalid initiative lifecycle transition")
  reject_if
      (record current { status = to } != proposal
        || not (initiative_subject_matches env event proposal.id))
      (invalid event "initiative transition changed proposal data")
  ok (record state { initiatives = insert state.initiatives proposal.id proposal })

unfoldable pub apply_initiative_transition :
    Env
    → CurrentState
    → ExperienceEvent
    → InitiativeStatus
    → InitiativeStatus
    → Outcome CurrentState
apply_initiative_transition env state event from to = do
  proposal ← payload env.decode_initiative_proposal event
  reject_if (proposal.status != InitiativeStatus.ready || not (is_model_actor state event.actor_id))
      (invalid event "invalid initiative readiness transition")
  apply_initiative_status env state event proposal from to

unfoldable pub apply_initiative_dismissed : Env → Handler
apply_initiative_dismissed env state event = do
  proposal ← payload env.decode_initiative_proposal event
  reject_if
      (proposal.status != InitiativeStatus.dismissed
        || event.actor_id != proposal.target_principal_id)
      (invalid event "only the target principal can dismiss an initiative")
  current ←
      ok_or (get state.initiatives proposal.id)
        (invalid event "dismissal references an unknown initiative")
  reject_if
      (current.status != InitiativeStatus.proposed && current.status != InitiativeStatus.ready)
      (invalid event "initiative is already dismissed or terminal")
  apply_initiative_status env state event proposal current.status InitiativeStatus.dismissed
