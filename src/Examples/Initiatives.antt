-- ===== src/Examples/Initiatives.antt =====
-- The readying of an initiative (src/runtime/projector.rs).
use hekate.Core.Env.{Env}
use hekate.Core.Events.{EntityKind, EventKind, ExperienceEvent}
use hekate.Core.Initiatives.{InitiativeKind, InitiativeProposal, InitiativeStatus}
use hekate.Core.Social.{PrincipalKind}
use hekate.Core.State.{CurrentState, empty}
use hekate.Examples.World.{executable, no_payloads, event_of}
use hekate.Prelude.{◌≡◌, refl, none, some, [], ◌∷◌}
use hekate.Prelude.Results.{ok}
use hekate.Prelude.Text.{codes}
use hekate.Projector.Apply.{apply}
use hekate.Projector.InitiativeLife.{Lives, initiative_lifecycle}

abbrev proposal : InitiativeStatus → InitiativeProposal
proposal status = record {
  id = 7;
  kind = InitiativeKind.question;
  content = codes "which list?";
  rationale = codes "two were named";
  source_entity = record { kind = EntityKind.goal; id = 3 };
  source_version = 1;
  source_event_ids = 1 ∷ [];
  target_principal_id = 1;
  as_of_revision = 4;
  fingerprint = codes "00";
  status = status;
  created_at = [];
}

abbrev env : Env
env = record no_payloads {
  decode_initiative_proposal = λ payload. ok (proposal InitiativeStatus.ready);
}

abbrev before : CurrentState
before = record empty {
  revision = 5;
  principals =
      (
        2,
        record {
          id = 2;
          kind = PrincipalKind.hekate_principal;
          name = codes "hekate";
          identity_version_id = none;
        },
      )
      ∷ [];
  initiatives = (7, proposal InitiativeStatus.proposed) ∷ [];
}

abbrev after : CurrentState
after = record before {
  revision = 6;
  initiatives = (7, proposal InitiativeStatus.ready) ∷ [];
  applied_events = 6 ∷ [];
}

abbrev event : ExperienceEvent
event = record (event_of 6 2 EventKind.initiative_readied) {
  subject = some (record { kind = EntityKind.initiative; id = 7 });
  source = record { source_type = codes "initiative"; source_ref = some (codes "7") };
  correlation_id = some (codes "7");
}

readies : apply env before event ≡ ok after
unfolding executable
readies = refl

initiative_lifecycle_example : Lives after 7 (proposal InitiativeStatus.proposed)
unfolding executable
initiative_lifecycle_example =
    initiative_lifecycle env before event after 7 (proposal InitiativeStatus.proposed) refl readies
