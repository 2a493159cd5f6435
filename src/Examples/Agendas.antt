-- ===== src/Examples/Agendas.antt =====
-- A question about an open conflict (src/runtime/initiative/agenda.rs).
use hekate.Agenda.Bounds.{IsBounded, selected-IsBounded}
use hekate.Agenda.Provenance.{IsRecorded, selected_source-IsRecorded}
use hekate.Agenda.Select.{select}
use hekate.Core.Agenda.{AgendaCandidate}
use hekate.Core.Env.{Env}
use hekate.Core.Events.{EntityKind, EventKind, ExperienceEvent}
use hekate.Core.Initiatives.{InitiativeKind}
use hekate.Core.Social.{PrincipalKind}
use hekate.Core.Stances.{ConflictStatus, Stance}
use hekate.Core.State.{CurrentState, empty}
use hekate.Examples.Judgments.{conflict, position}
use hekate.Examples.World.{event_of, executable, no_payloads}
use hekate.Prelude.{ℕ, refl, none, some, List, [], ◌∷◌, if◌then◌else◌, nat_eq}
use hekate.Prelude.Results.{ok, err}
use hekate.Prelude.Text.{codes}
use mathlib.Core.List.{Memᴰ}

abbrev env : Env
env = record no_payloads {
  decode_position = λ now payload. elim payload [
    | [] ↦ err "empty"
    | id ∷ rest ↦
        if nat_eq id 11 then ok (position 11 1 Stance.support) else ok (position 12 2 Stance.oppose)
  ];
  decode_conflict = λ now payload. ok (conflict ConflictStatus.opened 1);
}

-- An event that makes an entity, whose payload is the id.
abbrev making : ℕ → EventKind → EntityKind → ℕ → ExperienceEvent
making id kind entity entity_id = record (event_of id 2 kind) {
  subject = some (record { kind = entity; id = entity_id });
  payload = entity_id ∷ [];
  integrity_hash = codes "02";
}

abbrev events : List ExperienceEvent
events =
    record (event_of 5 1 EventKind.state_changed) { integrity_hash = codes "01" }
    ∷ making 2 EventKind.position_recorded EntityKind.position 11
    ∷ making 3 EventKind.position_established EntityKind.position 12
    ∷ making 4 EventKind.conflict_opened EntityKind.conflict 31
    ∷ []

abbrev state : CurrentState
state = record empty {
  revision = 4;
  principals =
      (1, record { id = 1; kind = PrincipalKind.user; name = []; identity_version_id = none })
      ∷ (
        2,
        record {
          id = 2;
          kind = PrincipalKind.hekate_principal;
          name = [];
          identity_version_id = none;
        },
      )
      ∷ [];
  positions = (11, position 11 1 Stance.support) ∷ (12, position 12 2 Stance.oppose) ∷ [];
  conflicts = (31, conflict ConflictStatus.opened 1) ∷ [];
  applied_events = 5 ∷ 2 ∷ 3 ∷ 4 ∷ [];
}

abbrev candidate : AgendaCandidate
candidate = record {
  kind = InitiativeKind.question;
  content = codes "which editor";
  rationale =
      codes "An open conflict about tabs has an unresolved question backed by verified events.";
  source_entity = record { kind = EntityKind.conflict; id = 31 };
  source_version = 1;
  source_event_ids = 5 ∷ [];
  target_principal_id = 1;
  as_of_revision = 4;
  fingerprint = codes "02";
}

selected : Memᴰ candidate (select env state events 2 1)
unfolding executable
selected = Memᴰ.head refl

selected-IsBounded_example : IsBounded env 1 4 candidate
selected-IsBounded_example = selected-IsBounded env state events 2 1 candidate selected

selected_source-IsRecorded_example : IsRecorded env state events 5
selected_source-IsRecorded_example =
    selected_source-IsRecorded env state events 2 1 candidate 5 selected (Memᴰ.head refl)
