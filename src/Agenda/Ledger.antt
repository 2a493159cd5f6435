-- ===== src/Agenda/Ledger.antt =====
-- The verified ledger, and the events that made the stored entities
-- (src/runtime/initiative/agenda.rs).
use hekate.Agenda.{VerifiedLedger}
use hekate.Core.Env.{Env}
use hekate.Core.Events.{EntityKind, EventKind, ExperienceEvent}
use hekate.Core.Ids.{EventId, Uuid}
use hekate.Core.Integrity.{verify_integrity}
use hekate.Core.Stances.{Commitment, Conflict, Position, commitment_eq, conflict_eq, position_eq}
use hekate.Core.State.{CurrentState}
use hekate.Prelude.{
  ℕ, suc, Bool, true, false, ◌&&◌, String, Option, none, some, List, [], ◌∷◌, length, ltb,
  if◌then◌else◌, ◌==◌, ℕ_eq,
}
use hekate.Prelude.BTreeMap.{BTreeMap, contains_key, get, insert, values}
use hekate.Prelude.Options.{◌>>=◌, ◌>>◌, require}
use hekate.Prelude.Results.{Result, ok, err}
use hekate.Projector.Errors.{subject_is}

-- The first loop: a repeated id keeps the last number.
unfoldable pub sequences : ℕ → List EventId → BTreeMap ℕ → BTreeMap ℕ
sequences index [] map = map
sequences index (event_id ∷ rest) map = sequences (suc index) rest (insert map event_id (suc index))

-- `event.verify_integrity().ok() == Some(true)`
unfoldable pub is_intact : Env → ExperienceEvent → Bool
is_intact env event = elim (verify_integrity env event) [ ok valid ↦ valid | err e ↦ false ]

-- The body of the second loop.
unfoldable pub enter : Env → BTreeMap ℕ → VerifiedLedger → ExperienceEvent → VerifiedLedger
enter env sequence_by_id ledger event = elim (get sequence_by_id event.event_id) [
  | none ↦ ledger
  | some sequence ↦
      if is_intact env event
      then (if contains_key ledger event.event_id
          then ledger
          else insert ledger event.event_id (event, sequence))
      else ledger
]

unfoldable pub enter_all : Env → BTreeMap ℕ → VerifiedLedger → List ExperienceEvent → VerifiedLedger
enter_all env sequence_by_id ledger [] = ledger
enter_all env sequence_by_id ledger (event ∷ events) =
    enter_all env sequence_by_id (enter env sequence_by_id ledger event) events

unfoldable pub verified_ledger : Env → CurrentState → List ExperienceEvent → Option VerifiedLedger
verified_ledger env state events = do
  require (length state.applied_events == state.revision)
  let sequence_by_id = sequences 0 state.applied_events []
  require (length sequence_by_id == length state.applied_events)
  let ledger = enter_all env sequence_by_id [] events
  require (length ledger == length sequence_by_id)
  some ledger

-- An event with its sequence number and its payload.
abbrev pub Entry : Type 0 → Type 0
Entry T = ℕ × ExperienceEvent × T

module _ {T : Type 0} (decode : ExperienceEvent → Result String T) (entity_kind : EntityKind)
    (entity_id : Uuid) (lifecycle_event : EventKind → Bool) (payload_id : T → Uuid) where
  -- The entry that the body of the loop takes from one event.
  unfoldable pub entry_of : ExperienceEvent → ℕ → Option (Entry T)
  entry_of event sequence = do
    require (lifecycle_event event.event_kind && subject_is event entity_kind entity_id)
    payload ← elim (decode event) [ ok payload ↦ some payload | err e ↦ none ]
    require (payload_id payload == entity_id)
    some (sequence, event, payload)

  abbrev later : Option (Entry T) → Option (Entry T) → Option (Entry T)
  later latest none = latest
  later none (some entry) = some entry
  later (some latest) (some entry) = if ltb latest.0 entry.0 then some entry else some latest

  unfoldable pub latest_from : Option (Entry T) → List (ExperienceEvent × ℕ) → Option (Entry T)
  latest_from latest [] = latest
  latest_from latest ((event, sequence) ∷ rest) =
      latest_from (later latest (entry_of event sequence)) rest

  unfoldable pub latest_entity_payload : VerifiedLedger → Option (Entry T)
  latest_entity_payload ledger = latest_from none (values ledger)

abbrev pub is_position_event : EventKind → Bool
is_position_event EventKind.position_established = true
is_position_event EventKind.position_maintained = true
is_position_event EventKind.position_recorded = true
is_position_event EventKind.position_revised = true
is_position_event EventKind.position_retracted = true
is_position_event _ = false

abbrev pub is_conflict_event : EventKind → Bool
is_conflict_event EventKind.conflict_opened = true
is_conflict_event EventKind.conflict_updated = true
is_conflict_event EventKind.conflict_resolved = true
is_conflict_event EventKind.conflict_recorded = true
is_conflict_event _ = false

abbrev pub is_commitment_event : EventKind → Bool
is_commitment_event EventKind.commitment_created = true
is_commitment_event EventKind.commitment_fulfilled = true
is_commitment_event _ = false

unfoldable pub current_position_sequence : Env → Position → VerifiedLedger → Option ℕ
current_position_sequence env position ledger = do
  (sequence, _, projected) ←
      latest_entity_payload
        (λ event. env.decode_position (env.consulted_at event) (ExperienceEvent.payload event))
        EntityKind.position position.id is_position_event (λ payload. Position.id payload) ledger
  require (projected == position)
  some sequence

unfoldable pub current_conflict_sequence : Env → Conflict → VerifiedLedger → Option ℕ
current_conflict_sequence env conflict ledger = do
  (sequence, _, projected) ←
      latest_entity_payload
        (λ event. env.decode_conflict (env.consulted_at event) (ExperienceEvent.payload event))
        EntityKind.conflict conflict.id is_conflict_event (λ payload. Conflict.id payload) ledger
  require (projected == conflict)
  some sequence

unfoldable pub current_commitment : Env → Commitment → VerifiedLedger → Option (ℕ × EventKind)
current_commitment env commitment ledger = do
  (sequence, event, projected) ←
      latest_entity_payload (λ event. env.decode_commitment (ExperienceEvent.payload event))
        EntityKind.commitment commitment.id is_commitment_event (λ payload. Commitment.id payload)
        ledger
  require (projected == commitment)
  some (sequence, ExperienceEvent.event_kind event)
