-- ===== src/Projector/Errors.antt =====
-- The projector's errors, and the helpers that its handlers share (src/runtime/projector.rs). An error
-- keeps the kind of the event where the source keeps the kind's debug text.
use hekate.Core.Events.{EntityKind, EventKind, ExperienceEvent, entity_kind_eq}
use hekate.Core.Ids.{Json, PrincipalId, Uuid}
use hekate.Core.Social.{PrincipalKind, principal_kind_eq}
use hekate.Core.State.{CurrentState}
use hekate.Prelude.{ℕ, String, Bool, ◌&&◌, is_some_and, ◌==◌, ℕ_eq}
use hekate.Prelude.BTreeMap.{BTreeMap, get, insert}
use hekate.Prelude.Results.{Result, ok, ◌>>=◌, map_err}
use hekate.Prelude.Text.{Text}
use hekate.Storage.Errors.{StorageError}

pub data ProjectionError : Type 0 where
  storage : StorageError → ProjectionError
  invalid_payload : EventKind → String → ProjectionError
  duplicate : Text → ProjectionError
  stale_context : ℕ → ℕ → ProjectionError

abbrev pub Outcome : Type 0 → Type 0
Outcome A = Result ProjectionError A

abbrev pub Handler : Type 0
Handler = CurrentState → ExperienceEvent → Outcome CurrentState

-- `invalid`, and the closures named `error`.
abbrev pub invalid : ExperienceEvent → String → ProjectionError
invalid event message = invalid_payload event.event_kind message

-- `payload::<T>(event)`, with the decoder of `T`.
unfoldable pub payload : {A : Type 0} → (Json → Result String A) → ExperienceEvent → Outcome A
payload decode event = map_err (invalid_payload event.event_kind) (decode event.payload)

-- `insert(&event.event_kind, &event.payload, target)`, with the decoder and `Keyed::key` of the type.
unfoldable pub insert_payload :
    {A : Type 0}
    → (Json → Result String A)
    → (A → Uuid)
    → ExperienceEvent
    → BTreeMap A
    → Outcome (BTreeMap A)
insert_payload decode key event target = do
  item ← payload decode event
  ok (insert target (key item) item)

unfoldable pub is_model_actor : CurrentState → PrincipalId → Bool
is_model_actor state actor_id =
    is_some_and (get state.principals actor_id)
      λ principal. principal.kind == PrincipalKind.hekate_principal

-- The event has a subject of this kind with this id.
unfoldable pub subject_is : ExperienceEvent → EntityKind → Uuid → Bool
subject_is event kind id =
    is_some_and event.subject λ subject. subject.kind == kind && subject.id == id
