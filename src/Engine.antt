-- ===== src/Engine.antt =====
-- The end of a cognitive turn (src/runtime/engine.rs): its errors and inputs, the kinds of its events, and
-- how it makes an event. `Engine.Events` makes the events of a turn, `Engine.Turns` checks and records them.
pub mod Events
pub mod Turns
pub mod Conflicts
pub mod Judged
pub mod Finality
use hekate.Core.Actions.{Decision}
use hekate.Core.Continuity.{FocusOutcome}
use hekate.Core.Env.{Env}
use hekate.Core.Events.{EntityKind, EventKind, ExperienceEvent}
use hekate.Core.Ids.{
  ActionIntentId, ApprovalId, DecisionId, EventId, Json, OperationId, PrincipalId, Uuid,
  WorkingStateId,
}
use hekate.Core.Integrity.{new_with_id}
use hekate.Core.Stances.{Conflict, ConflictStatus, Position, PositionStatus}
use hekate.Core.State.{CurrentState}
use hekate.Core.Recall.{RecalledItem}
use hekate.Core.Thoughts.{CognitiveTrace, ThoughtContext, ThoughtCycle}
use hekate.Core.Work.{Attempt}
use hekate.Deliberation.{JudgmentValidationError}
use hekate.Prelude.{
  ℕ, Bool, true, false, String, Option, none, some, is_some, List, [], ◌∷◌, ◌++◌, contains,
  if◌then◌else◌, ℕ_eq,
}
use hekate.Prelude.BTreeMap.{contains_key}
use hekate.Prelude.Results.{Result, ok, ◌>>=◌, map_err}
use hekate.Prelude.Text.{Text, codes}
use hekate.Projector.Errors.{ProjectionError}
use hekate.Storage.Errors.{StorageError}
use hekate.Transition.{TransitionError}

-- The errors that a turn ends with once the model has answered.
pub data EngineError : Type 0 where
  storage_failed : StorageError → EngineError
  projection_failed : ProjectionError → EngineError
  event_failed : String → EngineError
  transition_failed : TransitionError → EngineError
  serialization : String → EngineError
  policy_failed : String → EngineError
  policy_denied : Text → EngineError
  invalid_cognitive_trace : String → EngineError
  judgment_failed : JudgmentValidationError → EngineError
  turn_is_stale : ℕ → ℕ → EngineError
  invalid_operation : String → EngineError

abbrev pub Outcome : Type 0 → Type 0
Outcome A = Result EngineError A

-- `PolicyDecision` (src/ports/policy.rs).
pub record PolicyDecision : Type 0 where
  pub allowed : Bool
  pub requires_approval : Bool
  pub reason : Text

-- What an event of the turn is about.
pub data EventRole : Type 0 where
  decided own_position users_position judged_conflict intended planned asked responded worked ended
        attempted :
      EventRole

-- The new id of an event, and the two readings of the clock that its constructor makes.
pub record EventStamp : Type 0 where
  pub event_id : EventId
  pub occurred_at : Text
  pub recorded_at : Text

-- The end of a turn: what it is given, and the new ids and the readings of the clock that it makes.
pub record Turn : Type 0 where
  pub context : ThoughtContext
  pub cycle : ThoughtCycle
  pub outcome : FocusOutcome
  pub attempt : Option Attempt
  pub stamp : EventRole → EventStamp
  pub clock : EventRole → Text
  pub decision_id : DecisionId
  pub intent_id : ActionIntentId
  pub operation_id : OperationId
  pub approval_id : ApprovalId
  pub working_state_id : WorkingStateId

-- The `matches!` of `position_event_kind`.
unfoldable pub is_retracted : PositionStatus → Bool
is_retracted PositionStatus.retracted = true
is_retracted _ = false

unfoldable pub position_event_kind : CurrentState → Position → EventKind
position_event_kind state position =
    if is_retracted position.status
    then EventKind.position_retracted
    else (if is_some position.supersedes
        then EventKind.position_revised
        else (if contains_key state.positions position.id
            then EventKind.position_maintained
            else EventKind.position_established))

-- The `matches!` of `conflict_event_kind`.
unfoldable pub is_closed : ConflictStatus → Bool
is_closed ConflictStatus.resolved = true
is_closed ConflictStatus.accepted_disagreement = true
is_closed _ = false

unfoldable pub conflict_event_kind : CurrentState → Conflict → EventKind
conflict_event_kind state conflict =
    if is_closed conflict.status
    then EventKind.conflict_resolved
    else (if contains_key state.conflicts conflict.id
        then EventKind.conflict_updated
        else EventKind.conflict_opened)

-- The loops that push an id unless it is there.
unfoldable pub push_new : List EventId → List EventId → List EventId
push_new ids [] = ids
push_new ids (id ∷ rest) = push_new (if contains ids id then ids else ids ++ id ∷ []) rest

unfoldable pub recalled_ids : List RecalledItem → List EventId
recalled_ids [] = []
recalled_ids (item ∷ items) = item.source_event_id ∷ recalled_ids items

unfoldable pub evidence_event_ids : ThoughtContext → List EventId
evidence_event_ids context = push_new context.recent_event_ids (recalled_ids context.recall.items)

abbrev position_refs : Option Position → List EventId
position_refs none = []
position_refs (some position) = position.evidence_refs

abbrev conflict_refs : Option Conflict → List EventId
conflict_refs none = []
conflict_refs (some conflict) = conflict.evidence_refs

unfoldable pub trace_for_decision : CognitiveTrace → Decision → CognitiveTrace
trace_for_decision original decision =
    let with_decision = push_new original.referenced_event_ids decision.evidence_refs in
    let with_own = push_new with_decision (position_refs decision.position) in
    let with_users = push_new with_own (position_refs decision.user_position) in
    record original { referenced_event_ids = push_new with_users (conflict_refs decision.conflict) }

-- The bits of the 32-bit float 1.0.
abbrev pub full_confidence : ℕ
full_confidence = 1065353216

-- `Engine::event_with_id`, and `Engine::event` with its new id, for an event with a subject.
unfoldable pub engine_event :
    Env
    → EventStamp
    → PrincipalId
    → EventKind
    → EntityKind
    → Uuid
    → Result String Json
    → Text
    → Option EventId
    → Outcome ExperienceEvent
engine_event env stamp actor_id event_kind entity_kind entity_id payload correlation_id
      causation_id =
    do
      value ← map_err serialization payload
      map_err event_failed (
          new_with_id env stamp.occurred_at stamp.recorded_at stamp.event_id actor_id event_kind
            (some (record { kind = entity_kind; id = entity_id })) value
            (record { source_type = codes "engine"; source_ref = none }) causation_id
            (some correlation_id) (some full_confidence))
