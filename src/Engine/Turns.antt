-- ===== src/Engine/Turns.antt =====
-- The end of `process_observation` (src/runtime/engine.rs), from the model's answer on, and a session of
-- turns among the batches that the rest of the program records. The traces that the source saves of a turn
-- that fails are left out.
use hekate.Core.Actions.{ActionIntent, Decision}
use hekate.Core.Env.{Env}
use hekate.Core.Events.{ExperienceEvent}
use hekate.Core.Ids.{PrincipalId}
use hekate.Core.State.{CurrentState}
use hekate.Core.Thoughts.{CognitiveTrace, ThoughtContext}
use hekate.Deliberation.Judgment.{decision_from_cycle, validate_judgment}
use hekate.Engine.{
  EngineError, Outcome, PolicyDecision, Turn, decided, evidence_event_ids, invalid_cognitive_trace,
  judgment_failed, policy_denied, policy_failed, projection_failed, storage_failed,
  trace_for_decision, turn_is_stale,
}
use hekate.Engine.Events.{final_events, proposed_by}
use hekate.Prelude.{String, not, ◌||◌, Option, none, some, List, [], ◌∷◌, ℕ, ◌!=◌, ℕ_eq, list_eq}
use hekate.Prelude.Results.{Result, ok, err, ◌>>=◌, ◌>>◌, map_err, reject_if}
use hekate.Projector.Batch.{record_batch}
use hekate.Projector.Errors.{ProjectionError, stale_context, storage}
use hekate.Storage.{Storage}
use hekate.Storage.Errors as Port

-- The match on the error of `record_batch`.
unfoldable pub commit_error : ProjectionError → EngineError
commit_error (stale_context expected actual) = turn_is_stale expected actual
commit_error (storage (Port.stale_context expected actual)) = turn_is_stale expected actual
commit_error error = projection_failed error

-- `Policy::evaluate` of the port.
abbrev pub Evaluate : Type 0
Evaluate = PrincipalId → ActionIntent → Result String PolicyDecision

unfoldable pub check_policy :
    Evaluate → PrincipalId → Option ActionIntent → Outcome (Option PolicyDecision)
check_policy evaluate hekate_id none = ok none
check_policy evaluate hekate_id (some intent) = do
  policy ← map_err policy_failed (evaluate hekate_id intent)
  reject_if (not policy.allowed) (policy_denied policy.reason)
  ok (some policy)

-- The decision of the cycle.
abbrev pub decision_of : Turn → Decision
decision_of turn =
    decision_from_cycle turn.decision_id turn.intent_id (turn.clock decided) turn.context turn.cycle

-- What happens to the store: a batch that any part of the program records, or the end of a turn.
pub data Step : Type 0 where
  batch : List ExperienceEvent → Option ℕ → Option CognitiveTrace → Step
  turn_ends : Turn → Step

-- What fails leaves the store as it is.
abbrev pub store_after : {Store E : Type 0} → Store → Result E (CurrentState × Store) → Store
store_after store (ok (state, after)) = after
store_after store (err e) = store

module _ {Store : Type 0} (port : Storage Store CognitiveTrace) (env : Env) (evaluate : Evaluate)
    (hekate_id : PrincipalId) where
  -- `state` is what the batch with the turn's attempt left.
  unfoldable pub finish_turn : Store → CurrentState → Turn → Outcome (CurrentState × Store)
  finish_turn store state turn = do
    let context = turn.context
    latest ← map_err storage_failed (port.load_state store)
    reject_if (CurrentState.revision latest != ThoughtContext.event_sequence context)
        (turn_is_stale (ThoughtContext.event_sequence context) (CurrentState.revision latest))
    reject_if
        (turn.cycle.trace.context_sequence != ThoughtContext.event_sequence context
          || turn.cycle.trace.context_hash != ThoughtContext.snapshot_hash context)
        (invalid_cognitive_trace "cognitive trace does not match its thought context")
    let judgment = decision_of turn
    let trace = trace_for_decision turn.cycle.trace judgment
    map_err judgment_failed
        (validate_judgment context state (evidence_event_ids context) judgment hekate_id)
    policy ← check_policy evaluate hekate_id (Decision.action judgment)
    events ←
        final_events env hekate_id state turn (proposed_by (turn.stamp decided).event_id judgment)
          policy
    map_err commit_error (
        record_batch port env store events (some (ThoughtContext.event_sequence context))
          (some trace))

  -- A turn ends with the state that the batch with its attempt left, which is the stored one.
  unfoldable pub end_turn : Store → Turn → Outcome (CurrentState × Store)
  end_turn store turn = do
    state ← map_err storage_failed (port.load_state store)
    finish_turn store state turn

  unfoldable pub session : Store → List Step → Store
  session store [] = store
  session store (batch events expected trace ∷ steps) =
      session (store_after store (record_batch port env store events expected trace)) steps
  session store (turn_ends turn ∷ steps) = session (store_after store (end_turn store turn)) steps
