-- ===== src/Engine/Events.antt =====
-- The events of a cognitive turn, in the order in which `process_observation` (src/runtime/engine.rs) makes
-- them: the decision, its positions and conflict, its action, the response, the work, and the attempt.
use hekate.Core.Actions.{ActionIntent, ApprovalStatus, Decision, DecisionKind, OperationStatus}
use hekate.Core.Continuity.{FocusOutcome}
use hekate.Core.Env.{Env}
use hekate.Core.Events.{EntityKind, EventKind, ExperienceEvent}
use hekate.Core.Ids.{ApprovalId, EventId, Json, ObservationId, PrincipalId, RunId, Uuid}
use hekate.Core.Stances.{Conflict, Position}
use hekate.Core.State.{CurrentState}
use hekate.Core.Work.{AttemptStatus, Attempt, Run, RunStatus, WorkingState, run_status_eq}
use hekate.Engine.{
  EventRole, Outcome, PolicyDecision, Turn, attempted, asked, conflict_event_kind, decided, ended,
  engine_event, intended, invalid_operation, judged_conflict, own_position, planned,
  position_event_kind, responded, transition_failed, users_position, worked,
}
use hekate.Prelude.{
  ◌+◌, ◌%◌, String, Option, none, some, List, [], ◌∷◌, ◌++◌, contains, if◌then◌else◌, ◌==◌, ℕ_eq,
}
use hekate.Prelude.BTreeMap.{get}
use hekate.Prelude.Results.{Result, ok, ◌>>=◌, map_err, ok_or}
use hekate.Prelude.Text.{Text, codes}
use hekate.Projector.Apply.{u64_modulus}
use hekate.Transition.{transition_run}

-- `intent.proposed_by_event = Some(decision_event_id)`, if there is an intent.
abbrev pub proposed_by : EventId → Decision → Decision
proposed_by event_id decision = elim decision.action [
  | none ↦ decision
  | some intent ↦ record decision {
    action = some (record intent { proposed_by_event = some event_id });
  }
]

-- An event for a part of the decision, if it has that part.
unfoldable pub optional_event :
    {A : Type 0} → Option A → (A → Outcome ExperienceEvent) → Outcome (List ExperienceEvent)
optional_event none make = ok []
optional_event (some part) make = do event ← make part; ok (event ∷ [])

-- The run that a turn ends, if it ends one.
unfoldable pub complete_run : Text → Run → Outcome (Option Run)
complete_run now run = do
  completed ← map_err transition_failed (transition_run run RunStatus.completed)
  ok (some (record completed { completed_at = some now }))

unfoldable pub suspend_run : Run → Outcome (Option Run)
suspend_run run = do
  suspended ← map_err transition_failed (transition_run run RunStatus.suspended)
  ok (some suspended)

unfoldable pub ended_run : Text → FocusOutcome → DecisionKind → Run → Outcome (Option Run)
ended_run now FocusOutcome.conversation kind run =
    if run.status == RunStatus.running then complete_run now run else ok none
ended_run now _ DecisionKind.suspend run = suspend_run run
ended_run now _ DecisionKind.complete run = complete_run now run
ended_run now _ _ run = ok none

-- The kind of the event on the run that has ended.
abbrev pub run_event_kind : RunStatus → EventKind
run_event_kind RunStatus.completed = EventKind.run_completed
run_event_kind _ = EventKind.run_suspended

unfoldable pub next_working_state :
    CurrentState → Turn → Text → RunId → ObservationId → WorkingState
next_working_state state turn message run_id observation_id =
    let current : WorkingState = elim (get state.working_states run_id) [
      | some stored ↦ stored
      | none ↦ record {
        id = turn.working_state_id;
        run_id = run_id;
        revision = 0;
        completed_observations = [];
        notes = [];
        next_action = none;
      }
    ] in
    record current {
      revision = (current.revision + 1) % u64_modulus;
      completed_observations =
          if contains current.completed_observations observation_id
          then current.completed_observations
          else current.completed_observations ++ observation_id ∷ [];
      next_action = some message;
    }

-- The approval that the policy asks for.
abbrev pub required_approval : Turn → Option PolicyDecision → Option ApprovalId
required_approval turn none = none
required_approval turn (some policy) =
    if policy.requires_approval then some turn.approval_id else none

abbrev pub approval_reason : Option PolicyDecision → Text
approval_reason none = codes "explicit approval requested"
approval_reason (some policy) = policy.reason

module _ (env : Env) (hekate_id : PrincipalId) (state : CurrentState) (turn : Turn) where
  -- `self.event(…)` for an event that the decision causes.
  unfoldable pub caused_event :
      EventRole
      → PrincipalId
      → EventKind
      → EntityKind
      → Uuid
      → Result String Json
      → Outcome ExperienceEvent
  caused_event role actor_id event_kind entity_kind entity_id payload =
      engine_event env (turn.stamp role) actor_id event_kind entity_kind entity_id payload
        (env.uuid_text turn.context.observation.id) (some (turn.stamp decided).event_id)

  unfoldable pub decision_event : Decision → Outcome ExperienceEvent
  decision_event decision =
      engine_event env (turn.stamp decided) hekate_id EventKind.decision_created EntityKind.decision
        decision.id (env.encode_decision decision) (env.uuid_text turn.context.observation.id) none

  unfoldable pub position_event : EventRole → PrincipalId → Position → Outcome ExperienceEvent
  position_event role actor_id position =
      caused_event role actor_id (position_event_kind state position) EntityKind.position
        position.id (env.encode_position position)

  unfoldable pub conflict_event : Conflict → Outcome ExperienceEvent
  conflict_event conflict =
      caused_event judged_conflict hekate_id (conflict_event_kind state conflict)
        EntityKind.conflict conflict.id (env.encode_conflict conflict)

  unfoldable pub approval_event :
      ActionIntent → Option PolicyDecision → ApprovalId → Outcome ExperienceEvent
  approval_event intent policy approval_id =
      caused_event asked hekate_id EventKind.approval_requested EntityKind.approval approval_id (
        env.encode_approval (record {
          id = approval_id;
          intent_id = intent.id;
          operation_id = turn.operation_id;
          requested_by = hekate_id;
          status = ApprovalStatus.pending;
          reason = approval_reason policy;
          resolved_by = none;
          resolved_at = none;
          created_at = turn.clock asked;
        }))

  unfoldable pub action_events :
      Option ActionIntent → Option PolicyDecision → Outcome (List ExperienceEvent)
  action_events none policy = ok []
  action_events (some intent) policy = do
    intent_event ←
        caused_event intended hekate_id EventKind.action_intent_created EntityKind.action_intent
          intent.id (env.encode_action_intent intent)
    operation_event ←
        caused_event planned hekate_id EventKind.operation_planned EntityKind.operation
          turn.operation_id
          (env.encode_operation (record {
            id = turn.operation_id;
            intent_id = intent.id;
            status = OperationStatus.planned;
            idempotency_key = codes "intent:" ++ env.uuid_text intent.id;
            approval_id = required_approval turn policy;
            started_at = none;
            finished_at = none;
          }))
    approvals ← optional_event (required_approval turn policy) (approval_event intent policy)
    ok (intent_event ∷ operation_event ∷ approvals)

  unfoldable pub response_event : Decision → Outcome ExperienceEvent
  response_event decision =
      caused_event responded hekate_id EventKind.response_produced EntityKind.decision decision.id (
        env.encode_response_record (record {
          decision_id = decision.id;
          content = decision.message;
          created_at = turn.clock responded;
        }))

  unfoldable pub run_event : Run → Outcome ExperienceEvent
  run_event run =
      caused_event ended hekate_id (run_event_kind run.status) EntityKind.run run.id
        (env.encode_run run)

  unfoldable pub run_events : Decision → Option Run → Outcome (List ExperienceEvent)
  run_events decision none = ok []
  run_events decision (some run) = do
    last ← ended_run (turn.clock ended) turn.outcome decision.kind run
    optional_event last run_event

  unfoldable pub work_events : Decision → Option RunId → Outcome (List ExperienceEvent)
  work_events decision none = ok []
  work_events decision (some run_id) = do
    let working_state =
        next_working_state state turn decision.message run_id turn.context.observation.id
    working_event ←
        caused_event worked hekate_id EventKind.working_state_updated EntityKind.working_state
          working_state.id (env.encode_working_state working_state)
    runs ← run_events decision (get state.runs run_id)
    ok (working_event ∷ runs)

  unfoldable pub attempt_event : Attempt → Outcome ExperienceEvent
  attempt_event attempt =
      caused_event attempted hekate_id EventKind.attempt_completed EntityKind.attempt attempt.id (
        env.encode_attempt (record attempt {
          status = AttemptStatus.succeeded;
          finished_at = some (turn.clock attempted);
        }))

  -- `final_events`
  unfoldable pub final_events : Decision → Option PolicyDecision → Outcome (List ExperienceEvent)
  final_events decision policy = do
    decision_made ← decision_event decision
    own ← optional_event decision.position (position_event own_position hekate_id)
    users ←
        optional_event decision.user_position
          (position_event users_position turn.context.observation.actor_id)
    conflicts ← optional_event decision.conflict conflict_event
    actions ← action_events decision.action policy
    response ← response_event decision
    work ← work_events decision turn.context.focus.run_id
    attempt ← ok_or turn.attempt (invalid_operation "foreground attempt is missing")
    attempt_made ← attempt_event attempt
    ok (
        decision_made ∷ own
        ++ (users ++ (conflicts ++ (actions ++ (response ∷ work ++ (attempt_made ∷ []))))))
