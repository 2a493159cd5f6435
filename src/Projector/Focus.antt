-- ===== src/Projector/Focus.antt =====
-- `apply_focus_resolution` (src/runtime/projector.rs).
use hekate.Core.Actions.{Observation}
use hekate.Core.Continuity.{FocusCandidate, FocusOutcome, FocusResolution, focus_outcome_eq}
use hekate.Core.Env.{Env}
use hekate.Core.Events.{EntityKind, ExperienceEvent}
use hekate.Core.Ids.{PrincipalId}
use hekate.Core.State.{CurrentState}
use hekate.Core.Work.{
  Goal, GoalStatus, RunStatus, TaskStatus, goal_status_eq, run_status_eq, task_status_eq,
}
use hekate.Prelude.{
  Bool, not, ◌||◌, ◌&&◌, Option, none, some, is_some, is_some_and, is_empty, any, contains, ltb,
  ◌==◌, ◌!=◌, ℕ_eq, option_eq, list_eq,
}
use hekate.Prelude.BTreeMap.{get, insert, contains_key}
use hekate.Prelude.Results.{ok, ◌>>=◌, ◌>>◌, reject_if, ok_or, for_each}
use hekate.Prelude.Text.{trim}
use hekate.Projector.Errors.{Outcome, Handler, invalid, payload, subject_is}

abbrev option_is_none : {A : Type 0} → Option A → Bool
option_is_none o = not (is_some o)

abbrev pub owns_goal : Goal → PrincipalId → Bool
owns_goal goal actor_id = goal.owner_principal_id == actor_id || contains goal.participants actor_id

-- The optional run of a candidate.
unfoldable pub check_candidate_run :
    CurrentState → ExperienceEvent → FocusCandidate → Outcome (Unit {0})
check_candidate_run state event candidate = elim candidate.run_id [
  | none ↦ ok tt
  | some run_id ↦
      reject_if
        (not (is_some_and (get state.runs run_id) λ run. run.task_id == some candidate.task_id))
        (invalid event "focus candidate run does not match task")
]

-- The body of the loop over the candidates.
unfoldable pub check_candidate :
    CurrentState → ExperienceEvent → Observation → FocusCandidate → Outcome (Unit {0})
check_candidate state event observation candidate = do
  task ←
      ok_or (get state.tasks candidate.task_id)
        (invalid event "focus candidate references an unknown task")
  goal ←
      ok_or (get state.goals candidate.goal_id)
        (invalid event "focus candidate references an unknown goal")
  reject_if
      (task.goal_id != some candidate.goal_id
        || task.title != candidate.task_title
        || task.status != candidate.task_status
        || goal.title != candidate.goal_title
        || not (owns_goal goal observation.actor_id)
        || any (λ id. not (contains state.applied_events id)) candidate.evidence_event_ids)
      (invalid event "focus candidate evidence does not match state")
  check_candidate_run state event candidate

-- `FocusOutcome::Continue | FocusOutcome::NewWork`
unfoldable pub work_focus_is_valid :
    CurrentState → ExperienceEvent → Observation → FocusResolution → Outcome Bool
work_focus_is_valid state event observation resolution = do
  task_id ← ok_or resolution.focus.task_id (invalid event "work focus requires a task and run")
  run_id ← ok_or resolution.focus.run_id (invalid event "work focus requires a task and run")
  task ← ok_or (get state.tasks task_id) (invalid event "work focus references an unknown task")
  run ← ok_or (get state.runs run_id) (invalid event "work focus references an unknown run")
  let owned_active_goal = is_some_and task.goal_id λ goal_id.
      is_some_and (get state.goals goal_id)
        λ goal. goal.status == GoalStatus.active && owns_goal goal observation.actor_id
  let goal_matches = task.goal_id == resolution.focus.goal_id && owned_active_goal
  let run_matches =
      run.task_id == some task_id
      && (run.status == RunStatus.pending || run.status == RunStatus.running)
  ok (
      goal_matches
      && run_matches
      && task.status == TaskStatus.in_progress
      && (resolution.outcome != FocusOutcome.new_work || is_some resolution.focus.goal_id))

unfoldable pub conversation_focus_is_valid : CurrentState → FocusResolution → Bool
conversation_focus_is_valid state resolution =
    option_is_none resolution.focus.goal_id
    && option_is_none resolution.focus.task_id
    && is_some_and resolution.focus.run_id
        λ run_id. is_some_and (get state.runs run_id) λ run. option_is_none run.task_id

unfoldable pub clarification_focus_is_valid : FocusResolution → Bool
clarification_focus_is_valid resolution =
    option_is_none resolution.focus.goal_id
    && option_is_none resolution.focus.task_id
    && option_is_none resolution.focus.run_id
    && is_some_and resolution.clarification λ question. not (is_empty (trim question))

unfoldable pub focus_is_valid :
    FocusOutcome → CurrentState → ExperienceEvent → Observation → FocusResolution → Outcome Bool
focus_is_valid FocusOutcome.«continue» state event observation resolution =
    work_focus_is_valid state event observation resolution
focus_is_valid FocusOutcome.new_work state event observation resolution =
    work_focus_is_valid state event observation resolution
focus_is_valid FocusOutcome.conversation state event observation resolution =
    ok (conversation_focus_is_valid state resolution)
focus_is_valid FocusOutcome.clarification state event observation resolution =
    ok (clarification_focus_is_valid resolution)

unfoldable pub apply_focus_resolution : Env → Handler
apply_focus_resolution env state event = do
  resolution ← payload env.decode_focus_resolution event
  observation ←
      ok_or (get state.observations resolution.observation_id)
        (invalid event "focus resolution references an unknown observation")
  reject_if
      (not (subject_is event EntityKind.observation resolution.observation_id)
        || event.correlation_id != some (env.uuid_text resolution.observation_id)
        || event.actor_id != observation.actor_id)
      (invalid event "focus resolution event identity does not match")
  reject_if
      (ltb state.revision resolution.as_of_revision
        || contains_key state.focus_resolutions resolution.observation_id)
      (invalid event "focus resolution revision or identity is invalid")
  for_each (check_candidate state event observation) resolution.candidates
  valid ← focus_is_valid resolution.outcome state event observation resolution
  reject_if (not valid) (invalid event "focus outcome does not match its selected entities")
  ok (record state {
    focus_resolutions = insert state.focus_resolutions resolution.observation_id resolution;
  })
