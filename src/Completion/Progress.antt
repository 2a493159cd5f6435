-- ===== src/Completion/Progress.antt =====
-- A ready task can be completed (src/runtime/completion.rs).
use hekate.Completion.{CompletionError, Stamp, ready}
use hekate.Completion.Checks.{ensure_non_model_actor, ensure_task}
use hekate.Completion.Gate.{evaluate_task_completion_in}
use hekate.Completion.Service.{
  check_ready, commit, complete_open_task, complete_task, completion_event,
}
use hekate.Completion.TaskLaws.{event_shape}
use hekate.Core.Env.{Env}
use hekate.Core.Events.{EntityKind, EntityRef, EventKind, ExperienceEvent, entity_kind_eq}
use hekate.Core.Ids.{CompletionClaimId, PrincipalId, TaskId}
use hekate.Core.State.{CurrentState}
use hekate.Core.Work.{Task, TaskStatus, task_eq, task_status_eq}
use hekate.Prelude.{
  ◌≡◌, refl, ap, ◌∙◌, true, false, none, some, List, [], ◌∷◌, arith, contains, eq_refl, ◌==◌, ℕ_eq,
}
use hekate.Prelude.BTreeMap.{get, insert}
use hekate.Prelude.Results.{ok, try_fold}
use hekate.Prelude.Text.{Text}
use hekate.Projector.Apply.{advance, apply, dispatch, replay}
use hekate.Projector.Batch.{check_base, record_batch}
use hekate.Projector.Errors.{is_model_actor, payload, subject_is}
use hekate.Projector.Tasks.{apply_task_completion, completion_differs}
use hekate.Storage.{EventLog, Storage}
use hekate.Transition.{task_allowed, transition_task}

abbrev pub finished : Task → Task
finished current = record current { status = TaskStatus.completed }

abbrev pub with_task : CurrentState → TaskId → Task → CurrentState
with_task state task_id task = record state { tasks = insert state.tasks task_id task }

transition_finishes :
    (current : Task)
    → current.status ≡ TaskStatus.in_progress
    → transition_task current TaskStatus.completed ≡ ok (finished current)
unfolding transition_task task_allowed
transition_finishes current open_task = rw open_task refl

subject_named :
    (event : ExperienceEvent) (task_id id : TaskId)
    → event.subject ≡ some (record { kind = EntityKind.task; id = task_id })
    → id ≡ task_id
    → subject_is event EntityKind.task id ≡ true
unfolding subject_is entity_kind_eq
subject_named event task_id id subject same =
    rw (subject, same)
      (eq_refl (let e : EntityRef = record { kind = EntityKind.task; id = task_id } in e.id))

same_completion :
    (current : Task)
    → current.status ≡ TaskStatus.in_progress
    → completion_differs (transition_task current TaskStatus.completed) (finished current) ≡ false
unfolding completion_differs
same_completion current open_task =
    rw (transition_finishes current open_task) (ground (arith, eq_refl (finished current)))

handler_completes :
    (env : Env) (state : CurrentState) (event : ExperienceEvent) (task_id : TaskId) (current : Task)
    → event.subject ≡ some (record { kind = EntityKind.task; id = task_id })
    → env.decode_task event.payload ≡ ok (finished current)
    → current.id ≡ task_id
    → get state.tasks task_id ≡ some current
    → current.status ≡ TaskStatus.in_progress
    → apply_task_completion env state event ≡ ok (with_task state task_id (finished current))
unfolding apply_task_completion payload
handler_completes env state event task_id current subject decoded named found open_task =
    let held : get state.tasks (finished current).id ≡ some current =
      ap (get state.tasks) named ∙ found in
    ground (
      arith,
      decoded,
      subject_named event task_id current.id subject named,
      held,
      same_completion current open_task,
    )
    ∙ ap (λ id. ok (with_task state id (finished current))) named

-- The projector takes the event of a completion.
completion_applies :
    (env : Env) (state : CurrentState) (event : ExperienceEvent) (task_id : TaskId) (current : Task)
    → event.event_kind ≡ EventKind.task_completed
    → contains state.applied_events event.event_id ≡ false
    → apply_task_completion env state event ≡ ok (with_task state task_id (finished current))
    → apply env state event ≡ ok (advance (with_task state task_id (finished current)) event)
unfolding apply dispatch
completion_applies env state event task_id current kind fresh handled =
    let ran : dispatch event.event_kind env state event
        ≡ ok (with_task state task_id (finished current)) =
      ap (λ (k : EventKind). dispatch k env state event) kind ∙ handled in
    rw (fresh, ran) refl

module _ {Store Trace : Type 0} (port : Storage Store Trace) (log : EventLog port) (env : Env)
    (error_text : CompletionError → Text) where
  commits :
      (store after : Store) (event : ExperienceEvent) (state next : CurrentState)
      → port.load_state store ≡ ok state
      → apply env state event ≡ ok next
      → port.commit_batch store (event ∷ []) next (some state.revision) none ≡ ok after
      → commit port log env error_text store state.revision event ≡ ok (next, after)
  unfolding commit record_batch check_base try_fold
  commits store after event state next loaded applied written =
      ground (arith, loaded, applied, written, eq_refl state.revision)

  -- A known actor that is not the model, with the revision of the store's state at hand, completes a task in
  -- progress whose gate is ready: if the payload of the event decodes to what was encoded, its id is new and
  -- the store accepts the batch, `complete_task` gives the completed task.
  pub ready_task_completes :
      (store after : Store) (stamp : Stamp) (actor_id : PrincipalId) (task_id : TaskId)
      (events : List ExperienceEvent) (state : CurrentState) (current : Task)
      (event : ExperienceEvent) (ids : List CompletionClaimId)
      → log.load_events store ≡ ok events
      → replay env events ≡ ok state
      → port.load_state store ≡ ok state
      → get state.tasks task_id ≡ some current
      → current.id ≡ task_id
      → current.status ≡ TaskStatus.in_progress
      → is_model_actor state actor_id ≡ false
      → evaluate_task_completion_in env error_text state events task_id ≡ ok (ready ids)
      → completion_event env stamp actor_id EventKind.task_completed EntityKind.task task_id
          (env.encode_task (finished current))
          (some (env.uuid_text task_id))
          none
          none
        ≡ ok event
      → env.decode_task event.payload ≡ ok (finished current)
      → contains state.applied_events event.event_id ≡ false
      → port.commit_batch store
          (event ∷ [])
          (advance (with_task state task_id (finished current)) event)
          (some state.revision)
          none
        ≡ ok after
      → complete_task port log env error_text store stamp actor_id task_id state.revision
        ≡ ok (finished current, after)
  unfolding complete_task complete_open_task ensure_task ensure_non_model_actor check_ready
      task_status_eq
  ready_task_completes store after stamp actor_id task_id events state current event ids logged
        replayed loaded found named open_task actor is_ready made decoded fresh written =
      let (kind, subject) =
        event_shape port log env error_text stamp actor_id task_id (finished current) event made in
      let handled =
        handler_completes env state event task_id current subject decoded named found open_task in
      let applied = completion_applies env state event task_id current kind fresh handled in
      let stored = commits store after event state _ loaded applied written in
      let not_done : (current.status == TaskStatus.completed) ≡ false = rw open_task refl in
      ground (
        arith,
        logged,
        replayed,
        found,
        not_done,
        actor,
        is_ready,
        made,
        stored,
        transition_finishes current open_task,
        eq_refl state.revision,
      )
