-- ===== src/Completion/TaskLaws.antt =====
-- What `complete_task` does to the store (src/runtime/completion.rs).
use hekate.Completion.{
  CompletionError, CompletionGateResult, Stamp, blocked, ready, transition_failed, stale_revision,
}
use hekate.Completion.Gate.{evaluate_task_completion_in}
use hekate.Completion.Service.{check_ready, commit, complete_open_task}
use hekate.Core.Events.{EntityKind, EventKind}
use hekate.Completion.Service.{completion_event}
use hekate.Completion.Service.{complete_task}
use hekate.Completion.Commits.{commit-Committed}
use hekate.Completion.Checks.{ensure_non_model_actor, ensure_task}
use hekate.Core.Env.{Env}
use hekate.Core.Events.{ExperienceEvent}
use hekate.Core.Ids.{CompletionClaimId, PrincipalId, TaskId}
use hekate.Core.State.{CurrentState}
use hekate.Core.Work.{Task, TaskStatus, task_status_eq}
use hekate.Core.Integrity.{new_with_id}
use hekate.Projector.TaskLife.{completion_only_completes}
use hekate.Projector.Apply.{replay}
use hekate.Prelude.BTreeMap.{get}
use hekate.Prelude.{
  false, eq_of_beq, nat_eq, if◌then◌else◌, some, none, [], ◌∷◌, ◌++◌, sym, ℕ, ◌≡◌, refl, ap, ◌∙◌,
  inl, inr, true, Bool-cases, List, arith, ◌==◌, ◌!=◌, ℕ_eq,
}
use hekate.Prelude.Results.{reject_if, ok, ok-injective, map_err, >>=-eq-ok}
use hekate.Prelude.Text.{Text}
use hekate.Projector.BatchLaws.{map_err-ok}
use hekate.Storage.{EventLog, Storage}
use hekate.Transition.{transition_task, task_allowed}

module _ {Store Trace : Type 0} (port : Storage Store Trace) (log : EventLog port) (env : Env)
    (error_text : CompletionError → Text) where
  -- A successful completion of a task that was open.
  record Completed (store : Store) (stamp : Stamp) (actor_id : PrincipalId) (task_id : TaskId)
      (expected_revision : ℕ) (events : List ExperienceEvent) (state : CurrentState)
      (current completed : Task) (after : Store) : Type 0 where
    fresh : (expected_revision == state.revision) ≡ true
    gate : CompletionGateResult
    evaluated : evaluate_task_completion_in env error_text state events task_id ≡ ok gate
    passed : check_ready gate ≡ ok tt
    moved : transition_task current TaskStatus.completed ≡ ok completed
    event : ExperienceEvent
    made :
        completion_event env stamp actor_id EventKind.task_completed EntityKind.task task_id
          (env.encode_task completed)
          (some (env.uuid_text task_id))
          none
          none
        ≡ ok event
    committed : CurrentState
    written : commit port log env error_text store state.revision event ≡ ok (committed, after)

  completion-Completed :
      (store : Store) (stamp : Stamp) (actor_id : PrincipalId) (task_id : TaskId)
      (expected_revision : ℕ) (events : List ExperienceEvent) (state : CurrentState)
      (current completed : Task) (after : Store)
      → complete_open_task port log env error_text store stamp actor_id task_id expected_revision
          events state current
        ≡ ok (completed, after)
      → Completed store stamp actor_id task_id expected_revision events state current completed
          after
  unfolding complete_open_task
  completion-Completed store stamp actor_id task_id expected_revision events state current completed
        after q =
      let (_, rest, fresh) =
        >>=-eq-ok
          (reject_if (expected_revision != state.revision)
            (stale_revision expected_revision state.revision))
          _ q in
      let (gate, rest, evaluated) =
        >>=-eq-ok (evaluate_task_completion_in env error_text state events task_id) _ rest in
      let (_, rest, passed) = >>=-eq-ok (check_ready gate) _ rest in
      let (result, rest, moved) =
        >>=-eq-ok (map_err transition_failed (transition_task current TaskStatus.completed)) _
          rest in
      let (event, rest, made) =
        >>=-eq-ok
          (completion_event env stamp actor_id EventKind.task_completed EntityKind.task task_id
            (env.encode_task result) (some (env.uuid_text task_id)) none none)
          _ rest in
      let (pair, rest, written) =
        >>=-eq-ok (commit port log env error_text store state.revision event) _ rest in
      let done = ok-injective (result, pair.1) (completed, after) rest in
      let one : result ≡ completed = ap (λ (p : Task × Store). p.0) done in
      let last : pair.1 ≡ after = ap (λ (p : Task × Store). p.1) done in
      record {
        fresh = ground (arith, fresh);
        gate = gate;
        evaluated = evaluated;
        passed = passed;
        moved =
            map_err-ok transition_failed (transition_task current TaskStatus.completed) result moved
            ∙ ap ok one;
        event = event;
        made =
            ap
              (λ (t : Task).
                completion_event env stamp actor_id EventKind.task_completed EntityKind.task task_id
                  (env.encode_task t) (some (env.uuid_text task_id)) none none)
              (sym one)
            ∙ made;
        committed = pair.0;
        written = written ∙ ap (λ (x : Store). ok (pair.0, x)) last;
      }

  ready_ids :
      (gate : CompletionGateResult)
      → check_ready gate ≡ ok tt
      → (ids : List CompletionClaimId) × (gate ≡ ready ids)
  unfolding check_ready
  ready_ids (ready ids) q = (ids, refl)
  ready_ids (blocked a b c d e f) q = cc

  moved_task :
      (current completed : Task)
      → transition_task current TaskStatus.completed ≡ ok completed
      → (current.status ≡ TaskStatus.in_progress)
        × (completed ≡ record current { status = TaskStatus.completed })
  unfolding transition_task task_allowed
  moved_task current completed q =
      elim (Bool-cases (task_allowed current.status TaskStatus.completed)) [
        | inl allowed ↦ (from_open current.status allowed, ground (arith, allowed, q))
        | inr refused ↦ ground (arith, refused, q)
      ]
    where
      from_open :
          (s : TaskStatus) → task_allowed s TaskStatus.completed ≡ true → s ≡ TaskStatus.in_progress
      from_open TaskStatus.in_progress h = refl
      from_open TaskStatus.planned h = cc
      from_open TaskStatus.blocked h = cc
      from_open TaskStatus.completed h = cc
      from_open TaskStatus.cancelled h = cc

  -- The event that a stamp and a payload make.
  pub event_shape :
      (stamp : Stamp) (actor_id : PrincipalId) (task_id : TaskId) (completed : Task)
      (event : ExperienceEvent)
      → completion_event env stamp actor_id EventKind.task_completed EntityKind.task task_id
          (env.encode_task completed)
          (some (env.uuid_text task_id))
          none
          none
        ≡ ok event
      → (event.event_kind ≡ EventKind.task_completed)
        × (event.subject ≡ some (record { kind = EntityKind.task; id = task_id }))
  unfolding completion_event new_with_id
  event_shape stamp actor_id task_id completed event q = (ground (arith, q), ground (arith, q))

  -- Past the checks, the completion of an open task.
  opened :
      (store : Store) (stamp : Stamp) (actor_id : PrincipalId) (task_id expected_revision : ℕ)
      (events : List ExperienceEvent) (state : CurrentState) (current completed : Task)
      (after : Store)
      → log.load_events store ≡ ok events
      → replay env events ≡ ok state
      → get state.tasks task_id ≡ some current
      → (current.status == TaskStatus.completed) ≡ false
      → complete_task port log env error_text store stamp actor_id task_id expected_revision
        ≡ ok (completed, after)
      → complete_open_task port log env error_text store stamp actor_id task_id expected_revision
          events state current
        ≡ ok (completed, after)
  unfolding complete_task ensure_task ensure_non_model_actor
  opened store stamp actor_id task_id expected_revision events state current completed after logged
        replayed found undone q =
      ground (arith, q, logged, replayed, found, undone)

  -- A completion of a task that the log has not completed goes through only if the gate of the task is ready
  -- in the replay of the log, which the store holds, and the caller knows its revision. It completes a task
  -- that was in progress, appends one event to the log, and leaves every other task as it was.
  pub complete_task-gated :
      (store : Store) (stamp : Stamp) (actor_id : PrincipalId) (task_id expected_revision : ℕ)
      (events : List ExperienceEvent) (state : CurrentState) (current completed : Task)
      (after : Store) (j : ℕ)
      → log.load_events store ≡ ok events
      → replay env events ≡ ok state
      → port.load_state store ≡ ok state
      → get state.tasks task_id ≡ some current
      → (current.status == TaskStatus.completed) ≡ false
      → complete_task port log env error_text store stamp actor_id task_id expected_revision
        ≡ ok (completed, after)
      → (ids : List CompletionClaimId) × (evaluate_task_completion_in env error_text state events
            task_id
          ≡ ok (ready ids))
        × (expected_revision ≡ state.revision)
        × (current.status ≡ TaskStatus.in_progress)
        × (completed ≡ record current { status = TaskStatus.completed })
        × (event : ExperienceEvent) × (log.load_events after ≡ ok (events ++ event ∷ []))
        × (loaded : CurrentState) × (port.load_state after ≡ ok loaded)
        × (get loaded.tasks j ≡ (if nat_eq task_id j then some completed else get state.tasks j))
  complete_task-gated store stamp actor_id task_id expected_revision events state current completed
        after j logged replayed loaded found undone q =
      let c =
        completion-Completed store stamp actor_id task_id expected_revision events state current
          completed after
          (opened store stamp actor_id task_id expected_revision events state current completed
            after logged replayed found undone q) in
      let (ids, is_ready) = ready_ids c.gate c.passed in
      let (was, becomes) = moved_task current completed c.moved in
      let w =
        commit-Committed port log env error_text store state.revision c.event state c.committed
          after loaded c.written in
      let (kind, subject) = event_shape stamp actor_id task_id completed c.event c.made in
      let (_, now) =
        completion_only_completes env state c.event c.committed task_id current j kind subject found
          w.applied in
      (
        ids,
        c.evaluated ∙ ap ok is_ready,
        eq_of_beq _ _ c.fresh,
        was,
        becomes,
        c.event,
        w.logged events logged,
        c.committed,
        w.kept,
        now ∙ ap (λ t. if nat_eq task_id j then some t else get state.tasks j) (sym becomes),
      )
