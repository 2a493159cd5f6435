-- ===== src/Projector/TaskLife.antt =====
-- What the completion of a task does (src/runtime/projector.rs, src/core/transition.rs).
use hekate.Core.Env.{Env}
use hekate.Core.Events.{EventKind, EntityKind, ExperienceEvent, entity_kind_eq}
use hekate.Core.State.{CurrentState}
use hekate.Core.Work.{Task, TaskStatus, task_eq}
use hekate.Prelude.{
  ℕ, ◌≡◌, ap, ◌∙◌, sym, subst, true, false, some, arith, not, ◌==◌, ℕ_eq, eq_of_beq, nat_eq,
  if◌then◌else◌,
}
use hekate.Prelude.BTreeMap.{get, insert, get-insert, same_entry}
use hekate.Prelude.Results.{Ensures, Ensures-bind, Ensures-reject, Ensures-ok_or, ok-injective, ok}
use hekate.Projector.Errors.{payload, subject_is}
use hekate.Projector.Apply.{advance, apply, dispatch}
use hekate.Projector.Steps.{apply-Applied}
use hekate.Projector.Tasks.{apply_task_completion, completion_differs}
use hekate.Transition.{transition_task}

-- What a successful completion has checked and stored.
record Completed (e : ExperienceEvent) (s : CurrentState) (completed : Task) (s' : CurrentState)
    : Type 0 where
  current : Task
  found : get s.tasks completed.id ≡ some current
  was : current.status ≡ TaskStatus.in_progress
  becomes : completed ≡ record current { status = TaskStatus.completed }
  named : subject_is e EntityKind.task completed.id ≡ true
  stored : s'.tasks ≡ insert s.tasks completed.id completed

-- The stored task is under way, and the payload is that task completed.
agreed :
    (current completed : Task)
    → completion_differs (transition_task current TaskStatus.completed) completed ≡ false
    → (current.status ≡ TaskStatus.in_progress)
      × ((record current { status = TaskStatus.completed } == completed) ≡ true)
unfolding completion_differs transition_task
agreed current completed h = ground arith

completed :
    (env : Env) (s : CurrentState) (e : ExperienceEvent)
    → Ensures (λ s'. (task : Task) × Completed e s task s') (apply_task_completion env s e)
unfolding apply_task_completion
completed env s e = Ensures-bind _ (payload env.decode_task e) _ λ task _.
    Ensures-reject _ (not (subject_is e EntityKind.task task.id)) _ _ λ named.
      Ensures-ok_or _ (get s.tasks task.id) _ _ λ current found.
        Ensures-reject _ (completion_differs (transition_task current TaskStatus.completed) task) _
          _
          λ same.
            let (was, becomes) = agreed current task same in
            record {
              at = λ s' q. (
                task,
                record {
                  current = current;
                  found = found;
                  was = was;
                  becomes =
                      sym
                        (eq_of_beq (record current { status = TaskStatus.completed }) task becomes);
                  named = ground arith;
                  stored = ap CurrentState.tasks (sym (ok-injective _ s' q));
                },
              );
            }

-- The subject of the event is the task that is completed.
subject_id :
    (e : ExperienceEvent) (k id : ℕ)
    → e.subject ≡ some (record { kind = EntityKind.task; id = k })
    → subject_is e EntityKind.task id ≡ true
    → k ≡ id
unfolding subject_is
subject_id e k id subject named = ground arith

-- The tasks after the completion of `k`.
after_completion :
    (e : ExperienceEvent) (s : CurrentState) (task : Task) (s' : CurrentState) (k : ℕ) (t : Task)
    (j : ℕ)
    → Completed e s task s'
    → k ≡ task.id
    → get s.tasks k ≡ some t
    → (t.status ≡ TaskStatus.in_progress)
      × (get s'.tasks j ≡ (
          if nat_eq k j then some (record t { status = TaskStatus.completed }) else get s.tasks j))
after_completion e s task s' k t j c same g =
    let one : c.current ≡ t =
      same_entry (get s.tasks k) c.current t
        (subst (λ i. get s.tasks i ≡ some c.current) (sym same) c.found) g in
    (
      subst (λ (x : Task). x.status ≡ TaskStatus.in_progress) one c.was,
      ap (λ m. get m j) c.stored
          ∙ get-insert s.tasks task.id task j
          ∙ ap (λ i. if nat_eq i j then some task else get s.tasks j) (sym same)
          ∙ ap (λ x. if nat_eq k j then some x else get s.tasks j)
              (c.becomes ∙ ap (λ (x : Task). record x { status = TaskStatus.completed }) one),
    )

-- A successful completion event whose subject is a stored task finds it in progress, sets its status to
-- completed and changes nothing else of it, and leaves every other task as it was.
pub completion_only_completes :
    (env : Env) (s : CurrentState) (e : ExperienceEvent) (s' : CurrentState) (k : ℕ) (t : Task)
    (j : ℕ)
    → e.event_kind ≡ EventKind.task_completed
    → e.subject ≡ some (record { kind = EntityKind.task; id = k })
    → get s.tasks k ≡ some t
    → apply env s e ≡ ok s'
    → (t.status ≡ TaskStatus.in_progress)
      × (get s'.tasks j ≡ (
          if nat_eq k j then some (record t { status = TaskStatus.completed }) else get s.tasks j))
unfolding advance dispatch
completion_only_completes env s e s' k t j kind subject g q =
    let a = apply-Applied env s e s' q in
    let (task, c) =
      (completed env s e).at a.moved (subst (λ x. dispatch x env s e ≡ ok a.moved) kind a.ran) in
    let (was, now) =
      after_completion e s task a.moved k t j c (subject_id e k task.id subject c.named) g in
    (was, ap (λ (u : CurrentState). get u.tasks j) a.counted ∙ now)
