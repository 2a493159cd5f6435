-- ===== src/Projector/Tasks.antt =====
-- `apply_task_completion` (src/runtime/projector.rs).
use hekate.Core.Env.{Env}
use hekate.Core.Events.{EntityKind}
use hekate.Core.Work.{Task, TaskStatus, task_eq}
use hekate.Prelude.{Bool, true, not, ◌!=◌}
use hekate.Prelude.BTreeMap.{get, insert}
use hekate.Prelude.Results.{Result, ok, err, ◌>>=◌, ◌>>◌, reject_if, ok_or}
use hekate.Projector.Errors.{Handler, invalid, payload, subject_is}
use hekate.Transition.{TransitionError, transition_task}

-- The transition of the stored task fails or does not give the task of the payload.
unfoldable pub completion_differs : Result TransitionError Task → Task → Bool
completion_differs (ok expected) completed = expected != completed
completion_differs (err e) completed = true

unfoldable pub apply_task_completion : Env → Handler
apply_task_completion env state event = do
  completed ← payload env.decode_task event
  reject_if (not (subject_is event EntityKind.task completed.id))
      (invalid event "task completion subject does not match payload")
  current ←
      ok_or (get state.tasks completed.id) (invalid event "completion references an unknown task")
  reject_if (completion_differs (transition_task current TaskStatus.completed) completed)
      (invalid event "invalid task completion transition")
  ok (record state { tasks = insert state.tasks completed.id completed })
