-- ===== src/Examples/Work.antt =====
-- The completion of a task, and transitions of runs and operations (src/runtime/projector.rs,
-- src/core/transition.rs).
use hekate.Core.Actions.{Operation, OperationStatus}
use hekate.Core.Env.{Env}
use hekate.Core.Events.{EntityKind, EventKind, ExperienceEvent}
use hekate.Core.State.{CurrentState, empty}
use hekate.Core.Work.{Run, RunStatus, Task, TaskStatus}
use hekate.Examples.World.{executable, no_payloads, event_of}
use hekate.Prelude.{◌≡◌, ◌≤◌, refl, none, some, List, [], ◌∷◌, length}
use hekate.Prelude.BTreeMap.{get}
use hekate.Prelude.Results.{ok, try_fold}
use hekate.Prelude.Text.{codes}
use hekate.Projector.Apply.{apply}
use hekate.Projector.TaskLife.{completion_only_completes}
use hekate.Transition.{transition_operation}
use hekate.TransitionLaws.{final_run_stays, operation_ends, try_each}

abbrev task : TaskStatus → Task
task status = record {
  id = 10;
  goal_id = some 3;
  title = codes "index";
  status = status;
  created_at = [];
}

abbrev env : Env
env = record no_payloads { decode_task = λ payload. ok (task TaskStatus.completed) }

abbrev before : CurrentState
before = record empty { tasks = (10, task TaskStatus.in_progress) ∷ [] }

abbrev after : CurrentState
after = record empty {
  revision = 1;
  tasks = (10, task TaskStatus.completed) ∷ [];
  applied_events = 6 ∷ [];
}

abbrev event : ExperienceEvent
event = record (event_of 6 1 EventKind.task_completed) {
  subject = some (record { kind = EntityKind.task; id = 10 });
}

completes : apply env before event ≡ ok after
unfolding executable
completes = refl

completion_only_completes_example :
    (TaskStatus.in_progress ≡ TaskStatus.in_progress)
    × (get after.tasks 10 ≡ some (task TaskStatus.completed))
unfolding executable
completion_only_completes_example =
    completion_only_completes env before event after 10 (task TaskStatus.in_progress) 10 refl refl
      refl completes

abbrev operation : OperationStatus → Operation
operation status = record {
  id = 8;
  intent_id = 9;
  status = status;
  idempotency_key = codes "k";
  approval_id = none;
  started_at = none;
  finished_at = none;
}

-- The longest life of an operation.
abbrev life : List OperationStatus
life =
    OperationStatus.authorized ∷ OperationStatus.started ∷ OperationStatus.unknown
    ∷ OperationStatus.succeeded ∷ OperationStatus.verified ∷ []

lives :
    try_fold transition_operation (operation OperationStatus.planned) life
    ≡ ok (operation OperationStatus.verified)
unfolding executable
lives = refl

operation_ends_example : length life ≤ 5
operation_ends_example =
    operation_ends (operation OperationStatus.planned) life (operation OperationStatus.verified)
      lives

abbrev run : Run
run = record {
  id = 4;
  task_id = none;
  status = RunStatus.completed;
  started_at = [];
  completed_at = none;
}

final_run_stays_example : try_each run (RunStatus.running ∷ RunStatus.failed ∷ []) ≡ run
final_run_stays_example = final_run_stays run (RunStatus.running ∷ RunStatus.failed ∷ []) refl
