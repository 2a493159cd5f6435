-- ===== src/Transition.antt =====
-- The status transitions of tasks, runs and operations (src/core/transition.rs). The error keeps the two
-- statuses where the source keeps their debug text.
use hekate.Core.Actions.{Operation, OperationStatus}
use hekate.Core.Work.{Run, RunStatus, Task, TaskStatus}
use hekate.Prelude.{Bool, true, false, if◌then◌else◌}
use hekate.Prelude.Results.{Result, ok, err}

pub data TransitionError : Type 0 where
  invalid_task : TaskStatus → TaskStatus → TransitionError
  invalid_run : RunStatus → RunStatus → TransitionError
  invalid_operation : OperationStatus → OperationStatus → TransitionError

-- The `matches!` of `transition_task`.
unfoldable pub task_allowed : TaskStatus → TaskStatus → Bool
task_allowed TaskStatus.planned TaskStatus.in_progress = true
task_allowed TaskStatus.planned TaskStatus.cancelled = true
task_allowed TaskStatus.in_progress TaskStatus.blocked = true
task_allowed TaskStatus.in_progress TaskStatus.completed = true
task_allowed TaskStatus.in_progress TaskStatus.cancelled = true
task_allowed TaskStatus.blocked TaskStatus.in_progress = true
task_allowed TaskStatus.blocked TaskStatus.cancelled = true
task_allowed _ _ = false

unfoldable pub transition_task : Task → TaskStatus → Result TransitionError Task
unfolding task_allowed
transition_task task next =
    if task_allowed task.status next
    then ok (record task { status = next })
    else err (invalid_task task.status next)

-- The `matches!` of `transition_run`.
unfoldable pub run_allowed : RunStatus → RunStatus → Bool
run_allowed RunStatus.pending RunStatus.running = true
run_allowed RunStatus.pending RunStatus.cancelled = true
run_allowed RunStatus.pending RunStatus.needs_attention = true
run_allowed RunStatus.running RunStatus.suspended = true
run_allowed RunStatus.running RunStatus.completed = true
run_allowed RunStatus.running RunStatus.failed = true
run_allowed RunStatus.running RunStatus.needs_attention = true
run_allowed RunStatus.suspended RunStatus.running = true
run_allowed RunStatus.suspended RunStatus.completed = true
run_allowed RunStatus.suspended RunStatus.cancelled = true
run_allowed RunStatus.suspended RunStatus.needs_attention = true
run_allowed RunStatus.needs_attention RunStatus.running = true
run_allowed RunStatus.needs_attention RunStatus.cancelled = true
run_allowed _ _ = false

unfoldable pub transition_run : Run → RunStatus → Result TransitionError Run
unfolding run_allowed
transition_run run next =
    if run_allowed run.status next
    then ok (record run { status = next })
    else err (invalid_run run.status next)

-- The `matches!` of `transition_operation`.
unfoldable pub operation_allowed : OperationStatus → OperationStatus → Bool
operation_allowed OperationStatus.planned OperationStatus.authorized = true
operation_allowed OperationStatus.planned OperationStatus.failed = true
operation_allowed OperationStatus.authorized OperationStatus.started = true
operation_allowed OperationStatus.authorized OperationStatus.failed = true
operation_allowed OperationStatus.started OperationStatus.succeeded = true
operation_allowed OperationStatus.started OperationStatus.failed = true
operation_allowed OperationStatus.started OperationStatus.unknown = true
operation_allowed OperationStatus.unknown OperationStatus.succeeded = true
operation_allowed OperationStatus.unknown OperationStatus.failed = true
operation_allowed OperationStatus.unknown OperationStatus.disputed = true
operation_allowed OperationStatus.succeeded OperationStatus.verified = true
operation_allowed OperationStatus.succeeded OperationStatus.disputed = true
operation_allowed OperationStatus.failed OperationStatus.disputed = true
operation_allowed _ _ = false

unfoldable pub transition_operation : Operation → OperationStatus → Result TransitionError Operation
unfolding operation_allowed
transition_operation operation next =
    if operation_allowed operation.status next
    then ok (record operation { status = next })
    else err (invalid_operation operation.status next)
