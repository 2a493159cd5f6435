-- ===== src/Core/Work.antt =====
-- Goals, tasks, runs, attempts, working states and the focus (src/core/model.rs).
use hekate.Core.Ids.{AttemptId, GoalId, ObservationId, PrincipalId, RunId, TaskId, WorkingStateId}
use hekate.Prelude.{Eq, List, Option, eq_of_discrete, ℕ}
use hekate.Prelude.Text.{Text}
use native.Mathlib.Decide.{ℕ_discrete}

pub data GoalStatus : Type 0 where
  active paused completed abandoned : GoalStatus

unfoldable pub GoalStatus-discrete : Discrete GoalStatus
GoalStatus-discrete = hlevel

instance unfoldable pub goal_status_eq : Eq GoalStatus
unfolding GoalStatus-discrete
goal_status_eq = eq_of_discrete GoalStatus-discrete

pub record Goal : Type 0 where
  pub id : GoalId
  pub owner_principal_id : PrincipalId
  pub participants : List PrincipalId
  pub title : Text
  pub description : Text
  pub status : GoalStatus
  pub created_at : Text

pub data TaskStatus : Type 0 where
  planned in_progress blocked completed cancelled : TaskStatus

unfoldable pub TaskStatus-discrete : Discrete TaskStatus
TaskStatus-discrete = hlevel

instance unfoldable pub task_status_eq : Eq TaskStatus
unfolding TaskStatus-discrete
task_status_eq = eq_of_discrete TaskStatus-discrete

pub record Task : Type 0 where
  pub id : TaskId
  pub goal_id : Option GoalId
  pub title : Text
  pub status : TaskStatus
  pub created_at : Text

unfoldable pub Task-discrete : Discrete Task
unfolding ℕ_discrete TaskStatus-discrete
Task-discrete = hlevel (ℕ_discrete, TaskStatus-discrete)

instance unfoldable pub task_eq : Eq Task
unfolding Task-discrete
task_eq = eq_of_discrete Task-discrete

pub data RunStatus : Type 0 where
  pending running suspended completed failed cancelled needs_attention : RunStatus

unfoldable pub RunStatus-discrete : Discrete RunStatus
RunStatus-discrete = hlevel

instance unfoldable pub run_status_eq : Eq RunStatus
unfolding RunStatus-discrete
run_status_eq = eq_of_discrete RunStatus-discrete

pub record Run : Type 0 where
  pub id : RunId
  pub task_id : Option TaskId
  pub status : RunStatus
  pub started_at : Text
  pub completed_at : Option Text

pub data AttemptStatus : Type 0 where
  started succeeded failed unknown : AttemptStatus

pub record Attempt : Type 0 where
  pub id : AttemptId
  pub run_id : RunId
  pub status : AttemptStatus
  pub started_at : Text
  pub finished_at : Option Text

pub record WorkingState : Type 0 where
  pub id : WorkingStateId
  pub run_id : RunId
  pub revision : ℕ
  pub completed_observations : List ObservationId
  pub notes : List Text
  pub next_action : Option Text

pub record Focus : Type 0 where
  pub goal_id : Option GoalId
  pub task_id : Option TaskId
  pub run_id : Option RunId
