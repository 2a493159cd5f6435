-- ===== src/Core/Continuity.antt =====
-- Focus resolutions (src/core/continuity.rs).
use hekate.Core.Ids.{EventId, GoalId, ObservationId, RunId, TaskId}
use hekate.Core.Work.{Focus, TaskStatus}
use hekate.Prelude.{Eq, List, Option, eq_of_discrete, ℕ}
use hekate.Prelude.Text.{Text}

pub data FocusOutcome : Type 0 where
  continue new_work conversation clarification : FocusOutcome

unfoldable pub FocusOutcome-discrete : Discrete FocusOutcome
FocusOutcome-discrete = hlevel

instance unfoldable pub focus_outcome_eq : Eq FocusOutcome
unfolding FocusOutcome-discrete
focus_outcome_eq = eq_of_discrete FocusOutcome-discrete

pub data FocusBasis : Type 0 where
  explicit_new_work explicit_task explicit_goal explicit_run explicit_continuation
        same_thread_continuation strong_text_match general_conversation ambiguous_candidates
        closed_work_reference invalid_reference :
      FocusBasis

pub record FocusCandidate : Type 0 where
  pub goal_id : GoalId
  pub goal_title : Text
  pub task_id : TaskId
  pub task_title : Text
  pub task_status : TaskStatus
  pub run_id : Option RunId
  pub evidence_event_ids : List EventId

pub record FocusResolution : Type 0 where
  pub observation_id : ObservationId
  pub outcome : FocusOutcome
  pub focus : Focus
  pub as_of_revision : ℕ
  pub basis : FocusBasis
  pub candidates : List FocusCandidate
  pub clarification : Option Text
