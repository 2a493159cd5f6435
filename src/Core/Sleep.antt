-- ===== src/Core/Sleep.antt =====
-- Sleep runs and the integration candidates that they make (src/core/sleep.rs).
use hekate.Core.Evidence.{VerificationDisposition}
use hekate.Core.Ids.{EventId, IntegrationCandidateId, SleepRunId}
use hekate.Core.ModelIo.{BudgetReport}
use hekate.Prelude.{Eq, List, Option, eq_of_discrete, ℕ}
use hekate.Prelude.Text.{Text}

pub data SleepRunStatus : Type 0 where
  running completed interrupted failed : SleepRunStatus

unfoldable pub SleepRunStatus-discrete : Discrete SleepRunStatus
SleepRunStatus-discrete = hlevel

instance unfoldable pub sleep_run_status_eq : Eq SleepRunStatus
unfolding SleepRunStatus-discrete
sleep_run_status_eq = eq_of_discrete SleepRunStatus-discrete

pub record ContextBudgetReport : Type 0 where
  pub anchor_bytes : ℕ
  pub seed_bytes : ℕ
  pub recalled_bytes : ℕ
  pub total_bytes : ℕ
  pub included_seed_count : ℕ
  pub deferred_seed_count : ℕ
  pub included_recall_count : ℕ
  pub dropped_recall_count : ℕ
  pub hard_limit_bytes : ℕ
  pub model_budget : Option BudgetReport

pub record SleepRun : Type 0 where
  pub id : SleepRunId
  pub status : SleepRunStatus
  pub high_water_revision : ℕ
  pub cursor_before : ℕ
  pub cursor_after : Option ℕ
  pub seed_event_ids : List EventId
  pub processed_observation_count : ℕ
  pub created_candidate_count : ℕ
  pub started_at : Text
  pub finished_at : Option Text
  pub error_kind : Option Text
  pub context_budget_report : Option ContextBudgetReport

pub data IntegrationCandidateKind : Type 0 where
  memory memory_revision position conflict relationship identity goal association :
      IntegrationCandidateKind

unfoldable pub IntegrationCandidateKind-discrete : Discrete IntegrationCandidateKind
IntegrationCandidateKind-discrete = hlevel

instance unfoldable pub integration_candidate_kind_eq : Eq IntegrationCandidateKind
unfolding IntegrationCandidateKind-discrete
integration_candidate_kind_eq = eq_of_discrete IntegrationCandidateKind-discrete

pub record IntegrationCandidate : Type 0 where
  pub id : IntegrationCandidateId
  pub sleep_run_id : SleepRunId
  pub kind : IntegrationCandidateKind
  pub disposition : VerificationDisposition
  pub as_of_revision : ℕ
  pub content : Text
  pub rationale : Text
  pub source_event_ids : List EventId
  pub counterevidence_event_ids : List EventId
  pub confidence : ℕ
  pub fingerprint : Text
  pub created_at : Text
