-- ===== src/SleepBatch.antt =====
-- `plan_new` (src/runtime/sleep_batch.rs). The closures `build` and `check` are functions.
pub mod Laws
use hekate.Core.ModelIo.{BudgetReport, PreparationError, budget, configuration}
use hekate.Core.Sleep.{ContextBudgetReport}
use hekate.Core.SleepContexts.{SleepContext}
use hekate.Prelude.{ℕ, zero, suc, ◌+◌, ◌-◌, Option, none, some, String, nat_eq, if◌then◌else◌}
use hekate.Prelude.Results.{Result, ok, err, ◌>>=◌, ◌>>◌, map_err, reject_if}

pub record SleepBatchPlan : Type 0 where
  pub context : SleepContext
  pub context_budget : ContextBudgetReport

pub data SleepBatchError : Type 0 where
  context_build : String → SleepBatchError
  model_configuration : String → SleepBatchPlan → SleepBatchError
  anchors_exceed : SleepBatchPlan → SleepBatchError
  observation_exceeds : SleepBatchPlan → SleepBatchError
  no_candidates : SleepBatchError

-- `plan.context_budget.model_budget = Some(report)`
abbrev pub with_budget : SleepBatchPlan → BudgetReport → SleepBatchPlan
with_budget plan report = record plan {
  context_budget = record (plan.context_budget) { model_budget = some report };
}

-- The last line.
abbrev pub seed_failure : Option SleepBatchPlan → SleepBatchError
seed_failure none = no_candidates
seed_failure (some plan) = observation_exceeds plan

module _ (build : ℕ → ℕ → Result String SleepBatchPlan)
    (check : SleepContext → Result PreparationError BudgetReport) where
  -- The match on the report of the anchors alone.
  unfoldable pub check_anchors : SleepBatchPlan → Result SleepBatchError (Unit {0})
  check_anchors anchors = elim (check anchors.context) [
    | ok report ↦ ok tt
    | err (budget report) ↦ err (anchors_exceed (with_budget anchors report))
    | err (configuration message) ↦ err (model_configuration message anchors)
  ]

  -- The loop over the lengths from the given one down to 1, of `total` seeds.
  unfoldable pub try_prefixes :
      ℕ → ℕ → Option SleepBatchPlan → Result SleepBatchError SleepBatchPlan
  try_prefixes total zero failure = err (seed_failure failure)
  try_prefixes total (suc n) failure =
      map_err context_build (build (suc n) (total - suc n)) >>= λ plan. elim (check plan.context) [
        | ok report ↦ ok (with_budget plan report)
        | err (budget report) ↦
            try_prefixes total n
              (if nat_eq (suc n) 1 then some (with_budget plan report) else failure)
        | err (configuration message) ↦ err (model_configuration message plan)
      ]

  unfoldable pub plan_new : ℕ → ℕ → Result SleepBatchError SleepBatchPlan
  plan_new candidate_count deferred_seed_count = do
    reject_if (nat_eq candidate_count 0) no_candidates
    anchors ← map_err context_build (build 0 (candidate_count + deferred_seed_count))
    check_anchors anchors
    try_prefixes (candidate_count + deferred_seed_count) candidate_count none
