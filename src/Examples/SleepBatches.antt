-- ===== src/Examples/SleepBatches.antt =====
-- A sleep batch of three candidates, of which two fit (src/runtime/sleep_batch.rs).
use hekate.Core.ModelIo.{BudgetReport, PreparationError, budget}
use hekate.Core.SleepContexts.{SleepContext, SleepSeed}
use hekate.Examples.World.{executable}
use hekate.Prelude.{
  ℕ, ◌*◌, ◌≡◌, ◌↔◌, refl, ltb, length, none, List, [], ◌∷◌, if◌then◌else◌, zero, suc, String,
}
use hekate.Prelude.Results.{Result, ok, err}
use hekate.SleepBatch.{SleepBatchPlan, no_candidates, plan_new, with_budget}
use hekate.SleepBatch.Laws.{Planned, plan_new-Planned, plan_new_empty}

abbrev seed : SleepSeed
seed = record {
  event_id = 1;
  sequence = 1;
  observation = record {
    id = 1;
    actor_id = 2;
    content = [];
    source_type = [];
    source_ref = none;
    thread_id = none;
    message_id = none;
    received_at = [];
  };
}

abbrev seeds : ℕ → List SleepSeed
seeds zero = []
seeds (suc n) = seed ∷ seeds n

abbrev context : ℕ → SleepContext
context n = record {
  sleep_run_id = 1;
  high_water_revision = 9;
  seed_observations = seeds n;
  recalled_experiences = [];
  identity = none;
  active_positions = [];
  active_conflicts = [];
  relationship = none;
  snapshot_hash = [];
}

abbrev plan : ℕ → SleepBatchPlan
plan n = record {
  context = context n;
  context_budget = record {
    anchor_bytes = 0;
    seed_bytes = 100 * n;
    recalled_bytes = 0;
    total_bytes = 100 * n;
    included_seed_count = n;
    deferred_seed_count = 0;
    included_recall_count = 0;
    dropped_recall_count = 0;
    hard_limit_bytes = 250;
    model_budget = none;
  };
}

abbrev report : BudgetReport
report = record {
  context_tokens = 250;
  context_source = [];
  estimated_input_tokens = 0;
  estimation_method = [];
  reserved_output_tokens = 0;
  safety_margin = 0;
  excluded_items = 0;
}

abbrev build : ℕ → ℕ → Result String SleepBatchPlan
build n deferred = ok (plan n)

-- Up to two seeds fit.
abbrev check : SleepContext → Result PreparationError BudgetReport
check context = if ltb (length context.seed_observations) 3 then ok report else err (budget report)

planned : plan_new build check 3 0 ≡ ok (with_budget (plan 2) report)
unfolding executable
planned = refl

plan_new-Planned_example : Planned build check 3 3 (with_budget (plan 2) report)
plan_new-Planned_example = plan_new-Planned build check 3 0 (with_budget (plan 2) report) planned

plan_new_empty_example : (plan_new build check 0 2 ≡ err no_candidates) ↔ (◌≡◌ {A = ℕ} 0 0)
plan_new_empty_example = plan_new_empty build check 0 2
