-- ===== src/Examples/Prompts.antt =====
-- Prompts with three optional items (src/runtime/prompt_budget.rs).

use hekate.Core.ModelIo.{
  BudgetReport, ModelIoConfig, PreparedModelRequest, PromptItem, RenderedPrompt, RequestPurpose,
  TransportKind, budget,
}
use hekate.Examples.World.{executable, no_payloads}
use hekate.Prelude.{arith, ℕ, ◌≡◌, refl, true, false, none, some, List, [], ◌∷◌, ◌++◌, length}
use hekate.Prelude.Results.{ok, err}
use hekate.Prelude.Text.{codes}
use hekate.PromptBudget.{
  check_prepared, evidence_for, messages_for, prepare, report_for, request_for,
}
use hekate.PromptBudgetLaws.{
  is_within, prepare-check_prepared, prepare_budget_error, prepare_keeps_most, prepare_keeps_prefix,
}

abbrev item : ℕ → PromptItem
item id = record {
  value = codes "an observation of some forty characters.";
  evidence_ids = id ∷ [];
}

abbrev first_items : List PromptItem
first_items = item 3 ∷ []

abbrev later_items : List PromptItem
later_items = item 1 ∷ item 2 ∷ []

abbrev rendered : RenderedPrompt
rendered = record {
  system = codes "s";
  required = record { value = codes "q"; evidence_ids = 3 ∷ [] };
  optional = first_items ++ later_items;
  position_ids = [];
  conflict_ids = [];
  revision = 4;
  hash = codes "ab";
}

abbrev config : ℕ → ModelIoConfig
config context = record {
  transport = TransportKind.ollama;
  context_tokens = some context;
  foreground_max_tokens = 20;
  sleep_max_tokens = 20;
  safety_margin = 10;
  foreground_reasoning_effort = [];
  sleep_reasoning_effort = [];
  foreground_think = none;
  sleep_think = none;
}

-- One item fits, two do not.
abbrev request : PreparedModelRequest
request =
    request_for no_payloads rendered (config 300) RequestPurpose.foreground none 300 first_items 2

-- Nothing fits.
abbrev report : BudgetReport
report = report_for no_payloads rendered (config 200) RequestPurpose.foreground none 200 [] 3

prepared : prepare no_payloads rendered (config 300) RequestPurpose.foreground none ≡ ok request
unfolding executable
prepared = refl

refused :
    prepare no_payloads rendered (config 200) RequestPurpose.foreground none ≡ err (budget report)
unfolding executable
refused = refl

prepare-check_prepared_example : check_prepared request ≡ true
prepare-check_prepared_example =
    prepare-check_prepared no_payloads rendered (config 300) RequestPurpose.foreground none request
      prepared

prepare_keeps_prefix_example :
    (kept : List PromptItem) × (dropped : List PromptItem) × (rendered.optional ≡ kept ++ dropped)
    × (request.budget.excluded_items ≡ length dropped)
    × (request.messages
        ≡ messages_for no_payloads rendered (config 300) RequestPurpose.foreground none kept)
    × (request.evidence_ids
        ≡ evidence_for no_payloads rendered (config 300) RequestPurpose.foreground none kept)
prepare_keeps_prefix_example =
    prepare_keeps_prefix no_payloads rendered (config 300) RequestPurpose.foreground none request
      prepared

prepare_keeps_most_example :
    is_within no_payloads rendered
      (config 300)
      RequestPurpose.foreground
      none
      300
      (item 3 ∷ item 1 ∷ [])
    ≡ false
unfolding executable
prepare_keeps_most_example =
    prepare_keeps_most no_payloads rendered (config 300) RequestPurpose.foreground none request
      (item 3 ∷ item 1 ∷ []) (item 2 ∷ []) prepared refl (omega arith)

prepare_budget_error_example :
    (report.excluded_items ≡ length rendered.optional)
    × (is_within no_payloads rendered
          (config 200)
          RequestPurpose.foreground
          none
          report.context_tokens
          first_items
        ≡ false)
prepare_budget_error_example =
    prepare_budget_error no_payloads rendered (config 200) RequestPurpose.foreground none report
      first_items later_items refused refl
