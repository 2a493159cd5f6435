-- ===== src/PromptBudget.antt =====
-- The byte budget of a model request (src/runtime/prompt_budget.rs). The numbers of the configuration are
-- below 2 ^ 32, so their sums do not wrap.
use hekate.Core.Env.{Env}
use hekate.Core.Ids.{EventId}
use hekate.Core.ModelIo.{
  BudgetReport, ModelIoConfig, ModelMessage, PreparationError, PreparedModelRequest, PromptItem,
  RenderedPrompt, RequestPurpose, Think, budget, configuration,
}
use hekate.Prelude.{
  ℕ, ◌+◌, Bool, ◌||◌, ◌&&◌, Option, none, some, List, [], ◌∷◌, ◌++◌, map, ltb, leb, nat_eq,
  if◌then◌else◌,
}
use hekate.Prelude.Results.{Result, ok, err, ◌>>=◌, ◌>>◌, ok_or, reject_if}
use hekate.Prelude.Sort.{dedup_by, sort}
use hekate.Prelude.Text.{Text, codes, len}
use hekate.Prelude.Words.{saturating_add}
use mathlib.Core.List.{reverse}

-- The items of the sum in `estimate`.
unfoldable pub message_size : ModelMessage → ℕ
message_size message = saturating_add (saturating_add (len message.role) (len message.content)) 32

unfoldable pub fold_saturating : ℕ → List ModelMessage → ℕ
unfolding message_size
fold_saturating total [] = total
fold_saturating total (m ∷ messages) =
    fold_saturating (saturating_add total (message_size m)) messages

unfoldable pub estimate : List ModelMessage → ℕ
unfolding fold_saturating
estimate messages = saturating_add 128 (fold_saturating 0 messages)

-- The test of the loop, which is also that of `check_prepared`.
unfoldable pub fits : ℕ → BudgetReport → Bool
fits estimated b =
    leb (saturating_add (saturating_add estimated b.reserved_output_tokens) b.safety_margin)
      b.context_tokens

-- `config.context_tokens.filter(|v| *v > 0)`
unfoldable pub context_limit : ModelIoConfig → Option ℕ
context_limit config = elim config.context_tokens [
  | none ↦ none
  | some limit ↦ if ltb 0 limit then some limit else none
]

abbrev pub output_tokens : ModelIoConfig → RequestPurpose → ℕ
output_tokens config RequestPurpose.foreground = config.foreground_max_tokens
output_tokens config RequestPurpose.sleep = config.sleep_max_tokens

abbrev pub reasoning_effort : ModelIoConfig → RequestPurpose → Text
reasoning_effort config RequestPurpose.foreground = config.foreground_reasoning_effort
reasoning_effort config RequestPurpose.sleep = config.sleep_reasoning_effort

abbrev pub think : ModelIoConfig → RequestPurpose → Option Think
think config RequestPurpose.foreground = config.foreground_think
think config RequestPurpose.sleep = config.sleep_think

unfoldable pub gather_evidence : List EventId → List PromptItem → List EventId
gather_evidence ids [] = ids
gather_evidence ids (item ∷ items) = gather_evidence (ids ++ item.evidence_ids) items

module _ (env : Env) (rendered : RenderedPrompt) (config : ModelIoConfig) (purpose : RequestPurpose)
    (correction : Option Text) where
  unfoldable pub evidence_for : List PromptItem → List EventId
  evidence_for selected =
      dedup_by nat_eq (sort leb (gather_evidence rendered.required.evidence_ids selected))

  unfoldable pub messages_for : List PromptItem → List ModelMessage
  messages_for selected =
      record { role = codes "system"; content = rendered.system }
      ∷ record {
        role = codes "user";
        content =
            env.user_json rendered.required.value (map (λ v. PromptItem.value v) selected)
              (evidence_for selected);
      }
      ∷ elim correction [
        | none ↦ []
        | some text ↦ record { role = codes "system"; content = text } ∷ []
      ]

  unfoldable pub report_for : ℕ → List PromptItem → ℕ → BudgetReport
  report_for context selected excluded = record {
    context_tokens = context;
    context_source = codes "configured";
    estimated_input_tokens = estimate (messages_for selected);
    estimation_method = codes "estimated_utf8_bytes_plus_template_v1";
    reserved_output_tokens = output_tokens config purpose;
    safety_margin = config.safety_margin;
    excluded_items = excluded;
  }

  -- One turn of the loop, if its report is within the budget.
  unfoldable pub request_for : ℕ → List PromptItem → ℕ → PreparedModelRequest
  request_for context selected excluded = record {
    messages = messages_for selected;
    purpose = purpose;
    budget = report_for context selected excluded;
    evidence_ids = evidence_for selected;
    position_ids = rendered.position_ids;
    conflict_ids = rendered.conflict_ids;
    context_revision = rendered.revision;
    context_hash = rendered.hash;
    reasoning_effort = reasoning_effort config purpose;
    think = think config purpose;
  }

  unfoldable pub within : ℕ → List PromptItem → Bool
  within context selected = fits (estimate (messages_for selected)) (report_for context selected 0)

  -- The loop, on the selected items in reverse, so that `pop` takes the first.
  unfoldable pub prepare_loop :
      ℕ → List PromptItem → ℕ → Result PreparationError PreparedModelRequest
  prepare_loop context [] excluded =
      if within context []
      then ok (request_for context [] excluded)
      else err (budget (report_for context [] excluded))
  prepare_loop context (last ∷ others) excluded =
      let selected = reverse (last ∷ others) in
      let without_last = prepare_loop context others (excluded + 1) in
      if within context selected then ok (request_for context selected excluded) else without_last

  -- The two checks of the configuration.
  unfoldable pub checked_context : Result PreparationError ℕ
  checked_context = do
    context ← ok_or (context_limit config) (
        configuration
          "set model_io.context_tokens or HEKATE_MODEL_CONTEXT_TOKENS to the deployment context limit before generation")
    reject_if
        (nat_eq (output_tokens config purpose) 0
          || leb context (output_tokens config purpose + config.safety_margin))
        (configuration
          "generation reservation plus safety margin must be smaller than context_tokens; generation reservation must be positive")
    ok context

  unfoldable pub prepare : Result PreparationError PreparedModelRequest
  prepare = do context ← checked_context; prepare_loop context (reverse rendered.optional) 0

-- The gate of the transport.
unfoldable pub check_prepared : PreparedModelRequest → Bool
check_prepared request =
    nat_eq (estimate request.messages) request.budget.estimated_input_tokens
    && fits (estimate request.messages) request.budget
