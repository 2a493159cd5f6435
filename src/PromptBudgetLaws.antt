-- ===== src/PromptBudgetLaws.antt =====
-- What `prepare` keeps and leaves out (src/runtime/prompt_budget.rs).
use hekate.Core.Env.{Env}
use hekate.Core.ModelIo.{
  BudgetReport, ModelIoConfig, PreparationError, PreparedModelRequest, PromptItem, RenderedPrompt,
  RequestPurpose, budget,
}
use hekate.Prelude.{
  ℕ, ◌+◌, ◌≡◌, ◌<◌, inl, inr, refl, sym, ap, ◌∙◌, subst, Bool, true, false, Option, List, [], ◌∷◌,
  ◌++◌, arith, length, Bool-cases,
}
use hekate.Prelude.Results.{Result, ok, err, Result-cases}
use hekate.Prelude.ListLaws.{length-reverse}
use hekate.Prelude.Text.{Text}
use hekate.PromptBudget.{
  check_prepared, checked_context, evidence_for, fits, messages_for, prepare, prepare_loop,
  report_for, request_for, within,
}
use mathlib.Core.List.{reverse, reverse-reverse, reverse-append}

module _ (env : Env) (rendered : RenderedPrompt) (config : ModelIoConfig) (purpose : RequestPurpose)
    (correction : Option Text) where
  abbrev loop : ℕ → List PromptItem → ℕ → Result PreparationError PreparedModelRequest
  loop = prepare_loop env rendered config purpose correction

  abbrev made_of : ℕ → List PromptItem → ℕ → PreparedModelRequest
  made_of = request_for env rendered config purpose correction

  abbrev pub is_within : ℕ → List PromptItem → Bool
  is_within = within env rendered config purpose correction

  -- The loop left out the items `dropped`.
  record Stopped (context : ℕ) (items : List PromptItem) (excluded : ℕ)
      (request : PreparedModelRequest) : Type 0 where
    dropped : List PromptItem
    kept : List PromptItem
    parts : items ≡ dropped ++ kept
    made : request ≡ made_of context (reverse kept) (excluded + length dropped)
    inside : is_within context (reverse kept) ≡ true

  loop-Stopped :
      (context : ℕ) (items : List PromptItem) (excluded : ℕ) (request : PreparedModelRequest)
      → loop context items excluded ≡ ok request
      → Stopped context items excluded request
  unfolding prepare_loop
  loop-Stopped context [] excluded request q = record {
    dropped = [];
    kept = [];
    parts = refl;
    made = ground arith;
    inside = ground arith;
  }
  loop-Stopped context (item ∷ items) excluded request q =
      elim (Bool-cases (is_within context (reverse (item ∷ items)))) [
        | inl fit ↦ record {
          dropped = [];
          kept = item ∷ items;
          parts = refl;
          made = ground (arith, fit);
          inside = fit;
        }
        | inr large ↦
            let s = loop-Stopped context items (excluded + 1) request (ground (arith, large)) in
            record {
              dropped = item ∷ s.dropped;
              kept = s.kept;
              parts = ap (λ l. item ∷ l) s.parts;
              made = s.made ∙ ap (made_of context (reverse s.kept)) (omega arith);
              inside = s.inside;
            }
      ]

  -- What the loop passed over was too large.
  passed_over :
      (context : ℕ) (items : List PromptItem) (excluded : ℕ) (request : PreparedModelRequest)
      (left right : List PromptItem)
      → loop context items excluded ≡ ok request
      → items ≡ left ++ right
      → excluded + length left < request.budget.excluded_items
      → is_within context (reverse right) ≡ false
  unfolding prepare_loop request_for report_for
  passed_over context [] excluded request left right q parts short = ground (arith, q, short)
  passed_over context (item ∷ items) excluded request [] right q parts short =
      elim (Bool-cases (is_within context (reverse (item ∷ items)))) [
        | inl fit ↦ ground (arith, fit)
        | inr large ↦ subst (λ l. is_within context (reverse l) ≡ false) parts large
      ]
  passed_over context (item ∷ items) excluded request (x ∷ left) right q parts short =
      elim (Bool-cases (is_within context (reverse (item ∷ items)))) [
        | inl fit ↦ ground (arith, fit)
        | inr large ↦
            passed_over context items (excluded + 1) request left right (ground (arith, large))
              (ground (arith, parts)) (omega (arith, short))
      ]

  loop_error :
      (context : ℕ) (items : List PromptItem) (excluded : ℕ) (report : BudgetReport)
      (left right : List PromptItem)
      → loop context items excluded ≡ err (budget report)
      → items ≡ left ++ right
      → (report.context_tokens ≡ context)
        × (report.excluded_items ≡ excluded + length items)
        × (is_within context (reverse right) ≡ false)
  unfolding prepare_loop report_for
  loop_error context [] excluded report [] [] q parts = ground (arith, q)
  loop_error context [] excluded report [] (x ∷ right) q parts = ground (arith, parts)
  loop_error context [] excluded report (x ∷ left) right q parts = ground (arith, parts)
  loop_error context (item ∷ items) excluded report [] right q parts =
      elim (Bool-cases (is_within context (reverse (item ∷ items)))) [
        | inl fit ↦ ground (arith, fit)
        | inr large ↦
            let (a, b, _) =
              loop_error context items (excluded + 1) report [] items (ground (arith, large))
                refl in
            (a, omega (arith, b), subst (λ l. is_within context (reverse l) ≡ false) parts large)
      ]
  loop_error context (item ∷ items) excluded report (x ∷ left) right q parts =
      elim (Bool-cases (is_within context (reverse (item ∷ items)))) [
        | inl fit ↦ ground (arith, fit)
        | inr large ↦
            let (a, b, c) =
              loop_error context items (excluded + 1) report left right (ground (arith, large))
                (ground (arith, parts)) in
            (a, omega (arith, b), c)
      ]

  -- A `prepare` that gets past the checks of the configuration runs the loop.
  record Runs (result : Result PreparationError PreparedModelRequest) : Type 0 where
    context : ℕ
    same : loop context (reverse rendered.optional) 0 ≡ result

  prepare-Runs :
      (result : Result PreparationError PreparedModelRequest) (context : ℕ)
      → prepare env rendered config purpose correction ≡ result
      → checked_context env rendered config purpose correction ≡ ok context
      → Runs result
  unfolding prepare
  prepare-Runs result context q c = record { context = context; same = rw (sym q, c) refl }

  -- An error of the checks is one of the configuration.
  not_budget :
      (report : BudgetReport)
      → checked_context env rendered config purpose correction ≡ err (budget report)
      → ⊥
  unfolding checked_context
  not_budget report q = ground arith

  prepared-Runs :
      (request : PreparedModelRequest)
      → prepare env rendered config purpose correction ≡ ok request
      → Runs (ok request)
  unfolding prepare
  prepared-Runs request q =
      elim (Result-cases (checked_context env rendered config purpose correction)) [
        | inl (context, c) ↦ prepare-Runs (ok request) context q c
        | inr (e, c) ↦ ground (arith, c)
      ]

  refused-Runs :
      (report : BudgetReport)
      → prepare env rendered config purpose correction ≡ err (budget report)
      → Runs (err (budget report))
  unfolding prepare
  refused-Runs report q =
      elim (Result-cases (checked_context env rendered config purpose correction)) [
        | inl (context, c) ↦ prepare-Runs (err (budget report)) context q c
        | inr (e, c) ↦ absurd (not_budget report (c ∙ ground (arith, c)))
      ]

  made_passes :
      (context : ℕ) (selected : List PromptItem) (excluded : ℕ)
      → is_within context selected ≡ true
      → check_prepared (made_of context selected excluded) ≡ true
  unfolding check_prepared request_for report_for within fits
  made_passes context selected excluded inside = ground (arith, inside)

  -- The parts of a list in reverse.
  reversed_parts :
      (items more less : List PromptItem)
      → items ≡ more ++ less
      → reverse items ≡ reverse less ++ reverse more
  reversed_parts items more less parts = ap reverse parts ∙ reverse-append more less

  -- Every request that `prepare` makes passes the gate of the transport.
  pub prepare-check_prepared :
      (request : PreparedModelRequest)
      → prepare env rendered config purpose correction ≡ ok request
      → check_prepared request ≡ true
  prepare-check_prepared request q =
      let r = prepared-Runs request q in
      let s = loop-Stopped r.context (reverse rendered.optional) 0 request r.same in
      subst (λ x. check_prepared x ≡ true) (sym s.made) (made_passes _ _ _ s.inside)

  -- A prepared request holds a prefix of the optional items, reports how many it left out, and takes its
  -- messages and its evidence from that prefix.
  pub prepare_keeps_prefix :
      (request : PreparedModelRequest)
      → prepare env rendered config purpose correction ≡ ok request
      → (kept : List PromptItem) × (dropped : List PromptItem) × (rendered.optional
          ≡ kept ++ dropped)
        × (request.budget.excluded_items ≡ length dropped)
        × (request.messages ≡ messages_for env rendered config purpose correction kept)
        × (request.evidence_ids ≡ evidence_for env rendered config purpose correction kept)
  unfolding request_for report_for
  prepare_keeps_prefix request q =
      let r = prepared-Runs request q in
      let s = loop-Stopped r.context (reverse rendered.optional) 0 request r.same in
      (
        reverse s.kept,
        reverse s.dropped,
        sym (reverse-reverse rendered.optional) ∙ reversed_parts _ s.dropped s.kept s.parts,
        ap (λ (x : PreparedModelRequest). x.budget.excluded_items) s.made
            ∙ omega (arith, length-reverse s.dropped),
        ap (λ (x : PreparedModelRequest). x.messages) s.made,
        ap (λ (x : PreparedModelRequest). x.evidence_ids) s.made,
      )

  -- A prepared request leaves out as little as it can: a longer prefix of the optional items does not fit
  -- the budget.
  pub prepare_keeps_most :
      (request : PreparedModelRequest) (more less : List PromptItem)
      → prepare env rendered config purpose correction ≡ ok request
      → rendered.optional ≡ more ++ less
      → length less < request.budget.excluded_items
      → is_within request.budget.context_tokens more ≡ false
  unfolding request_for report_for
  prepare_keeps_most request more less q parts short =
      let r = prepared-Runs request q in
      let s = loop-Stopped r.context (reverse rendered.optional) 0 request r.same in
      let large =
        passed_over r.context (reverse rendered.optional) 0 request (reverse less) (reverse more)
          r.same (reversed_parts rendered.optional more less parts)
          (omega (arith, short, length-reverse less)) in
      subst (λ c. is_within c more ≡ false)
        (sym (ap (λ (x : PreparedModelRequest). x.budget.context_tokens) s.made))
        (subst (λ l. is_within r.context l ≡ false) (reverse-reverse more) large)

  -- A budget error means that no prefix of the optional items fits, not even the empty one, and it
  -- reports all of them as left out.
  pub prepare_budget_error :
      (report : BudgetReport) (more less : List PromptItem)
      → prepare env rendered config purpose correction ≡ err (budget report)
      → rendered.optional ≡ more ++ less
      → (report.excluded_items ≡ length rendered.optional)
        × (is_within report.context_tokens more ≡ false)
  prepare_budget_error report more less q parts =
      let r = refused-Runs report q in
      let (context, counted, large) =
        loop_error r.context (reverse rendered.optional) 0 report (reverse less) (reverse more)
          r.same (reversed_parts rendered.optional more less parts) in
      (
        omega (arith, counted, length-reverse rendered.optional),
        subst (λ c. is_within c more ≡ false) (sym context)
            (subst (λ l. is_within r.context l ≡ false) (reverse-reverse more) large),
      )
