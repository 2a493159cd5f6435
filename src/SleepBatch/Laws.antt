-- ===== src/SleepBatch/Laws.antt =====
-- Which prefix `plan_new` takes (src/runtime/sleep_batch.rs).
use hekate.Core.ModelIo.{BudgetReport, PreparationError, budget, configuration}
use hekate.Core.SleepContexts.{SleepContext}
use hekate.Prelude.{
  ◌↔◌, ◌+◌, none, inl, inr, ℕ, zero, suc, ◌-◌, ◌≡◌, ◌≤◌, refl, Bool, true, false, ◌&&◌, Option,
  some, String, nat_eq, ltb, if◌then◌else◌, arith,
}
use hekate.Prelude.Results.{Result, ok, err, Result-cases}
use hekate.SleepBatch.{
  SleepBatchPlan, try_prefixes, plan_new, check_anchors, no_candidates, with_budget,
}

module _ (build : ℕ → ℕ → Result String SleepBatchPlan)
    (check : SleepContext → Result PreparationError BudgetReport) where
  -- The plan of this length was built and exceeds the budget.
  unfoldable pub exceeds : ℕ → ℕ → Bool
  exceeds total n = elim (build n (total - n)) [
    | err message ↦ false
    | ok plan ↦ elim (check plan.context) [
      | err (budget report) ↦ true
      | err (configuration message) ↦ false
      | ok report ↦ false
    ]
  ]

  -- Every length above `n`, up to this one, exceeds the budget.
  unfoldable pub exceed_above : ℕ → ℕ → ℕ → Bool
  exceed_above total n zero = true
  exceed_above total n (suc m) =
      let below = exceed_above total n m in
      if ltb n (suc m) then exceeds total (suc m) && below else true

  -- The plan that was taken.
  pub record Planned (total count : ℕ) (plan : SleepBatchPlan) : Type 0 where
    pub length : ℕ
    pub positive : 1 ≤ length
    pub bounded : length ≤ count
    pub built : SleepBatchPlan
    pub report : BudgetReport
    pub build_eq : build length (total - length) ≡ ok built
    pub check_eq : check built.context ≡ ok report
    pub plan_eq : plan ≡ with_budget built report
    pub longest : exceed_above total length count ≡ true

  exceed_above_low : (total n m : ℕ) → m ≤ n → exceed_above total n m ≡ true
  unfolding exceed_above
  exceed_above_low total n zero h = refl
  exceed_above_low total n (suc m) h = ground (arith, exceed_above_low total n m)

  -- The length that fits is taken.
  taken :
      (total n : ℕ) (failure : Option SleepBatchPlan) (plan built : SleepBatchPlan)
      (report : BudgetReport)
      → try_prefixes build check total (suc n) failure ≡ ok plan
      → build (suc n) (total - suc n) ≡ ok built
      → check built.context ≡ ok report
      → Planned total (suc n) plan
  unfolding try_prefixes
  taken total n failure plan built report q b c = record {
    length = suc n;
    positive = omega arith;
    bounded = omega arith;
    built = built;
    report = report;
    build_eq = b;
    check_eq = c;
    plan_eq = ground (arith, q, b, c);
    longest = exceed_above_low total (suc n) (suc n) (omega arith);
  }

  -- A length that exceeds the budget leaves the plan to a shorter one.
  passed :
      (total n : ℕ) (plan built : SleepBatchPlan) (report : BudgetReport)
      → build (suc n) (total - suc n) ≡ ok built
      → check built.context ≡ err (budget report)
      → Planned total n plan
      → Planned total (suc n) plan
  unfolding exceed_above exceeds
  passed total n plan built report b c p = record {
    length = p.length;
    positive = p.positive;
    bounded = omega (arith, p.bounded);
    built = p.built;
    report = p.report;
    build_eq = p.build_eq;
    check_eq = p.check_eq;
    plan_eq = p.plan_eq;
    longest = ground (arith, p.longest, b, c);
  }

  try_prefixes-Planned :
      (total count : ℕ) (failure : Option SleepBatchPlan) (plan : SleepBatchPlan)
      → try_prefixes build check total count failure ≡ ok plan
      → Planned total count plan
  unfolding try_prefixes
  try_prefixes-Planned total zero failure plan q = cc
  try_prefixes-Planned total (suc n) failure plan q =
      elim (Result-cases (build (suc n) (total - suc n))) [
        | inr (message, b) ↦ ground (arith, q, b)
        | inl (built, b) ↦ elim (Result-cases (check built.context)) [
          | inl (report, c) ↦ taken total n failure plan built report q b c
          | inr (budget report, c) ↦
              passed total n plan built report b c
                (try_prefixes-Planned total n _ plan (rest built report b c))
          | inr (configuration message, c) ↦ ground (arith, q, b, c)
        ]
      ]
    where
      rest :
          (built : SleepBatchPlan) (report : BudgetReport)
          → build (suc n) (total - suc n) ≡ ok built
          → check built.context ≡ err (budget report)
          → try_prefixes build check total n
              (if nat_eq (suc n) 1 then some (with_budget built report) else failure)
            ≡ ok plan
      rest built report b c = ground (arith, q, b, c)

  check_anchors_error :
      (anchors : SleepBatchPlan) → check_anchors build check anchors ≡ err no_candidates → ⊥
  unfolding check_anchors
  check_anchors_error anchors q = ground (arith, q)

  -- The loop fails for want of candidates only if it has no length to try.
  try_prefixes_error :
      (total count : ℕ) (failure : Option SleepBatchPlan)
      → try_prefixes build check total count failure ≡ err no_candidates
      → count ≡ 0
  unfolding try_prefixes
  try_prefixes_error total zero failure q = refl
  try_prefixes_error total (suc zero) failure q = ground (arith, q)
  try_prefixes_error total (suc (suc n)) failure q =
      elim (Result-cases (build (suc (suc n)) (total - suc (suc n)))) [
        | inr (message, b) ↦ ground (arith, q, b)
        | inl (built, b) ↦ elim (Result-cases (check built.context)) [
          | inl (report, c) ↦ ground (arith, q, b, c)
          | inr (budget report, c) ↦
              omega (arith, try_prefixes_error total (suc n) _ (rest built report b c))
          | inr (configuration message, c) ↦ ground (arith, q, b, c)
        ]
      ]
    where
      rest :
          (built : SleepBatchPlan) (report : BudgetReport)
          → build (suc (suc n)) (total - suc (suc n)) ≡ ok built
          → check built.context ≡ err (budget report)
          → try_prefixes build check total
              (suc n)
              (if nat_eq (suc (suc n)) 1 then some (with_budget built report) else failure)
            ≡ err no_candidates
      rest built report b c = ground (arith, q, b, c)

  -- A plan holds the longest prefix of the candidates that fits: some length from 1 to the number of
  -- candidates was built and checked within the budget, the plan is that one with its report, and every
  -- greater length was built and exceeds the budget.
  pub plan_new-Planned :
      (candidate_count deferred_seed_count : ℕ) (plan : SleepBatchPlan)
      → plan_new build check candidate_count deferred_seed_count ≡ ok plan
      → Planned (candidate_count + deferred_seed_count) candidate_count plan
  unfolding plan_new
  plan_new-Planned candidate_count deferred_seed_count plan q =
      try_prefixes-Planned (candidate_count + deferred_seed_count) candidate_count none plan
        (ground (arith, q))

  -- Planning reports that there are no candidates exactly if there are none.
  pub plan_new_empty :
      (candidate_count deferred_seed_count : ℕ)
      → (plan_new build check candidate_count deferred_seed_count ≡ err no_candidates)
        ↔ (candidate_count ≡ 0)
  unfolding plan_new
  plan_new_empty candidate_count deferred_seed_count = (only_empty, λ e. ground (arith, e))
    where
      only_empty :
          plan_new build check candidate_count deferred_seed_count ≡ err no_candidates
          → candidate_count ≡ 0
      only_empty q = elim (Result-cases (build 0 (candidate_count + deferred_seed_count))) [
        | inr (message, b) ↦ ground (arith, q, b)
        | inl (anchors, b) ↦ ground (
          arith,
          q,
          b,
          check_anchors_error anchors,
          try_prefixes_error (candidate_count + deferred_seed_count) candidate_count none,
        )
      ]
