-- ===== src/TransitionLaws.antt =====
-- What sequences of status transitions can do (src/core/transition.rs).
use hekate.Core.Actions.{Operation, OperationStatus}
use hekate.Core.Work.{Run, RunStatus}
use hekate.Prelude.{
  ℕ, ◌+◌, ◌≤◌, ◌<◌, ◌≡◌, refl, ap, Bool, true, false, List, [], ◌∷◌, arith, length,
}
use hekate.Prelude.Results.{ok, err, try_fold, >>=-eq-ok, ok-injective}
use hekate.Transition.{transition_operation, transition_run}

-- How far an operation has come.
abbrev pub rank : OperationStatus → ℕ
rank OperationStatus.planned = 0
rank OperationStatus.authorized = 1
rank OperationStatus.started = 2
rank OperationStatus.unknown = 3
rank OperationStatus.succeeded = 4
rank OperationStatus.failed = 4
rank OperationStatus.verified = 5
rank OperationStatus.disputed = 5

rank-transition :
    (operation : Operation) (next : OperationStatus) (after : Operation)
    → transition_operation operation next ≡ ok after
    → rank operation.status < rank after.status
unfolding transition_operation
rank-transition operation next after q = ground arith

rank-le : (status : OperationStatus) → rank status ≤ 5
rank-le OperationStatus.planned = omega arith
rank-le _ = omega arith

rank-run :
    (operation : Operation) (nexts : List OperationStatus) (after : Operation)
    → try_fold transition_operation operation nexts ≡ ok after
    → rank operation.status + length nexts ≤ rank after.status
unfolding try_fold
rank-run operation [] after q =
    omega (arith, ap (λ (o : Operation). rank o.status) (ok-injective operation after q))
rank-run operation (next ∷ nexts) after q =
    let (middle, rest, first) =
      >>=-eq-ok (transition_operation operation next) (λ o. try_fold transition_operation o nexts)
        q in
    omega (arith, rank-transition operation next middle first, rank-run middle nexts after rest)

-- An operation makes at most five successful transitions in a row: none leads back.
pub operation_ends :
    (operation : Operation) (nexts : List OperationStatus) (after : Operation)
    → try_fold transition_operation operation nexts ≡ ok after
    → length nexts ≤ 5
operation_ends operation nexts after q =
    omega (arith, rank-run operation nexts after q, rank-le after.status)

-- A run that is over.
abbrev pub is_final : RunStatus → Bool
is_final RunStatus.completed = true
is_final RunStatus.failed = true
is_final RunStatus.cancelled = true
is_final _ = false

-- Tries each transition in turn and keeps the run where one is refused.
unfoldable pub try_each : Run → List RunStatus → Run
try_each run [] = run
try_each run (next ∷ nexts) =
    try_each (elim (transition_run run next) [ ok after ↦ after | err e ↦ run ]) nexts

transition_final :
    (run : Run) (next : RunStatus)
    → is_final run.status ≡ true
    → (let after : Run = elim (transition_run run next) [ ok after ↦ after | err e ↦ run ] in after)
      ≡ run
unfolding transition_run
transition_final run next h = ground arith

-- Whatever transitions are tried, a run that is completed, failed or cancelled stays as it is.
pub final_run_stays :
    (run : Run) (nexts : List RunStatus) → is_final run.status ≡ true → try_each run nexts ≡ run
unfolding try_each
final_run_stays run [] h = refl
final_run_stays run (next ∷ nexts) h =
    rw (transition_final run next h) (final_run_stays run nexts h)
