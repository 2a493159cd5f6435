-- ===== src/Completion/Readiness.antt =====
-- When the gate of a task is ready, in terms of the stored values (src/runtime/completion.rs).
use hekate.Completion.{CompletionError, ready}
use hekate.Completion.Checks.{ensure_task}
use hekate.Completion.Gate.{
  pending_status, unsettled_status, LatestClaims, evaluate_task_completion_in, is_pending,
  is_unsettled, latest_claims,
}
use hekate.Completion.GateLaws.{IsSettled, IsThrough, gate-IsThrough}
use hekate.Core.Actions.{Approval, ApprovalStatus, Operation, OperationStatus}
use hekate.Core.Env.{Env}
use hekate.Core.Events.{ExperienceEvent}
use hekate.Core.Evidence.{CompletionCriterion}
use hekate.Core.Ids.{CompletionClaimId, TaskId}
use hekate.Core.State.{CurrentState}
use hekate.Prelude.{◌≡◌, ◌≢◌, ◌↔◌, refl, subst, true, false, List, [], arith, ℕ_eq}
use hekate.Prelude.BTreeMap.{values}
use hekate.Prelude.ListLaws.{filter-member, filter-none, member-filter}
use hekate.Prelude.Results.{ok}
use hekate.Prelude.Text.{Text}
use mathlib.Core.List.{Memᴰ}

not_pending :
    (status : ApprovalStatus) → status ≢ ApprovalStatus.pending → pending_status status ≡ false
not_pending ApprovalStatus.pending h = absurd (h refl)
not_pending ApprovalStatus.approved h = refl
not_pending ApprovalStatus.denied h = refl
not_pending ApprovalStatus.expired h = refl

not_unsettled :
    (status : OperationStatus)
    → status ≢ OperationStatus.started
    → status ≢ OperationStatus.unknown
    → unsettled_status status ≡ false
not_unsettled OperationStatus.started h k = absurd (h refl)
not_unsettled OperationStatus.unknown h k = absurd (k refl)
not_unsettled OperationStatus.planned h k = refl
not_unsettled OperationStatus.authorized h k = refl
not_unsettled OperationStatus.succeeded h k = refl
not_unsettled OperationStatus.failed h k = refl
not_unsettled OperationStatus.verified h k = refl
not_unsettled OperationStatus.disputed h k = refl

module _ (env : Env) (error_text : CompletionError → Text) (state : CurrentState)
    (events : List ExperienceEvent) where
  -- Every stored criterion of the task that is required is settled, no stored approval is pending, and no
  -- stored operation is started or unknown.
  pub record IsReady (latest : LatestClaims) (task_id : TaskId) : Type 0 where
    pub settled :
        (criterion : CompletionCriterion)
        → Memᴰ criterion (values state.completion_criteria)
        → criterion.task_id ≡ task_id
        → criterion.required ≡ true
        → IsSettled env error_text state events latest criterion
    pub approvals :
        (approval : Approval)
        → Memᴰ approval (values state.approvals)
        → approval.status ≢ ApprovalStatus.pending
    pub operations :
        (operation : Operation)
        → Memᴰ operation (values state.operations)
        → (operation.status ≢ OperationStatus.started)
          × (operation.status ≢ OperationStatus.unknown)

  through-IsReady :
      (latest : LatestClaims) (task_id : TaskId)
      → IsThrough env error_text state events latest task_id
      → IsReady latest task_id
  through-IsReady latest task_id t = record {
    settled = λ criterion m same required. t.settled criterion (
        member-filter _ (values state.completion_criteria) criterion m
          (ground (arith, same, required)));
    approvals = λ approval m is. no_member approval (
        subst (Memᴰ approval) t.approvals
          (member-filter is_pending (values state.approvals) approval m (rw is refl)));
    operations = λ operation m. (
      λ is. no_member operation (
          subst (Memᴰ operation) t.operations
            (member-filter is_unsettled (values state.operations) operation m (rw is refl))),
      λ is. no_member operation (
          subst (Memᴰ operation) t.operations
            (member-filter is_unsettled (values state.operations) operation m (rw is refl))),
    );
  }
    where
      no_member : {A : Type 0} (x : A) → Memᴰ x [] → ⊥
      no_member x m = elim m [ ]

  ready-IsThrough :
      (latest : LatestClaims) (task_id : TaskId)
      → IsReady latest task_id
      → IsThrough env error_text state events latest task_id
  ready-IsThrough latest task_id r = record {
    settled = λ criterion m.
        let (held, passed) = filter-member _ (values state.completion_criteria) criterion m in
        r.settled criterion held (ground (arith, passed)) (ground (arith, passed));
    approvals =
        filter-none is_pending (values state.approvals)
          λ approval m. not_pending approval.status (r.approvals approval m);
    operations =
        filter-none is_unsettled (values state.operations) λ operation m.
          let (a, b) = r.operations operation m in not_unsettled operation.status a b;
  }

  -- The gate of a known task is ready exactly if each stored criterion of the task that is required has a
  -- latest claim that is verified, names no blocker, has evidence, has the fingerprint of its evidence and
  -- passes the checks of its evidence against the log, no stored approval is pending, and no stored operation
  -- is started or unknown.
  pub gate-IsReady :
      (task_id : TaskId) (latest : LatestClaims)
      → ensure_task state task_id ≡ ok tt
      → latest_claims env events ≡ ok latest
      → ((ids : List CompletionClaimId) × (evaluate_task_completion_in env error_text state events
              task_id
            ≡ ok (ready ids)))
        ↔ IsReady latest task_id
  gate-IsReady task_id latest known claims =
      let (forward, backward) =
        gate-IsThrough env error_text state events task_id latest known claims in
      (
        λ q. through-IsReady latest task_id (forward q),
        λ r. backward (ready-IsThrough latest task_id r),
      )
