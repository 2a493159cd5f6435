-- ===== src/Completion/Gate.antt =====
-- The completion gate, `evaluate_task_completion_in` (src/runtime/completion.rs). The argument
-- `error_text` is the text that thiserror derives of an error.
use hekate.Completion.{
  CompletionError, CompletionGateResult, Outcome, blocked, future_evidence_sequence,
  projection_failed, ready, serialization,
}
use hekate.Completion.Checks.{
  ensure_task, is_claim_created, present_blocker, validate_evidence_refs,
}
use hekate.Core.Actions.{Approval, ApprovalStatus, Operation, OperationStatus}
use hekate.Core.Env.{Env}
use hekate.Core.Events.{ExperienceEvent}
use hekate.Core.Evidence.{CompletionClaim, CompletionCriterion, VerificationDisposition}
use hekate.Core.Fingerprints.{completion_fingerprint}
use hekate.Core.Ids.{
  ApprovalId, CompletionClaimId, CompletionCriterionId, OperationId, TaskId, Uuid,
}
use hekate.Core.State.{CurrentState}
use hekate.Prelude.{
  ℕ, Bool, true, false, ◌&&◌, Option, none, some, List, [], ◌∷◌, ◌++◌, filter, is_empty, length,
  ltb, map, take, if◌then◌else◌, ◌==◌, ◌!=◌, ℕ_eq, list_eq,
}
use hekate.Prelude.BTreeMap.{BTreeMap, get, insert, values}
use hekate.Prelude.Results.{ok, err, ◌>>=◌, ◌>>◌, map_err, reject_if, try_fold}
use hekate.Prelude.Text.{Text, codes}
use hekate.Projector.Apply.{replay}

-- The id of the last claim that was created for each criterion.
abbrev pub LatestClaims : Type 0
LatestClaims = BTreeMap CompletionClaimId

-- The body of the loop.
unfoldable pub note_claim : Env → LatestClaims → ExperienceEvent → Outcome LatestClaims
note_claim env latest event =
    if is_claim_created event.event_kind
    then (do
      claim ← map_err serialization (env.decode_completion_claim event.payload)
      ok (insert latest (CompletionClaim.criterion_id claim) (CompletionClaim.id claim)))
    else ok latest

unfoldable pub latest_claims : Env → List ExperienceEvent → Outcome LatestClaims
latest_claims env events = try_fold (note_claim env) [] events

unfoldable pub state_as_of : Env → List ExperienceEvent → ℕ → Outcome CurrentState
state_as_of env events as_of_sequence = do
  reject_if (ltb (length events) as_of_sequence)
      (future_evidence_sequence as_of_sequence (length events))
  map_err projection_failed (replay env (take as_of_sequence events))

-- `latest_claims.get(&criterion.id).and_then(|claim_id| state.completion_claims.get(claim_id))`
unfoldable pub latest_claim_of :
    CurrentState → LatestClaims → CompletionCriterionId → Option CompletionClaim
latest_claim_of state latest criterion_id = elim (get latest criterion_id) [
  | none ↦ none
  | some claim_id ↦ get state.completion_claims claim_id
]

-- The vectors that the loop over the criteria fills.
pub record Tally : Type 0 where
  pub missing : List CompletionCriterionId
  pub needs_validation : List CompletionClaimId
  pub rejected : List CompletionClaimId
  pub blockers : List Text
  pub verified : List CompletionClaimId

abbrev pub no_tally : Tally
no_tally = record {
  missing = [];
  needs_validation = [];
  rejected = [];
  blockers = [];
  verified = [];
}

-- The two `matches!`.
abbrev pub pending_status : ApprovalStatus → Bool
pending_status ApprovalStatus.pending = true
pending_status _ = false

abbrev pub unsettled_status : OperationStatus → Bool
unsettled_status OperationStatus.started = true
unsettled_status OperationStatus.unknown = true
unsettled_status _ = false

abbrev pub is_pending : Approval → Bool
is_pending approval = pending_status approval.status

abbrev pub is_unsettled : Operation → Bool
is_unsettled operation = unsettled_status operation.status

abbrev pub tally_verified : Option Text → CompletionClaimId → Tally → Tally
tally_verified (some blocker) claim_id tally = record tally {
  blockers = tally.blockers ++ blocker ∷ [];
}
tally_verified none claim_id tally = record tally { verified = tally.verified ++ claim_id ∷ [] }

abbrev pub required_criteria : CurrentState → TaskId → List CompletionCriterion
required_criteria state task_id =
    filter (λ (criterion : CompletionCriterion). criterion.task_id == task_id && criterion.required)
      (values state.completion_criteria)

abbrev pub pending_approvals : CurrentState → List Approval
pending_approvals state = filter is_pending (values state.approvals)

abbrev pub unsettled_operations : CurrentState → List Operation
unsettled_operations state = filter is_unsettled (values state.operations)

module _ (env : Env) (error_text : CompletionError → Text) where
  -- `format!("{before} {id} {after}")`
  abbrev sentence : Text → Uuid → Text → Text
  sentence before id after = before ++ env.uuid_text id ++ after

  abbrev error_blocker : Outcome (Unit {0}) → Option Text
  error_blocker (ok done) = none
  error_blocker (err error) = some (error_text error)

  -- The four tests of the arm for a verified claim: the blocker that it pushes before it goes on.
  unfoldable pub blocker_of : CurrentState → List ExperienceEvent → CompletionClaim → Option Text
  blocker_of state events claim = elim (present_blocker claim.blocker) [
    | some blocker ↦ some blocker
    | none ↦
        if is_empty claim.evidence_refs
        then some (sentence (codes "claim ") claim.id (codes " has no evidence"))
        else if claim.fingerprint
            != completion_fingerprint env claim.task_id claim.criterion_id claim.evidence_refs
        then some
            (sentence (codes "claim ") claim.id (codes " fingerprint does not match its evidence"))
        else error_blocker
            (validate_evidence_refs env state events claim.evidence_refs claim.as_of_sequence)
  ]

  -- The match on the disposition.
  unfoldable pub tally_claim :
      VerificationDisposition
      → CurrentState
      → List ExperienceEvent
      → CompletionClaim
      → Tally
      → Tally
  tally_claim VerificationDisposition.needs_validation state events claim tally = record tally {
    needs_validation = tally.needs_validation ++ claim.id ∷ [];
    blockers =
        tally.blockers ++ sentence (codes "claim ") claim.id (codes " needs validation") ∷ [];
  }
  tally_claim VerificationDisposition.rejected state events claim tally = record tally {
    rejected = tally.rejected ++ claim.id ∷ [];
    blockers = tally.blockers ++ sentence (codes "claim ") claim.id (codes " was rejected") ∷ [];
  }
  tally_claim VerificationDisposition.verified state events claim tally =
      tally_verified (blocker_of state events claim) claim.id tally

  abbrev pub tally_unclaimed : CompletionCriterionId → Tally → Tally
  tally_unclaimed criterion_id tally = record tally {
    missing = tally.missing ++ criterion_id ∷ [];
    blockers =
        tally.blockers
        ++ sentence (codes "criterion ") criterion_id (codes " has no active claim") ∷ [];
  }

  -- The body of the loop over the criteria.
  unfoldable pub tally_criterion :
      CurrentState → List ExperienceEvent → LatestClaims → Tally → CompletionCriterion → Tally
  tally_criterion state events latest tally criterion =
      elim (latest_claim_of state latest criterion.id) [
        | none ↦ tally_unclaimed criterion.id tally
        | some claim ↦ tally_claim (CompletionClaim.disposition claim) state events claim tally
      ]

  unfoldable pub tally_criteria :
      CurrentState → List ExperienceEvent → LatestClaims → Tally → List CompletionCriterion → Tally
  tally_criteria state events latest tally [] = tally
  tally_criteria state events latest tally (criterion ∷ criteria) =
      tally_criteria state events latest (tally_criterion state events latest tally criterion)
        criteria

  -- The blockers of the two loops behind the one over the criteria.
  abbrev pub open_blockers : List ApprovalId → List OperationId → List Text
  open_blockers pending unsettled =
      map (λ id. sentence (codes "approval ") id (codes " is pending")) pending
      ++ map (λ id. sentence (codes "operation ") id (codes " has unknown effect state")) unsettled

  -- The end of the function, from the ids that it has collected.
  unfoldable pub gate_of : Tally → List ApprovalId → List OperationId → CompletionGateResult
  gate_of tally pending unsettled =
      let blockers = tally.blockers ++ open_blockers pending unsettled in
      if is_empty tally.missing
        && is_empty tally.needs_validation
        && is_empty tally.rejected
        && is_empty blockers
        && is_empty pending
        && is_empty unsettled
      then ready tally.verified
      else blocked tally.missing tally.needs_validation tally.rejected blockers pending unsettled

  unfoldable pub evaluate_task_completion_in :
      CurrentState → List ExperienceEvent → TaskId → Outcome CompletionGateResult
  evaluate_task_completion_in state events task_id = do
    ensure_task state task_id
    latest ← latest_claims env events
    ok (
        gate_of (tally_criteria state events latest no_tally (required_criteria state task_id))
          (map (λ approval. Approval.id approval) (pending_approvals state))
          (map (λ operation. Operation.id operation) (unsettled_operations state)))
