-- ===== src/Projector/Claims.antt =====
-- Completion criteria and completion claims (src/runtime/projector.rs).
use hekate.Core.Env.{Env}
use hekate.Core.Evidence.{
  CompletionClaim, CompletionClaimTransition, CompletionCriterion, VerificationDisposition,
  verification_disposition_eq, evidence_ref_eq,
}
use hekate.Core.Events.{ExperienceEvent}
use hekate.Core.Fingerprints.{
  completion_fingerprint, normalize_description, normalize_evidence_refs,
}
use hekate.Core.Ids.{CompletionClaimId}
use hekate.Core.State.{CurrentState}
use hekate.Prelude.{
  String, not, ◌||◌, ◌&&◌, Option, none, some, is_some_and, is_empty, any, ltb, ◌==◌, ◌!=◌, ℕ_eq,
  list_eq,
}
use hekate.Prelude.BTreeMap.{get, insert, modify, contains_key, values}
use hekate.Prelude.Results.{ok, ◌>>=◌, ◌>>◌, reject_if, ok_or, for_each}
use hekate.Prelude.Text.{trim}
use hekate.Projector.Errors.{Outcome, Handler, invalid, payload, is_model_actor}
use hekate.Projector.Evidence.{validate_evidence_ref}

-- The arm of `CompletionCriterionDefined`.
unfoldable pub apply_criterion_defined : Env → Handler
apply_criterion_defined env state event = do
  criterion ← payload env.decode_completion_criterion event
  reject_if (is_empty (trim criterion.description))
      (invalid event "criterion description cannot be empty")
  reject_if (not (contains_key state.tasks criterion.task_id))
      (invalid event "criterion references an unknown task")
  reject_if (contains_key state.completion_criteria criterion.id)
      (invalid event "criterion ID already exists")
  reject_if
      (any
        (λ (existing : CompletionCriterion).
          existing.task_id == criterion.task_id
          && normalize_description env existing.description
            == normalize_description env criterion.description)
        (values state.completion_criteria))
      (invalid event "criterion description already exists for task")
  ok (record state {
    completion_criteria =
        insert state.completion_criteria criterion.id
          (record criterion { description = trim criterion.description });
  })

unfoldable pub check_superseded :
    CurrentState → ExperienceEvent → CompletionClaim → Option CompletionClaimId → Outcome (Unit {0})
check_superseded state event claim none = ok tt
check_superseded state event claim (some previous_id) = do
  previous ←
      ok_or (get state.completion_claims previous_id)
        (invalid event "claim supersedes an unknown claim")
  reject_if
      (CompletionClaim.task_id previous != claim.task_id
        || CompletionClaim.criterion_id previous != claim.criterion_id)
      (invalid event "claim supersedes a different task criterion")

unfoldable pub apply_claim_created :
    Env → CurrentState → CompletionClaim → ExperienceEvent → Outcome CurrentState
apply_claim_created env state raw event = do
  reject_if (not (contains_key state.tasks raw.task_id))
      (invalid event "claim references an unknown task")
  criterion ←
      ok_or (get state.completion_criteria raw.criterion_id)
        (invalid event "claim references an unknown criterion")
  reject_if (CompletionCriterion.task_id criterion != raw.task_id)
      (invalid event "criterion does not belong to claim task")
  reject_if (raw.disposition != VerificationDisposition.needs_validation)
      (invalid event "new claims must require validation")
  reject_if (ltb 100 raw.confidence) (invalid event "claim confidence must be between 0 and 100")
  reject_if (ltb state.revision raw.as_of_sequence)
      (invalid event "claim as-of sequence is in the future")
  let claim = record raw { evidence_refs = normalize_evidence_refs raw.evidence_refs }
  reject_if
      (claim.fingerprint
        != completion_fingerprint env claim.task_id claim.criterion_id claim.evidence_refs)
      (invalid event "claim fingerprint does not match its evidence")
  for_each (validate_evidence_ref state event claim.as_of_sequence) claim.evidence_refs
  reject_if (contains_key state.completion_claims claim.id)
      (invalid event "claim ID already exists")
  reject_if
      (any (λ (existing : CompletionClaim). existing.fingerprint == claim.fingerprint)
        (values state.completion_claims))
      (invalid event "claim fingerprint already exists")
  check_superseded state event claim claim.supersedes
  ok (record state { completion_claims = insert state.completion_claims claim.id claim })

-- What a verification asks beyond a rejection.
unfoldable pub check_verifiable :
    VerificationDisposition → ExperienceEvent → CompletionClaim → Outcome (Unit {0})
check_verifiable VerificationDisposition.verified event claim = do
  reject_if (is_empty claim.evidence_refs)
      (invalid event "a claim needs evidence before verification")
  reject_if (is_some_and claim.blocker λ blocker. not (is_empty (trim blocker)))
      (invalid event "a blocked claim cannot be verified")
check_verifiable _ event claim = ok tt

unfoldable pub apply_claim_transition :
    CurrentState
    → CompletionClaimTransition
    → VerificationDisposition
    → ExperienceEvent
    → Outcome CurrentState
apply_claim_transition state transition expected event = do
  claim ←
      ok_or (get state.completion_claims transition.claim_id)
        (invalid event "transition references an unknown claim")
  reject_if
      (CompletionClaim.task_id claim != transition.task_id
        || CompletionClaim.criterion_id claim != transition.criterion_id)
      (invalid event "claim transition identity does not match claim")
  reject_if
      (CompletionClaim.disposition claim != transition.previous_disposition
        || transition.previous_disposition != VerificationDisposition.needs_validation
        || transition.disposition != expected)
      (invalid event "invalid claim disposition transition")
  reject_if (is_empty (trim transition.reason))
      (invalid event "claim transition reason cannot be empty")
  reject_if
      (normalize_evidence_refs transition.evidence_refs != CompletionClaim.evidence_refs claim)
      (invalid event "claim transition evidence does not match claim")
  check_verifiable expected event claim
  ok (record state {
    completion_claims =
        modify (λ stored. record stored { disposition = expected }) state.completion_claims
          transition.claim_id;
  })

-- The arm of `CompletionClaimCreated`.
unfoldable pub apply_claim_created_event : Env → Handler
apply_claim_created_event env state event = do
  reject_if (is_model_actor state event.actor_id)
      (invalid event "model cannot create completion claims")
  claim ← payload env.decode_completion_claim event
  apply_claim_created env state claim event

abbrev model_refusal : VerificationDisposition → String
model_refusal VerificationDisposition.verified = "model cannot verify completion claims"
model_refusal _ = "model cannot reject completion claims"

-- The arms of `CompletionClaimVerified` and `CompletionClaimRejected`.
unfoldable pub apply_claim_transition_event : Env → VerificationDisposition → Handler
apply_claim_transition_event env expected state event = do
  reject_if (is_model_actor state event.actor_id) (invalid event (model_refusal expected))
  transition ← payload env.decode_completion_claim_transition event
  apply_claim_transition state transition expected event
