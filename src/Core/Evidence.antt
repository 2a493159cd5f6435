-- ===== src/Core/Evidence.antt =====
-- Evidence references, completion criteria and completion claims (src/core/evidence.rs).
use hekate.Core.Ids.{ArtifactId, CompletionClaimId, CompletionCriterionId, EventId, TaskId}
use hekate.Prelude.{Bool, Eq, List, Option, eq_of_discrete, ℕ}
use hekate.Prelude.Text.{Text}
use native.Mathlib.Decide.{ℕ_discrete}

pub record EvidenceRef : Type 0 where
  pub event_id : EventId
  pub artifact_id : Option ArtifactId
  pub source_hash : Text
  pub as_of_sequence : ℕ

unfoldable pub EvidenceRef-discrete : Discrete EvidenceRef
unfolding ℕ_discrete
EvidenceRef-discrete = hlevel (ℕ_discrete)

instance unfoldable pub evidence_ref_eq : Eq EvidenceRef
unfolding EvidenceRef-discrete
evidence_ref_eq = eq_of_discrete EvidenceRef-discrete

pub data VerificationDisposition : Type 0 where
  needs_validation verified rejected : VerificationDisposition

unfoldable pub VerificationDisposition-discrete : Discrete VerificationDisposition
VerificationDisposition-discrete = hlevel

instance unfoldable pub verification_disposition_eq : Eq VerificationDisposition
unfolding VerificationDisposition-discrete
verification_disposition_eq = eq_of_discrete VerificationDisposition-discrete

pub record CompletionCriterion : Type 0 where
  pub id : CompletionCriterionId
  pub task_id : TaskId
  pub description : Text
  pub required : Bool
  pub created_at : Text

pub record CompletionClaim : Type 0 where
  pub id : CompletionClaimId
  pub task_id : TaskId
  pub criterion_id : CompletionCriterionId
  pub disposition : VerificationDisposition
  pub confidence : ℕ
  pub evidence_refs : List EvidenceRef
  pub blocker : Option Text
  pub fingerprint : Text
  pub as_of_sequence : ℕ
  pub supersedes : Option CompletionClaimId
  pub created_at : Text

pub record CompletionClaimTransition : Type 0 where
  pub claim_id : CompletionClaimId
  pub task_id : TaskId
  pub criterion_id : CompletionCriterionId
  pub previous_disposition : VerificationDisposition
  pub disposition : VerificationDisposition
  pub reason : Text
  pub evidence_refs : List EvidenceRef
  pub transitioned_at : Text
