-- ===== src/Core/Actions.antt =====
-- Observations, decisions, and operations with their approvals, receipts, verifications and artifacts (src/core/model.rs).
use hekate.Core.Ids.{
  ActionIntentId, ApprovalId, ArtifactId, DecisionId, EventId, Json, ObservationId, OperationId,
  PositionId, PrincipalId, ReceiptId, VerificationId,
}
use hekate.Core.Stances.{Conflict, Position}
use hekate.Prelude.{Eq, List, Option, eq_of_discrete, ℕ}
use hekate.Prelude.Text.{Text}
use native.Mathlib.Decide.{ℕ_discrete}

pub record Observation : Type 0 where
  pub id : ObservationId
  pub actor_id : PrincipalId
  pub content : Text
  pub source_type : Text
  pub source_ref : Option Text
  pub thread_id : Option Text
  pub message_id : Option Text
  pub received_at : Text

pub data DecisionKind : Type 0 where
  respond agree ask_why challenge counter_propose negotiate refuse observe_more propose_action
        create_or_update_goal create_or_update_task request_clarification request_approval suspend
        complete :
      DecisionKind

pub record ActionIntent : Type 0 where
  pub id : ActionIntentId
  pub capability : Text
  pub operation : Text
  pub target : Text
  pub arguments : Json
  pub expected_effect : Text
  pub preconditions : List Text
  pub proposed_by_event : Option EventId

pub data OperationStatus : Type 0 where
  planned authorized started succeeded failed unknown verified disputed : OperationStatus

unfoldable pub OperationStatus-discrete : Discrete OperationStatus
OperationStatus-discrete = hlevel

instance unfoldable pub operation_status_eq : Eq OperationStatus
unfolding OperationStatus-discrete
operation_status_eq = eq_of_discrete OperationStatus-discrete

pub record Operation : Type 0 where
  pub id : OperationId
  pub intent_id : ActionIntentId
  pub status : OperationStatus
  pub idempotency_key : Text
  pub approval_id : Option ApprovalId
  pub started_at : Option Text
  pub finished_at : Option Text

pub data ApprovalStatus : Type 0 where
  pending approved denied expired : ApprovalStatus

pub record Approval : Type 0 where
  pub id : ApprovalId
  pub intent_id : ActionIntentId
  pub operation_id : OperationId
  pub requested_by : PrincipalId
  pub status : ApprovalStatus
  pub reason : Text
  pub resolved_by : Option PrincipalId
  pub resolved_at : Option Text
  pub created_at : Text

pub record Receipt : Type 0 where
  pub id : ReceiptId
  pub operation_id : OperationId
  pub status : OperationStatus
  pub external_reference : Option Text
  pub output : Json
  pub recorded_at : Text

pub data VerificationStatus : Type 0 where
  verified failed disputed : VerificationStatus

pub record Verification : Type 0 where
  pub id : VerificationId
  pub operation_id : OperationId
  pub status : VerificationStatus
  pub evidence : List Text
  pub checked_at : Text

pub record Artifact : Type 0 where
  pub id : ArtifactId
  pub path : Text
  pub content_hash : Text
  pub size : ℕ
  pub media_type : Text
  pub provenance_event_id : EventId
  pub created_at : Text

pub record Decision : Type 0 where
  pub id : DecisionId
  pub kind : DecisionKind
  pub message : Text
  pub target_principal_id : Option PrincipalId
  pub request : Text
  pub context_hash : Text
  pub confidence : ℕ
  pub reasons : List Text
  pub evidence_refs : List EventId
  pub alternatives : List Text
  pub reconsideration_conditions : List Text
  pub unresolved_questions : List Text
  pub related_position_ids : List PositionId
  pub user_position : Option Position
  pub cognitive_trace_id : Option Text
  pub position : Option Position
  pub conflict : Option Conflict
  pub action : Option ActionIntent
  pub created_at : Text

pub record ResponseRecord : Type 0 where
  pub decision_id : DecisionId
  pub content : Text
  pub created_at : Text

unfoldable pub Observation-discrete : Discrete Observation
unfolding ℕ_discrete
Observation-discrete = hlevel (ℕ_discrete)

instance unfoldable pub observation_eq : Eq Observation
unfolding Observation-discrete
observation_eq = eq_of_discrete Observation-discrete
