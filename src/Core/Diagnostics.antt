-- ===== src/Core/Diagnostics.antt =====
-- Diagnostics of model requests (src/core/model_io.rs).
use hekate.Core.Ids.{ConflictId, EventId, PositionId}
use hekate.Core.ModelIo.{BudgetReport, RequestPurpose, TransportKind}
use hekate.Prelude.{List, Option, ℕ}
use hekate.Prelude.Text.{Text}

pub record ModelIoDiagnostic : Type 0 where
  pub transport : TransportKind
  pub purpose : RequestPurpose
  pub budget : BudgetReport
  pub evidence_ids : List EventId
  pub position_ids : List PositionId
  pub conflict_ids : List ConflictId
  pub observed_context_tokens : Option ℕ
  pub prompt_tokens : Option ℕ
  pub completion_tokens : Option ℕ
  pub finish_reason : Option Text
  pub content_type : Text
  pub content_bytes : Option ℕ
  pub request_hash : Text
  pub response_hash : Option Text
  pub elapsed_ms : ℕ
  pub error_kind : Option Text
