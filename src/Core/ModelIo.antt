-- ===== src/Core/ModelIo.antt =====
-- Model requests, their settings and their budgets (src/core/model_io.rs).
use hekate.Core.Ids.{ConflictId, EventId, Json, PositionId}
use hekate.Prelude.{ℕ, Bool, Option, List, String}
use hekate.Prelude.Text.{Text}

pub record BudgetReport : Type 0 where
  pub context_tokens : ℕ
  pub context_source : Text
  pub estimated_input_tokens : ℕ
  pub estimation_method : Text
  pub reserved_output_tokens : ℕ
  pub safety_margin : ℕ
  pub excluded_items : ℕ

pub data TransportKind : Type 0 where
  openai_compatible ollama : TransportKind

pub data RequestPurpose : Type 0 where
  foreground sleep : RequestPurpose

pub data Think : Type 0 where
  enabled : Bool → Think
  level : Text → Think

pub record ModelIoConfig : Type 0 where
  pub transport : TransportKind
  pub context_tokens : Option ℕ
  pub foreground_max_tokens : ℕ
  pub sleep_max_tokens : ℕ
  pub safety_margin : ℕ
  pub foreground_reasoning_effort : Text
  pub sleep_reasoning_effort : Text
  pub foreground_think : Option Think
  pub sleep_think : Option Think

pub record ModelMessage : Type 0 where
  pub role : Text
  pub content : Text

pub record PreparedModelRequest : Type 0 where
  pub messages : List ModelMessage
  pub purpose : RequestPurpose
  pub budget : BudgetReport
  pub evidence_ids : List EventId
  pub position_ids : List PositionId
  pub conflict_ids : List ConflictId
  pub context_revision : ℕ
  pub context_hash : Text
  pub reasoning_effort : Text
  pub think : Option Think

pub record PromptItem : Type 0 where
  pub value : Json
  pub evidence_ids : List EventId

pub record RenderedPrompt : Type 0 where
  pub system : Text
  pub required : PromptItem
  pub optional : List PromptItem
  pub position_ids : List PositionId
  pub conflict_ids : List ConflictId
  pub revision : ℕ
  pub hash : Text

pub data PreparationError : Type 0 where
  configuration : String → PreparationError
  budget : BudgetReport → PreparationError
