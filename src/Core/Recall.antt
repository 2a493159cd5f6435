-- ===== src/Core/Recall.antt =====
-- Recall queries and their results (src/core/recall.rs).
use hekate.Core.Events.{EntityRef}
use hekate.Core.Ids.{EventId}
use hekate.Prelude.{List, Option, ℕ}
use hekate.Prelude.Text.{Text}

pub record RecallQuery : Type 0 where
  pub text : Text
  pub limit : ℕ
  pub exclude_event_ids : List EventId
  pub as_of_sequence : Option ℕ

pub record RecalledItem : Type 0 where
  pub entity : EntityRef
  pub source_event_id : EventId
  pub source_hash : Text
  pub as_of_sequence : ℕ
  pub text : Text
  pub score : ℕ
  pub created_at : Text

pub record RecallBundle : Type 0 where
  pub query_hash : Text
  pub embedding_space_id : Text
  pub items : List RecalledItem
