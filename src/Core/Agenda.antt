-- ===== src/Core/Agenda.antt =====
-- Candidates of the initiative agenda (src/core/initiative.rs).
use hekate.Core.Events.{EntityRef}
use hekate.Core.Ids.{EventId, PrincipalId}
use hekate.Core.Initiatives.{InitiativeKind}
use hekate.Prelude.{List, ℕ}
use hekate.Prelude.Text.{Text}

pub record AgendaCandidate : Type 0 where
  pub kind : InitiativeKind
  pub content : Text
  pub rationale : Text
  pub source_entity : EntityRef
  pub source_version : ℕ
  pub source_event_ids : List EventId
  pub target_principal_id : PrincipalId
  pub as_of_revision : ℕ
  pub fingerprint : Text
