-- ===== src/Core/Initiatives.antt =====
-- Initiative proposals (src/core/initiative.rs).
use hekate.Core.Events.{EntityRef, EntityRef-discrete}
use hekate.Core.Ids.{EventId, PrincipalId, Uuid}
use hekate.Prelude.{Eq, List, eq_of_discrete, ℕ}
use hekate.Prelude.Text.{Text}
use native.Mathlib.Decide.{ℕ_discrete}

pub data InitiativeKind : Type 0 where
  question challenge follow_up : InitiativeKind

unfoldable pub InitiativeKind-discrete : Discrete InitiativeKind
InitiativeKind-discrete = hlevel

instance unfoldable pub initiative_kind_eq : Eq InitiativeKind
unfolding InitiativeKind-discrete
initiative_kind_eq = eq_of_discrete InitiativeKind-discrete

pub data InitiativeStatus : Type 0 where
  proposed awaiting_approval ready delivered dismissed : InitiativeStatus

unfoldable pub InitiativeStatus-discrete : Discrete InitiativeStatus
InitiativeStatus-discrete = hlevel

instance unfoldable pub initiative_status_eq : Eq InitiativeStatus
unfolding InitiativeStatus-discrete
initiative_status_eq = eq_of_discrete InitiativeStatus-discrete

pub record InitiativeProposal : Type 0 where
  pub id : Uuid
  pub kind : InitiativeKind
  pub content : Text
  pub rationale : Text
  pub source_entity : EntityRef
  pub source_version : ℕ
  pub source_event_ids : List EventId
  pub target_principal_id : PrincipalId
  pub as_of_revision : ℕ
  pub fingerprint : Text
  pub status : InitiativeStatus
  pub created_at : Text

unfoldable pub InitiativeProposal-discrete : Discrete InitiativeProposal
unfolding ℕ_discrete EntityRef-discrete InitiativeKind-discrete InitiativeStatus-discrete
InitiativeProposal-discrete =
    hlevel (ℕ_discrete, EntityRef-discrete, InitiativeKind-discrete, InitiativeStatus-discrete)

instance unfoldable pub initiative_proposal_eq : Eq InitiativeProposal
unfolding InitiativeProposal-discrete
initiative_proposal_eq = eq_of_discrete InitiativeProposal-discrete
