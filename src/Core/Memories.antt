-- ===== src/Core/Memories.antt =====
-- Memory candidates and active memories (src/core/model.rs).
use hekate.Core.Ids.{EventId, MemoryCandidateId, MemoryId, PrincipalId}
use hekate.Prelude.{Eq, List, Option, eq_of_discrete, ℕ}
use hekate.Prelude.Text.{Text}

pub data MemoryKind : Type 0 where
  explicit_preference inferred_preference verified_fact episode lesson : MemoryKind

unfoldable pub MemoryKind-discrete : Discrete MemoryKind
MemoryKind-discrete = hlevel

instance unfoldable pub memory_kind_eq : Eq MemoryKind
unfolding MemoryKind-discrete
memory_kind_eq = eq_of_discrete MemoryKind-discrete

pub data MemoryCandidateStatus : Type 0 where
  candidate promoted rejected superseded expired : MemoryCandidateStatus

unfoldable pub MemoryCandidateStatus-discrete : Discrete MemoryCandidateStatus
MemoryCandidateStatus-discrete = hlevel

instance unfoldable pub memory_candidate_status_eq : Eq MemoryCandidateStatus
unfolding MemoryCandidateStatus-discrete
memory_candidate_status_eq = eq_of_discrete MemoryCandidateStatus-discrete

pub record MemoryCandidate : Type 0 where
  pub id : MemoryCandidateId
  pub kind : MemoryKind
  pub content : Text
  pub subject_principal_id : Option PrincipalId
  pub status : MemoryCandidateStatus
  pub confidence : ℕ
  pub source_event_ids : List EventId
  pub valid_from : Option Text
  pub valid_until : Option Text
  pub supersedes : Option MemoryCandidateId
  pub created_at : Text

pub data ActiveMemoryStatus : Type 0 where
  active superseded expired : ActiveMemoryStatus

unfoldable pub ActiveMemoryStatus-discrete : Discrete ActiveMemoryStatus
ActiveMemoryStatus-discrete = hlevel

instance unfoldable pub active_memory_status_eq : Eq ActiveMemoryStatus
unfolding ActiveMemoryStatus-discrete
active_memory_status_eq = eq_of_discrete ActiveMemoryStatus-discrete

pub record ActiveMemory : Type 0 where
  pub id : MemoryId
  pub candidate_id : MemoryCandidateId
  pub kind : MemoryKind
  pub content : Text
  pub subject_principal_id : Option PrincipalId
  pub status : ActiveMemoryStatus
  pub confidence : ℕ
  pub source_event_ids : List EventId
  pub valid_from : Option Text
  pub valid_until : Option Text
  pub supersedes : Option MemoryId
  pub last_verified_at : Option Text
  pub created_at : Text
