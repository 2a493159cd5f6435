-- ===== src/Core/Blocked.antt =====
-- What blocks an integration (src/core/integration.rs).
use hekate.Core.Env.{Env}
use hekate.Core.Fingerprints.{normalize_description}
use hekate.Core.Ids.{MemoryId, PositionId, PrincipalId}
use hekate.Core.Memories.{ActiveMemoryStatus, MemoryKind, active_memory_status_eq, memory_kind_eq}
use hekate.Core.Stances.{Conflict, ConflictStatus, Position, PositionStatus, position_status_eq}
use hekate.Core.State.{CurrentState}
use hekate.Prelude.{
  Bool, true, false, ◌||◌, ◌&&◌, Option, some, any, contains, is_some_and, ◌==◌, ◌!=◌, ℕ_eq,
  option_eq, list_eq,
}
use hekate.Prelude.BTreeMap.{get, values}
use hekate.Prelude.Text.{Text}

unfoldable pub memory_revision_blocked : CurrentState → MemoryId → Bool
unfolding active_memory_status_eq memory_kind_eq
memory_revision_blocked state memory_id =
    is_some_and (get state.active_memories memory_id) λ memory.
      memory.status == ActiveMemoryStatus.active && memory.kind == MemoryKind.explicit_preference

-- `ConflictStatus::Open | ConflictStatus::Negotiating`
abbrev pub is_unresolved : ConflictStatus → Bool
is_unresolved ConflictStatus.opened = true
is_unresolved ConflictStatus.negotiating = true
is_unresolved _ = false

unfoldable pub position_integration_blocked :
    Env → CurrentState → PrincipalId → Text → Option PositionId → Bool
unfolding normalize_description position_status_eq option_eq list_eq any contains values
position_integration_blocked env state principal_id subject target_position_id =
    let wanted = normalize_description env subject in
    any
      (λ (position : Position).
        position.principal_id == principal_id
        && position.status == PositionStatus.active
        && some position.id != target_position_id
        && normalize_description env position.subject == wanted)
      (values state.positions)
    || any
        (λ (conflict : Conflict).
          is_unresolved conflict.status
          && (normalize_description env conflict.subject == wanted
              || is_some_and target_position_id (λ id. contains conflict.participant_positions id)))
        (values state.conflicts)
