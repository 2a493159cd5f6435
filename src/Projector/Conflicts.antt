-- ===== src/Projector/Conflicts.antt =====
-- `store_conflict` (src/runtime/projector.rs).

use hekate.Core.Blocked.{is_unresolved}
use hekate.Core.Ids.{ConflictId, PositionId, PrincipalId}
use hekate.Core.Social.{Relationship}
use hekate.Core.Stances.{Conflict}
use hekate.Core.State.{CurrentState}
use hekate.Prelude.{
  Bool, List, [], ◌∷◌, ◌++◌, none, some, any, contains, nat_eq, if◌then◌else◌, ℕ_eq,
}
use hekate.Prelude.BTreeMap.{get, insert, map_values}

-- The principals of the positions that take part; an unknown position is passed over.
unfoldable pub participant_ids : CurrentState → List PositionId → List PrincipalId
participant_ids state [] = []
participant_ids state (position_id ∷ rest) =
    let others = participant_ids state rest in
    elim (get state.positions position_id) [
      | none ↦ others
      | some position ↦ position.principal_id ∷ others
    ]

-- `Vec::retain(|id| id != conflict_id)`
unfoldable pub without : ConflictId → List ConflictId → List ConflictId
without conflict_id [] = []
without conflict_id (id ∷ ids) =
    let rest = without conflict_id ids in if nat_eq id conflict_id then rest else id ∷ rest

-- The body of the loop over the relationships.
unfoldable pub note_conflict : List PrincipalId → Bool → ConflictId → Relationship → Relationship
note_conflict ids unresolved conflict_id relationship =
    if any (λ principal_id. contains relationship.participants principal_id) ids
    then (if unresolved
        then (if contains relationship.unresolved_conflicts conflict_id
            then relationship
            else record relationship {
              unresolved_conflicts = relationship.unresolved_conflicts ++ conflict_id ∷ [];
            })
        else record relationship {
          unresolved_conflicts = without conflict_id relationship.unresolved_conflicts;
        })
    else relationship

unfoldable pub store_conflict : CurrentState → Conflict → CurrentState
store_conflict state conflict =
    let ids = participant_ids state conflict.participant_positions in
    record state {
      relationships =
          map_values (note_conflict ids (is_unresolved conflict.status) conflict.id)
            state.relationships;
      conflicts = insert state.conflicts conflict.id conflict;
    }
