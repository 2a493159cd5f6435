-- ===== src/Examples/Conflicts.antt =====
-- A conflict that is opened between two positions (src/runtime/projector.rs).
use hekate.Core.Social.{Relationship}
use hekate.Core.Stances.{Conflict, ConflictStatus, Position, PositionStatus, Stance}
use hekate.Core.State.{CurrentState, empty}
use hekate.Examples.World.{executable}
use hekate.Prelude.{◌≡◌, refl, true, none, some, [], ◌∷◌, contains, ℕ_eq}
use hekate.Prelude.BTreeMap.{get}
use hekate.Prelude.Text.{codes}
use hekate.Projector.ConflictLaws.{conflict_listing}
use hekate.Projector.Conflicts.{store_conflict}

abbrev position : Position
position = record {
  id = 11;
  principal_id = 1;
  subject = codes "tabs";
  stance = Stance.oppose;
  version = 1;
  status = PositionStatus.active;
  confidence = 70;
  supersedes = none;
  reasons = [];
  evidence_refs = [];
  reconsideration_conditions = [];
  created_at = [];
}

abbrev relationship : Relationship
relationship = record {
  id = 21;
  participants = 1 ∷ 2 ∷ [];
  shared_commitments = [];
  unresolved_conflicts = 5 ∷ [];
  trust_by_domain = [];
  interaction_norms = [];
}

abbrev state : CurrentState
state = record empty { positions = (11, position) ∷ []; relationships = (21, relationship) ∷ [] }

abbrev conflict : Conflict
conflict = record {
  id = 31;
  subject = codes "tabs";
  participant_positions = 11 ∷ 12 ∷ [];
  status = ConflictStatus.opened;
  revision = 1;
  reasons = [];
  evidence_refs = [];
  alternatives = [];
  reconsideration_conditions = [];
  unresolved_questions = [];
  resolution = none;
  resolved_at = none;
  created_at = [];
}

conflict_listing_example :
    (after : Relationship) × (get (store_conflict state conflict).relationships 21 ≡ some after)
    × (contains after.unresolved_conflicts 31 ≡ true)
unfolding executable
conflict_listing_example = conflict_listing state conflict 21 relationship 31 refl
