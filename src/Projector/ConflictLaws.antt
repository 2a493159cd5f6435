-- ===== src/Projector/ConflictLaws.antt =====
-- Which conflicts a relationship lists (src/runtime/projector.rs).
use hekate.Core.Blocked.{is_unresolved}
use hekate.Core.Ids.{ConflictId, PrincipalId}
use hekate.Core.Social.{Relationship}
use hekate.Core.Stances.{Conflict}
use hekate.Core.State.{CurrentState}
use hekate.Prelude.{
  ℕ, ◌≡◌, Bool, false, ◌&&◌, ◌||◌, some, List, [], ◌∷◌, ◌++◌, any, contains, nat_eq, ℕ_eq, arith,
  if◌then◌else◌,
}
use hekate.Prelude.BTreeMap.{BTreeMap, get, map_values}
use hekate.Projector.Conflicts.{note_conflict, participant_ids, store_conflict, without}

get-map_values :
    {V : Type 0} (f : V → V) (m : BTreeMap V) (k : ℕ) (v : V)
    → get m k ≡ some v
    → get (map_values f m) k ≡ some (f v)
unfolding get map_values
get-map_values f [] k v g = cc
get-map_values f ((j, w) ∷ m) k v g = ground (arith, get-map_values f m k v)

contains-without :
    (conflict_id : ConflictId) (ids : List ConflictId) (id : ConflictId)
    → contains (without conflict_id ids) id
      ≡ (if nat_eq conflict_id id then false else contains ids id)
unfolding without contains
contains-without conflict_id [] id = ground arith
contains-without conflict_id (x ∷ ids) id = ground (arith, contains-without conflict_id ids id)

contains-append_one :
    (ids : List ConflictId) (x id : ConflictId)
    → contains (ids ++ x ∷ []) id ≡ (contains ids id || nat_eq x id)
unfolding contains
contains-append_one [] x id = ground arith
contains-append_one (y ∷ ids) x id = ground (arith, contains-append_one ids x id)

-- One of the principals takes part in the relationship.
abbrev pub takes_part : List PrincipalId → Relationship → Bool
takes_part ids relationship =
    any (λ principal_id. contains relationship.participants principal_id) ids

contains-note_conflict :
    (ids : List PrincipalId) (unresolved : Bool) (conflict_id : ConflictId) (r : Relationship)
    (id : ConflictId)
    → contains (note_conflict ids unresolved conflict_id r).unresolved_conflicts id ≡ (
        if takes_part ids r && nat_eq conflict_id id
        then unresolved
        else contains r.unresolved_conflicts id)
unfolding note_conflict
contains-note_conflict ids unresolved conflict_id r id = ground (
  arith,
  contains-without conflict_id r.unresolved_conflicts id,
  contains-append_one r.unresolved_conflicts conflict_id id,
)

-- Once a conflict is stored, a relationship that one of its participants takes part in lists the conflict
-- exactly if it is open or in negotiation; what else the relationships list stays as it was.
pub conflict_listing :
    (s : CurrentState) (conflict : Conflict) (k : ℕ) (r : Relationship) (id : ConflictId)
    → get s.relationships k ≡ some r
    → (after : Relationship) × (get (store_conflict s conflict).relationships k ≡ some after)
      × (contains after.unresolved_conflicts id ≡ (
          if takes_part (participant_ids s conflict.participant_positions) r
            && nat_eq conflict.id id
          then is_unresolved conflict.status
          else contains r.unresolved_conflicts id))
unfolding store_conflict
conflict_listing s conflict k r id g =
    let ids = participant_ids s conflict.participant_positions in
    let note = note_conflict ids (is_unresolved conflict.status) conflict.id in
    (
      note r,
      get-map_values note s.relationships k r g,
      contains-note_conflict ids (is_unresolved conflict.status) conflict.id r id,
    )
