-- ===== src/Deliberation.antt =====
-- `validate_position_revision` (src/runtime/deliberation.rs).
pub mod History
pub mod Judgment
pub mod Laws
use hekate.Core.Stances.{Position, PositionStatus, position_status_eq, stance_eq}
use hekate.Core.State.{CurrentState}
use hekate.Core.Ids.{EventId, PositionId}
use hekate.Prelude.{
  ℕ, ◌+◌, ◌-◌, ◌^◌, Bool, ◌||◌, ◌&&◌, Option, none, some, ltb, if◌then◌else◌, ◌==◌, ◌!=◌, ℕ_eq,
  list_eq,
}
use hekate.Prelude.BTreeMap.{get}
use hekate.Prelude.Results.{Result, ok, err}

pub data JudgmentValidationError : Type 0 where
  invalid_target context_hash_mismatch wrong_position_principal invalid_position_revision
        conflict_participants invalid_conflict_revision invalid_conflict_transition
        incomplete_conflict incomplete_resolution incomplete_action confidence_out_of_range
        empty_response :
      JudgmentValidationError
  unknown_event : EventId → JudgmentValidationError
  unknown_position : PositionId → JudgmentValidationError
  conflict_unknown_position : PositionId → JudgmentValidationError

abbrev pub u32_limit : ℕ
u32_limit = 2 ^ 32

-- `u32::saturating_add(1)` and `u32::checked_add(1)`.
unfoldable pub saturating_suc : ℕ → ℕ
saturating_suc n = if ltb (n + 1) u32_limit then n + 1 else u32_limit - 1

unfoldable pub checked_suc : ℕ → Option ℕ
checked_suc n = if ltb (n + 1) u32_limit then some (n + 1) else none

-- The guard of the first arm: a new copy of a stored Position.
unfoldable pub is_same_position : Position → Position → Bool
is_same_position previous position =
    position.version == previous.version
    && position.principal_id == previous.principal_id
    && position.subject == previous.subject
    && position.stance == previous.stance
    && (position.status == PositionStatus.active || position.status == PositionStatus.retracted)

-- What the third arm refuses.
unfoldable pub revision_is_invalid : Position → Position → Bool
revision_is_invalid previous position =
    previous.status != PositionStatus.active
    || previous.principal_id != position.principal_id
    || previous.subject != position.subject
    || position.version != saturating_suc previous.version
    || position.status != PositionStatus.active

unfoldable pub validate_revision_of :
    CurrentState → Position → PositionId → Result JudgmentValidationError (Unit {0})
validate_revision_of state position previous_id = elim (get state.positions previous_id) [
  | none ↦ err invalid_position_revision
  | some previous ↦
      if revision_is_invalid previous position then err invalid_position_revision else ok tt
]

-- The match on the stored Position and on the one that is superseded.
unfoldable pub validate_against :
    Option Position
    → Option PositionId
    → CurrentState
    → Position
    → Result JudgmentValidationError (Unit {0})
validate_against (some previous) none state position =
    if is_same_position previous position then ok tt else err invalid_position_revision
validate_against none none state position =
    if position.version == 1 && position.status == PositionStatus.active
    then ok tt
    else err invalid_position_revision
validate_against none (some previous_id) state position =
    validate_revision_of state position previous_id
validate_against (some previous) (some previous_id) state position = err invalid_position_revision

unfoldable pub validate_position_revision :
    CurrentState → Position → Result JudgmentValidationError (Unit {0})
validate_position_revision state position =
    validate_against (get state.positions position.id) position.supersedes state position
