-- ===== src/Deliberation/Judgment.antt =====
-- `validate_judgment` and `decision_from_cycle` (src/runtime/deliberation.rs).
use hekate.Core.Actions.{ActionIntent, Decision}
use hekate.Core.Blocked.{is_unresolved}
use hekate.Core.Ids.{ActionIntentId, DecisionId, EventId, PositionId, PrincipalId}
use hekate.Core.Stances.{Conflict, ConflictStatus, Position}
use hekate.Core.State.{CurrentState}
use hekate.Core.Thoughts.{ActionProposal, ThoughtContext, ThoughtCycle}
use hekate.Deliberation.{
  JudgmentValidationError, conflict_participants, confidence_out_of_range, context_hash_mismatch,
  empty_response, incomplete_action, invalid_target, unknown_position, conflict_unknown_position,
  incomplete_conflict, incomplete_resolution, invalid_conflict_revision,
  invalid_conflict_transition, saturating_suc, unknown_event, validate_position_revision,
  wrong_position_principal,
}
use hekate.Prelude.{
  Bool, true, false, not, ◌||◌, ◌&&◌, Option, none, some, List, [], ◌∷◌, contains, is_empty,
  is_some, if◌then◌else◌, ◌==◌, ◌!=◌, ltb, ℕ_eq, option_eq, list_eq,
}
use hekate.Prelude.BTreeMap.{get, contains_key}
use hekate.Prelude.Results.{Result, ok, ◌>>=◌, ◌>>◌, for_each, ok_or, reject_if}
use hekate.Prelude.Text.{Text, trim}
use mathlib.Core.Option.{or_else}

abbrev pub Checked : Type 0
Checked = Result JudgmentValidationError (Unit {0})

-- `commitment.action.clone().map(…)`
abbrev pub intent_of : ActionIntentId → Option ActionProposal → Option ActionIntent
intent_of id none = none
intent_of id (some action) = some (record {
  id = id;
  capability = action.capability;
  operation = action.operation;
  target = action.target;
  arguments = action.arguments;
  expected_effect = action.expected_effect;
  preconditions = action.preconditions;
  proposed_by_event = none;
})

-- The two new ids and the reading of the clock come first.
unfoldable pub decision_from_cycle :
    DecisionId → ActionIntentId → Text → ThoughtContext → ThoughtCycle → Decision
decision_from_cycle decision_id intent_id now context cycle =
    let commitment = cycle.commitment in
    record {
      id = decision_id;
      kind = commitment.final_act;
      message = commitment.response;
      target_principal_id = some (context.observation.actor_id);
      request = context.observation.content;
      context_hash = context.snapshot_hash;
      confidence = commitment.confidence;
      reasons = commitment.reasons;
      evidence_refs = commitment.evidence_refs;
      alternatives = commitment.alternatives;
      reconsideration_conditions = commitment.reconsideration_conditions;
      unresolved_questions = commitment.unresolved_questions;
      related_position_ids = commitment.related_position_ids;
      user_position = commitment.user_position;
      cognitive_trace_id = some (cycle.trace.trace_id);
      position = commitment.position;
      conflict = commitment.conflict;
      action = intent_of intent_id commitment.action;
      created_at = now;
    }

-- `validate_evidence`, which is also the loop over the decision's evidence and over the conflict's.
unfoldable pub validate_evidence : List EventId → List EventId → Checked
validate_evidence evidence_refs event_ids =
    for_each (λ event_id. reject_if (not (contains event_ids event_id)) (unknown_event event_id))
      evidence_refs

unfoldable pub validate_position : CurrentState → Position → PrincipalId → Checked
validate_position state position hekate_id = do
  reject_if (position.principal_id != hekate_id) wrong_position_principal
  validate_position_revision state position

unfoldable pub valid_conflict_transition : ConflictStatus → ConflictStatus → Bool
valid_conflict_transition ConflictStatus.opened next = true
valid_conflict_transition ConflictStatus.negotiating ConflictStatus.negotiating = true
valid_conflict_transition ConflictStatus.negotiating ConflictStatus.resolved = true
valid_conflict_transition ConflictStatus.negotiating ConflictStatus.accepted_disagreement = true
valid_conflict_transition _ _ = false

-- `decision.position.as_ref().filter(|item| item.id == *position_id)`
abbrev pub with_id : PositionId → Option Position → Option Position
with_id position_id none = none
with_id position_id (some item) = if item.id == position_id then some item else none

-- The principals of the positions that take part in the conflict.
unfoldable pub participants_of :
    CurrentState → Decision → List PositionId → Result JudgmentValidationError (List PrincipalId)
participants_of state decision [] = ok []
participants_of state decision (position_id ∷ rest) = do
  position ←
      ok_or
        (or_else (or_else (get state.positions position_id) (with_id position_id decision.position))
          (with_id position_id decision.user_position))
        (conflict_unknown_position position_id)
  others ← participants_of state decision rest
  ok (Position.principal_id position ∷ others)

-- The match on the stored conflict.
unfoldable pub check_previous : Option Conflict → Conflict → Checked
check_previous (some previous) conflict = do
  reject_if
      (previous.subject != conflict.subject
        || conflict.revision != saturating_suc previous.revision)
      invalid_conflict_revision
  reject_if (not (valid_conflict_transition previous.status conflict.status))
      invalid_conflict_transition
check_previous none conflict =
    reject_if (conflict.revision != 1 || is_resolved conflict.status) invalid_conflict_revision
  where
    is_resolved : ConflictStatus → Bool
    is_resolved ConflictStatus.resolved = true
    is_resolved _ = false

unfoldable pub validate_conflict :
    ThoughtContext → CurrentState → List EventId → Decision → Conflict → PrincipalId → Checked
validate_conflict context state event_ids decision conflict hekate_id = do
  participants ← participants_of state decision conflict.participant_positions
  reject_if
      (not (contains participants hekate_id)
        || not (contains participants (context.observation.actor_id)))
      conflict_participants
  validate_evidence conflict.evidence_refs event_ids
  check_previous (get state.conflicts conflict.id) conflict
  reject_if
      (is_unresolved conflict.status
        && (is_empty conflict.reasons
            || is_empty conflict.reconsideration_conditions
            || is_empty conflict.unresolved_questions))
      incomplete_conflict
  reject_if (not (is_unresolved conflict.status) && not (is_some conflict.resolution))
      incomplete_resolution

-- The proposals of the decision count as known positions.
unfoldable pub check_related : CurrentState → Decision → PositionId → Checked
check_related state decision position_id =
    reject_if
      (not (contains_key state.positions position_id)
        && not (is_some (with_id position_id decision.position))
        && not (is_some (with_id position_id decision.user_position)))
      (unknown_position position_id)

-- The position that HEKATE takes.
unfoldable pub check_own_position :
    CurrentState → List EventId → PrincipalId → Option Position → Checked
check_own_position state event_ids hekate_id none = ok tt
check_own_position state event_ids hekate_id (some position) = do
  validate_position state position hekate_id
  reject_if (ltb 100 position.confidence) confidence_out_of_range
  validate_evidence position.evidence_refs event_ids

-- The position that the decision reports for the user.
unfoldable pub check_user_position :
    ThoughtContext → CurrentState → List EventId → Option Position → Checked
check_user_position context state event_ids none = ok tt
check_user_position context state event_ids (some position) = do
  reject_if (position.principal_id != context.observation.actor_id) wrong_position_principal
  reject_if (ltb 100 position.confidence) confidence_out_of_range
  validate_position_revision state position
  validate_evidence position.evidence_refs event_ids

unfoldable pub check_conflict :
    ThoughtContext
    → CurrentState
    → List EventId
    → Decision
    → PrincipalId
    → Option Conflict
    → Checked
check_conflict context state event_ids decision hekate_id none = ok tt
check_conflict context state event_ids decision hekate_id (some conflict) =
    validate_conflict context state event_ids decision conflict hekate_id

unfoldable pub check_intent : Option ActionIntent → Checked
check_intent none = ok tt
check_intent (some action) =
    reject_if
      (is_empty (trim action.capability)
        || is_empty (trim action.operation)
        || is_empty (trim action.target))
      incomplete_action

unfoldable pub validate_judgment :
    ThoughtContext → CurrentState → List EventId → Decision → PrincipalId → Checked
validate_judgment context state event_ids decision hekate_id = do
  reject_if (decision.target_principal_id != some (context.observation.actor_id)) invalid_target
  reject_if (decision.context_hash != context.snapshot_hash) context_hash_mismatch
  reject_if (is_empty (trim decision.message)) empty_response
  reject_if (ltb 100 decision.confidence) confidence_out_of_range
  validate_evidence decision.evidence_refs event_ids
  for_each (check_related state decision) decision.related_position_ids
  check_own_position state event_ids hekate_id decision.position
  check_user_position context state event_ids decision.user_position
  check_conflict context state event_ids decision hekate_id decision.conflict
  check_intent decision.action
