-- ===== src/Completion/Checks.antt =====
-- The checks that the operations of the completion service share (src/runtime/completion.rs).
use hekate.Completion.{
  Outcome, artifact_hash_mismatch, artifact_provenance_mismatch, criterion_task_mismatch,
  event_failed, event_hash_mismatch, future_evidence_sequence, invalid_source_hash,
  model_cannot_verify, superseded_claim_mismatch, unknown_artifact_evidence, unknown_criterion,
  unknown_event_evidence, unknown_superseded_claim, unknown_task,
}
use hekate.Core.Env.{Env}
use hekate.Core.Events.{EntityKind, EventKind, ExperienceEvent, entity_kind_eq}
use hekate.Core.Evidence.{CompletionClaim, CompletionCriterion, EvidenceRef}
use hekate.Core.Fingerprints.{valid_sha256_hex}
use hekate.Core.Ids.{
  ArtifactId, CompletionClaimId, CompletionCriterionId, EventId, PrincipalId, TaskId,
}
use hekate.Core.Integrity.{calculate_hash}
use hekate.Core.State.{CurrentState}
use hekate.Prelude.{
  ℕ, suc, Bool, true, false, not, ◌||◌, ◌&&◌, Option, none, some, List, [], ◌∷◌, ltb, is_empty,
  find_indexed, if◌then◌else◌, ◌==◌, ◌!=◌, ℕ_eq, list_eq,
}
use hekate.Prelude.BTreeMap.{get, contains_key}
use hekate.Prelude.Results.{ok, ◌>>=◌, ◌>>◌, map_err, ok_or, reject_if, for_each}
use hekate.Prelude.Text.{Text, trim}
use hekate.Projector.Errors.{is_model_actor, subject_is}

-- `non_empty` and `trimmed_non_empty`
unfoldable pub non_empty : Text → Option Text
non_empty value = if is_empty (trim value) then none else some (trim value)

-- `blocker.and_then(non_empty)`
unfoldable pub present_blocker : Option Text → Option Text
present_blocker none = none
present_blocker (some blocker) = non_empty blocker

unfoldable pub ensure_task : CurrentState → TaskId → Outcome (Unit {0})
ensure_task state task_id =
    reject_if (not (contains_key state.tasks task_id)) (unknown_task task_id)

unfoldable pub ensure_non_model_actor : CurrentState → PrincipalId → Outcome (Unit {0})
ensure_non_model_actor state actor_id =
    reject_if (is_model_actor state actor_id) model_cannot_verify

unfoldable pub ensure_criterion : CurrentState → TaskId → CompletionCriterionId → Outcome (Unit {0})
ensure_criterion state task_id criterion_id = do
  criterion ← ok_or (get state.completion_criteria criterion_id) (unknown_criterion criterion_id)
  reject_if (CompletionCriterion.task_id criterion != task_id)
      (criterion_task_mismatch criterion_id task_id)

unfoldable pub validate_supersedes :
    CurrentState → TaskId → CompletionCriterionId → Option CompletionClaimId → Outcome (Unit {0})
validate_supersedes state task_id criterion_id none = ok tt
validate_supersedes state task_id criterion_id (some previous_id) = do
  previous ← ok_or (get state.completion_claims previous_id) (unknown_superseded_claim previous_id)
  reject_if
      (CompletionClaim.task_id previous != task_id
        || CompletionClaim.criterion_id previous != criterion_id)
      superseded_claim_mismatch

-- `event.event_kind == EventKind::ArtifactCreated`, and the kind of a new claim.
abbrev pub is_artifact_created : EventKind → Bool
is_artifact_created EventKind.artifact_created = true
is_artifact_created _ = false

abbrev pub is_claim_created : EventKind → Bool
is_claim_created EventKind.completion_claim_created = true
is_claim_created _ = false

abbrev pub creates_artifact : ArtifactId → ExperienceEvent → Bool
creates_artifact artifact_id event =
    is_artifact_created event.event_kind && subject_is event EntityKind.artifact artifact_id

abbrev min : ℕ → ℕ → ℕ
min a b = if ltb b a then b else a

-- The branch for evidence with an artifact.
unfoldable pub check_artifact_ref :
    CurrentState → List ExperienceEvent → EvidenceRef → ArtifactId → Outcome (Unit {0})
check_artifact_ref state events evidence artifact_id = do
  artifact ← ok_or (get state.artifacts artifact_id) (unknown_artifact_evidence artifact_id)
  (index, created) ←
      ok_or (find_indexed (creates_artifact artifact_id) 0 events)
        (unknown_artifact_evidence artifact_id)
  reject_if (ltb evidence.as_of_sequence (suc index))
      (future_evidence_sequence (suc index) evidence.as_of_sequence)
  reject_if (artifact.provenance_event_id != evidence.event_id)
      (artifact_provenance_mismatch artifact_id evidence.event_id)
  reject_if (artifact.content_hash != evidence.source_hash) (artifact_hash_mismatch artifact_id)

-- The branch for evidence that is an event alone.
unfoldable pub check_event_hash : Env → ExperienceEvent → EvidenceRef → Outcome (Unit {0})
check_event_hash env event evidence = do
  expected_hash ←
      if is_empty event.integrity_hash
      then map_err event_failed (calculate_hash env event)
      else ok event.integrity_hash
  reject_if (expected_hash != evidence.source_hash) (event_hash_mismatch evidence.event_id)

unfoldable pub check_source :
    Env
    → CurrentState
    → List ExperienceEvent
    → ExperienceEvent
    → EvidenceRef
    → Option ArtifactId
    → Outcome (Unit {0})
check_source env state events event evidence none = check_event_hash env event evidence
check_source env state events event evidence (some artifact_id) =
    check_artifact_ref state events evidence artifact_id

-- The body of the loop.
unfoldable pub check_evidence_ref :
    Env → CurrentState → List ExperienceEvent → ℕ → EvidenceRef → Outcome (Unit {0})
check_evidence_ref env state events claim_as_of_sequence evidence = do
  reject_if (not (valid_sha256_hex evidence.source_hash)) (invalid_source_hash evidence.source_hash)
  reject_if (ltb claim_as_of_sequence evidence.as_of_sequence)
      (future_evidence_sequence evidence.as_of_sequence claim_as_of_sequence)
  (index, event) ←
      ok_or (find_indexed (λ event. ExperienceEvent.event_id event == evidence.event_id) 0 events)
        (unknown_event_evidence evidence.event_id)
  reject_if (ltb evidence.as_of_sequence (suc index) || ltb claim_as_of_sequence (suc index))
      (future_evidence_sequence (suc index) (min evidence.as_of_sequence claim_as_of_sequence))
  check_source env state events event evidence evidence.artifact_id

unfoldable pub validate_evidence_refs :
    Env → CurrentState → List ExperienceEvent → List EvidenceRef → ℕ → Outcome (Unit {0})
validate_evidence_refs env state events evidence_refs claim_as_of_sequence =
    for_each (check_evidence_ref env state events claim_as_of_sequence) evidence_refs

-- The last event that created the claim.
unfoldable pub claim_event_id : List ExperienceEvent → CompletionClaimId → Option EventId
claim_event_id [] claim_id = none
claim_event_id (event ∷ events) claim_id = elim (claim_event_id events claim_id) [
  | some later ↦ some later
  | none ↦
      if is_claim_created event.event_kind && subject_is event EntityKind.completion_claim claim_id
      then some event.event_id
      else none
]
