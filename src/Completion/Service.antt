-- ===== src/Completion/Service.antt =====
-- The operations of `CompletionGate` (src/runtime/completion.rs). Each takes the store and gives the store
-- that it leaves; an operation that fails leaves the store as it is.
use hekate.Completion.{
  CompletionCriterionStatus, CompletionError, CompletionGateResult, CompletionStatusReport, Outcome,
  Stamp, blocker_present, duplicate_criterion, duplicate_fingerprint, empty_criterion_description,
  event_failed, evidence_required, gate_blocked, invalid_confidence, invalid_disposition_transition,
  invalid_reason, projection_failed, ready, serialization, stale_revision, storage_failed,
  transition_failed, unknown_claim, unknown_task,
}
use hekate.Completion.Checks.{
  claim_event_id, ensure_criterion, ensure_non_model_actor, ensure_task, non_empty, present_blocker,
  validate_evidence_refs, validate_supersedes,
}
use hekate.Completion.Gate.{
  LatestClaims, evaluate_task_completion_in, latest_claim_of, latest_claims, state_as_of,
}
use hekate.Core.Env.{Env}
use hekate.Core.Events.{EntityKind, EventKind, ExperienceEvent}
use hekate.Core.Evidence.{
  CompletionClaim, CompletionClaimTransition, CompletionCriterion, EvidenceRef,
  VerificationDisposition, verification_disposition_eq,
}
use hekate.Core.Fingerprints.{
  completion_fingerprint, normalize_description, normalize_evidence_refs,
}
use hekate.Core.Ids.{
  CompletionClaimId, CompletionCriterionId, EventId, Json, PrincipalId, TaskId, Uuid,
}
use hekate.Core.Integrity.{new_with_id}
use hekate.Core.State.{CurrentState}
use hekate.Core.Work.{Task, TaskStatus, task_status_eq}
use hekate.Prelude.{
  ℕ, String, Bool, ◌||◌, ◌&&◌, Option, none, some, List, [], ◌∷◌, any, filter, is_empty, is_some,
  ltb, map, take, if◌then◌else◌, ◌==◌, ◌!=◌, ℕ_eq, list_eq,
}
use hekate.Prelude.BTreeMap.{get, values}
use hekate.Prelude.Results.{Result, ok, err, ◌>>=◌, ◌>>◌, map_err, ok_or, reject_if}
use hekate.Prelude.Text.{Text, codes, trim}
use hekate.Projector.Apply.{replay}
use hekate.Projector.Batch.{record_batch}
use hekate.Projector.Errors.{ProjectionError, stale_context, storage}
use hekate.Storage.{EventLog, Storage}
use hekate.Storage.Errors as Port
use hekate.Transition.{transition_task}

-- `completion_event`
unfoldable pub completion_event :
    Env
    → Stamp
    → PrincipalId
    → EventKind
    → EntityKind
    → Uuid
    → Result String Json
    → Option Text
    → Option EventId
    → Option Text
    → Outcome ExperienceEvent
completion_event env stamp actor_id event_kind entity_kind entity_id payload correlation_id
      causation_id source_ref =
    do
      value ← map_err serialization payload
      map_err event_failed (
          new_with_id env stamp.occurred_at stamp.recorded_at stamp.event_id actor_id event_kind
            (some (record { kind = entity_kind; id = entity_id })) value
            (record { source_type = codes "completion"; source_ref = source_ref }) causation_id
            correlation_id none)

-- The match on the error of `record_batch`.
unfoldable pub commit_error : ProjectionError → CompletionError
commit_error (stale_context expected actual) = stale_revision expected actual
commit_error (storage (Port.stale_context expected actual)) = stale_revision expected actual
commit_error error = projection_failed error

-- The checks of `transition_claim` for a verification.
unfoldable pub check_verification : VerificationDisposition → CompletionClaim → Outcome (Unit {0})
check_verification VerificationDisposition.verified claim = do
  reject_if (is_empty claim.evidence_refs) evidence_required
  reject_if (is_some (present_blocker claim.blocker)) blocker_present
check_verification _ claim = ok tt

abbrev pub transition_kind : VerificationDisposition → EventKind
transition_kind VerificationDisposition.verified = EventKind.completion_claim_verified
transition_kind _ = EventKind.completion_claim_rejected

unfoldable pub check_ready : CompletionGateResult → Outcome (Unit {0})
check_ready (ready verified_claim_ids) = ok tt
check_ready gate = err (gate_blocked gate)

-- The claim that `create_claim` makes. The second test of the fingerprint repeats the first.
unfoldable pub new_claim :
    Env
    → Stamp
    → TaskId
    → CompletionCriterionId
    → ℕ
    → List EvidenceRef
    → Option Text
    → ℕ
    → Option CompletionClaimId
    → CompletionClaim
new_claim env stamp task_id criterion_id confidence evidence_refs blocker revision supersedes =
    record {
      id = stamp.new_id;
      task_id = task_id;
      criterion_id = criterion_id;
      disposition = VerificationDisposition.needs_validation;
      confidence = confidence;
      evidence_refs = evidence_refs;
      blocker = present_blocker blocker;
      fingerprint = completion_fingerprint env task_id criterion_id evidence_refs;
      as_of_sequence = revision;
      supersedes = supersedes;
      created_at = stamp.created_at;
    }

abbrev pub fingerprint_exists : CurrentState → Text → Bool
fingerprint_exists state fingerprint =
    any (λ (claim : CompletionClaim). claim.fingerprint == fingerprint)
      (values state.completion_claims)

-- The entry of a report for one criterion.
abbrev pub status_of : CurrentState → LatestClaims → CompletionCriterion → CompletionCriterionStatus
status_of state latest criterion = record {
  criterion_id = criterion.id;
  description = criterion.description;
  required = criterion.required;
  latest_claim = latest_claim_of state latest criterion.id;
}

module _ {Store Trace : Type 0} (port : Storage Store Trace) (log : EventLog port) (env : Env)
    (error_text : CompletionError → Text) where
  unfoldable pub commit : Store → ℕ → ExperienceEvent → Outcome (CurrentState × Store)
  commit store expected_revision event =
      map_err commit_error (record_batch port env store (event ∷ []) (some expected_revision) none)

  unfoldable pub define_criterion :
      Store → Stamp → PrincipalId → TaskId → Text → Bool → Outcome (CompletionCriterion × Store)
  define_criterion store stamp actor_id task_id raw required = do
    state ← map_err storage_failed (port.load_state store)
    ensure_task state task_id
    ensure_non_model_actor state actor_id
    let description = trim raw
    reject_if (is_empty description) empty_criterion_description
    reject_if
        (any
          (λ (criterion : CompletionCriterion).
            criterion.task_id == task_id
            && normalize_description env criterion.description
              == normalize_description env description)
          (values state.completion_criteria))
        duplicate_criterion
    let criterion : CompletionCriterion = record {
      id = stamp.new_id;
      task_id = task_id;
      description = description;
      required = required;
      created_at = stamp.created_at;
    }
    event ←
        completion_event env stamp actor_id EventKind.completion_criterion_defined
          EntityKind.completion_criterion stamp.new_id (env.encode_completion_criterion criterion)
          (some (env.uuid_text task_id)) none none
    (committed, after) ← commit store state.revision event
    ok (criterion, after)

  unfoldable pub create_claim :
      Store
      → Stamp
      → PrincipalId
      → TaskId
      → CompletionCriterionId
      → ℕ
      → List EvidenceRef
      → Option Text
      → Option CompletionClaimId
      → Outcome (CompletionClaim × Store)
  create_claim store stamp actor_id task_id criterion_id confidence raw blocker supersedes = do
    state ← map_err storage_failed (port.load_state store)
    ensure_task state task_id
    ensure_non_model_actor state actor_id
    ensure_criterion state task_id criterion_id
    reject_if (ltb 100 confidence) (invalid_confidence confidence)
    events ← map_err storage_failed (log.load_events store)
    let evidence_refs = normalize_evidence_refs raw
    validate_evidence_refs env state events evidence_refs state.revision
    let fingerprint = completion_fingerprint env task_id criterion_id evidence_refs
    reject_if (fingerprint_exists state fingerprint) (duplicate_fingerprint fingerprint)
    validate_supersedes state task_id criterion_id supersedes
    let claim =
        new_claim env stamp task_id criterion_id confidence evidence_refs blocker state.revision
          supersedes
    reject_if (fingerprint_exists state claim.fingerprint) (duplicate_fingerprint claim.fingerprint)
    event ←
        completion_event env stamp actor_id EventKind.completion_claim_created
          EntityKind.completion_claim claim.id (env.encode_completion_claim claim)
          (some (env.uuid_text task_id)) none none
    (committed, after) ← commit store state.revision event
    ok (claim, after)

  unfoldable pub transition_claim :
      Store
      → Stamp
      → PrincipalId
      → CompletionClaimId
      → VerificationDisposition
      → Text
      → Outcome (CompletionClaim × Store)
  transition_claim store stamp actor_id claim_id disposition raw = do
    state ← map_err storage_failed (port.load_state store)
    claim ← ok_or (get state.completion_claims claim_id) (unknown_claim claim_id)
    ensure_non_model_actor state actor_id
    reject_if
        (CompletionClaim.disposition claim != VerificationDisposition.needs_validation
          || disposition == VerificationDisposition.needs_validation)
        (invalid_disposition_transition (CompletionClaim.disposition claim) disposition)
    reason ← ok_or (non_empty raw) invalid_reason
    events ← map_err storage_failed (log.load_events store)
    check_verification disposition claim
    validate_evidence_refs env state events (CompletionClaim.evidence_refs claim)
        (CompletionClaim.as_of_sequence claim)
    let transition : CompletionClaimTransition = record {
      claim_id = CompletionClaim.id claim;
      task_id = CompletionClaim.task_id claim;
      criterion_id = CompletionClaim.criterion_id claim;
      previous_disposition = CompletionClaim.disposition claim;
      disposition = disposition;
      reason = reason;
      evidence_refs = CompletionClaim.evidence_refs claim;
      transitioned_at = stamp.created_at;
    }
    event ←
        completion_event env stamp actor_id (transition_kind disposition)
          EntityKind.completion_claim (CompletionClaim.id claim)
          (env.encode_completion_claim_transition transition)
          (some (env.uuid_text (CompletionClaim.task_id claim)))
          (claim_event_id events (CompletionClaim.id claim)) (some (env.uuid_text actor_id))
    (committed, after) ← commit store state.revision event
    decided ←
        ok_or (get (CurrentState.completion_claims committed) claim_id) (unknown_claim claim_id)
    ok (decided, after)

  abbrev pub verify_claim :
      Store → Stamp → PrincipalId → CompletionClaimId → Text → Outcome (CompletionClaim × Store)
  verify_claim store stamp actor_id claim_id reason =
      transition_claim store stamp actor_id claim_id VerificationDisposition.verified reason

  abbrev pub reject_claim :
      Store → Stamp → PrincipalId → CompletionClaimId → Text → Outcome (CompletionClaim × Store)
  reject_claim store stamp actor_id claim_id reason =
      transition_claim store stamp actor_id claim_id VerificationDisposition.rejected reason

  unfoldable pub evaluate_task_completion : Store → TaskId → ℕ → Outcome CompletionGateResult
  evaluate_task_completion store task_id as_of_sequence = do
    events ← map_err storage_failed (log.load_events store)
    state ← state_as_of env events as_of_sequence
    evaluate_task_completion_in env error_text state (take as_of_sequence events) task_id

  -- `complete_task` from the test of the revision on.
  unfoldable pub complete_open_task :
      Store
      → Stamp
      → PrincipalId
      → TaskId
      → ℕ
      → List ExperienceEvent
      → CurrentState
      → Task
      → Outcome (Task × Store)
  complete_open_task store stamp actor_id task_id expected_revision events state current = do
    reject_if (expected_revision != state.revision)
        (stale_revision expected_revision state.revision)
    gate ← evaluate_task_completion_in env error_text state events task_id
    check_ready gate
    completed ← map_err transition_failed (transition_task current TaskStatus.completed)
    event ←
        completion_event env stamp actor_id EventKind.task_completed EntityKind.task task_id
          (env.encode_task completed) (some (env.uuid_text task_id)) none none
    (committed, after) ← commit store state.revision event
    ok (completed, after)

  unfoldable pub complete_task : Store → Stamp → PrincipalId → TaskId → ℕ → Outcome (Task × Store)
  complete_task store stamp actor_id task_id expected_revision = do
    events ← map_err storage_failed (log.load_events store)
    state ← map_err projection_failed (replay env events)
    ensure_task state task_id
    ensure_non_model_actor state actor_id
    current ← ok_or (get state.tasks task_id) (unknown_task task_id)
    if Task.status current == TaskStatus.completed
        then ok (current, store)
        else complete_open_task store stamp actor_id task_id expected_revision events state current

  unfoldable pub status : Store → TaskId → ℕ → Outcome CompletionStatusReport
  status store task_id as_of_sequence = do
    events ← map_err storage_failed (log.load_events store)
    state ← state_as_of env events as_of_sequence
    ensure_task state task_id
    latest ← latest_claims env (take as_of_sequence events)
    gate ← evaluate_task_completion_in env error_text state (take as_of_sequence events) task_id
    ok (record {
      task_id = task_id;
      as_of_sequence = as_of_sequence;
      criteria = map (status_of state latest) (
          filter (λ (criterion : CompletionCriterion). criterion.task_id == task_id)
            (values state.completion_criteria));
      gate = gate;
    })
