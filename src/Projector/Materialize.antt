-- ===== src/Projector/Materialize.antt =====
-- The materialization of a verified candidate as a Memory or as a Memory revision
-- (src/runtime/projector.rs).
use hekate.Core.Env.{Env}
use hekate.Core.Evidence.{VerificationDisposition, verification_disposition_eq, evidence_ref_eq}
use hekate.Core.Events.{EntityKind, ExperienceEvent}
use hekate.Core.Fingerprints.{normalize_evidence_refs, valid_sha256_hex}
use hekate.Core.Ids.{EventId, MemoryId}
use hekate.Core.Integration.{
  IntegrationMaterialization, IntegrationVerification, MemoryRevisionActionKind,
  MemoryRevisionMaterialization,
}
use hekate.Core.Memories.{
  ActiveMemory, ActiveMemoryStatus, MemoryCandidate, MemoryCandidateStatus, MemoryKind,
  active_memory_status_eq, memory_candidate_status_eq, memory_kind_eq,
}
use hekate.Core.Proposals.{
  MemoryRevisionOperation, MemoryRevisionProposal, replace, expire, parse_memory_proposal,
}
use hekate.Core.Sleep.{
  IntegrationCandidate, IntegrationCandidateKind, integration_candidate_kind_eq,
}
use hekate.Core.State.{CurrentState}
use hekate.Prelude.{
  Bool, true, false, not, ◌||◌, some, is_some, contains, ◌==◌, ◌!=◌, ℕ_eq, option_eq, list_eq,
}
use hekate.Prelude.BTreeMap.{get, insert, contains_key}
use hekate.Prelude.Results.{ok, ◌>>=◌, ◌>>◌, reject_if, ok_or, map_err}
use hekate.Prelude.Text.{Text, codes, trim}
use hekate.Projector.Candidates.{fingerprint_of}
use hekate.Projector.Errors.{Outcome, Handler, invalid, payload, subject_is, is_model_actor}
use hekate.Projector.Evidence.{validate_integration_evidence}

-- The checks of `apply_integration_materialization` on the stored memory candidate and memory.
unfoldable pub check_promoted :
    CurrentState
    → ExperienceEvent
    → IntegrationMaterialization
    → IntegrationCandidate
    → Outcome (Unit {0})
check_promoted state event materialization candidate = do
  memory_candidate ←
      ok_or (get state.memory_candidates materialization.memory_candidate_id)
        (invalid event "materialization references an unknown Memory candidate")
  reject_if
      (MemoryCandidate.status memory_candidate != MemoryCandidateStatus.promoted
        || MemoryCandidate.kind memory_candidate != MemoryKind.lesson
        || MemoryCandidate.content memory_candidate != candidate.content
        || MemoryCandidate.source_event_ids memory_candidate != candidate.source_event_ids)
      (invalid event "Memory candidate does not match materialization")
  memory ←
      ok_or (get state.active_memories materialization.memory_id)
        (invalid event "materialization references an unknown Memory")
  reject_if
      (ActiveMemory.status memory != ActiveMemoryStatus.active
        || ActiveMemory.candidate_id memory != materialization.memory_candidate_id)
      (invalid event "Memory does not match materialization")

unfoldable pub apply_integration_materialization : Env → Handler
apply_integration_materialization env state event = do
  materialization ← payload env.decode_integration_materialization event
  reject_if (not (subject_is event EntityKind.integration_candidate materialization.candidate_id))
      (invalid event "materialization subject does not match candidate")
  candidate ←
      ok_or (get state.integration_candidates materialization.candidate_id)
        (invalid event "materialization references an unknown candidate")
  reject_if (IntegrationCandidate.disposition candidate != VerificationDisposition.verified)
      (invalid event "only verified candidates can be materialized")
  reject_if (contains_key state.integration_materializations materialization.candidate_id)
      (invalid event "candidate has already been materialized")
  reject_if (fingerprint_of env candidate != materialization.fingerprint)
      (invalid event "materialization fingerprint does not match candidate")
  reject_if (IntegrationCandidate.kind candidate != IntegrationCandidateKind.memory)
      (invalid event "candidate kind cannot be materialized as Memory")
  reject_if
      (materialization.source_event_ids != IntegrationCandidate.source_event_ids candidate
        || materialization.counterevidence_event_ids
          != IntegrationCandidate.counterevidence_event_ids candidate
        || materialization.as_of_revision != IntegrationCandidate.as_of_revision candidate)
      (invalid event "materialization provenance does not match candidate")
  verification ←
      ok_or (get state.integration_verifications materialization.candidate_id)
        (invalid event "materialization has no verification record")
  reject_if
      (IntegrationVerification.new_disposition verification != VerificationDisposition.verified
        || normalize_evidence_refs materialization.evidence_refs
          != IntegrationVerification.evidence_refs verification)
      (invalid event "materialization evidence does not match verification")
  check_promoted state event materialization candidate
  let evidence_refs = normalize_evidence_refs materialization.evidence_refs
  validate_integration_evidence state event candidate evidence_refs materialization.as_of_revision
  ok (record state {
    integration_materializations =
        insert state.integration_materializations materialization.candidate_id
          (record materialization { evidence_refs = evidence_refs });
  })

abbrev target_of : MemoryRevisionOperation → MemoryId × EventId × Text
target_of (replace target event hash content) = (target, event, hash)
target_of (expire target event hash) = (target, event, hash)

-- The content that a replacement proposes; an expiry proposes none.
abbrev proposed_content : MemoryRevisionOperation → Text
proposed_content (replace target event hash content) = trim content
proposed_content (expire target event hash) = codes ""

abbrev is_replace : MemoryRevisionOperation → Bool
is_replace (replace target event hash content) = true
is_replace (expire target event hash) = false

-- The match over the action of the materialization.
unfoldable pub check_revision :
    MemoryRevisionActionKind
    → CurrentState
    → ExperienceEvent
    → MemoryRevisionMaterialization
    → MemoryRevisionOperation
    → ActiveMemory
    → Outcome (Unit {0})
check_revision MemoryRevisionActionKind.replace state event materialization operation target = do
  replacement_id ←
      ok_or materialization.replacement_memory_id (invalid event "replacement Memory ID is missing")
  replacement ←
      ok_or (get state.active_memories replacement_id)
        (invalid event "replacement Memory is missing")
  replacement_candidate ←
      ok_or (get state.memory_candidates (ActiveMemory.candidate_id replacement))
        (invalid event "replacement Memory candidate is missing")
  reject_if
      (not (is_replace operation)
        || target.status != ActiveMemoryStatus.superseded
        || ActiveMemory.status replacement != ActiveMemoryStatus.active
        || ActiveMemory.supersedes replacement != some materialization.target_memory_id
        || ActiveMemory.kind replacement != target.kind
        || ActiveMemory.subject_principal_id replacement != target.subject_principal_id
        || MemoryCandidate.supersedes replacement_candidate != some target.candidate_id
        || MemoryCandidate.content replacement_candidate != proposed_content operation)
      (invalid event "replacement Memory transition is invalid")
check_revision MemoryRevisionActionKind.expire state event materialization operation target =
    reject_if
      (is_replace operation
        || is_some materialization.replacement_memory_id
        || target.status != ActiveMemoryStatus.expired)
      (invalid event "Memory expiry transition is invalid")

-- The event does not name the candidate, or names events that are not applied.
unfoldable pub revision_provenance_differs :
    Env → CurrentState → ExperienceEvent → MemoryRevisionMaterialization → Bool
revision_provenance_differs env state event materialization =
    not (subject_is event EntityKind.integration_candidate materialization.candidate_id)
    || event.source.source_type != codes "memory_integration"
    || event.source.source_ref != some (env.uuid_text materialization.candidate_id)
    || event.correlation_id != some (env.uuid_text materialization.candidate_id)
    || event.causation_id != some materialization.verification_event_id
    || not (contains state.applied_events materialization.verification_event_id)
    || not (contains state.applied_events materialization.expected_event_id)

unfoldable pub revision_differs :
    Env → CurrentState → MemoryRevisionMaterialization → IntegrationCandidate → Bool
revision_differs env state materialization candidate =
    candidate.kind != IntegrationCandidateKind.memory_revision
    || candidate.disposition != VerificationDisposition.verified
    || contains_key state.memory_revision_materializations materialization.candidate_id
    || fingerprint_of env candidate != candidate.fingerprint
    || materialization.fingerprint != candidate.fingerprint
    || materialization.source_event_ids != candidate.source_event_ids
    || materialization.counterevidence_event_ids != candidate.counterevidence_event_ids
    || materialization.as_of_revision != candidate.as_of_revision
    || not (contains candidate.counterevidence_event_ids materialization.expected_event_id)
    || not (valid_sha256_hex materialization.expected_event_hash)

unfoldable pub apply_memory_revision_materialization : Env → Handler
apply_memory_revision_materialization env state event = do
  materialization ← payload env.decode_memory_revision_materialization event
  reject_if (revision_provenance_differs env state event materialization)
      (invalid event "Memory revision event provenance does not match")
  reject_if
      (not (contains_key state.principals event.actor_id) || is_model_actor state event.actor_id)
      (invalid event "model or unknown actor cannot materialize a Memory revision")
  candidate ←
      ok_or (get state.integration_candidates materialization.candidate_id)
        (invalid event "Memory revision references an unknown candidate")
  reject_if (revision_differs env state materialization candidate)
      (invalid event "Memory revision materialization does not match candidate")
  verification ←
      ok_or (get state.integration_verifications materialization.candidate_id)
        (invalid event "Memory revision has no verification record")
  let evidence_refs = normalize_evidence_refs materialization.evidence_refs
  reject_if
      (IntegrationVerification.new_disposition verification != VerificationDisposition.verified
        || IntegrationVerification.verification_event_id verification
          != some materialization.verification_event_id
        || evidence_refs != IntegrationVerification.evidence_refs verification)
      (invalid event "Memory revision evidence does not match verification")
  proposal ←
      map_err (λ e. invalid event "Memory revision proposal is invalid")
        (parse_memory_proposal env.from_str_memory valid_sha256_hex
          (IntegrationCandidate.content candidate))
  let (target_id, expected_event_id, expected_event_hash) =
      target_of (MemoryRevisionProposal.operation proposal)
  reject_if
      (materialization.target_memory_id != target_id
        || materialization.expected_event_id != expected_event_id
        || materialization.expected_event_hash != expected_event_hash)
      (invalid event "Memory revision target does not match proposal")
  target ←
      ok_or (get state.active_memories target_id)
        (invalid event "Memory revision target is missing")
  reject_if (ActiveMemory.kind target == MemoryKind.explicit_preference)
      (invalid event "explicit user preference cannot be revised")
  check_revision materialization.action state event materialization
      (MemoryRevisionProposal.operation proposal) target
  validate_integration_evidence state event candidate evidence_refs materialization.as_of_revision
  ok (record state {
    memory_revision_materializations =
        insert state.memory_revision_materializations materialization.candidate_id
          (record materialization { evidence_refs = evidence_refs });
  })
