-- ===== src/Projector/Candidates.antt =====
-- The creation and the verification of integration candidates (src/runtime/projector.rs).
use hekate.Core.Env.{Env}
use hekate.Core.Evidence.{VerificationDisposition, verification_disposition_eq}
use hekate.Core.Events.{EntityKind, ExperienceEvent}
use hekate.Core.Fingerprints.{
  integration_candidate_fingerprint, normalize_evidence_refs, valid_sha256_hex,
}
use hekate.Core.Integration.{IntegrationVerification}
use hekate.Core.Proposals.{max_candidate_sources, parse_memory_proposal, parse_position_proposal}
use hekate.Core.Sleep.{
  IntegrationCandidate, IntegrationCandidateKind, SleepRun, SleepRunStatus, sleep_run_status_eq,
}
use hekate.Core.Social.{PrincipalKind, principal_kind_eq}
use hekate.Core.State.{CurrentState}
use hekate.Prelude.{
  Bool, not, ◌||◌, ◌&&◌, some, is_some_and, is_empty, any, contains, length, ltb, ◌==◌, ◌!=◌, ℕ_eq,
  option_eq, list_eq, if◌then◌else◌,
}
use hekate.Prelude.BTreeMap.{get, insert, modify, values}
use hekate.Prelude.Results.{ok, ◌>>=◌, ◌>>◌, reject_if, ok_or, map_err}
use hekate.Prelude.Text.{Text, codes, trim}
use hekate.Projector.Errors.{Outcome, Handler, invalid, payload, subject_is}
use hekate.Projector.Evidence.{validate_integration_evidence}

-- The fingerprint of what the candidate holds.
abbrev pub fingerprint_of : Env → IntegrationCandidate → Text
fingerprint_of env candidate =
    integration_candidate_fingerprint env candidate.kind candidate.content
      candidate.source_event_ids candidate.counterevidence_event_ids

unfoldable pub candidate_is_invalid : IntegrationCandidate → Bool
candidate_is_invalid candidate =
    candidate.disposition != VerificationDisposition.needs_validation
    || is_empty (trim candidate.content)
    || is_empty (trim candidate.rationale)
    || is_empty candidate.source_event_ids
    || ltb max_candidate_sources (length candidate.source_event_ids)
    || ltb max_candidate_sources (length candidate.counterevidence_event_ids)
    || ltb 100 candidate.confidence

unfoldable pub provenance_is_invalid : CurrentState → IntegrationCandidate → Bool
provenance_is_invalid state candidate =
    any (λ id. not (contains state.applied_events id)) candidate.source_event_ids
    || any (λ id. not (contains state.applied_events id)) candidate.counterevidence_event_ids
    || any (λ id. contains candidate.counterevidence_event_ids id) candidate.source_event_ids

-- A payload of an older version leaves the revision out, and the run's is taken.
unfoldable pub with_revision :
    Env → ExperienceEvent → SleepRun → IntegrationCandidate → IntegrationCandidate
with_revision env event run candidate =
    if candidate.as_of_revision == 0 && not (env.has_member event.payload (codes "as_of_revision"))
    then record candidate { as_of_revision = run.high_water_revision }
    else candidate

-- What is left of the arm of `IntegrationCandidateCreated` once the run is found.
unfoldable pub store_candidate :
    Env → CurrentState → ExperienceEvent → SleepRun → IntegrationCandidate → Outcome CurrentState
store_candidate env state event run candidate = do
  reject_if (candidate.as_of_revision != run.high_water_revision)
      (invalid event "candidate revision does not match its sleep run")
  reject_if
      (fingerprint_of env candidate != candidate.fingerprint
        || any (λ (item : IntegrationCandidate). item.fingerprint == candidate.fingerprint)
            (values state.integration_candidates))
      (invalid event "duplicate or invalid candidate fingerprint")
  ok (record state {
    integration_candidates = insert state.integration_candidates candidate.id candidate;
  })

-- The arm of `IntegrationCandidateCreated`.
unfoldable pub apply_candidate_created : Env → Handler
apply_candidate_created env state event = do
  raw ← payload env.decode_integration_candidate event
  reject_if (candidate_is_invalid raw) (invalid event "invalid integration candidate")
  reject_if (provenance_is_invalid state raw)
      (invalid event "candidate provenance is not in the applied event ledger")
  run ←
      ok_or (get state.sleep_runs raw.sleep_run_id)
        (invalid event "candidate does not belong to a sleep run")
  reject_if (SleepRun.status run != SleepRunStatus.running)
      (invalid event "candidate does not belong to a running sleep run")
  store_candidate env state event run (with_revision env event run raw)

-- A verification asks that the typed proposal of the candidate parses.
unfoldable pub check_typed_proposal :
    Env
    → VerificationDisposition
    → ExperienceEvent
    → IntegrationCandidateKind
    → Text
    → Outcome (Unit {0})
check_typed_proposal env VerificationDisposition.verified event IntegrationCandidateKind.position
      content =
    do
      proposal ←
          map_err (λ e. invalid event "Position candidate has an invalid typed proposal")
            (parse_position_proposal env.from_str_position content)
      ok tt
check_typed_proposal env VerificationDisposition.verified event
      IntegrationCandidateKind.memory_revision content =
    do
      proposal ←
          map_err (λ e. invalid event "Memory revision candidate has an invalid typed proposal")
            (parse_memory_proposal env.from_str_memory valid_sha256_hex content)
      ok tt
check_typed_proposal env _ event kind content = ok tt

-- An unknown verifier counts as one that is not eligible.
unfoldable pub is_ineligible : CurrentState → IntegrationVerification → Bool
is_ineligible state verification = not (
    is_some_and (get state.principals verification.actor_id)
      λ principal. not (principal.kind == PrincipalKind.hekate_principal))

unfoldable pub apply_integration_transition : Env → VerificationDisposition → Handler
apply_integration_transition env expected state event = do
  verification ← payload env.decode_integration_verification event
  reject_if (not (subject_is event EntityKind.integration_candidate verification.candidate_id))
      (invalid event "integration verification subject does not match candidate")
  reject_if (event.actor_id != verification.actor_id)
      (invalid event "integration verification actor does not match event actor")
  reject_if (is_some_and verification.verification_event_id λ id. id != event.event_id)
      (invalid event "integration verification event ID does not match")
  reject_if (is_ineligible state verification)
      (invalid event "integration verification actor is not an eligible principal")
  candidate ←
      ok_or (get state.integration_candidates verification.candidate_id)
        (invalid event "integration verification references an unknown candidate")
  reject_if
      (IntegrationCandidate.disposition candidate != verification.previous_disposition
        || verification.previous_disposition != VerificationDisposition.needs_validation
        || verification.new_disposition != expected)
      (invalid event "invalid integration candidate disposition transition")
  reject_if (is_empty (trim verification.reason))
      (invalid event "integration verification reason cannot be empty")
  reject_if
      (verification.as_of_revision != IntegrationCandidate.as_of_revision candidate
        || ltb state.revision verification.as_of_revision)
      (invalid event "integration verification has an invalid as-of revision")
  reject_if (fingerprint_of env candidate != IntegrationCandidate.fingerprint candidate)
      (invalid event "candidate fingerprint does not match its projection")
  check_typed_proposal env expected event (IntegrationCandidate.kind candidate)
      (IntegrationCandidate.content candidate)
  let evidence_refs = normalize_evidence_refs verification.evidence_refs
  reject_if (is_empty evidence_refs) (invalid event "integration verification needs evidence")
  validate_integration_evidence state event candidate evidence_refs verification.as_of_revision
  found ←
      ok_or (get state.integration_candidates (IntegrationCandidate.id candidate))
        (invalid event "integration candidate disappeared during transition")
  ok (record state {
    integration_candidates =
        modify (λ stored. record stored { disposition = expected }) state.integration_candidates
          (IntegrationCandidate.id candidate);
    integration_verifications =
        insert state.integration_verifications verification.candidate_id (record verification {
          verification_event_id = some event.event_id;
          reason = trim verification.reason;
          evidence_refs = evidence_refs;
        });
  })
