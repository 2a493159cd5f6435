-- ===== src/Projector/Evidence.antt =====
-- The checks of evidence (src/runtime/projector.rs).
use hekate.Core.Evidence.{EvidenceRef}
use hekate.Core.Events.{ExperienceEvent}
use hekate.Core.Fingerprints.{valid_sha256_hex}
use hekate.Core.Ids.{ArtifactId, EventId}
use hekate.Core.Sleep.{IntegrationCandidate}
use hekate.Core.State.{CurrentState}
use hekate.Prelude.{
  ℕ, suc, not, ◌||◌, Option, none, some, List, ◌++◌, contains, position, ltb, ◌!=◌, ℕ_eq, list_eq,
}
use hekate.Prelude.BTreeMap.{get}
use hekate.Prelude.Results.{ok, ◌>>=◌, ◌>>◌, reject_if, ok_or, for_each}
use hekate.Projector.Errors.{Outcome, invalid}

-- The sequence number of an applied event: its index in the ledger plus one. The sum is below 2 ^ 64,
-- as no vector is that long.
unfoldable pub event_sequence : CurrentState → EventId → Option ℕ
event_sequence state event_id = elim (position state.applied_events event_id) [
  | none ↦ none
  | some index ↦ some (suc index)
]

unfoldable pub check_artifact :
    CurrentState → ExperienceEvent → EvidenceRef → Option ArtifactId → Outcome (Unit {0})
check_artifact state event evidence none = ok tt
check_artifact state event evidence (some artifact_id) = do
  artifact ←
      ok_or (get state.artifacts artifact_id)
        (invalid event "evidence references an unknown artifact")
  reject_if (artifact.provenance_event_id != evidence.event_id)
      (invalid event "artifact provenance event does not match evidence")
  reject_if (artifact.content_hash != evidence.source_hash)
      (invalid event "artifact source hash does not match evidence")

unfoldable pub validate_evidence_ref :
    CurrentState → ExperienceEvent → ℕ → EvidenceRef → Outcome (Unit {0})
validate_evidence_ref state event claim_as_of_sequence evidence = do
  reject_if (not (valid_sha256_hex evidence.source_hash))
      (invalid event "evidence source hash is not lowercase SHA-256 hex")
  reject_if (ltb claim_as_of_sequence evidence.as_of_sequence)
      (invalid event "evidence is newer than the claim as-of sequence")
  sequence ←
      ok_or (event_sequence state evidence.event_id)
        (invalid event "evidence references an unknown event")
  reject_if (ltb claim_as_of_sequence sequence)
      (invalid event "evidence event is newer than the claim as-of sequence")
  check_artifact state event evidence evidence.artifact_id

unfoldable pub check_integration_artifact :
    CurrentState → ExperienceEvent → EvidenceRef → Option ArtifactId → Outcome (Unit {0})
check_integration_artifact state event evidence none = ok tt
check_integration_artifact state event evidence (some artifact_id) = do
  artifact ←
      ok_or (get state.artifacts artifact_id)
        (invalid event "evidence references an unknown artifact")
  reject_if
      (artifact.provenance_event_id != evidence.event_id
        || artifact.content_hash != evidence.source_hash)
      (invalid event "artifact evidence provenance does not match")

-- The body of the loop of `validate_integration_evidence`.
unfoldable pub validate_integration_ref :
    CurrentState → ExperienceEvent → IntegrationCandidate → ℕ → EvidenceRef → Outcome (Unit {0})
validate_integration_ref state event candidate as_of_revision evidence = do
  reject_if (not (valid_sha256_hex evidence.source_hash))
      (invalid event "evidence source hash is invalid")
  reject_if (ltb as_of_revision evidence.as_of_sequence)
      (invalid event "evidence is newer than candidate as-of revision")
  reject_if
      (not (
        contains (candidate.source_event_ids ++ candidate.counterevidence_event_ids)
          evidence.event_id))
      (invalid event "evidence is outside candidate provenance")
  sequence ←
      ok_or (event_sequence state evidence.event_id)
        (invalid event "evidence references an unknown event")
  reject_if (ltb evidence.as_of_sequence sequence || ltb as_of_revision sequence)
      (invalid event "evidence event is newer than its as-of revision")
  check_integration_artifact state event evidence evidence.artifact_id

unfoldable pub validate_integration_evidence :
    CurrentState
    → ExperienceEvent
    → IntegrationCandidate
    → List EvidenceRef
    → ℕ
    → Outcome (Unit {0})
validate_integration_evidence state event candidate evidence_refs as_of_revision =
    for_each (validate_integration_ref state event candidate as_of_revision) evidence_refs
