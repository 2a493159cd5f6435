-- ===== src/Examples/Candidates.antt =====
-- A log that creates an integration candidate and verifies it (src/runtime/projector.rs).
use hekate.Core.Env.{Env}
use hekate.Core.Events.{EntityKind, EventKind, ExperienceEvent}
use hekate.Core.Evidence.{EvidenceRef, VerificationDisposition}
use hekate.Core.Integration.{IntegrationVerification}
use hekate.Core.Sleep.{IntegrationCandidate, IntegrationCandidateKind, SleepRun, SleepRunStatus}
use hekate.Core.Social.{Principal, PrincipalKind}
use hekate.Core.State.{CurrentState, empty}
use hekate.Examples.World.{executable, no_payloads, event_of}
use hekate.Prelude.{◌≡◌, ◌≢◌, refl, ℕ, none, some, List, [], ◌∷◌}
use hekate.Prelude.Results.{ok}
use hekate.Prelude.Text.{codes}
use hekate.Projector.Apply.{replay}
use hekate.Projector.Fingerprints.{candidate_fingerprint_is_unique}
use hekate.Projector.SoundCandidates.{Decided, decided_candidate_has_record}

abbrev user : Principal
user = record { id = 1; kind = PrincipalKind.user; name = codes "ada"; identity_version_id = none }

abbrev run : SleepRun
run = record {
  id = 40;
  status = SleepRunStatus.running;
  high_water_revision = 1;
  cursor_before = 0;
  cursor_after = none;
  seed_event_ids = 1 ∷ [];
  processed_observation_count = 1;
  created_candidate_count = 0;
  started_at = [];
  finished_at = none;
  error_kind = none;
  context_budget_report = none;
}

abbrev candidate : VerificationDisposition → IntegrationCandidate
candidate disposition = record {
  id = 50;
  sleep_run_id = 40;
  kind = IntegrationCandidateKind.memory;
  disposition = disposition;
  as_of_revision = 1;
  content = codes "ada prefers lists";
  rationale = codes "she said so";
  source_event_ids = 1 ∷ [];
  counterevidence_event_ids = [];
  confidence = 80;
  fingerprint = codes "16";
  created_at = [];
}

abbrev evidence : EvidenceRef
evidence = record {
  event_id = 1;
  artifact_id = none;
  source_hash = codes "0123456789abcdef0123456789abcdef0123456789abcdef0123456789abcdef";
  as_of_sequence = 1;
}

abbrev verification : IntegrationVerification
verification = record {
  candidate_id = 50;
  verification_event_id = some 4;
  previous_disposition = VerificationDisposition.needs_validation;
  new_disposition = VerificationDisposition.verified;
  actor_id = 1;
  reason = codes "checked";
  evidence_refs = evidence ∷ [];
  as_of_revision = 1;
  created_at = [];
}

abbrev env : Env
env = record no_payloads {
  decode_principal = λ payload. ok user;
  decode_sleep_run = λ payload. ok run;
  decode_integration_candidate = λ payload. ok (candidate VerificationDisposition.needs_validation);
  decode_integration_verification = λ payload. ok verification;
}

abbrev log : List ExperienceEvent
log =
    event_of 1 1 EventKind.principal_created
    ∷ event_of 2 1 EventKind.sleep_run_started
    ∷ event_of 3 1 EventKind.integration_candidate_created
    ∷ record (event_of 4 1 EventKind.integration_candidate_verified) {
      subject = some (record { kind = EntityKind.integration_candidate; id = 50 });
    }
    ∷ []

abbrev after : CurrentState
after = record empty {
  revision = 4;
  principals = (1, user) ∷ [];
  sleep_runs = (40, run) ∷ [];
  integration_candidates = (50, candidate VerificationDisposition.verified) ∷ [];
  integration_verifications = (50, verification) ∷ [];
  applied_events = 1 ∷ 2 ∷ 3 ∷ 4 ∷ [];
}

log_runs : replay env log ≡ ok after
unfolding executable
log_runs = refl

verified_ne : VerificationDisposition.verified ≢ VerificationDisposition.needs_validation
verified_ne h = cc

decided_candidate_has_record_example :
    ((candidate VerificationDisposition.verified).id ≡ 50)
    × Decided after 50 VerificationDisposition.verified
unfolding executable
decided_candidate_has_record_example =
    decided_candidate_has_record env log after 50 (candidate VerificationDisposition.verified)
      log_runs refl verified_ne

candidate_fingerprint_is_unique_example :
    ((let n : ℕ = 50 in n) ≡ 50)
    × (candidate VerificationDisposition.verified ≡ candidate VerificationDisposition.verified)
unfolding executable
candidate_fingerprint_is_unique_example =
    candidate_fingerprint_is_unique env log after 50 50 (candidate VerificationDisposition.verified)
      (candidate VerificationDisposition.verified) log_runs refl refl refl
