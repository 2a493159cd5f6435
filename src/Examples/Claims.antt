-- ===== src/Examples/Claims.antt =====
-- A log that creates a completion claim and verifies it (src/runtime/projector.rs).
use hekate.Core.Env.{Env}
use hekate.Core.Events.{EventKind, ExperienceEvent}
use hekate.Core.Evidence.{CompletionClaim, EvidenceRef, VerificationDisposition}
use hekate.Core.Social.{PrincipalKind}
use hekate.Core.Fingerprints.{completion_fingerprint}
use hekate.Core.State.{CurrentState, empty}
use hekate.Core.Work.{Task, TaskStatus}
use hekate.Examples.World.{executable, no_payloads, event_of}
use hekate.Prelude.{
  ℕ, ◌≡◌, refl, none, some, true, false, List, [], ◌∷◌, is_empty, ◌≤◌, length, ◌%◌,
}
use hekate.Prelude.Results.{ok, err}
use hekate.Projector.Apply.{apply, apply_all, replay, u64_modulus}
use hekate.Projector.Errors.{duplicate}
use hekate.Projector.Fingerprints.{claim_fingerprint_is_unique}
use hekate.Projector.Ledger.{Ledger, apply_again, distinct, event_ids, replay-ledger}
use hekate.Projector.ModelActor.{SameDecisions, model_decides_nothing}
use hekate.Projector.SoundClaims.{claim_fingerprint, is_blocked, verified_claim_has_evidence}
use hekate.Prelude.Text.{codes}

abbrev pub witness_hash : List ℕ
witness_hash = codes "0123456789abcdef0123456789abcdef0123456789abcdef0123456789abcdef"

abbrev pub evidence : EvidenceRef
evidence = record {
  event_id = 1;
  artifact_id = none;
  source_hash = witness_hash;
  as_of_sequence = 1;
}

abbrev pub task : Task
task = record {
  id = 10;
  goal_id = none;
  title = codes "index";
  status = TaskStatus.in_progress;
  created_at = [];
}

abbrev pub claim : VerificationDisposition → CompletionClaim
claim disposition = record {
  id = 30;
  task_id = 10;
  criterion_id = 20;
  disposition = disposition;
  confidence = 90;
  evidence_refs = evidence ∷ [];
  blocker = some (codes "  ");
  fingerprint = codes "52";
  as_of_sequence = 3;
  supersedes = none;
  created_at = [];
}

abbrev pub env : Env
env = record no_payloads {
  decode_principal = λ payload. ok (record {
    id = 1;
    kind = PrincipalKind.user;
    name = codes "ada";
    identity_version_id = none;
  });
  decode_task = λ payload. ok task;
  decode_completion_criterion = λ payload. ok (record {
    id = 20;
    task_id = 10;
    description = codes " all files are listed ";
    required = true;
    created_at = [];
  });
  decode_completion_claim = λ payload. ok (claim VerificationDisposition.needs_validation);
  decode_completion_claim_transition = λ payload. ok (record {
    claim_id = 30;
    task_id = 10;
    criterion_id = 20;
    previous_disposition = VerificationDisposition.needs_validation;
    disposition = VerificationDisposition.verified;
    reason = codes "checked";
    evidence_refs = evidence ∷ [];
    transitioned_at = [];
  });
}

abbrev pub log : List ExperienceEvent
log =
    event_of 1 1 EventKind.principal_created
    ∷ event_of 2 1 EventKind.task_created
    ∷ event_of 3 1 EventKind.completion_criterion_defined
    ∷ event_of 4 1 EventKind.completion_claim_created
    ∷ event_of 5 1 EventKind.completion_claim_verified
    ∷ []

abbrev pub after : CurrentState
after = record empty {
  revision = 5;
  principals =
      (
        1,
        record {
          id = 1;
          kind = PrincipalKind.user;
          name = codes "ada";
          identity_version_id = none;
        },
      )
      ∷ [];
  tasks = (10, task) ∷ [];
  completion_criteria =
      (
        20,
        record {
          id = 20;
          task_id = 10;
          description = codes "all files are listed";
          required = true;
          created_at = [];
        },
      )
      ∷ [];
  completion_claims = (30, claim VerificationDisposition.verified) ∷ [];
  applied_events = 1 ∷ 2 ∷ 3 ∷ 4 ∷ 5 ∷ [];
}

log_runs : replay env log ≡ ok after
unfolding executable
log_runs = refl

verified_claim_has_evidence_example :
    (is_empty (claim VerificationDisposition.verified).evidence_refs ≡ false)
    × (is_blocked (claim VerificationDisposition.verified) ≡ false)
unfolding executable
verified_claim_has_evidence_example =
    verified_claim_has_evidence env log after 30 (claim VerificationDisposition.verified) log_runs
      refl refl

claim_fingerprint_example :
    ((claim VerificationDisposition.verified).confidence ≤ 100)
    × (codes "52" ≡ completion_fingerprint env 10 20 (evidence ∷ []))
unfolding executable
claim_fingerprint_example =
    claim_fingerprint env log after 30 (claim VerificationDisposition.verified) log_runs refl

replay-ledger_example :
    (after.applied_events ≡ event_ids log)
    × (distinct (event_ids log) ≡ true)
    × (after.revision ≡ length log % u64_modulus)
replay-ledger_example = replay-ledger env log after log_runs

-- The log in two parts.
abbrev first_events : List ExperienceEvent
first_events = event_of 1 1 EventKind.principal_created ∷ []

abbrev later_events : List ExperienceEvent
later_events =
    event_of 2 1 EventKind.task_created
    ∷ event_of 3 1 EventKind.completion_criterion_defined
    ∷ event_of 4 1 EventKind.completion_claim_created
    ∷ event_of 5 1 EventKind.completion_claim_verified
    ∷ []

abbrev after_first : CurrentState
after_first = record empty { revision = 1; principals = after.principals; applied_events = 1 ∷ [] }

empty-Ledger : Ledger empty
unfolding executable
empty-Ledger = record { counted = refl; no_repeat = refl }

first_runs : apply env empty (event_of 1 1 EventKind.principal_created) ≡ ok after_first
unfolding executable
first_runs = refl

later_run : apply_all env after_first later_events ≡ ok after
unfolding executable
later_run = refl

apply_again_example :
    apply env after (event_of 1 1 EventKind.principal_created) ≡ err (duplicate (codes "1"))
apply_again_example =
    apply_again env empty (event_of 1 1 EventKind.principal_created) after_first later_events after
      empty-Ledger first_runs later_run

-- A state whose principal is the model.
abbrev model_state : CurrentState
model_state = record after {
  principals =
      (
        2,
        record {
          id = 2;
          kind = PrincipalKind.hekate_principal;
          name = codes "hekate";
          identity_version_id = none;
        },
      )
      ∷ [];
}

abbrev model_after : CurrentState
model_after = record model_state { revision = 6; applied_events = 1 ∷ 2 ∷ 3 ∷ 4 ∷ 5 ∷ 6 ∷ [] }

model_acts : apply env model_state (event_of 6 2 EventKind.task_created) ≡ ok model_after
unfolding executable
model_acts = refl

model_decides_nothing_example : SameDecisions model_state model_after
unfolding executable
model_decides_nothing_example =
    model_decides_nothing env model_state (event_of 6 2 EventKind.task_created) model_after refl
      model_acts

claim_fingerprint_is_unique_example :
    ((let n : ℕ = 30 in n) ≡ 30)
    × (claim VerificationDisposition.verified ≡ claim VerificationDisposition.verified)
unfolding executable
claim_fingerprint_is_unique_example =
    claim_fingerprint_is_unique env log after 30 30 (claim VerificationDisposition.verified)
      (claim VerificationDisposition.verified) log_runs refl refl refl
