-- ===== src/Projector/Inserts.antt =====
-- The arms of `Projector::apply` that are an `insert`, or one with a change of a second map
-- (src/runtime/projector.rs).
use hekate.Core.Actions.{
  Operation, OperationStatus, Verification, VerificationStatus, ActionIntent, Approval, Artifact,
  Decision, Observation, Receipt,
}
use hekate.Core.Env.{Env}
use hekate.Core.Memories.{ActiveMemory, ActiveMemoryStatus, MemoryCandidate, MemoryCandidateStatus}
use hekate.Core.Social.{IdentityVersion, Principal, Relationship}
use hekate.Core.Stances.{Commitment}
use hekate.Core.Work.{Attempt, Goal, Run, Task, WorkingState}
use hekate.Prelude.{some, ℕ_eq}
use hekate.Prelude.BTreeMap.{insert, modify}
use hekate.Prelude.Results.{ok, ◌>>=◌}
use hekate.Projector.Conflicts.{store_conflict}
use hekate.Projector.Errors.{Handler, insert_payload, payload}

unfoldable pub apply_identity : Env → Handler
apply_identity env state event = do
  identity ← payload (env.decode_identity_version (env.projected_at event)) event
  ok (record state {
    principals =
        modify
          (λ principal. record principal {
            identity_version_id = some (IdentityVersion.id identity);
          })
          state.principals (IdentityVersion.principal_id identity);
    identity_versions = insert state.identity_versions (IdentityVersion.id identity) identity;
  })

unfoldable pub verified_status : VerificationStatus → OperationStatus
verified_status VerificationStatus.verified = OperationStatus.verified
verified_status VerificationStatus.disputed = OperationStatus.disputed
verified_status VerificationStatus.failed = OperationStatus.failed

unfoldable pub apply_verification : Env → Handler
apply_verification env state event = do
  verification ← payload env.decode_verification event
  ok (record state {
    operations =
        modify
          (λ operation. record operation {
            status = verified_status (Verification.status verification);
          })
          state.operations (Verification.operation_id verification);
    verifications = insert state.verifications (Verification.id verification) verification;
  })

unfoldable pub candidate_status : ActiveMemoryStatus → MemoryCandidateStatus
candidate_status ActiveMemoryStatus.active = MemoryCandidateStatus.promoted
candidate_status ActiveMemoryStatus.superseded = MemoryCandidateStatus.superseded
candidate_status ActiveMemoryStatus.expired = MemoryCandidateStatus.expired

unfoldable pub apply_memory : Env → Handler
apply_memory env state event = do
  memory ← payload env.decode_active_memory event
  ok (record state {
    memory_candidates =
        modify
          (λ candidate. record candidate { status = candidate_status (ActiveMemory.status memory) })
          state.memory_candidates (ActiveMemory.candidate_id memory);
    active_memories = insert state.active_memories (ActiveMemory.id memory) memory;
  })

unfoldable pub apply_conflict : Env → Handler
apply_conflict env state event = do
  conflict ← payload (env.decode_conflict (env.projected_at event)) event
  ok (store_conflict state conflict)

unfoldable pub apply_working_state : Env → Handler
apply_working_state env state event = do
  working_state ← payload env.decode_working_state event
  ok (record state {
    working_states = insert state.working_states (WorkingState.run_id working_state) working_state;
  })

-- The arms that are one `insert`.
unfoldable pub insert_principal : Env → Handler
insert_principal env state event = do
  items ← insert_payload env.decode_principal (λ item. Principal.id item) event state.principals
  ok (record state { principals = items })

unfoldable pub insert_relationship : Env → Handler
insert_relationship env state event = do
  items ←
      insert_payload env.decode_relationship (λ item. Relationship.id item) event
        state.relationships
  ok (record state { relationships = items })

unfoldable pub insert_observation : Env → Handler
insert_observation env state event = do
  items ←
      insert_payload env.decode_observation (λ item. Observation.id item) event state.observations
  ok (record state { observations = items })

unfoldable pub insert_goal : Env → Handler
insert_goal env state event = do
  items ← insert_payload env.decode_goal (λ item. Goal.id item) event state.goals
  ok (record state { goals = items })

unfoldable pub insert_task : Env → Handler
insert_task env state event = do
  items ← insert_payload env.decode_task (λ item. Task.id item) event state.tasks
  ok (record state { tasks = items })

unfoldable pub insert_run : Env → Handler
insert_run env state event = do
  items ← insert_payload env.decode_run (λ item. Run.id item) event state.runs
  ok (record state { runs = items })

unfoldable pub insert_attempt : Env → Handler
insert_attempt env state event = do
  items ← insert_payload env.decode_attempt (λ item. Attempt.id item) event state.attempts
  ok (record state { attempts = items })

unfoldable pub insert_decision : Env → Handler
insert_decision env state event = do
  items ← insert_payload env.decode_decision (λ item. Decision.id item) event state.decisions
  ok (record state { decisions = items })

unfoldable pub insert_commitment : Env → Handler
insert_commitment env state event = do
  items ← insert_payload env.decode_commitment (λ item. Commitment.id item) event state.commitments
  ok (record state { commitments = items })

unfoldable pub insert_action_intent : Env → Handler
insert_action_intent env state event = do
  items ←
      insert_payload env.decode_action_intent (λ item. ActionIntent.id item) event
        state.action_intents
  ok (record state { action_intents = items })

unfoldable pub insert_operation : Env → Handler
insert_operation env state event = do
  items ← insert_payload env.decode_operation (λ item. Operation.id item) event state.operations
  ok (record state { operations = items })

unfoldable pub insert_artifact : Env → Handler
insert_artifact env state event = do
  items ← insert_payload env.decode_artifact (λ item. Artifact.id item) event state.artifacts
  ok (record state { artifacts = items })

unfoldable pub insert_approval : Env → Handler
insert_approval env state event = do
  items ← insert_payload env.decode_approval (λ item. Approval.id item) event state.approvals
  ok (record state { approvals = items })

unfoldable pub insert_receipt : Env → Handler
insert_receipt env state event = do
  items ← insert_payload env.decode_receipt (λ item. Receipt.id item) event state.receipts
  ok (record state { receipts = items })

unfoldable pub insert_memory_candidate : Env → Handler
insert_memory_candidate env state event = do
  items ←
      insert_payload env.decode_memory_candidate (λ item. MemoryCandidate.id item) event
        state.memory_candidates
  ok (record state { memory_candidates = items })
