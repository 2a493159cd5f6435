-- ===== src/Examples/World.antt =====
-- The definitions that a run computes with, opened together, and the third-party functions of the runs.
use hekate.Agenda.Ledger.{
  sequences, is_intact, enter, enter_all, verified_ledger, entry_of, latest_from,
  latest_entity_payload, current_position_sequence, current_conflict_sequence, current_commitment,
}
use hekate.Agenda.Select.{
  first_question, is_before, hekate_participates, user_participates, conflict_candidate,
  commitment_candidate, related_observation, position_candidate, candidate_le, rank, select,
}
use hekate.Agenda.Sources.{
  latest_sources, valid_source, bounded_valid_event_ids, take_bytes, bounded_text, make_candidate,
  tokens_from, tokens_of_all, position_terms, observation_related,
}
use hekate.Completion.Checks.{
  non_empty, present_blocker, ensure_task, ensure_non_model_actor, ensure_criterion,
  validate_supersedes, check_artifact_ref, check_event_hash, check_source, check_evidence_ref,
  validate_evidence_refs, claim_event_id,
}
use hekate.Completion.Gate.{
  note_claim, latest_claims, state_as_of, latest_claim_of, blocker_of, tally_claim, tally_criterion,
  tally_criteria, gate_of, evaluate_task_completion_in,
}
use hekate.Completion.Service.{
  completion_event, commit_error as commit_error_of_completion, check_verification, check_ready,
  new_claim, commit, define_criterion, create_claim, transition_claim, evaluate_task_completion,
  complete_open_task, complete_task, status,
}
use hekate.Core.Actions.{
  OperationStatus-discrete, operation_status_eq, Observation-discrete, observation_eq,
}
use hekate.Core.Blocked.{memory_revision_blocked, position_integration_blocked}
use hekate.Core.Continuity.{FocusOutcome-discrete, focus_outcome_eq}
use hekate.Core.Env.{Env}
use hekate.Core.Events.{
  EntityKind-discrete, entity_kind_eq, EntityRef-discrete, entity_ref_eq, EventKind,
  ExperienceEvent,
}
use hekate.Core.Evidence.{
  EvidenceRef-discrete, evidence_ref_eq, VerificationDisposition-discrete,
  verification_disposition_eq,
}
use hekate.Core.Fingerprints.{
  as_bytes, hex, valid_sha256_hex, text_lt, evidence_le, same_evidence, normalize_evidence_refs,
  normalize_description, sha256_hex, completion_fingerprint, integration_candidate_fingerprint,
  initiative_fingerprint,
}
use hekate.Core.Ids.{EventId, PrincipalId, Json}
use hekate.Core.Initiatives.{
  InitiativeKind-discrete, initiative_kind_eq, InitiativeStatus-discrete, initiative_status_eq,
  InitiativeProposal-discrete, initiative_proposal_eq,
}
use hekate.Core.Integration.{
  PositionIntegrationActionKind-discrete, position_integration_action_kind_eq,
}
use hekate.Core.Integrity.{calculate_hash, verify_integrity, new_with_id}
use hekate.Core.Memories.{
  MemoryKind-discrete, memory_kind_eq, MemoryCandidateStatus-discrete, memory_candidate_status_eq,
  ActiveMemoryStatus-discrete, active_memory_status_eq,
}
use hekate.Core.Proposals.{
  validate_text, validate_texts, parse_position_proposal, parse_memory_proposal,
}
use hekate.Core.Sleep.{
  SleepRunStatus-discrete, sleep_run_status_eq, IntegrationCandidateKind-discrete,
  integration_candidate_kind_eq,
}
use hekate.Core.Social.{PrincipalKind-discrete, principal_kind_eq}
use hekate.Core.Stances.{
  Stance-discrete, stance_eq, PositionStatus-discrete, position_status_eq, Position-discrete,
  position_eq, ConflictStatus-discrete, conflict_status_eq, Conflict-discrete, conflict_eq,
  Commitment-discrete, commitment_eq,
}
use hekate.Core.StateEq.{CurrentState-discrete, current_state_eq}
use hekate.Core.Work.{
  GoalStatus-discrete, goal_status_eq, TaskStatus-discrete, task_status_eq, Task-discrete, task_eq,
  RunStatus-discrete, run_status_eq,
}
use hekate.Deliberation.{
  saturating_suc, checked_suc, is_same_position, revision_is_invalid, validate_revision_of,
  validate_against, validate_position_revision,
}
use hekate.Deliberation.Judgment.{
  decision_from_cycle, validate_evidence, validate_position, valid_conflict_transition,
  participants_of, check_previous, validate_conflict, check_related, check_own_position,
  check_user_position, check_conflict, check_intent, validate_judgment,
}
use hekate.Engine.{
  is_retracted, position_event_kind, is_closed, conflict_event_kind, push_new, recalled_ids,
  evidence_event_ids, trace_for_decision, engine_event,
}
use hekate.Engine.Events.{
  optional_event, complete_run, suspend_run, ended_run, next_working_state, caused_event,
  decision_event, position_event, conflict_event, approval_event, action_events, response_event,
  run_event, run_events, work_events, attempt_event, final_events,
}
use hekate.Engine.Finality.{is_conflict_free}
use hekate.Engine.Judged.{allows}
use hekate.Engine.Turns.{commit_error, check_policy, finish_turn, end_turn, session}
use hekate.Prelude.{
  any, all, filter, take, find_indexed, contains, position, list_beq, option_beq, list_eq,
  option_eq, ltb, ◌%◌, [], ◌∷◌, false, none, String, length, ◌+◌, ◌++◌,
}
use hekate.Prelude.BTreeMap.{get, insert, modify, values, keys, map_values}
use hekate.Prelude.Options.{filter_map}
use hekate.Prelude.Results.{for_each, try_fold, Result, err, ok}
use hekate.Prelude.Sort.{insert_sorted, sort, dedup_from, dedup_by}
use hekate.Prelude.Text.{
  is_whitespace, trim_start, trim_end, trim, split_whitespace_from, split_whitespace, join,
  utf8_width, len,
}
use hekate.Projector.Apply.{dispatch, advance, apply, replay}
use hekate.Projector.Batch.{check_base, record_batch, record_event}
use hekate.Projector.Candidates.{
  candidate_is_invalid, provenance_is_invalid, with_revision, store_candidate,
  apply_candidate_created, check_typed_proposal, is_ineligible, apply_integration_transition,
}
use hekate.Projector.Claims.{
  apply_criterion_defined, check_superseded, apply_claim_created, check_verifiable,
  apply_claim_transition, apply_claim_created_event, apply_claim_transition_event,
}
use hekate.Projector.Conflicts.{participant_ids, without, note_conflict, store_conflict}
use hekate.Projector.Errors.{payload, insert_payload, is_model_actor, subject_is}
use hekate.Projector.Evidence.{
  event_sequence, check_artifact, validate_evidence_ref, check_integration_artifact,
  validate_integration_ref, validate_integration_evidence,
}
use hekate.Projector.Focus.{
  check_candidate_run, work_focus_is_valid, conversation_focus_is_valid,
  clarification_focus_is_valid, focus_is_valid, apply_focus_resolution,
}
use hekate.Projector.Initiatives.{
  initiative_subject_matches, has_key, source_exists, proposal_is_invalid,
  apply_initiative_proposed, apply_initiative_status, apply_initiative_transition,
  apply_initiative_dismissed,
}
use hekate.Projector.Inserts.{
  apply_identity, verified_status, apply_verification, candidate_status, apply_memory,
  apply_conflict, apply_working_state, insert_principal, insert_relationship, insert_observation,
  insert_goal, insert_task, insert_run, insert_attempt, insert_decision, insert_commitment,
  insert_action_intent, insert_operation, insert_artifact, insert_approval, insert_receipt,
  insert_memory_candidate,
}
use hekate.Projector.Ledger.{distinct, event_ids}
use hekate.Projector.Materialize.{
  check_promoted, apply_integration_materialization, check_revision, revision_provenance_differs,
  revision_differs, apply_memory_revision_materialization,
}
use hekate.Projector.Positions.{
  supersede, apply_position_integration, store_position_event, apply_position_event,
}
use hekate.Projector.Positions.Checks.{
  withdrawn, operation_matches, position_matches_proposal, check_action, kind_fits, check_event,
  check_position,
}
use hekate.Projector.Sleep.{
  start_sleep_run, check_terminal, complete_sleep_run, interrupt_sleep_run, fail_sleep_run,
  sleep_transition, apply_sleep_run,
}
use hekate.Projector.Tasks.{completion_differs, apply_task_completion}
use hekate.PromptBudget.{
  message_size, fold_saturating, estimate, fits, context_limit, gather_evidence, evidence_for,
  messages_for, report_for, request_for, within, prepare_loop, checked_context, prepare,
  check_prepared,
}
use hekate.Recovery.{report_of, recover}
use hekate.SleepBatch.{check_anchors, try_prefixes, plan_new}
use hekate.SleepBatch.Laws.{exceeds, exceed_above}
use hekate.SqliteStore.{
  get_elem?, check_integrity, check_base_revision, check_ledger_end, check_batch,
}
use hekate.SqliteStore.Leases.{
  lease_deadline, acquire_foreground_lease, renew_foreground_lease, release_foreground_lease,
  has_active_foreground_lease, perform_all, none_granted,
}
use hekate.Transition.{
  task_allowed, transition_task, run_allowed, transition_run, operation_allowed,
  transition_operation,
}
use hekate.TransitionLaws.{try_each}
use native.Mathlib.Decide.{ℕ_discrete}

-- A proof that says `unfolding executable` computes with all of them.
unfoldable pub executable : Unit {0}
unfolding message_size fold_saturating estimate fits context_limit gather_evidence evidence_for
    messages_for report_for request_for within prepare_loop checked_context prepare check_prepared
    check_anchors try_prefixes plan_new try_each get_elem? check_integrity check_base_revision
    check_ledger_end check_batch is_retracted position_event_kind is_closed conflict_event_kind
    push_new recalled_ids evidence_event_ids trace_for_decision engine_event saturating_suc
    checked_suc is_same_position revision_is_invalid validate_revision_of validate_against
    validate_position_revision task_allowed transition_task run_allowed transition_run
    operation_allowed transition_operation report_of recover exceeds exceed_above first_question
    is_before hekate_participates user_participates conflict_candidate commitment_candidate
    related_observation position_candidate candidate_le rank select latest_sources valid_source
    bounded_valid_event_ids take_bytes bounded_text make_candidate tokens_from tokens_of_all
    position_terms observation_related sequences is_intact enter enter_all verified_ledger entry_of
    latest_from latest_entity_payload current_position_sequence current_conflict_sequence
    current_commitment InitiativeKind-discrete initiative_kind_eq InitiativeStatus-discrete
    initiative_status_eq InitiativeProposal-discrete initiative_proposal_eq CurrentState-discrete
    current_state_eq MemoryKind-discrete memory_kind_eq MemoryCandidateStatus-discrete
    memory_candidate_status_eq ActiveMemoryStatus-discrete active_memory_status_eq
    OperationStatus-discrete operation_status_eq Observation-discrete observation_eq
    SleepRunStatus-discrete sleep_run_status_eq IntegrationCandidateKind-discrete
    integration_candidate_kind_eq validate_text validate_texts parse_position_proposal
    parse_memory_proposal memory_revision_blocked position_integration_blocked as_bytes hex
    valid_sha256_hex text_lt evidence_le same_evidence normalize_evidence_refs normalize_description
    sha256_hex completion_fingerprint integration_candidate_fingerprint initiative_fingerprint
    FocusOutcome-discrete focus_outcome_eq EvidenceRef-discrete evidence_ref_eq
    VerificationDisposition-discrete verification_disposition_eq PrincipalKind-discrete
    principal_kind_eq Stance-discrete stance_eq PositionStatus-discrete position_status_eq
    Position-discrete position_eq ConflictStatus-discrete conflict_status_eq Conflict-discrete
    conflict_eq Commitment-discrete commitment_eq PositionIntegrationActionKind-discrete
    position_integration_action_kind_eq EntityKind-discrete entity_kind_eq EntityRef-discrete
    entity_ref_eq GoalStatus-discrete goal_status_eq TaskStatus-discrete task_status_eq
    Task-discrete task_eq RunStatus-discrete run_status_eq calculate_hash verify_integrity
    new_with_id initiative_subject_matches has_key source_exists proposal_is_invalid
    apply_initiative_proposed apply_initiative_status apply_initiative_transition
    apply_initiative_dismissed supersede apply_position_integration store_position_event
    apply_position_event completion_differs apply_task_completion start_sleep_run check_terminal
    complete_sleep_run interrupt_sleep_run fail_sleep_run sleep_transition apply_sleep_run dispatch
    advance apply replay check_promoted apply_integration_materialization check_revision
    revision_provenance_differs revision_differs apply_memory_revision_materialization
    apply_criterion_defined check_superseded apply_claim_created check_verifiable
    apply_claim_transition apply_claim_created_event apply_claim_transition_event event_sequence
    check_artifact validate_evidence_ref check_integration_artifact validate_integration_ref
    validate_integration_evidence distinct event_ids payload insert_payload is_model_actor
    subject_is check_base record_batch record_event check_candidate_run work_focus_is_valid
    conversation_focus_is_valid clarification_focus_is_valid focus_is_valid apply_focus_resolution
    apply_identity verified_status apply_verification candidate_status apply_memory apply_conflict
    apply_working_state insert_principal insert_relationship insert_observation insert_goal
    insert_task insert_run insert_attempt insert_decision insert_commitment insert_action_intent
    insert_operation insert_artifact insert_approval insert_receipt insert_memory_candidate
    candidate_is_invalid provenance_is_invalid with_revision store_candidate apply_candidate_created
    check_typed_proposal is_ineligible apply_integration_transition participant_ids without
    note_conflict store_conflict withdrawn operation_matches position_matches_proposal check_action
    kind_fits check_event check_position decision_from_cycle validate_evidence validate_position
    valid_conflict_transition participants_of check_previous validate_conflict check_related
    check_own_position check_user_position check_conflict check_intent validate_judgment filter_map
    is_whitespace trim_start trim_end trim split_whitespace_from split_whitespace join utf8_width
    len any all filter take find_indexed contains position list_beq option_beq list_eq option_eq
    insert_sorted sort dedup_from dedup_by get insert modify values keys map_values for_each
    try_fold allows commit_error check_policy finish_turn end_turn session is_conflict_free
    optional_event complete_run suspend_run ended_run next_working_state caused_event decision_event
    position_event conflict_event approval_event action_events response_event run_event run_events
    work_events attempt_event final_events completion_event commit_error_of_completion
    check_verification check_ready new_claim commit define_criterion create_claim transition_claim
    evaluate_task_completion complete_open_task complete_task status non_empty present_blocker
    ensure_task ensure_non_model_actor ensure_criterion validate_supersedes check_artifact_ref
    check_event_hash check_source check_evidence_ref validate_evidence_refs claim_event_id
    note_claim latest_claims state_as_of latest_claim_of blocker_of tally_claim tally_criterion
    tally_criteria gate_of evaluate_task_completion_in lease_deadline acquire_foreground_lease
    renew_foreground_lease release_foreground_lease has_active_foreground_lease perform_all
    none_granted ℕ_discrete
executable = tt

abbrev refused : {A : Type 0} → Json → Result String A
refused payload = err "no payload of this type"

-- Every decoder refuses; a run replaces those of its payloads.
abbrev pub no_payloads : Env
no_payloads = record {
  uuid_text = λ id. (b'0' + id) ∷ [];
  to_lowercase = λ s. s;
  is_alphanumeric = λ c. ltb 47 c;
  digest = λ bytes. (length bytes % 256) ∷ [];
  kind_json = λ kind. [];
  initiative_json = λ kind source version target ids. version ∷ ids;
  event_json = λ event. ok (event.event_id ∷ event.payload ++ event.integrity_hash);
  user_json = λ current others evidence. current ++ join [] others ++ evidence;
  has_member = λ payload name. false;
  from_str_position = refused;
  from_str_memory = refused;
  projected_at = λ event. [];
  consulted_at = λ event. [];
  encode_task = λ task. ok [];
  encode_decision = λ value. ok [];
  encode_position = λ value. ok [];
  encode_conflict = λ value. ok [];
  encode_action_intent = λ value. ok [];
  encode_operation = λ value. ok [];
  encode_approval = λ value. ok [];
  encode_response_record = λ value. ok [];
  encode_working_state = λ value. ok [];
  encode_run = λ value. ok [];
  encode_attempt = λ value. ok [];
  encode_completion_criterion = λ criterion. ok [];
  encode_completion_claim = λ claim. ok [];
  encode_completion_claim_transition = λ transition. ok [];
  decode_principal = refused;
  decode_identity_version = λ now. refused;
  decode_relationship = refused;
  decode_observation = refused;
  decode_decision = refused;
  decode_action_intent = refused;
  decode_operation = refused;
  decode_artifact = refused;
  decode_approval = refused;
  decode_receipt = refused;
  decode_verification = refused;
  decode_focus_resolution = refused;
  decode_goal = refused;
  decode_task = refused;
  decode_run = refused;
  decode_attempt = refused;
  decode_working_state = refused;
  decode_position = λ now. refused;
  decode_conflict = λ now. refused;
  decode_commitment = refused;
  decode_completion_criterion = refused;
  decode_completion_claim = refused;
  decode_completion_claim_transition = refused;
  decode_initiative_proposal = refused;
  decode_memory_candidate = refused;
  decode_active_memory = refused;
  decode_sleep_run = refused;
  decode_integration_candidate = refused;
  decode_position_integration_event_payload = refused;
  decode_integration_verification = refused;
  decode_integration_materialization = refused;
  decode_memory_revision_materialization = refused;
}

-- An event with this id, actor and kind, and nothing else.
abbrev pub event_of : EventId → PrincipalId → EventKind → ExperienceEvent
event_of id actor kind = record {
  event_id = id;
  occurred_at = [];
  recorded_at = [];
  actor_id = actor;
  event_kind = kind;
  subject = none;
  payload = [];
  source = record { source_type = []; source_ref = none };
  causation_id = none;
  correlation_id = none;
  confidence = none;
  integrity_hash = [];
}
