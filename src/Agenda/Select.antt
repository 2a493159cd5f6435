-- ===== src/Agenda/Select.antt =====
-- The candidates of the agenda and their selection (src/runtime/initiative/agenda.rs).
use hekate.Agenda.{VerifiedLedger, max_sleep_candidates}
use hekate.Agenda.Ledger.{
  current_commitment, current_conflict_sequence, current_position_sequence, verified_ledger,
}
use hekate.Agenda.Sources.{
  bounded_valid_event_ids, latest_sources, make_candidate, observation_related, position_terms,
}
use hekate.Core.Actions.{Observation, observation_eq}
use hekate.Core.Agenda.{AgendaCandidate}
use hekate.Core.Blocked.{is_unresolved}
use hekate.Core.Env.{Env}
use hekate.Core.Events.{EntityKind, EventKind, ExperienceEvent}
use hekate.Core.Fingerprints.{text_le, then_le}
use hekate.Core.Ids.{EventId, PositionId, PrincipalId}
use hekate.Core.Initiatives.{InitiativeKind}
use hekate.Core.Social.{PrincipalKind, Principal, principal_kind_eq}
use hekate.Core.Stances.{
  Commitment, CommitmentStatus, Conflict, Position, PositionStatus, position_status_eq,
}
use hekate.Core.State.{CurrentState}
use hekate.Prelude.{
  ℕ, Bool, true, false, not, ◌||◌, ◌&&◌, Option, none, some, List, [], ◌∷◌, ◌++◌, any, is_empty,
  is_some_and, ltb, nat_eq, take, if◌then◌else◌, ◌==◌, ℕ_eq, option_eq, list_eq,
}
use hekate.Prelude.BTreeMap.{get, values}
use hekate.Prelude.Options.{◌>>=◌, ◌>>◌, filter_map, require}
use hekate.Prelude.Results.{ok, err}
use hekate.Prelude.Sort.{dedup_by, sort}
use hekate.Prelude.Text.{Text, codes, trim}
use hekate.Projector.Errors.{subject_is}

-- The first question that is not blank, trimmed.
unfoldable pub first_question : List Text → Option Text
first_question [] = none
first_question (question ∷ questions) =
    let rest = first_question questions in
    if is_empty (trim question) then rest else some (trim question)

abbrev pub is_open : CommitmentStatus → Bool
is_open CommitmentStatus.opened = true
is_open _ = false

abbrev pub is_commitment_created : EventKind → Bool
is_commitment_created EventKind.commitment_created = true
is_commitment_created _ = false

abbrev pub is_observation_event : EventKind → Bool
is_observation_event EventKind.observation_recorded = true
is_observation_event EventKind.user_message_received = true
is_observation_event _ = false

module _ (env : Env) (state : CurrentState) (ledger : VerifiedLedger)
    (hekate_id user_id : PrincipalId) where
  -- The position is older than the conflict.
  unfoldable pub is_before : Position → ℕ → Bool
  is_before position conflict_sequence =
      is_some_and (current_position_sequence env position ledger)
        λ sequence. ltb sequence conflict_sequence

  unfoldable pub hekate_participates : ℕ → PositionId → Bool
  hekate_participates conflict_sequence position_id =
      is_some_and (get state.positions position_id) λ position.
        Position.principal_id position == hekate_id
        && Position.status position == PositionStatus.active
        && is_before position conflict_sequence

  unfoldable pub user_participates : ℕ → PositionId → Bool
  user_participates conflict_sequence position_id =
      is_some_and (get state.positions position_id) λ position.
        Position.principal_id position == user_id && is_before position conflict_sequence

  -- What the body of the loop over the conflicts pushes.
  unfoldable pub conflict_candidate : Conflict → Option AgendaCandidate
  conflict_candidate conflict = do
    require (is_unresolved conflict.status)
    question ← first_question conflict.unresolved_questions
    conflict_sequence ← current_conflict_sequence env conflict ledger
    require (
        any (hekate_participates conflict_sequence) conflict.participant_positions
        && any (user_participates conflict_sequence) conflict.participant_positions)
    let sources = bounded_valid_event_ids conflict.evidence_refs ledger (some conflict_sequence)
    require (not (is_empty sources))
    make_candidate env InitiativeKind.question question
        (codes "An open conflict about "
          ++ (trim conflict.subject
              ++ codes " has an unresolved question backed by verified events."))
        (record { kind = EntityKind.conflict; id = conflict.id }) conflict.revision sources user_id
        state.revision

  -- The same for the commitments.
  unfoldable pub commitment_candidate : Commitment → Option AgendaCandidate
  commitment_candidate commitment = do
    require (
        is_open commitment.status
        && commitment.debtor_principal_id == hekate_id
        && commitment.creditor_principal_id == user_id)
    (source_version, event_kind) ← current_commitment env commitment ledger
    require (is_commitment_created event_kind)
    source_event_id ← commitment.source_event_id
    let sources = bounded_valid_event_ids (source_event_id ∷ []) ledger (some source_version)
    require (not (is_empty sources))
    make_candidate env InitiativeKind.follow_up
        (codes "Can I follow up on my commitment: " ++ (commitment.promise ++ codes "?"))
        (codes "HEKATE has an open commitment to this principal with a verified source event.")
        (record { kind = EntityKind.commitment; id = commitment.id }) source_version sources user_id
        state.revision

  -- The observation behind an event, if it bears on the terms.
  unfoldable pub related_observation : ℕ → List Text → ExperienceEvent × ℕ → Option (EventId × ℕ)
  related_observation position_sequence topic_terms (event, sequence) = do
    require (ltb position_sequence sequence && is_observation_event event.event_kind)
    observation ← elim (env.decode_observation event.payload) [ ok o ↦ some o | err e ↦ none ]
    require (
        subject_is event EntityKind.observation (Observation.id observation)
        && event.actor_id == Observation.actor_id observation
        && get state.observations (Observation.id observation) == some observation
        && observation_related env topic_terms (Observation.content observation))
    some (event.event_id, sequence)

  -- The same for the positions.
  unfoldable pub position_candidate : Position → Option AgendaCandidate
  position_candidate position = do
    require (position.principal_id == hekate_id && position.status == PositionStatus.active)
    position_sequence ← current_position_sequence env position ledger
    let topic_terms = position_terms env position
    require (not (is_empty topic_terms))
    let sources =
        latest_sources
          (filter_map (related_observation position_sequence topic_terms) (values ledger))
    require (not (is_empty sources))
    make_candidate env InitiativeKind.challenge
        (codes "Could new evidence change HEKATE's position on "
          ++ (trim position.subject ++ codes "?"))
        (codes "A related observation arrived after this active HEKATE position was recorded.")
        (record { kind = EntityKind.position; id = position.id }) position.version sources user_id
        state.revision

  abbrev pub candidates : List AgendaCandidate
  candidates =
      filter_map conflict_candidate (values state.conflicts)
      ++ (filter_map commitment_candidate (values state.commitments)
          ++ filter_map position_candidate (values state.positions))

abbrev pub priority : InitiativeKind → ℕ
priority InitiativeKind.question = 0
priority InitiativeKind.follow_up = 1
priority InitiativeKind.challenge = 2

-- The comparison of the last sort, as "less or equal".
unfoldable pub candidate_le : AgendaCandidate → AgendaCandidate → Bool
candidate_le left right =
    then_le (ltb (priority left.kind) (priority right.kind))
      (nat_eq (priority left.kind) (priority right.kind))
      (then_le (ltb left.source_entity.id right.source_entity.id)
        (nat_eq left.source_entity.id right.source_entity.id)
        (then_le (ltb left.source_version right.source_version)
          (nat_eq left.source_version right.source_version)
          (text_le left.fingerprint right.fingerprint)))

abbrev pub has_kind : CurrentState → PrincipalId → PrincipalKind → Bool
has_kind state principal_id kind =
    is_some_and (get state.principals principal_id) λ principal. Principal.kind principal == kind

unfoldable pub rank : List AgendaCandidate → List AgendaCandidate
rank found = take max_sleep_candidates (
    dedup_by (λ left right. AgendaCandidate.fingerprint left == AgendaCandidate.fingerprint right)
      (sort candidate_le found))

-- The first guard of `select`.
abbrev pub is_excluded : CurrentState → PrincipalId → PrincipalId → Bool
is_excluded state hekate_id user_id =
    hekate_id == user_id
    || not (has_kind state hekate_id PrincipalKind.hekate_principal)
    || not (has_kind state user_id PrincipalKind.user)

unfoldable pub select :
    Env → CurrentState → List ExperienceEvent → PrincipalId → PrincipalId → List AgendaCandidate
select env state events hekate_id user_id =
    if is_excluded state hekate_id user_id then [] else elim (verified_ledger env state events) [
      | none ↦ []
      | some ledger ↦ rank (candidates env state ledger hekate_id user_id)
    ]
