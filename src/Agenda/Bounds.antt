-- ===== src/Agenda/Bounds.antt =====
-- The bounds on what the agenda selects (src/runtime/initiative/agenda.rs).
use hekate.Agenda.{VerifiedLedger}
use hekate.Agenda.Select.{
  candidate_le, candidates, commitment_candidate, conflict_candidate, position_candidate, rank,
  select,
}
use hekate.Agenda.Ledger.{
  current_commitment, current_conflict_sequence, current_position_sequence, verified_ledger,
}
use hekate.Agenda.Select.{related_observation}
use hekate.Agenda.Sources.{
  bounded_valid_event_ids, latest_sources, position_terms, bounded_text, make_candidate, take_bytes,
}
use hekate.Core.Agenda.{AgendaCandidate}
use hekate.Core.Env.{Env}
use hekate.Core.Events.{EntityRef, ExperienceEvent}
use hekate.Core.Fingerprints.{initiative_fingerprint}
use hekate.Core.Ids.{EventId, PrincipalId}
use hekate.Core.Initiatives.{InitiativeKind}
use hekate.Core.Proposals.{max_candidate_sources}
use hekate.Core.Stances.{Commitment, Conflict, Position}
use hekate.Core.State.{CurrentState}
use hekate.Prelude.{
  ℕ, any, not, ◌&&◌, ◌==◌, ℕ_eq, ◌-◌, Bool-cases, ◌≤◌, ◌≡◌, refl, subst, true, false, some, none,
  Option-cases, inl, inr, List, [], ◌∷◌, arith, is_empty, leb, length, nat_eq,
}
use hekate.Prelude.BTreeMap.{values}
use hekate.Prelude.Options.{>>=-some, require}
use hekate.Core.Blocked.{is_unresolved}
use hekate.Core.Stances.{PositionStatus, position_status_eq}
use hekate.Agenda.Select.{
  is_excluded, first_question, hekate_participates, user_participates, is_open,
  is_commitment_created,
}
use hekate.Prelude.Members.{
  dedup_by-member, filter_map-member, length-take, sort-member, take-member,
}
use hekate.Prelude.Options.{filter_map}
use hekate.Prelude.Sort.{dedup_by, sort}
use hekate.Prelude.Text.{Text, len, trim, trim_end, utf8_width}
use mathlib.Core.List.{Memᴰ}
use mathlib.Core.List.Memᴰ

len-take_bytes : (n : ℕ) (s : Text) → len (take_bytes n s) ≤ n
unfolding take_bytes len
len-take_bytes n [] = omega arith
len-take_bytes n (c ∷ s) = ground (arith, len-take_bytes (n - utf8_width c) s)

len-trim_end : (s : Text) → len (trim_end s) ≤ len s
unfolding trim_end len
len-trim_end [] = omega arith
len-trim_end (c ∷ s) = ground (arith, len-trim_end s)

len-bounded_text : (value : Text) → len (bounded_text value) ≤ 320
unfolding bounded_text
len-bounded_text value =
    omega (arith, len-trim_end (take_bytes 320 (trim value)), len-take_bytes 320 (trim value))

-- The bounds of a candidate, with its target and its revision.
pub record IsBounded (env : Env) (user_id : PrincipalId) (revision : ℕ)
    (candidate : AgendaCandidate) : Type 0 where
  pub sourced : is_empty candidate.source_event_ids ≡ false
  pub few_sources : length candidate.source_event_ids ≤ 16
  pub content : is_empty candidate.content ≡ false
  pub short_content : len candidate.content ≤ 320
  pub rationale : is_empty candidate.rationale ≡ false
  pub short_rationale : len candidate.rationale ≤ 320
  pub target : candidate.target_principal_id ≡ user_id
  pub current : candidate.as_of_revision ≡ revision
  pub fingerprint :
      candidate.fingerprint
      ≡ initiative_fingerprint env candidate.kind candidate.source_entity candidate.source_version
          candidate.target_principal_id candidate.source_event_ids

make_candidate-IsBounded :
    (env : Env) (kind : InitiativeKind) (content rationale : Text) (source : EntityRef)
    (version : ℕ) (sources : List EventId) (user_id : PrincipalId) (revision : ℕ)
    (candidate : AgendaCandidate)
    → make_candidate env kind content rationale source version sources user_id revision
      ≡ some candidate
    → IsBounded env user_id revision candidate
unfolding make_candidate
make_candidate-IsBounded env kind content rationale source version sources user_id revision
      candidate q =
    record {
      sourced = ground (arith, q);
      few_sources =
          ground (arith, q, length-take max_candidate_sources (dedup_by nat_eq (sort leb sources)));
      content = ground (arith, q);
      short_content = ground (arith, q, len-bounded_text content);
      rationale = ground (arith, q);
      short_rationale = ground (arith, q, len-bounded_text rationale);
      target = ground (arith, q);
      current = ground (arith, q);
      fingerprint = ground (arith, q);
    }

module _ (env : Env) (state : CurrentState) (ledger : VerifiedLedger)
    (hekate_id user_id : PrincipalId) where
  -- The list that the sources of a candidate are taken from.
  pub data IsSources : List EventId → Type 0 where
    cited :
        (refs : List EventId) (before : ℕ)
        → IsSources (bounded_valid_event_ids refs ledger (some before))
    observed :
        (after : ℕ) (terms : List Text)
        → IsSources (
            latest_sources (
              filter_map
                (related_observation env state ledger hekate_id user_id after terms)
                (values ledger)))

  -- A call of `make_candidate` made the candidate.
  pub record Made (candidate : AgendaCandidate) : Type 0 where
    pub kind : InitiativeKind
    pub content : Text
    pub rationale : Text
    pub source : EntityRef
    pub version : ℕ
    pub sources : List EventId
    pub found : IsSources sources
    pub made :
        make_candidate env kind content rationale source version sources user_id state.revision
        ≡ some candidate

  conflict-Made :
      (conflict : Conflict) (candidate : AgendaCandidate)
      → conflict_candidate env state ledger hekate_id user_id conflict ≡ some candidate
      → Made candidate
  unfolding conflict_candidate
  conflict-Made conflict candidate q =
      let (_, rest, _) = >>=-some (require (is_unresolved conflict.status)) _ q in
      let (question, rest, _) = >>=-some (first_question conflict.unresolved_questions) _ rest in
      let (sequence, rest, _) = >>=-some (current_conflict_sequence env conflict ledger) _ rest in
      let (_, rest, _) =
        >>=-some
          (require (
            any (hekate_participates env state ledger hekate_id user_id sequence)
              conflict.participant_positions
            && any (user_participates env state ledger hekate_id user_id sequence)
                conflict.participant_positions))
          _ rest in
      let sources = bounded_valid_event_ids conflict.evidence_refs ledger (some sequence) in
      let (_, rest, _) = >>=-some (require (not (is_empty sources))) _ rest in
      record {
        kind = InitiativeKind.question;
        content = _;
        rationale = _;
        source = _;
        version = _;
        sources = sources;
        found = cited conflict.evidence_refs sequence;
        made = rest;
      }

  commitment-Made :
      (commitment : Commitment) (candidate : AgendaCandidate)
      → commitment_candidate env state ledger hekate_id user_id commitment ≡ some candidate
      → Made candidate
  unfolding commitment_candidate
  commitment-Made commitment candidate q =
      let (_, rest, _) =
        >>=-some
          (require (
            is_open commitment.status
            && commitment.debtor_principal_id == hekate_id
            && commitment.creditor_principal_id == user_id))
          _ q in
      let (current, rest, _) = >>=-some (current_commitment env commitment ledger) _ rest in
      let (_, rest, _) = >>=-some (require (is_commitment_created current.1)) _ rest in
      let (source_event_id, rest, _) = >>=-some commitment.source_event_id _ rest in
      let sources = bounded_valid_event_ids (source_event_id ∷ []) ledger (some current.0) in
      let (_, rest, _) = >>=-some (require (not (is_empty sources))) _ rest in
      record {
        kind = InitiativeKind.follow_up;
        content = _;
        rationale = _;
        source = _;
        version = _;
        sources = sources;
        found = cited (source_event_id ∷ []) current.0;
        made = rest;
      }

  position-Made :
      (position : Position) (candidate : AgendaCandidate)
      → position_candidate env state ledger hekate_id user_id position ≡ some candidate
      → Made candidate
  unfolding position_candidate
  position-Made position candidate q =
      let (_, rest, _) =
        >>=-some
          (require (position.principal_id == hekate_id && position.status == PositionStatus.active))
          _ q in
      let (sequence, rest, _) = >>=-some (current_position_sequence env position ledger) _ rest in
      let terms = position_terms env position in
      let (_, rest, _) = >>=-some (require (not (is_empty terms))) _ rest in
      let sources = latest_sources (
        filter_map (related_observation env state ledger hekate_id user_id sequence terms)
          (values ledger)) in
      let (_, rest, _) = >>=-some (require (not (is_empty sources))) _ rest in
      record {
        kind = InitiativeKind.challenge;
        content = _;
        rationale = _;
        source = _;
        version = _;
        sources = sources;
        found = observed sequence terms;
        made = rest;
      }

  pub candidates-Made :
      (candidate : AgendaCandidate)
      → Memᴰ candidate (candidates env state ledger hekate_id user_id)
      → Made candidate
  candidates-Made candidate m =
      elim (Memᴰ.append_cases
        (filter_map (conflict_candidate env state ledger hekate_id user_id)
          (values state.conflicts))
        m) [
          | inl first ↦
              let (conflict, _, q) = filter_map-member _ (values state.conflicts) candidate first in
              conflict-Made conflict candidate q
          | inr rest ↦
              elim (Memᴰ.append_cases
                (filter_map (commitment_candidate env state ledger hekate_id user_id)
                  (values state.commitments))
                rest) [
                  | inl second ↦
                      let (commitment, _, q) =
                        filter_map-member _ (values state.commitments) candidate second in
                      commitment-Made commitment candidate q
                  | inr third ↦
                      let (position, _, q) =
                        filter_map-member _ (values state.positions) candidate third in
                      position-Made position candidate q
                ]
        ]

rank-member :
    (found : List AgendaCandidate) (candidate : AgendaCandidate)
    → Memᴰ candidate (rank found)
    → Memᴰ candidate found
unfolding rank
rank-member found candidate m =
    sort-member candidate_le found candidate
      (dedup_by-member _ (sort candidate_le found) candidate (take-member 8 _ candidate m))

-- The ledger that a selected candidate comes from.
pub select-member :
    (env : Env) (state : CurrentState) (events : List ExperienceEvent)
    (hekate_id user_id : PrincipalId) (candidate : AgendaCandidate)
    → Memᴰ candidate (select env state events hekate_id user_id)
    → (ledger : VerifiedLedger) × (verified_ledger env state events ≡ some ledger)
      × Memᴰ candidate (candidates env state ledger hekate_id user_id)
unfolding select
select-member env state events hekate_id user_id candidate m =
    elim (Bool-cases (is_excluded state hekate_id user_id)) [
      | inl out ↦ absurd (Memᴰ.not-nil (subst (λ l. Memᴰ candidate l) (excluded out) m))
      | inr admitted ↦ elim (Option-cases (verified_ledger env state events)) [
        | inl absent ↦
            absurd (Memᴰ.not-nil (subst (λ l. Memᴰ candidate l) (unverified admitted absent) m))
        | inr (ledger, found) ↦ (
          ledger,
          found,
          rank-member _ candidate (subst (λ l. Memᴰ candidate l) (ranked admitted ledger found) m),
        )
      ]
    ]
  where
    excluded :
        is_excluded state hekate_id user_id ≡ true → select env state events hekate_id user_id ≡ []
    excluded out = rw out refl

    unverified :
        is_excluded state hekate_id user_id ≡ false
        → verified_ledger env state events ≡ none
        → select env state events hekate_id user_id ≡ []
    unverified admitted absent = rw (admitted, absent) refl

    ranked :
        is_excluded state hekate_id user_id ≡ false
        → (ledger : VerifiedLedger) → verified_ledger env state events ≡ some ledger
        → select env state events hekate_id user_id
          ≡ rank (candidates env state ledger hekate_id user_id)
    ranked admitted ledger found = rw (admitted, found) refl

-- Every candidate that the agenda selects has from 1 to 16 sources, a content and a rationale of 1 to 320
-- bytes, the user as its target, the revision of the state, and the fingerprint of what it says.
pub selected-IsBounded :
    (env : Env) (state : CurrentState) (events : List ExperienceEvent)
    (hekate_id user_id : PrincipalId) (candidate : AgendaCandidate)
    → Memᴰ candidate (select env state events hekate_id user_id)
    → IsBounded env user_id state.revision candidate
selected-IsBounded env state events hekate_id user_id candidate m =
    let (ledger, _, held) = select-member env state events hekate_id user_id candidate m in
    let c = candidates-Made env state ledger hekate_id user_id candidate held in
    make_candidate-IsBounded env c.kind c.content c.rationale c.source c.version c.sources user_id
      state.revision candidate c.made
