-- ===== src/Agenda/Provenance.antt =====
-- The events behind what the agenda selects (src/runtime/initiative/agenda.rs).
use hekate.Agenda.{VerifiedLedger}
use hekate.Agenda.Bounds.{IsSources, candidates-Made, cited, observed, select-member}
use hekate.Agenda.Ledger.{enter, enter_all, is_intact, sequences, verified_ledger}
use hekate.Agenda.Select.{related_observation, select}
use hekate.Agenda.Sources.{
  bounded_valid_event_ids, later_first, latest_sources, make_candidate, same_id, valid_source,
}
use hekate.Core.Agenda.{AgendaCandidate}
use hekate.Core.Env.{Env}
use hekate.Core.Events.{ExperienceEvent}
use hekate.Core.Events.{EntityRef}
use hekate.Core.Initiatives.{InitiativeKind}
use hekate.Core.Ids.{EventId, PrincipalId}
use hekate.Core.State.{CurrentState}
use hekate.Prelude.{
  ℕ, suc, ◌≡◌, refl, sym, ◌∙◌, subst, true, false, Bool-cases, ◌⊎◌, none, some, Option-cases, inl,
  inr, List, [], ◌∷◌, arith, contains, leb, nat_eq, take, ℕ_eq, is_some,
}
use hekate.Prelude.BTreeMap.{BTreeMap, contains_key, get, get-insert, insert, values}
use hekate.Prelude.Members.{
  dedup_by-member, filter_map-member, get-member, insert-member, sort-member, take-member,
  values-member,
}
use hekate.Prelude.Options.{>>=-some, filter_map}
use hekate.Prelude.Sort.{dedup_by, sort}
use hekate.Prelude.Text.{Text}
use mathlib.Core.List.{Memᴰ}
use mathlib.Core.List.Memᴰ

sequences-known :
    (index : ℕ) (ids : List EventId) (found : BTreeMap ℕ) (k v : ℕ)
    → get (sequences index ids found) k ≡ some v
    → (contains ids k ≡ true) ⊎ (is_some (get found k) ≡ true)
unfolding sequences contains
sequences-known index [] found k v g = inr (ground (arith, g))
sequences-known index (id ∷ ids) found k v g = ground (
  arith,
  sequences-known (suc index) ids (insert found id (suc index)) k v g,
  get-insert found id (suc index) k,
)

module _ (env : Env) (state : CurrentState) (events : List ExperienceEvent) where
  -- An intact event of the log that the state has applied has this id.
  pub record IsRecorded (id : EventId) : Type 0 where
    pub event : ExperienceEvent
    pub logged : Memᴰ event events
    pub named : event.event_id ≡ id
    pub intact : is_intact env event ≡ true
    pub applied : contains state.applied_events id ≡ true

  -- Every entry of the ledger stands under the id of its event, which is recorded.
  abbrev AreRecorded : VerifiedLedger → Type 0
  AreRecorded ledger =
      (entry : ℕ × (ExperienceEvent × ℕ))
      → Memᴰ entry ledger
      → (entry.1.0.event_id ≡ entry.0) × IsRecorded entry.0

  enter-AreRecorded :
      (known : BTreeMap ℕ) (ledger : VerifiedLedger) (event : ExperienceEvent)
      → ((k v : ℕ) → get known k ≡ some v → contains state.applied_events k ≡ true)
      → Memᴰ event events
      → AreRecorded ledger
      → AreRecorded (enter env known ledger event)
  unfolding enter
  enter-AreRecorded known ledger event applied logged sound =
      elim (Option-cases (get known event.event_id)) [
        | inl absent ↦ stays (unknown absent)
        | inr (sequence, found) ↦ elim (Bool-cases (is_intact env event)) [
          | inr broken ↦ stays (refused sequence found broken)
          | inl intact ↦ elim (Bool-cases (contains_key ledger event.event_id)) [
            | inl held ↦ stays (repeated sequence found intact held)
            | inr new ↦
                subst AreRecorded (sym (added sequence found intact new))
                  (entered sequence found intact)
          ]
        ]
      ]
    where
      stays : enter env known ledger event ≡ ledger → AreRecorded (enter env known ledger event)
      stays same = subst AreRecorded (sym same) sound

      unknown : get known event.event_id ≡ none → enter env known ledger event ≡ ledger
      unknown absent = rw (absent, enter) refl

      refused :
          (sequence : ℕ)
          → get known event.event_id ≡ some sequence
          → is_intact env event ≡ false
          → enter env known ledger event ≡ ledger
      refused sequence found broken = rw (found, enter, broken) refl

      repeated :
          (sequence : ℕ)
          → get known event.event_id ≡ some sequence
          → is_intact env event ≡ true
          → contains_key ledger event.event_id ≡ true
          → enter env known ledger event ≡ ledger
      repeated sequence found intact held = rw (found, enter, intact, held) refl

      added :
          (sequence : ℕ)
          → get known event.event_id ≡ some sequence
          → is_intact env event ≡ true
          → contains_key ledger event.event_id ≡ false
          → enter env known ledger event ≡ insert ledger event.event_id (event, sequence)
      added sequence found intact new = rw (found, enter, intact, new) refl

      recorded :
          (sequence : ℕ)
          → get known event.event_id ≡ some sequence
          → is_intact env event ≡ true
          → IsRecorded event.event_id
      recorded sequence found intact = record {
        event = event;
        logged = logged;
        named = refl;
        intact = intact;
        applied = applied event.event_id sequence found;
      }

      entered :
          (sequence : ℕ)
          → get known event.event_id ≡ some sequence
          → is_intact env event ≡ true
          → AreRecorded (insert ledger event.event_id (event, sequence))
      entered sequence found intact entry m =
          elim (insert-member ledger event.event_id (event, sequence) entry m) [
            | inl same ↦
                subst (λ (e : ℕ × (ExperienceEvent × ℕ)). (e.1.0.event_id ≡ e.0) × IsRecorded e.0)
                  (sym same) (refl, recorded sequence found intact)
            | inr old ↦ sound entry old
          ]

  enter_all-AreRecorded :
      (known : BTreeMap ℕ) (ledger : VerifiedLedger) (rest : List ExperienceEvent)
      → ((k v : ℕ) → get known k ≡ some v → contains state.applied_events k ≡ true)
      → ((event : ExperienceEvent) → Memᴰ event rest → Memᴰ event events)
      → AreRecorded ledger
      → AreRecorded (enter_all env known ledger rest)
  unfolding enter_all
  enter_all-AreRecorded known ledger [] applied logged sound = sound
  enter_all-AreRecorded known ledger (event ∷ rest) applied logged sound =
      enter_all-AreRecorded known (enter env known ledger event) rest applied
        (λ e m. logged e (Memᴰ.tail m))
        (enter-AreRecorded known ledger event applied (logged event (Memᴰ.head refl)) sound)

  sequences-applied :
      (k v : ℕ)
      → get (sequences 0 state.applied_events []) k ≡ some v
      → contains state.applied_events k ≡ true
  unfolding get
  sequences-applied k v g = elim (sequences-known 0 state.applied_events [] k v g) [
    | inl held ↦ held
    | inr nowhere ↦ cc
  ]

  ledger-AreRecorded :
      (ledger : VerifiedLedger)
      → verified_ledger env state events ≡ some ledger
      → AreRecorded ledger
  unfolding verified_ledger
  ledger-AreRecorded ledger q =
      let known = sequences 0 state.applied_events [] in
      let found : enter_all env known [] events ≡ ledger = ground (arith, q) in
      subst AreRecorded found
        (enter_all-AreRecorded known [] events sequences-applied (λ e m. m) (λ entry m. elim m [ ]))

latest_sources-member :
    (valid : List (EventId × ℕ)) (id : EventId)
    → Memᴰ id (latest_sources valid)
    → (pair : EventId × ℕ) × Memᴰ pair valid × (pair.0 ≡ id)
unfolding latest_sources
latest_sources-member valid id m =
    let (pair, held, named) = Memᴰ.of_map _ _ (sort-member leb _ id m) in
    (
      pair,
      sort-member later_first valid pair
          (dedup_by-member same_id _ pair (take-member 16 _ pair held)),
      named,
    )

module _ (env : Env) (state : CurrentState) (events : List ExperienceEvent)
    (ledger : VerifiedLedger) (hekate_id user_id : PrincipalId)
    (verified : verified_ledger env state events ≡ some ledger) where
  source_of_entry :
      (id k : EventId) (event : ExperienceEvent) (sequence : ℕ)
      → Memᴰ (k, (event, sequence)) ledger
      → event.event_id ≡ id
      → IsRecorded env state events id
  source_of_entry id k event sequence m named =
      let (keyed, recorded) =
        ledger-AreRecorded env state events ledger verified (k, (event, sequence)) m in
      subst (IsRecorded env state events) (sym keyed ∙ named) recorded

  cited_source :
      (refs : List EventId) (before : ℕ) (id : EventId)
      → Memᴰ id (bounded_valid_event_ids refs ledger (some before))
      → IsRecorded env state events id
  unfolding bounded_valid_event_ids valid_source
  cited_source refs before id m =
      let (pair, held, named) = latest_sources-member _ id m in
      let (ref, _, made) = filter_map-member (valid_source ledger (some before)) refs pair held in
      let (entry, rest, found) = >>=-some (get ledger ref) _ made in
      let same : ref ≡ id = ground (arith, rest, named) in
      let (_, recorded) =
        ledger-AreRecorded env state events ledger verified (ref, entry)
          (get-member ledger ref entry found) in
      subst (IsRecorded env state events) same recorded

  observed_source :
      (after : ℕ) (terms : List Text) (id : EventId)
      → Memᴰ id (
          latest_sources (
            filter_map
              (related_observation env state ledger hekate_id user_id after terms)
              (values ledger)))
      → IsRecorded env state events id
  unfolding related_observation
  observed_source after terms id m =
      let (pair, held, named) = latest_sources-member _ id m in
      let (entry, inside, made) =
        filter_map-member (related_observation env state ledger hekate_id user_id after terms)
          (values ledger) pair held in
      let (k, keyed) = values-member ledger entry inside in
      source_of_entry id k entry.0 entry.1 keyed (ground (arith, made, named))

  source-IsRecorded :
      (sources : List EventId) (id : EventId)
      → IsSources env state ledger hekate_id user_id sources
      → Memᴰ id sources
      → IsRecorded env state events id
  source-IsRecorded _ id (cited refs before) m = cited_source refs before id m
  source-IsRecorded _ id (observed after terms) m = observed_source after terms id m

made_sources :
    (env : Env) (candidate : AgendaCandidate) (kind : InitiativeKind) (content rationale : Text)
    (source : EntityRef) (version : ℕ) (sources : List EventId) (user_id : PrincipalId)
    (revision : ℕ) (id : EventId)
    → make_candidate env kind content rationale source version sources user_id revision
      ≡ some candidate
    → Memᴰ id candidate.source_event_ids
    → Memᴰ id sources
unfolding make_candidate
made_sources env candidate kind content rationale source version sources user_id revision id q m =
    let same : candidate.source_event_ids ≡ take 16 (dedup_by nat_eq (sort leb sources)) =
      ground (arith, q) in
    sort-member leb sources id (
      dedup_by-member nat_eq (sort leb sources) id
        (take-member 16 _ id (subst (λ l. Memᴰ id l) same m)))

-- Every source of a candidate that the agenda selects is the id of an event of the log whose hash is intact
-- and which the state has applied.
pub selected_source-IsRecorded :
    (env : Env) (state : CurrentState) (events : List ExperienceEvent)
    (hekate_id user_id : PrincipalId) (candidate : AgendaCandidate) (id : EventId)
    → Memᴰ candidate (select env state events hekate_id user_id)
    → Memᴰ id candidate.source_event_ids
    → IsRecorded env state events id
selected_source-IsRecorded env state events hekate_id user_id candidate id m held =
    let (ledger, verified, inside) = select-member env state events hekate_id user_id candidate m in
    let c = candidates-Made env state ledger hekate_id user_id candidate inside in
    source-IsRecorded env state events ledger hekate_id user_id verified c.sources id c.found (
      made_sources env candidate c.kind c.content c.rationale c.source c.version c.sources user_id
        state.revision id c.made held)
