-- ===== src/Engine/Finality.antt =====
-- Closed conflicts in a session of turns and other batches (src/runtime/engine.rs).
use hekate.Core.Actions.{ActionIntent, Decision}
use hekate.Core.Blocked.{is_unresolved}
use hekate.Core.Env.{Env}
use hekate.Core.Events.{EventKind, ExperienceEvent}
use hekate.Core.Ids.{ConflictId, EventId, PrincipalId}
use hekate.Core.Stances.{Conflict}
use hekate.Core.State.{CurrentState}
use hekate.Core.Thoughts.{CognitiveTrace}
use hekate.Deliberation.History.{another_conflict}
use hekate.Engine.{Turn, decided, evidence_event_ids}
use hekate.Engine.Conflicts.{AllSpare, ConflictKeepsId, final_events-Spare, no_events, one_more}
use hekate.Engine.Events.{proposed_by}
use hekate.Engine.Judged.{end_turn-Finished}
use hekate.Engine.Turns.{Evaluate, Step, batch, decision_of, end_turn, session, turn_ends}
use hekate.Prelude.{
  ◌≡◌, ◌≢◌, refl, ap, sym, ◌∙◌, subst, Bool, true, false, not, ℕ, ℕ_eq, list_eq, Option, none, some,
  List, [], ◌∷◌, all, arith, inl, inr,
}
use hekate.Prelude.BTreeMap.{get, get-insert}
use hekate.Prelude.Text.{Text}
use hekate.Prelude.Results.{
  try_fold, Ensures, Ensures-bind, Ensures-ok, Result-cases, ok, ok-injective,
}
use hekate.Projector.Apply.{advance, apply_all, dispatch}
use hekate.Projector.Batch.{record_batch}
use hekate.Projector.BatchLaws.{map_err-ok, recorded}
use hekate.Projector.Conflicts.{store_conflict}
use hekate.Projector.Errors.{invalid_payload, payload}
use hekate.Projector.Footprint.{dispatch-Footprint, touches_conflicts}
use hekate.Projector.Inserts.{apply_conflict}
use hekate.Projector.Steps.{apply-Applied, apply_all-cons}
use hekate.Storage.{Storage}

-- `closed` is stored under `id`.
abbrev pub Stored : ConflictId → Conflict → CurrentState → Type 0
Stored id closed s = get s.conflicts id ≡ some closed

module _ (env : Env) (id : ConflictId) (closed : Conflict) where
  store_conflict-Stored :
      (s : CurrentState) (conflict : Conflict)
      → conflict.id ≢ id
      → Stored id closed s
      → Stored id closed (store_conflict s conflict)
  unfolding store_conflict
  store_conflict-Stored s conflict other stored =
      ground (arith, get-insert s.conflicts conflict.id conflict id)

  conflict-Stored :
      (s : CurrentState) (e : ExperienceEvent)
      → ((now : Text) (c : Conflict) → env.decode_conflict now e.payload ≡ ok c → c.id ≢ id)
      → Stored id closed s
      → Ensures (Stored id closed) (apply_conflict env s e)
  unfolding apply_conflict payload
  conflict-Stored s e other stored =
      Ensures-bind _ (payload (env.decode_conflict (env.projected_at e)) e) _ λ c decoded.
        Ensures-ok _ _ (
          store_conflict-Stored s c
            (other (env.projected_at e) c (
              map_err-ok (invalid_payload e.event_kind)
                (env.decode_conflict (env.projected_at e) e.payload) c decoded))
            stored)

  dispatch-Stored :
      (kind : EventKind) (s : CurrentState) (e : ExperienceEvent)
      → (touches_conflicts kind ≡ true
          → (now : Text) (c : Conflict) → env.decode_conflict now e.payload ≡ ok c
          → c.id ≢ id)
      → Stored id closed s
      → Ensures (Stored id closed) (dispatch kind env s e)
  unfolding dispatch
  dispatch-Stored EventKind.conflict_opened s e h stored = conflict-Stored s e (h refl) stored
  dispatch-Stored EventKind.conflict_updated s e h stored = conflict-Stored s e (h refl) stored
  dispatch-Stored EventKind.conflict_resolved s e h stored = conflict-Stored s e (h refl) stored
  dispatch-Stored EventKind.conflict_recorded s e h stored = conflict-Stored s e (h refl) stored
  dispatch-Stored kind s e h stored = record {
    at = λ t q. ap (λ m. get m id) ((dispatch-Footprint kind env s e).at t q).conflicts ∙ stored;
  }

  -- Events that spare the conflict leave it as it is stored.
  apply_all-Stored :
      (s : CurrentState) (es : List ExperienceEvent) (s' : CurrentState)
      → AllSpare env id es
      → Stored id closed s
      → apply_all env s es ≡ ok s'
      → Stored id closed s'
  unfolding advance try_fold
  apply_all-Stored s [] s' h stored q = subst (Stored id closed) (ok-injective s s' q) stored
  apply_all-Stored s (e ∷ es) s' (one_more p h) stored q =
      let (t, rest, one) = apply_all-cons env s e es s' q in
      let a = apply-Applied env s e t one in
      let moved = (dispatch-Stored e.event_kind s e p stored).at a.moved a.ran in
      apply_all-Stored t es s' h (subst (Stored id closed) (sym a.counted) moved) rest

  -- Events of other kinds.
  other_kinds :
      (es : List ExperienceEvent)
      → all (λ (e : ExperienceEvent). not (touches_conflicts e.event_kind)) es ≡ true
      → AllSpare env id es
  unfolding all
  other_kinds [] h = no_events
  other_kinds (e ∷ es) h =
      one_more (λ touches _ _ _ _. absurd (both touches)) (other_kinds es (ground (arith, h)))
    where
      both : touches_conflicts e.event_kind ≡ true → ⊥
      both touches = ground (arith, h, touches)

proposed_conflict :
    (event_id : EventId) (decision : Decision)
    → (proposed_by event_id decision).conflict ≡ decision.conflict
proposed_conflict event_id decision = with_action decision.action
  where
    with_action :
        (action : Option ActionIntent)
        → (proposed_by event_id (record decision { action = action })).conflict ≡ decision.conflict
    with_action none = refl
    with_action (some intent) = refl

-- Only the end of a turn has an event on a conflict.
unfoldable pub is_conflict_free : Step → Bool
is_conflict_free (batch events expected trace) =
    all (λ (e : ExperienceEvent). not (touches_conflicts e.event_kind)) events
is_conflict_free (turn_ends turn) = true

module _ {Store : Type 0} (port : Storage Store CognitiveTrace) (env : Env) (evaluate : Evaluate)
    (hekate_id : PrincipalId) where
  module _ (id : ConflictId) (closed : Conflict) (final : is_unresolved closed.status ≡ false) where
    -- The store loads a state that holds the conflict as it was.
    abbrev pub Holds : Store → Type 0
    Holds store = (s : CurrentState) × (port.load_state store ≡ ok s) × Stored id closed s

    batch-Holds :
        (store : Store) (es : List ExperienceEvent) (expected : Option ℕ)
        (trace : Option CognitiveTrace) (s s' : CurrentState) (after : Store)
        → port.load_state store ≡ ok s
        → Stored id closed s
        → AllSpare env id es
        → record_batch port env store es expected trace ≡ ok (s', after)
        → Holds after
    batch-Holds store es expected trace s s' after loaded stored spare q =
        let r = recorded port env store es expected trace s' after q in
        let same : r.before ≡ s = ok-injective r.before s (sym r.loaded ∙ loaded) in
        (
          s',
          r.kept,
          apply_all-Stored env id closed s es s' spare stored
              (subst (λ b. apply_all env b es ≡ ok s') same r.applied),
        )

    turn-Holds :
        (store : Store) (turn : Turn) (s s' : CurrentState) (after : Store)
        → ConflictKeepsId env
        → port.load_state store ≡ ok s
        → Stored id closed s
        → end_turn port env evaluate hekate_id store turn ≡ ok (s', after)
        → Holds after
    turn-Holds store turn s s' after keeps loaded stored q =
        let f = end_turn-Finished port env evaluate hekate_id store s turn s' after loaded q in
        let judgment = decision_of turn in
        let made_by = proposed_by (turn.stamp decided).event_id judgment in
        let other = λ (c : Conflict) (present : made_by.conflict ≡ some c).
          another_conflict turn.context s (evidence_event_ids turn.context) judgment hekate_id c id
            closed stored final f.accepted
            (sym (proposed_conflict (turn.stamp decided).event_id judgment) ∙ present) in
        batch-Holds store f.events _ _ s s' after loaded stored
          ((final_events-Spare env hekate_id s turn id made_by f.policy keeps other).at f.events
            f.made)
          f.written

    -- A conflict that is resolved, or settled as an accepted disagreement, is final: where only the ends of
    -- turns have events on conflicts, and decoding an encoded conflict keeps its id, it stays as it is
    -- stored through any session of turns and other batches, whichever of them succeed.
    pub closed_conflict_is_final :
        ConflictKeepsId env
        → (store : Store) (steps : List Step) → all is_conflict_free steps ≡ true
        → Holds store
        → Holds (session port env evaluate hekate_id store steps)
    unfolding session all is_conflict_free
    closed_conflict_is_final keeps store [] free holds = holds
    closed_conflict_is_final keeps store (batch es expected trace ∷ steps) free
          (s, loaded, stored) =
        elim (Result-cases (record_batch port env store es expected trace)) [
          | inl ((s', after), q) ↦ rw q (
              closed_conflict_is_final keeps after steps (ground (arith, free)) (
                batch-Holds store es expected trace s s' after loaded stored
                  (other_kinds env id closed es (ground (arith, free))) q))
          | inr (e, q) ↦ rw q (
              closed_conflict_is_final keeps store steps (ground (arith, free)) (s, loaded, stored))
        ]
    closed_conflict_is_final keeps store (turn_ends turn ∷ steps) free (s, loaded, stored) =
        elim (Result-cases (end_turn port env evaluate hekate_id store turn)) [
          | inl ((s', after), q) ↦ rw q (
              closed_conflict_is_final keeps after steps (ground (arith, free))
                (turn-Holds store turn s s' after keeps loaded stored q))
          | inr (e, q) ↦ rw q (
              closed_conflict_is_final keeps store steps (ground (arith, free)) (s, loaded, stored))
        ]
