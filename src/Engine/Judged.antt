-- ===== src/Engine/Judged.antt =====
-- What the end of a turn has checked when its events are recorded (src/runtime/engine.rs).
use hekate.Core.Actions.{ActionIntent, Decision}
use hekate.Core.Env.{Env}
use hekate.Core.Events.{ExperienceEvent}
use hekate.Core.Ids.{PrincipalId}
use hekate.Core.State.{CurrentState}
use hekate.Core.Thoughts.{CognitiveTrace}
use hekate.Deliberation.Judgment.{validate_judgment}
use hekate.Engine.{
  PolicyDecision, Turn, decided, evidence_event_ids, invalid_cognitive_trace, judgment_failed,
  storage_failed, trace_for_decision, turn_is_stale,
}
use hekate.Engine.Events.{final_events, proposed_by}
use hekate.Engine.Turns.{Evaluate, check_policy, commit_error, decision_of, end_turn, finish_turn}
use hekate.Prelude.{
  ◌≡◌, refl, sym, ◌∙◌, subst, Bool, true, false, ◌||◌, ◌!=◌, ℕ_eq, list_eq, Option, none, some,
  List, arith,
}
use hekate.Prelude.Results.{ok, ok-injective, map_err, reject_if, >>=-eq-ok}
use hekate.Projector.Batch.{record_batch}
use hekate.Projector.BatchLaws.{map_err-ok}
use hekate.Storage.{Storage}
use hekate.Prelude.{eq_of_beq}
use hekate.Prelude.Results.{err}

module _ {Store : Type 0} (port : Storage Store CognitiveTrace) (env : Env) (evaluate : Evaluate)
    (hekate_id : PrincipalId) where
  -- A turn that has ended was judged on the stored state, and its events are recorded.
  pub record Finished (store : Store) (s : CurrentState) (turn : Turn) (s' : CurrentState)
      (after : Store) : Type 0 where
    pub accepted :
        validate_judgment turn.context s
          (evidence_event_ids turn.context)
          (decision_of turn)
          hekate_id
        ≡ ok tt
    pub policy : Option PolicyDecision
    pub events : List ExperienceEvent
    pub made :
        final_events env hekate_id s turn
          (proposed_by (turn.stamp decided).event_id (decision_of turn))
          policy
        ≡ ok events
    pub fresh : s.revision ≡ turn.context.event_sequence
    pub traced :
        (turn.cycle.trace.context_sequence ≡ turn.context.event_sequence)
        × (turn.cycle.trace.context_hash ≡ turn.context.snapshot_hash)
    pub permitted : check_policy evaluate hekate_id (Decision.action (decision_of turn)) ≡ ok policy
    pub written :
        record_batch port env store events
          (some turn.context.event_sequence)
          (some (trace_for_decision turn.cycle.trace (decision_of turn)))
        ≡ ok (s', after)

  pub end_turn-Finished :
      (store : Store) (s : CurrentState) (turn : Turn) (s' : CurrentState) (after : Store)
      → port.load_state store ≡ ok s
      → end_turn port env evaluate hekate_id store turn ≡ ok (s', after)
      → Finished store s turn s' after
  unfolding end_turn finish_turn
  end_turn-Finished store s turn s' after loaded q =
      let context = turn.context in
      let (state, rest, first) = >>=-eq-ok (map_err storage_failed (port.load_state store)) _ q in
      let same : state ≡ s =
        ok-injective state s (sym (map_err-ok storage_failed _ state first) ∙ loaded) in
      let (latest, rest, again) =
        >>=-eq-ok (map_err storage_failed (port.load_state store)) _ rest in
      let fresh_latest : latest ≡ s =
        ok-injective latest s (sym (map_err-ok storage_failed _ latest again) ∙ loaded) in
      let (_, rest, fresh) =
        >>=-eq-ok
          (reject_if (CurrentState.revision latest != context.event_sequence)
            (turn_is_stale context.event_sequence (CurrentState.revision latest)))
          _ rest in
      let (_, rest, traced) =
        >>=-eq-ok
          (reject_if
            (turn.cycle.trace.context_sequence != context.event_sequence
              || turn.cycle.trace.context_hash != context.snapshot_hash)
            (invalid_cognitive_trace "cognitive trace does not match its thought context"))
          _ rest in
      let (_, rest, judged) = >>=-eq-ok (map_err judgment_failed _) _ rest in
      let (policy, rest, permitted) =
        >>=-eq-ok (check_policy evaluate hekate_id (Decision.action (decision_of turn))) _ rest in
      let (events, rest, made) = >>=-eq-ok _ _ rest in
      subst (λ x. Finished store x turn s' after) same
        (record {
          accepted = map_err-ok judgment_failed _ tt judged;
          policy = policy;
          events = events;
          fresh =
              subst (λ (x : CurrentState). x.revision ≡ context.event_sequence)
                (fresh_latest ∙ sym same) (ground (arith, fresh));
          traced = (eq_of_beq _ _ (ground (arith, traced)), eq_of_beq _ _ (ground (arith, traced)));
          permitted = permitted;
          made = made;
          written = map_err-ok commit_error _ (s', after) rest;
        })

  -- The policy allows the action, if there is one.
  unfoldable pub allows : Option ActionIntent → Bool
  allows none = true
  allows (some intent) = elim (evaluate hekate_id intent) [
    | ok policy ↦ policy.allowed
    | err e ↦ false
  ]

  checked_policy :
      (action : Option ActionIntent) (policy : Option PolicyDecision)
      → check_policy evaluate hekate_id action ≡ ok policy
      → allows action ≡ true
  unfolding check_policy allows
  checked_policy none policy q = refl
  checked_policy (some intent) policy q = ground (arith, q)

  -- When a turn ends with its events recorded, its context and its trace are of the revision that was
  -- stored, its decision passed `validate_judgment` on the stored state, and the policy allowed its action.
  pub ended_turn_was_judged :
      (store : Store) (s : CurrentState) (turn : Turn) (s' : CurrentState) (after : Store)
      → port.load_state store ≡ ok s
      → end_turn port env evaluate hekate_id store turn ≡ ok (s', after)
      → (s.revision ≡ turn.context.event_sequence)
        × (turn.cycle.trace.context_sequence ≡ s.revision)
        × (turn.cycle.trace.context_hash ≡ turn.context.snapshot_hash)
        × (validate_judgment turn.context s
              (evidence_event_ids turn.context)
              (decision_of turn)
              hekate_id
            ≡ ok tt)
        × (allows (decision_of turn).action ≡ true)
  ended_turn_was_judged store s turn s' after loaded q =
      let f = end_turn-Finished store s turn s' after loaded q in
      (
        f.fresh,
        f.traced.0 ∙ sym f.fresh,
        f.traced.1,
        f.accepted,
        checked_policy (decision_of turn).action f.policy f.permitted,
      )
