-- ===== src/Engine/Conflicts.antt =====
-- The conflicts that the events of a turn touch (src/runtime/engine.rs).

use hekate.Core.Actions.{ActionIntent, Decision}
use hekate.Core.Ids.{RunId}
use hekate.Core.Events.{EntityRef, EventSource}
use hekate.Prelude.{ℕ, subst}
use hekate.Engine.{invalid_operation}
use hekate.Core.Stances.{Position}
use hekate.Core.State.{CurrentState}
use hekate.Core.Work.{Run, RunStatus}
use hekate.Engine.{
  EventRole, Outcome, PolicyDecision, Turn, asked, attempted, decided, ended, event_failed,
  intended, judged_conflict, own_position, planned, position_event_kind, responded, serialization,
  users_position, worked,
}
use hekate.Engine.Events.{
  action_events, approval_event, attempt_event, caused_event, conflict_event, decision_event,
  ended_run, final_events, optional_event, position_event, required_approval, response_event,
  run_event, run_event_kind, run_events, work_events,
}
use hekate.Prelude.{refl, ap, sym, ◌∙◌, none, some}
use hekate.Prelude.BTreeMap.{get}
use hekate.Prelude.Results.{Ensures-bind, Ensures-ok, >>=-eq-ok, map_err, ok-injective, ok_or}
use hekate.Projector.BatchLaws.{map_err-ok}
use hekate.Core.Env.{Env}
use hekate.Core.Events.{EntityKind, EventKind, ExperienceEvent}
use hekate.Core.Ids.{ConflictId, EventId, Json, PrincipalId, Uuid}
use hekate.Core.Integrity.{calculate_hash, new_with_id}
use hekate.Core.Stances.{Conflict}
use hekate.Engine.{EventStamp, engine_event}
use hekate.Prelude.{◌≡◌, ◌≢◌, true, false, String, Option, List, [], ◌∷◌, ◌++◌, arith}
use hekate.Prelude.Results.{Ensures, Result, ok}
use hekate.Prelude.Text.{Text}
use hekate.Projector.Footprint.{touches_conflicts}

-- If the event is one on a conflict, it is on another one than `id`.
abbrev pub Spares : Env → ConflictId → ExperienceEvent → Type 0
Spares env id e =
    touches_conflicts e.event_kind ≡ true
    → (now : Text) (c : Conflict) → env.decode_conflict now e.payload ≡ ok c
    → c.id ≢ id

-- Decoding what was encoded gives back the id of the conflict, when it gives a conflict.
abbrev pub ConflictKeepsId : Env → Type 0
ConflictKeepsId env =
    (conflict : Conflict) (value : Json) (now : Text) (c : Conflict)
    → env.encode_conflict conflict ≡ ok value
    → env.decode_conflict now value ≡ ok c
    → c.id ≡ conflict.id

pub data AllSpare (env : Env) (id : ConflictId) : List ExperienceEvent → Type 0 where
  no_events : AllSpare env id []
  one_more :
      {e : ExperienceEvent}
      → {es : List ExperienceEvent} → Spares env id e
      → AllSpare env id es
      → AllSpare env id (e ∷ es)

AllSpare-append :
    (env : Env) (id : ConflictId) (xs ys : List ExperienceEvent)
    → AllSpare env id xs
    → AllSpare env id ys
    → AllSpare env id (xs ++ ys)
AllSpare-append env id [] ys h k = k
AllSpare-append env id (x ∷ xs) ys (one_more p h) k = one_more p (AllSpare-append env id xs ys h k)

-- What an event of the engine carries.
record Made (kind : EventKind) (payload : Result String Json) (e : ExperienceEvent) : Type 0 where
  of_kind : e.event_kind ≡ kind
  carries : payload ≡ ok e.payload

new_with_id-Made :
    (env : Env) (occurred_at recorded_at : Text) (event_id : EventId) (actor_id : PrincipalId)
    (kind : EventKind) (subject : Option EntityRef) (payload : Json) (source : EventSource)
    (causation_id : Option EventId) (correlation_id : Option Text) (confidence : Option ℕ)
    (e : ExperienceEvent)
    → new_with_id env occurred_at recorded_at event_id actor_id kind subject payload source
        causation_id correlation_id confidence
      ≡ ok e
    → (e.event_kind ≡ kind) × (e.payload ≡ payload)
unfolding new_with_id
new_with_id-Made env occurred_at recorded_at event_id actor_id kind subject payload source
      causation_id correlation_id confidence e q =
    let unsigned : ExperienceEvent = record {
      event_id = event_id;
      occurred_at = occurred_at;
      recorded_at = recorded_at;
      actor_id = actor_id;
      event_kind = kind;
      subject = subject;
      payload = payload;
      source = source;
      causation_id = causation_id;
      correlation_id = correlation_id;
      confidence = confidence;
      integrity_hash = [];
    } in
    let (hash, rest, _) =
      >>=-eq-ok (calculate_hash env unsigned)
        (λ hash. ok (record unsigned { integrity_hash = hash })) q in
    let same = sym (ok-injective (record unsigned { integrity_hash = hash }) e rest) in
    (ap (λ (x : ExperienceEvent). x.event_kind) same, ap (λ (x : ExperienceEvent). x.payload) same)

engine_event-Made :
    (env : Env) (stamp : EventStamp) (actor_id : PrincipalId) (kind : EventKind)
    (entity_kind : EntityKind) (entity_id : Uuid) (payload : Result String Json)
    (correlation_id : Text) (causation_id : Option EventId)
    → Ensures (Made kind payload) (
        engine_event env stamp actor_id kind entity_kind entity_id payload correlation_id
          causation_id)
unfolding engine_event
engine_event-Made env stamp actor_id kind entity_kind entity_id payload correlation_id
      causation_id =
    Ensures-bind _ (map_err serialization payload) _ λ value encoded. record {
      at = λ e q.
          let (of_kind, carried) =
            new_with_id-Made env stamp.occurred_at stamp.recorded_at stamp.event_id actor_id kind _
              value _ causation_id _ _ e (map_err-ok event_failed _ e q) in
          record {
            of_kind = of_kind;
            carries = map_err-ok serialization payload value encoded ∙ ap ok (sym carried);
          };
    }

-- An event of a kind that is not on conflicts.
harmless :
    (env : Env) (id : ConflictId) (kind : EventKind) (payload : Result String Json)
    (e : ExperienceEvent)
    → touches_conflicts kind ≡ false
    → Made kind payload e
    → Spares env id e
harmless env id kind payload e other made = λ q. absurd (both (rw made.of_kind other) q)
  where
    both : touches_conflicts e.event_kind ≡ false → touches_conflicts e.event_kind ≡ true → ⊥
    both p q = cc

module _ (env : Env) (hekate_id : PrincipalId) (state : CurrentState) (turn : Turn)
    (id : ConflictId) where
  -- An event that the decision causes, of a kind that is not on conflicts.
  caused_event-Spares :
      (role : EventRole) (actor_id : PrincipalId) (kind : EventKind) (entity_kind : EntityKind)
      (entity_id : Uuid) (payload : Result String Json)
      → touches_conflicts kind ≡ false
      → Ensures
          (Spares env id)
          (caused_event env hekate_id state turn role actor_id kind entity_kind entity_id payload)
  unfolding caused_event
  caused_event-Spares role actor_id kind entity_kind entity_id payload other = record {
    at = λ e q. harmless env id kind payload e other (
        (engine_event-Made env (turn.stamp role) actor_id kind entity_kind entity_id payload _ _).at
          e q);
  }

  optional_event-Spare :
      {A : Type 0} (part : Option A) (make : A → Outcome ExperienceEvent)
      → ((a : A) → part ≡ some a → Ensures (Spares env id) (make a))
      → Ensures (AllSpare env id) (optional_event part make)
  unfolding optional_event
  optional_event-Spare none make h = Ensures-ok _ [] no_events
  optional_event-Spare (some a) make h =
      Ensures-bind _ (make a) _ λ e q. Ensures-ok _ _ (one_more ((h a refl).at e q) no_events)

  position_kind :
      (position : Position) → touches_conflicts (position_event_kind state position) ≡ false
  unfolding position_event_kind
  position_kind position = ground arith

  run_kind : (status : RunStatus) → touches_conflicts (run_event_kind status) ≡ false
  run_kind RunStatus.completed = refl
  run_kind _ = refl

  position_event-Spares :
      (role : EventRole) (actor_id : PrincipalId) (position : Position)
      → Ensures (Spares env id) (position_event env hekate_id state turn role actor_id position)
  unfolding position_event
  position_event-Spares role actor_id position =
      caused_event-Spares role actor_id _ _ _ _ (position_kind position)

  action_events-Spare :
      (action : Option ActionIntent) (policy : Option PolicyDecision)
      → Ensures (AllSpare env id) (action_events env hekate_id state turn action policy)
  unfolding action_events approval_event
  action_events-Spare none policy = Ensures-ok _ [] no_events
  action_events-Spare (some intent) policy = record {
    at = λ es q.
        let (intent_event, rest, p) = >>=-eq-ok _ _ q in
        let (operation_event, rest, r) = >>=-eq-ok _ _ rest in
        let (approvals, rest, u) = >>=-eq-ok _ _ rest in
        subst (AllSpare env id) (ok-injective _ es rest) (
          one_more ((caused_event-Spares intended _ _ _ _ _ refl).at intent_event p) (
            one_more ((caused_event-Spares planned _ _ _ _ _ refl).at operation_event r) (
              (optional_event-Spare (required_approval turn policy) _
                  (λ approval_id _. caused_event-Spares asked _ _ _ _ _ refl)).at
                approvals u)));
  }

  run_events-Spare :
      (decision : Decision) (run : Option Run)
      → Ensures (AllSpare env id) (run_events env hekate_id state turn decision run)
  unfolding run_events run_event
  run_events-Spare decision none = Ensures-ok _ [] no_events
  run_events-Spare decision (some run) =
      Ensures-bind _ (ended_run (turn.clock ended) turn.outcome decision.kind run) _ λ last _.
        optional_event-Spare last _
          (λ (done : Run) _. caused_event-Spares ended _ _ _ _ _ (run_kind done.status))

  work_events-Spare :
      (decision : Decision) (run_id : Option RunId)
      → Ensures (AllSpare env id) (work_events env hekate_id state turn decision run_id)
  unfolding work_events
  work_events-Spare decision none = Ensures-ok _ [] no_events
  work_events-Spare decision (some run_id) = record {
    at = λ es q.
        let (working, rest, p) = >>=-eq-ok _ _ q in
        let (runs, rest, r) = >>=-eq-ok _ _ rest in
        subst (AllSpare env id) (ok-injective _ es rest) (
          one_more ((caused_event-Spares worked _ _ _ _ _ refl).at working p)
            ((run_events-Spare decision (get state.runs run_id)).at runs r));
  }

  -- The event on a conflict with another id, which decoding gives back.
  conflict_event-Spares :
      (conflict : Conflict)
      → ConflictKeepsId env
      → conflict.id ≢ id
      → Ensures (Spares env id) (conflict_event env hekate_id state turn conflict)
  unfolding conflict_event caused_event
  conflict_event-Spares conflict keeps other = record {
    at = λ e q _ now c decoded same.
        let made =
          (engine_event-Made env (turn.stamp judged_conflict) hekate_id _ _ _ _ _ _).at e q in
        other (sym (keeps conflict e.payload now c made.carries decoded) ∙ same);
  }

  decision_event-Spares :
      (decision : Decision)
      → Ensures (Spares env id) (decision_event env hekate_id state turn decision)
  unfolding decision_event
  decision_event-Spares decision = record {
    at = λ e q.
        harmless env id EventKind.decision_created _ e refl
          ((engine_event-Made env (turn.stamp decided) hekate_id _ _ _ _ _ _).at e q);
  }

  -- A turn whose conflict is another one than `id` has no event on the conflict `id`.
  pub final_events-Spare :
      (decision : Decision) (policy : Option PolicyDecision)
      → ConflictKeepsId env
      → ((conflict : Conflict) → decision.conflict ≡ some conflict → conflict.id ≢ id)
      → Ensures (AllSpare env id) (final_events env hekate_id state turn decision policy)
  unfolding final_events response_event attempt_event
  final_events-Spare decision policy keeps other = record {
    at = λ es q.
        let (made, rest, p0) = >>=-eq-ok _ _ q in
        let (own, rest, p1) = >>=-eq-ok _ _ rest in
        let (users, rest, p2) = >>=-eq-ok _ _ rest in
        let (conflicts, rest, p3) = >>=-eq-ok _ _ rest in
        let (actions, rest, p4) = >>=-eq-ok _ _ rest in
        let (response, rest, p5) = >>=-eq-ok _ _ rest in
        let (work, rest, p6) = >>=-eq-ok _ _ rest in
        let (attempt, rest, _) =
          >>=-eq-ok (ok_or turn.attempt (invalid_operation "foreground attempt is missing")) _
            rest in
        let (last, rest, p7) = >>=-eq-ok _ _ rest in
        let position =
          optional_event-Spare decision.position _
            (λ p _. position_event-Spares own_position hekate_id p) in
        let reported =
          optional_event-Spare decision.user_position _
            (λ p _. position_event-Spares users_position turn.context.observation.actor_id p) in
        let judged =
          optional_event-Spare decision.conflict _
            (λ c present. conflict_event-Spares c keeps (other c present)) in
        let end = one_more ((caused_event-Spares attempted _ _ _ _ _ refl).at last p7) no_events in
        let work_on =
          AllSpare-append env id work _
            ((work_events-Spare decision turn.context.focus.run_id).at work p6) end in
        let answered =
          one_more ((caused_event-Spares responded _ _ _ _ _ refl).at response p5) work_on in
        let acted =
          AllSpare-append env id actions _
            ((action_events-Spare decision.action policy).at actions p4) answered in
        let disputed = AllSpare-append env id conflicts _ (judged.at conflicts p3) acted in
        let heard = AllSpare-append env id users _ (reported.at users p2) disputed in
        subst (AllSpare env id) (ok-injective _ es rest) (
          one_more ((decision_event-Spares decision).at made p0)
            (AllSpare-append env id own _ (position.at own p1) heard));
  }
