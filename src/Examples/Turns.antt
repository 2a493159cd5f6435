-- ===== src/Examples/Turns.antt =====
-- A session in which a conflict is negotiated while another one is closed (src/runtime/engine.rs).
use hekate.Core.Actions.{DecisionKind}
use hekate.Core.Continuity.{FocusOutcome}
use hekate.Core.Env.{Env}
use hekate.Core.Events.{EventKind}
use hekate.Core.Stances.{Conflict, ConflictStatus, Stance}
use hekate.Core.State.{CurrentState}
use hekate.Core.Thoughts.{CognitiveTrace, ThoughtCycle}
use hekate.Core.Work.{Attempt, AttemptStatus}
use hekate.Engine.{
  EventRole, Turn, asked, attempted, decided, ended, intended, judged_conflict, own_position,
  planned, responded, users_position, worked,
}
use hekate.Engine.Conflicts.{ConflictKeepsId}
use hekate.Engine.Finality.{Holds, closed_conflict_is_final}
use hekate.Engine.Judged.{allows, ended_turn_was_judged}
use hekate.Deliberation.Judgment.{validate_judgment}
use hekate.Engine.{evidence_event_ids}
use hekate.Engine.Turns.{decision_of, end_turn, Evaluate, Step, batch, session, turn_ends}
use hekate.Examples.Judgments as Judgments
use hekate.Examples.World.{event_of, executable, no_payloads}
use hekate.Prelude.{true, ℕ, ◌≡◌, refl, sym, ◌∙◌, ap, none, some, List, [], ◌∷◌}
use hekate.Prelude.BTreeMap.{get}
use hekate.Prelude.Results.{ok, err, ok-injective}
use hekate.Prelude.Text.{codes}
use hekate.Storage.{Storage}
use mathlib.Core.Option.{or_else}

-- A conflict is encoded as its id and its status.
abbrev negotiating : Conflict
negotiating = Judgments.conflict ConflictStatus.negotiating 2

abbrev attempt : Attempt
attempt = record {
  id = 61;
  run_id = 62;
  status = AttemptStatus.started;
  started_at = [];
  finished_at = none;
}

abbrev env : Env
env = record no_payloads {
  decode_decision = λ payload. ok (Judgments.decision ConflictStatus.negotiating 2);
  decode_position = λ now payload. ok (Judgments.position 12 2 Stance.oppose);
  decode_attempt = λ payload. ok attempt;
  encode_conflict = λ conflict. ok (conflict.id ∷ []);
  decode_conflict = λ now payload. elim payload [
    | [] ↦ err "no id"
    | id ∷ rest ↦ ok (record negotiating { id = id })
  ];
}

encoded-ConflictKeepsId : ConflictKeepsId env
unfolding executable
encoded-ConflictKeepsId conflict value now c p q = by_value value p q
  where
    by_value :
        (v : List ℕ)
        → env.encode_conflict conflict ≡ ok v
        → env.decode_conflict now v ≡ ok c
        → c.id ≡ conflict.id
    by_value [] p q = cc
    by_value (id ∷ rest) p q =
        ap (λ (x : Conflict). x.id) (sym (ok-injective _ c q))
        ∙ ap head (sym (ok-injective (conflict.id ∷ []) (id ∷ rest) p))
      where
        head : List ℕ → ℕ
        head [] = id
        head (x ∷ xs) = x

abbrev port : Storage CurrentState CognitiveTrace
port = record {
  load_state = λ store. ok store;
  commit_batch = λ store events state expected trace. ok state;
  load-commit = λ env store before events state expected trace after l a q. sym q;
}

abbrev evaluate : Evaluate
evaluate = λ actor intent. err "no policy"

abbrev closed : Conflict
closed = record (Judgments.conflict ConflictStatus.resolved 1) { id = 33 }

abbrev start : CurrentState
start = record (Judgments.state ConflictStatus.opened) {
  revision = 7;
  conflicts = (31, Judgments.conflict ConflictStatus.opened 1) ∷ (33, closed) ∷ [];
}

abbrev trace : CognitiveTrace
trace = record {
  model_io = [];
  trace_id = [];
  outcome = [];
  provider = [];
  model = [];
  schema_version = [];
  context_sequence = 7;
  context_hash = codes "ab";
  referenced_event_ids = 5 ∷ [];
  draft = none;
  review = none;
  commitment = none;
  parse_errors = [];
  retries = 0;
  elapsed_ms = 0;
  raw_response_hash = none;
  error_kind = none;
  created_at = [];
}

abbrev cycle : ThoughtCycle
cycle = record {
  draft = record {
    interpretation = [];
    initial_judgment = DecisionKind.challenge;
    reasons = [];
    uncertainties = [];
    initial_intent = [];
  };
  review = record {
    strongest_counterargument = [];
    value_conflicts = [];
    unsupported_claims = [];
    revision_direction = none;
  };
  commitment = record {
    final_act = DecisionKind.challenge;
    reasons = [];
    response = codes "spaces align";
    confidence = 80;
    unresolved_questions = [];
    alternatives = [];
    reconsideration_conditions = [];
    evidence_refs = 5 ∷ [];
    related_position_ids = 11 ∷ 12 ∷ [];
    position = some (Judgments.position 12 2 Stance.oppose);
    user_position = none;
    conflict = some negotiating;
    action = none;
  };
  trace = trace;
}

abbrev number : EventRole → ℕ
number decided = 101
number own_position = 102
number users_position = 103
number judged_conflict = 104
number intended = 105
number planned = 106
number asked = 107
number responded = 108
number worked = 109
number ended = 110
number attempted = 111

abbrev turn : Turn
turn = record {
  context = Judgments.context;
  cycle = cycle;
  outcome = FocusOutcome.continue;
  attempt = some attempt;
  stamp = λ role. record { event_id = number role; occurred_at = []; recorded_at = [] };
  clock = λ role. [];
  decision_id = 51;
  intent_id = 52;
  operation_id = 53;
  approval_id = 54;
  working_state_id = 55;
}

-- The turn ends twice; the second end comes on a later revision and is refused.
abbrev steps : List Step
steps =
    turn_ends turn
    ∷ batch (event_of 120 1 EventKind.state_changed ∷ []) none none
    ∷ turn_ends turn
    ∷ []

abbrev last : CurrentState
last = session port env evaluate 2 start steps

negotiated : get last.conflicts 31 ≡ some negotiating
unfolding executable or_else
negotiated = refl

counted : last.revision ≡ 13
unfolding executable or_else
counted = refl

start-Holds : Holds port env evaluate 2 33 closed refl start
unfolding executable
start-Holds = (start, refl, refl)

closed_conflict_is_final_example : Holds port env evaluate 2 33 closed refl last
unfolding executable
closed_conflict_is_final_example =
    closed_conflict_is_final port env evaluate 2 33 closed refl encoded-ConflictKeepsId start steps
      refl start-Holds

abbrev ended_once : CurrentState
ended_once = session port env evaluate 2 start (turn_ends turn ∷ [])

turn_ended : end_turn port env evaluate 2 start turn ≡ ok (ended_once, ended_once)
unfolding executable or_else
turn_ended = refl

ended_turn_was_judged_example :
    (start.revision ≡ 7)
    × (trace.context_sequence ≡ 7)
    × (trace.context_hash ≡ Judgments.context.snapshot_hash)
    × (validate_judgment Judgments.context start
          (evidence_event_ids Judgments.context)
          (decision_of turn)
          2
        ≡ ok tt)
    × (allows port env evaluate 2 (decision_of turn).action ≡ true)
unfolding executable
ended_turn_was_judged_example =
    ended_turn_was_judged port env evaluate 2 start start turn ended_once ended_once refl turn_ended
