-- ===== src/Examples/Judgments.antt =====
-- Judgments on a conflict about tabs (src/runtime/deliberation.rs).
use hekate.Core.Actions.{Decision, DecisionKind}
use hekate.Core.Stances.{Conflict, ConflictStatus, Position, PositionStatus, Stance}
use hekate.Core.State.{CurrentState, empty}
use hekate.Core.Thoughts.{ThoughtContext}
use hekate.Deliberation.{saturating_suc}
use hekate.Deliberation.History.{judgment_continues_conflict}
use hekate.Deliberation.Judgment.{validate_judgment}
use hekate.Core.Blocked.{is_unresolved}
use hekate.Deliberation.Laws.{cited, held_by, judgment_is_grounded}
use hekate.Examples.World.{executable}
use hekate.Prelude.{ℕ, ◌≡◌, refl, true, none, some, List, [], ◌∷◌, all, contains, ℕ_eq}
use hekate.Prelude.Results.{ok}
use hekate.Prelude.Text.{codes}
use mathlib.Core.Option.{or_else}

-- The user is 1, HEKATE is 2.
abbrev pub position : ℕ → ℕ → Stance → Position
position id holder stance = record {
  id = id;
  principal_id = holder;
  subject = codes "tabs";
  stance = stance;
  version = 1;
  status = PositionStatus.active;
  confidence = 70;
  supersedes = none;
  reasons = [];
  evidence_refs = 5 ∷ [];
  reconsideration_conditions = [];
  created_at = [];
}

abbrev pub conflict : ConflictStatus → ℕ → Conflict
conflict status revision = record {
  id = 31;
  subject = codes "tabs";
  participant_positions = 11 ∷ 12 ∷ [];
  status = status;
  revision = revision;
  reasons = codes "they differ" ∷ [];
  evidence_refs = 5 ∷ 6 ∷ [];
  alternatives = [];
  reconsideration_conditions = codes "a linter" ∷ [];
  unresolved_questions = codes "which editor" ∷ [];
  resolution = some (codes "spaces");
  resolved_at = none;
  created_at = [];
}

abbrev pub state : ConflictStatus → CurrentState
state status = record empty {
  positions = (11, position 11 1 Stance.support) ∷ [];
  conflicts = (31, conflict status 1) ∷ [];
}

abbrev pub context : ThoughtContext
context = record {
  event_sequence = 7;
  observation = record {
    id = 41;
    actor_id = 1;
    content = codes "use tabs";
    source_type = [];
    source_ref = none;
    thread_id = none;
    message_id = none;
    received_at = [];
  };
  current_observation_event_id = some 5;
  focus = record { goal_id = none; task_id = none; run_id = none };
  identity = none;
  relationship = none;
  goal = none;
  task = none;
  run = none;
  working_state = none;
  positions = [];
  user_positions = [];
  conflicts = [];
  commitments = [];
  memories = [];
  memory_candidates = [];
  pending_approvals = [];
  artifacts = [];
  recall = record { query_hash = []; embedding_space_id = []; items = [] };
  context_snapshot = none;
  recent_event_ids = 5 ∷ 6 ∷ [];
  relevant_events = [];
  available_capabilities = [];
  output_schema = [];
  snapshot_hash = codes "ab";
}

abbrev pub decision : ConflictStatus → ℕ → Decision
decision status revision = record {
  id = 51;
  kind = DecisionKind.challenge;
  message = codes "spaces align";
  target_principal_id = some 1;
  request = codes "use tabs";
  context_hash = codes "ab";
  confidence = 80;
  reasons = [];
  evidence_refs = 5 ∷ [];
  alternatives = [];
  reconsideration_conditions = [];
  unresolved_questions = [];
  related_position_ids = 11 ∷ 12 ∷ [];
  user_position = none;
  cognitive_trace_id = none;
  position = some (position 12 2 Stance.oppose);
  conflict = some (conflict status revision);
  action = none;
  created_at = [];
}

abbrev event_ids : List ℕ
event_ids = 5 ∷ 6 ∷ []

accepted :
    validate_judgment context
      (state ConflictStatus.opened)
      event_ids
      (decision ConflictStatus.negotiating 2)
      2
    ≡ ok tt
unfolding executable or_else
accepted = refl

judgment_is_grounded_example :
    ((decision ConflictStatus.negotiating 2).target_principal_id
      ≡ some (context.observation.actor_id))
    × ((decision ConflictStatus.negotiating 2).context_hash ≡ context.snapshot_hash)
    × (all (contains event_ids) (cited (decision ConflictStatus.negotiating 2)) ≡ true)
    × (held_by 2 (some (position 12 2 Stance.oppose)) ≡ true)
    × (held_by 1 none ≡ true)
judgment_is_grounded_example =
    judgment_is_grounded context (state ConflictStatus.opened) event_ids
      (decision ConflictStatus.negotiating 2) 2 accepted

judgment_continues_conflict_example :
    ((conflict ConflictStatus.opened 1).subject ≡ (conflict ConflictStatus.negotiating 2).subject)
    × ((conflict ConflictStatus.negotiating 2).revision ≡ saturating_suc 1)
    × (is_unresolved (conflict ConflictStatus.opened 1).status ≡ true)
unfolding executable
judgment_continues_conflict_example =
    judgment_continues_conflict context (state ConflictStatus.opened) event_ids
      (decision ConflictStatus.negotiating 2) 2 (conflict ConflictStatus.negotiating 2)
      (conflict ConflictStatus.opened 1) accepted refl refl
