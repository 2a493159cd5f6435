-- ===== src/Examples/Completions.antt =====
-- A task whose one criterion has a verified claim, and its completion (src/runtime/completion.rs).
use hekate.Completion.{CompletionError, Stamp, ready}
use hekate.Completion.Gate.{evaluate_task_completion_in}
use hekate.Completion.Readiness.{IsReady, gate-IsReady}
use hekate.Completion.Progress.{finished, ready_task_completes, with_task}
use hekate.Completion.Service.{complete_task}
use hekate.Completion.TaskLaws.{complete_task-gated}
use hekate.Core.Env.{Env}
use hekate.Core.Events.{EntityKind, EventKind, ExperienceEvent}
use hekate.Core.Ids.{CompletionClaimId}
use hekate.Core.State.{CurrentState}
use hekate.Core.Work.{TaskStatus}
use hekate.Examples.Claims as Claims
use hekate.Examples.World.{executable}
use hekate.Prelude.{
  ℕ, ◌≡◌, ◌↔◌, refl, sym, ap, ◌∙◌, none, some, List, [], ◌∷◌, ◌++◌, map, is_empty, if◌then◌else◌,
  nat_eq,
}
use hekate.Prelude.BTreeMap.{get}
use hekate.Prelude.Results.{ok, ok-injective}
use hekate.Prelude.Text.{Text, codes}
use hekate.Projector.Apply.{advance, replay}
use hekate.Storage.{EventLog, Storage}

abbrev pub env : Env
env = record Claims.env {
  decode_task = λ payload. if is_empty payload then ok Claims.task else ok (finished Claims.task);
  encode_task = λ task. ok (codes "1");
}

-- A store of the state and the log.
abbrev pub Store : Type 0
Store = CurrentState × List ExperienceEvent

abbrev pub port : Storage Store ℕ
port = record {
  load_state = λ store. ok store.0;
  commit_batch = λ store events state expected trace. ok (state, store.1 ++ events);
  load-commit = λ env store before events state expected trace after l a q.
      ap (λ (s : Store). ok s.0) (sym (ok-injective (state, store.1 ++ events) after q));
}

abbrev pub event_log : EventLog port
event_log = record {
  load_events = λ store. ok store.1;
  events-commit = λ store events state expected trace after log q l.
      ap (λ (s : Store). ok s.1) (sym (ok-injective (state, store.1 ++ events) after q))
      ∙ ap (λ (old : List ExperienceEvent). ok (old ++ events)) (ok-injective store.1 log l);
}

abbrev pub signed : ExperienceEvent → ExperienceEvent
signed event = record event { integrity_hash = Claims.witness_hash }

abbrev pub events : List ExperienceEvent
events = map signed Claims.log

abbrev pub store : Store
store = (Claims.after, events)

abbrev stamp : Stamp
stamp = record { event_id = 6; occurred_at = []; recorded_at = []; new_id = 40; created_at = [] }

abbrev error_text : CompletionError → Text
error_text error = []

abbrev event : ExperienceEvent
event = record {
  event_id = 6;
  occurred_at = [];
  recorded_at = [];
  actor_id = 1;
  event_kind = EventKind.task_completed;
  subject = some (record { kind = EntityKind.task; id = 10 });
  payload = codes "1";
  source = record { source_type = codes "completion"; source_ref = none };
  causation_id = none;
  correlation_id = some (codes ":");
  confidence = none;
  integrity_hash = codes "02";
}

abbrev after : Store
after = (advance (with_task Claims.after 10 (finished Claims.task)) event, events ++ event ∷ [])

replayed : replay env events ≡ ok Claims.after
unfolding executable
replayed = refl

is_ready : evaluate_task_completion_in env error_text Claims.after events 10 ≡ ok (ready (30 ∷ []))
unfolding executable
is_ready = refl

gate-IsReady_example :
    ((ids : List CompletionClaimId) × (evaluate_task_completion_in env error_text Claims.after
          events 10
        ≡ ok (ready ids)))
    ↔ IsReady env error_text Claims.after events ((20, 30) ∷ []) 10
unfolding executable
gate-IsReady_example = gate-IsReady env error_text Claims.after events 10 ((20, 30) ∷ []) refl refl

completes :
    complete_task port event_log env error_text store stamp 1 10 5
    ≡ ok (finished Claims.task, after)
unfolding executable
completes = refl

complete_task-gated_example :
    (ids : List CompletionClaimId) × (evaluate_task_completion_in env error_text Claims.after events
        10
      ≡ ok (ready ids))
    × (◌≡◌ {A = ℕ} 5 (Claims.after.revision))
    × (Claims.task.status ≡ TaskStatus.in_progress)
    × (finished Claims.task ≡ record Claims.task { status = TaskStatus.completed })
    × (e : ExperienceEvent) × (event_log.load_events after ≡ ok (events ++ e ∷ []))
    × (loaded : CurrentState) × (port.load_state after ≡ ok loaded)
    × (get loaded.tasks 10
        ≡ (if nat_eq 10 10 then some (finished Claims.task) else get Claims.after.tasks 10))
unfolding executable
complete_task-gated_example =
    complete_task-gated port event_log env error_text store stamp 1 10 5 events Claims.after
      Claims.task (finished Claims.task) after 10 refl replayed refl refl refl completes

ready_task_completes_example :
    complete_task port event_log env error_text store stamp 1 10 5
    ≡ ok (finished Claims.task, after)
unfolding executable
ready_task_completes_example =
    ready_task_completes port event_log env error_text store after stamp 1 10 events Claims.after
      Claims.task event (30 ∷ []) refl replayed refl refl refl refl refl is_ready refl refl refl
      refl
