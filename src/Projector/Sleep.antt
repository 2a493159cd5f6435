-- ===== src/Projector/Sleep.antt =====
-- `apply_sleep_run` (src/runtime/projector.rs).
use hekate.Core.Env.{Env}
use hekate.Core.Events.{EventKind, ExperienceEvent}
use hekate.Core.Sleep.{SleepRun, SleepRunStatus, sleep_run_status_eq}
use hekate.Core.State.{CurrentState}
use hekate.Prelude.{◌||◌, is_some, ltb, ◌!=◌, ℕ_eq, list_eq}
use hekate.Prelude.BTreeMap.{get, insert, contains_key}
use hekate.Prelude.Results.{ok, err, ◌>>=◌, ◌>>◌, reject_if, ok_or}
use hekate.Projector.Errors.{Outcome, Handler, invalid, payload}

-- The arm of `SleepRunStarted`.
unfoldable pub start_sleep_run : CurrentState → ExperienceEvent → SleepRun → Outcome CurrentState
start_sleep_run state event run = do
  reject_if
      (contains_key state.sleep_runs run.id
        || run.status != SleepRunStatus.running
        || run.cursor_before != state.sleep_cursor
        || ltb state.revision run.high_water_revision
        || is_some run.cursor_after)
      (invalid event "invalid sleep run start")
  ok state

-- What the three terminal events check first.
unfoldable pub check_terminal : CurrentState → ExperienceEvent → SleepRun → Outcome (Unit {0})
check_terminal state event run = do
  previous ←
      ok_or (get state.sleep_runs run.id) (invalid event "sleep run terminal event has no start")
  reject_if
      (SleepRun.status previous != SleepRunStatus.running
        || run.cursor_before != SleepRun.cursor_before previous
        || run.high_water_revision != SleepRun.high_water_revision previous
        || run.seed_event_ids != SleepRun.seed_event_ids previous)
      (invalid event "invalid sleep run transition")

unfoldable pub complete_sleep_run : CurrentState → ExperienceEvent → SleepRun → Outcome CurrentState
complete_sleep_run state event run = do
  check_terminal state event run
  cursor_after ← ok_or run.cursor_after (invalid event "completed sleep run has no cursor")
  reject_if
      (run.status != SleepRunStatus.completed
        || ltb cursor_after run.cursor_before
        || ltb run.high_water_revision cursor_after)
      (invalid event "invalid completed sleep cursor")
  ok (record state { sleep_cursor = cursor_after })

unfoldable pub interrupt_sleep_run :
    CurrentState → ExperienceEvent → SleepRun → Outcome CurrentState
interrupt_sleep_run state event run = do
  check_terminal state event run
  reject_if (run.status != SleepRunStatus.interrupted || is_some run.cursor_after)
      (invalid event "invalid interrupted sleep run")
  ok state

unfoldable pub fail_sleep_run : CurrentState → ExperienceEvent → SleepRun → Outcome CurrentState
fail_sleep_run state event run = do
  check_terminal state event run
  reject_if (run.status != SleepRunStatus.failed || is_some run.cursor_after)
      (invalid event "invalid failed sleep run")
  ok state

-- The match over the kinds. The source reaches no other kind (`unreachable!`).
unfoldable pub sleep_transition :
    EventKind → CurrentState → ExperienceEvent → SleepRun → Outcome CurrentState
sleep_transition EventKind.sleep_run_started = start_sleep_run
sleep_transition EventKind.sleep_run_completed = complete_sleep_run
sleep_transition EventKind.sleep_run_interrupted = interrupt_sleep_run
sleep_transition EventKind.sleep_run_failed = fail_sleep_run
sleep_transition _ = λ state event run. err (invalid event "unreachable")

unfoldable pub apply_sleep_run : Env → Handler
apply_sleep_run env state event = do
  run ← payload env.decode_sleep_run event
  moved ← sleep_transition event.event_kind state event run
  ok (record moved { sleep_runs = insert (CurrentState.sleep_runs moved) run.id run })
