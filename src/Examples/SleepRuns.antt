-- ===== src/Examples/SleepRuns.antt =====
-- The completion of a sleep run (src/runtime/projector.rs).
use hekate.Core.Env.{Env}
use hekate.Core.Events.{EventKind}
use hekate.Core.Sleep.{SleepRun, SleepRunStatus}
use hekate.Core.State.{CurrentState, empty}
use hekate.Examples.World.{executable, no_payloads, event_of}
use hekate.Prelude.{ℕ, ◌≡◌, ◌⊎◌, refl, Option, none, some, [], ◌∷◌}
use hekate.Prelude.Results.{ok}
use hekate.Projector.Apply.{apply}
use hekate.Projector.SleepLife.{CursorMoved, sleep_cursor_moves}

abbrev run : SleepRunStatus → Option ℕ → SleepRun
run status cursor_after = record {
  id = 40;
  status = status;
  high_water_revision = 5;
  cursor_before = 2;
  cursor_after = cursor_after;
  seed_event_ids = 3 ∷ 4 ∷ [];
  processed_observation_count = 2;
  created_candidate_count = 0;
  started_at = [];
  finished_at = none;
  error_kind = none;
  context_budget_report = none;
}

abbrev env : Env
env = record no_payloads {
  decode_sleep_run = λ payload. ok (run SleepRunStatus.completed (some 4));
}

abbrev before : CurrentState
before = record empty {
  revision = 6;
  sleep_runs = (40, run SleepRunStatus.running none) ∷ [];
  sleep_cursor = 2;
}

abbrev after : CurrentState
after = record empty {
  revision = 7;
  sleep_runs = (40, run SleepRunStatus.completed (some 4)) ∷ [];
  sleep_cursor = 4;
  applied_events = 7 ∷ [];
}

completes : apply env before (event_of 7 1 EventKind.sleep_run_completed) ≡ ok after
unfolding executable
completes = refl

sleep_cursor_moves_example : (after.sleep_cursor ≡ before.sleep_cursor) ⊎ CursorMoved before after
sleep_cursor_moves_example =
    sleep_cursor_moves env before (event_of 7 1 EventKind.sleep_run_completed) after completes
