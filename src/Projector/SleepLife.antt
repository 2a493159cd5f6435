-- ===== src/Projector/SleepLife.antt =====
-- How the sleep cursor moves (src/runtime/projector.rs).
use hekate.Core.Env.{Env}
use hekate.Core.Events.{EventKind, ExperienceEvent}
use hekate.Core.Sleep.{SleepRun, SleepRunStatus, sleep_run_status_eq}
use hekate.Core.State.{CurrentState}
use hekate.Prelude.{ℕ, ◌≡◌, ◌≤◌, ◌⊎◌, inl, inr, sym, subst, some, true, arith, eq_of_beq, ◌==◌}
use hekate.Prelude.BTreeMap.{get, insert, get-insert}
use hekate.Prelude.Results.{Ensures, Ensures-bind, Ensures-ok, Ensures-err, ok}
use hekate.Projector.Apply.{advance, apply, dispatch}
use hekate.Projector.Errors.{payload}
use hekate.Projector.Footprint.{dispatch-Footprint}
use hekate.Projector.Sleep.{
  apply_sleep_run, check_terminal, complete_sleep_run, fail_sleep_run, interrupt_sleep_run,
  sleep_transition, start_sleep_run,
}
use hekate.Projector.Steps.{apply-Applied}

-- A run that was under way is completed, and the cursor lies between its two marks.
pub record CursorMoved (s s' : CurrentState) : Type 0 where
  pub id : ℕ
  pub run : SleepRun
  pub next : SleepRun
  pub found : get s.sleep_runs id ≡ some run
  pub was : run.status ≡ SleepRunStatus.running
  pub stored : get s'.sleep_runs id ≡ some next
  pub completed : next.status ≡ SleepRunStatus.completed
  pub from : run.cursor_before ≤ s'.sleep_cursor
  pub to : s'.sleep_cursor ≤ run.high_water_revision

-- What a successful completion has checked and changed.
record Completed (s : CurrentState) (next : SleepRun) (s' : CurrentState) : Type 0 where
  run : SleepRun
  found : get s.sleep_runs next.id ≡ some run
  running : (run.status == SleepRunStatus.running) ≡ true
  completed : (next.status == SleepRunStatus.completed) ≡ true
  from : run.cursor_before ≤ s'.sleep_cursor
  to : s'.sleep_cursor ≤ run.high_water_revision
  runs : s'.sleep_runs ≡ s.sleep_runs

completes :
    (s : CurrentState) (e : ExperienceEvent) (next : SleepRun)
    → Ensures (Completed s next) (complete_sleep_run s e next)
unfolding complete_sleep_run check_terminal
completes s e next = record { at = λ s' q. ground arith }

-- What a transition of a sleep run does to the cursor.
abbrev Moves : CurrentState → SleepRun → CurrentState → Type 0
Moves s next m = (m.sleep_cursor ≡ s.sleep_cursor) ⊎ Completed s next m

start_keeps :
    (s : CurrentState) (e : ExperienceEvent) (next : SleepRun)
    → Ensures (Moves s next) (start_sleep_run s e next)
unfolding start_sleep_run
start_keeps s e next = record { at = λ s' q. inl (ground arith) }

interrupt_keeps :
    (s : CurrentState) (e : ExperienceEvent) (next : SleepRun)
    → Ensures (Moves s next) (interrupt_sleep_run s e next)
unfolding interrupt_sleep_run check_terminal
interrupt_keeps s e next = record { at = λ s' q. inl (ground arith) }

fail_keeps :
    (s : CurrentState) (e : ExperienceEvent) (next : SleepRun)
    → Ensures (Moves s next) (fail_sleep_run s e next)
unfolding fail_sleep_run check_terminal
fail_keeps s e next = record { at = λ s' q. inl (ground arith) }

transition-Moves :
    (kind : EventKind) (s : CurrentState) (e : ExperienceEvent) (next : SleepRun)
    → Ensures (Moves s next) (sleep_transition kind s e next)
unfolding sleep_transition
transition-Moves EventKind.sleep_run_started s e next = start_keeps s e next
transition-Moves EventKind.sleep_run_interrupted s e next = interrupt_keeps s e next
transition-Moves EventKind.sleep_run_failed s e next = fail_keeps s e next
transition-Moves EventKind.sleep_run_completed s e next = record {
  at = λ s' q. inr ((completes s e next).at s' q);
}
transition-Moves _ s e next = Ensures-err _ _

-- The completed run is stored under its id.
moved_by :
    (s : CurrentState) (next : SleepRun) (m : CurrentState)
    → Completed s next m
    → CursorMoved s (record m { sleep_runs = insert m.sleep_runs next.id next })
moved_by s next m c = record {
  id = next.id;
  run = c.run;
  next = next;
  found = c.found;
  was = eq_of_beq c.run.status SleepRunStatus.running c.running;
  stored = ground (arith, get-insert m.sleep_runs next.id next next.id);
  completed = eq_of_beq next.status SleepRunStatus.completed c.completed;
  from = c.from;
  to = c.to;
}

apply_sleep_run-moves :
    (env : Env) (s : CurrentState) (e : ExperienceEvent)
    → Ensures
        (λ s'. (s'.sleep_cursor ≡ s.sleep_cursor) ⊎ CursorMoved s s')
        (apply_sleep_run env s e)
unfolding apply_sleep_run
apply_sleep_run-moves env s e = Ensures-bind _ (payload env.decode_sleep_run e) _ λ next _.
    Ensures-bind _ (sleep_transition e.event_kind s e next) _ λ m q.
      Ensures-ok _ _ (elim ((transition-Moves e.event_kind s e next).at m q) [
        | inl kept ↦ inl kept
        | inr c ↦ inr (moved_by s next m c)
      ])

dispatch-moves :
    (kind : EventKind) (env : Env) (s : CurrentState) (e : ExperienceEvent)
    → Ensures (λ s'. (s'.sleep_cursor ≡ s.sleep_cursor) ⊎ CursorMoved s s') (dispatch kind env s e)
unfolding dispatch
dispatch-moves EventKind.sleep_run_started env s e = apply_sleep_run-moves env s e
dispatch-moves EventKind.sleep_run_completed env s e = apply_sleep_run-moves env s e
dispatch-moves EventKind.sleep_run_interrupted env s e = apply_sleep_run-moves env s e
dispatch-moves EventKind.sleep_run_failed env s e = apply_sleep_run-moves env s e
dispatch-moves kind env s e = record {
  at = λ s' q. inl ((dispatch-Footprint kind env s e).at s' q).sleep_cursor;
}

-- A successful event leaves the sleep cursor where it is, or it completes a stored sleep run that was under
-- way, and the new cursor lies between the cursor that the run started from and its high-water revision.
pub sleep_cursor_moves :
    (env : Env) (s : CurrentState) (e : ExperienceEvent) (s' : CurrentState)
    → apply env s e ≡ ok s'
    → (s'.sleep_cursor ≡ s.sleep_cursor) ⊎ CursorMoved s s'
unfolding advance
sleep_cursor_moves env s e s' q =
    let a = apply-Applied env s e s' q in
    subst (λ (u : CurrentState). (u.sleep_cursor ≡ s.sleep_cursor) ⊎ CursorMoved s u)
      (sym a.counted)
      (elim ((dispatch-moves e.event_kind env s e).at a.moved a.ran) [
        | inl kept ↦ inl kept
        | inr c ↦ inr (record {
          id = c.id;
          run = c.run;
          next = c.next;
          found = c.found;
          was = c.was;
          stored = c.stored;
          completed = c.completed;
          from = c.from;
          to = c.to;
        })
      ])
