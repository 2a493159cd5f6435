-- ===== src/Recovery/Laws.antt =====
-- The stores that `recover` accepts (src/runtime/recovery.rs), and what keeps them so
-- (src/runtime/projector.rs).
use hekate.Core.Env.{Env}
use hekate.Core.Events.{ExperienceEvent}
use hekate.Core.State.{CurrentState}
use hekate.Core.StateEq.{current_state_eq}
use hekate.Prelude.{true, ◌≡◌, ap, ◌∙◌, sym, ◌↔◌, List, arith, eq_of_beq, eq_refl, ◌==◌, ℕ_eq}
use hekate.Prelude.Results.{ok, map_err, >>=-eq-ok}
use hekate.Projector.Apply.{replay}
use hekate.Prelude.Text.{Text}
use hekate.Projector.Clock.{AllHaveDates}
use hekate.Projector.BatchLaws.{map_err-ok}
use hekate.Recovery.{RecoveryReport, projection_failed, recover, report_of, storage_failed}
use hekate.Storage.{EventLog, Storage}

module _ {Store Trace : Type 0} (port : Storage Store Trace) (log : EventLog port) (env : Env) where
  -- The stored state is the replay of the stored log.
  pub record IsConsistent (store : Store) (state : CurrentState) : Type 0 where
    pub events : List ExperienceEvent
    pub loaded : port.load_state store ≡ ok state
    pub logged : log.load_events store ≡ ok events
    pub replayed : replay env events ≡ ok state

  consistent_recovers :
      (store : Store) (state : CurrentState)
      → IsConsistent store state
      → recover port log env store ≡ ok (report_of state)
  unfolding recover
  consistent_recovers store state c =
      ground (arith, c.loaded, c.logged, c.replayed, eq_refl state, eq_refl state.revision)

  -- What a successful recovery has loaded and compared.
  record Recovered (store : Store) (report : RecoveryReport) : Type 0 where
    state : CurrentState
    events : List ExperienceEvent
    replayed : CurrentState
    loading : map_err storage_failed (port.load_state store) ≡ ok state
    logging : map_err storage_failed (log.load_events store) ≡ ok events
    replaying : map_err projection_failed (replay env events) ≡ ok replayed
    same : (state == replayed) ≡ true
    reported : report ≡ report_of state

  recover-Recovered :
      (store : Store) (report : RecoveryReport)
      → recover port log env store ≡ ok report
      → Recovered store report
  unfolding recover
  recover-Recovered store report q =
      let (state, rest, loading) = >>=-eq-ok (map_err storage_failed (port.load_state store)) _ q in
      let (events, rest, logging) =
        >>=-eq-ok (map_err storage_failed (log.load_events store)) _ rest in
      let (replayed, rest, replaying) =
        >>=-eq-ok (map_err projection_failed (replay env events)) _ rest in
      record {
        state = state;
        events = events;
        replayed = replayed;
        loading = loading;
        logging = logging;
        replaying = replaying;
        same = ground (arith, rest);
        reported = ground (arith, rest);
      }

  Recovered-IsConsistent :
      (store : Store) (report : RecoveryReport)
      → Recovered store report
      → (state : CurrentState) × IsConsistent store state × (report ≡ report_of state)
  Recovered-IsConsistent store report r =
      let same : r.state ≡ r.replayed = eq_of_beq r.state r.replayed r.same in
      (
        r.state,
        record {
          events = r.events;
          loaded = map_err-ok storage_failed (port.load_state store) r.state r.loading;
          logged = map_err-ok storage_failed (log.load_events store) r.events r.logging;
          replayed =
              map_err-ok projection_failed (replay env r.events) r.replayed r.replaying
              ∙ ap ok (sym same);
        },
        r.reported,
      )

  -- Recovery succeeds exactly on a store whose state is the replay of its log, and reports on that state.
  pub recover-IsConsistent :
      (store : Store) (report : RecoveryReport)
      → (recover port log env store ≡ ok report)
        ↔ ((state : CurrentState) × IsConsistent store state × (report ≡ report_of state))
  recover-IsConsistent store report = (
    λ q. Recovered-IsConsistent store report (recover-Recovered store report q),
    λ found.
        let (state, consistent, same) = found in
        consistent_recovers store state consistent ∙ ap ok (sym same),
  )

module _ {Store Trace : Type 0} (port : Storage Store Trace) (log : EventLog port) (env : Env) where
  -- The events that the store's log loads have their dates.
  abbrev pub LogHasDates : Store → Type 0
  LogHasDates store =
      (events : List ExperienceEvent) → log.load_events store ≡ ok events → AllHaveDates env events
