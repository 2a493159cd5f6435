-- ===== src/Examples/Recoveries.antt =====
-- The recovery of a store, before and after a batch (src/runtime/recovery.rs).
use hekate.Core.Events.{EventKind, ExperienceEvent}
use hekate.Core.State.{CurrentState}
use hekate.Examples.Claims as Claims
use hekate.Examples.Completions.{Store, env, event_log, port, store}
use hekate.Examples.World.{event_of}
use hekate.Prelude.{◌≡◌, ◌↔◌, List, [], ◌∷◌, ◌++◌}
use hekate.Prelude.Results.{ok}
use hekate.Projector.Apply.{advance}
use hekate.Prelude.Text.{Text, codes}
use hekate.Recovery.{recover, report_of}
use hekate.Recovery.Laws.{IsConsistent, recover-IsConsistent}

recover-IsConsistent_example : (recover port event_log env store ≡ ok (report_of Claims.after)) ↔ (
    (state : CurrentState) × IsConsistent port event_log env store state
    × (report_of Claims.after ≡ report_of state))
recover-IsConsistent_example =
    recover-IsConsistent port event_log env store (report_of Claims.after)

abbrev batch : List ExperienceEvent
batch = event_of 6 1 EventKind.response_produced ∷ event_of 7 1 EventKind.state_changed ∷ []

abbrev final : CurrentState
final =
    advance (advance Claims.after (event_of 6 1 EventKind.response_produced))
      (event_of 7 1 EventKind.state_changed)

abbrev after : Store
after = (final, store.1 ++ batch)

abbrev at_noon : ExperienceEvent → Text
at_noon event = codes "noon"
