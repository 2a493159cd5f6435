-- ===== src/Examples/Stores.antt =====
-- Batches over a store that holds the last state (src/runtime/projector.rs,
-- src/adapters/sqlite/store.rs).
use hekate.CommitLaws.{projected_batch_commits}
use hekate.Core.Env.{Env}
use hekate.Core.Events.{EventKind, ExperienceEvent}
use hekate.Core.Integrity.{verify_integrity}
use hekate.Core.IntegrityLaws.{new_with_id-verifies}
use hekate.Core.Social.{Principal, PrincipalKind}
use hekate.Core.State.{CurrentState, empty}
use hekate.Examples.World.{executable, no_payloads, event_of}
use hekate.Prelude.{ℕ, ◌≡◌, refl, sym, none, some, true, List, [], ◌∷◌}
use hekate.Prelude.Results.{ok, err}
use hekate.Prelude.Text.{codes}
use hekate.Projector.Batch.{record_batch, record_event}
use hekate.Projector.BatchLaws.{recorded_once}
use hekate.Projector.Errors.{duplicate}
use hekate.Projector.Ledger.{Ledger}
use hekate.SqliteStore.{check_batch}
use hekate.Storage.{Storage}

abbrev last_state : Storage CurrentState ℕ
last_state = record {
  load_state = λ store. ok store;
  commit_batch = λ store events state expected trace. ok state;
  load-commit = λ env store before events state expected trace after l a q. sym q;
}

abbrev ada : Principal
ada = record { id = 1; kind = PrincipalKind.user; name = codes "ada"; identity_version_id = none }

abbrev env : Env
env = record no_payloads { decode_principal = λ payload. ok ada }

abbrev signed : ℕ → EventKind → ExperienceEvent
signed id kind = record (event_of id 1 kind) { integrity_hash = codes "01" }

abbrev first : List ExperienceEvent
first = signed 1 EventKind.principal_created ∷ []

abbrev second : List ExperienceEvent
second = signed 2 EventKind.response_produced ∷ signed 3 EventKind.state_changed ∷ []

abbrev middle : CurrentState
middle = record empty { revision = 1; principals = (1, ada) ∷ []; applied_events = 1 ∷ [] }

abbrev after : CurrentState
after = record empty { revision = 3; principals = (1, ada) ∷ []; applied_events = 1 ∷ 2 ∷ 3 ∷ [] }

first_recorded : record_batch last_state env empty first (some 0) none ≡ ok (middle, middle)
unfolding executable
first_recorded = refl

second_recorded : record_batch last_state env middle second (some 1) (some 9) ≡ ok (after, after)
unfolding executable
second_recorded = refl

event_recorded :
    record_event last_state env empty (signed 1 EventKind.principal_created) ≡ ok (middle, middle)
unfolding executable
event_recorded = refl

no_events-Ledger : Ledger empty
unfolding executable
no_events-Ledger = record { counted = refl; no_repeat = refl }

recorded_once_example :
    record_event last_state env after (signed 1 EventKind.principal_created)
    ≡ err (duplicate (codes "1"))
recorded_once_example =
    recorded_once last_state env empty (signed 1 EventKind.principal_created) second (some 1)
      (some 9) empty middle after middle after refl no_events-Ledger event_recorded second_recorded

middle-Ledger : Ledger middle
unfolding executable
middle-Ledger = record { counted = refl; no_repeat = refl }

projected_batch_commits_example : check_batch env 1 second after (some 1) ≡ ok tt
unfolding executable
projected_batch_commits_example =
    projected_batch_commits env middle second after (some 1) middle-Ledger refl refl refl refl

abbrev made : ExperienceEvent
made = record (event_of 5 1 EventKind.response_produced) {
  occurred_at = codes "now";
  payload = codes "{}";
  integrity_hash = codes "03";
}

new_with_id-verifies_example : verify_integrity env made ≡ ok true
unfolding executable
new_with_id-verifies_example =
    new_with_id-verifies env (codes "now") [] 5 1 EventKind.response_produced none (codes "{}")
      (record { source_type = []; source_ref = none }) none none none made refl
