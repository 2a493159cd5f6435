-- ===== src/Core/Integrity.antt =====
-- The integrity hash of an event (src/core/event.rs).
use hekate.Core.Env.{Env}
use hekate.Core.Events.{EntityRef, EventKind, EventSource, ExperienceEvent}
use hekate.Core.Fingerprints.{sha256_hex}
use hekate.Core.Ids.{EventId, Json, PrincipalId}
use hekate.Prelude.{ℕ, Bool, Option, [], String, ◌==◌, ℕ_eq, list_eq}
use hekate.Prelude.Results.{Result, ok, ◌>>=◌}
use hekate.Prelude.Text.{Text}

-- The hash of the event without its hash.
unfoldable pub calculate_hash : Env → ExperienceEvent → Result String Text
calculate_hash env event = do
  bytes ← env.event_json (record event { integrity_hash = [] })
  ok (sha256_hex env bytes)

unfoldable pub verify_integrity : Env → ExperienceEvent → Result String Bool
verify_integrity env event = do hash ← calculate_hash env event; ok (event.integrity_hash == hash)

-- `ExperienceEvent::new_with_id`, with the two readings of the clock as its first arguments.
unfoldable pub new_with_id :
    Env
    → Text
    → Text
    → EventId
    → PrincipalId
    → EventKind
    → Option EntityRef
    → Json
    → EventSource
    → Option EventId
    → Option Text
    → Option ℕ
    → Result String ExperienceEvent
new_with_id env occurred_at recorded_at event_id actor_id event_kind subject payload source
      causation_id correlation_id confidence =
    let event : ExperienceEvent = record {
      event_id = event_id;
      occurred_at = occurred_at;
      recorded_at = recorded_at;
      actor_id = actor_id;
      event_kind = event_kind;
      subject = subject;
      payload = payload;
      source = source;
      causation_id = causation_id;
      correlation_id = correlation_id;
      confidence = confidence;
      integrity_hash = [];
    } in
    calculate_hash env event >>= λ hash. ok (record event { integrity_hash = hash })
