-- ===== src/Core/IntegrityLaws.antt =====
-- New events and their integrity hashes (src/core/event.rs).
use hekate.Core.Env.{Env}
use hekate.Core.Events.{EntityRef, EventKind, EventSource, ExperienceEvent}
use hekate.Core.Ids.{EventId, Json, PrincipalId}
use hekate.Core.Integrity.{calculate_hash, new_with_id, verify_integrity}
use hekate.Prelude.{ℕ, ◌≡◌, refl, true, Option, [], ℕ_eq, list_eq, arith, sym, ◌∙◌, subst, eq_refl}
use hekate.Prelude.Results.{ok, ok-injective, >>=-eq-ok}
use hekate.Prelude.Text.{Text}

-- The hash of an event whose own hash is put in is the hash of the event.
signed_hash :
    (env : Env) (event : ExperienceEvent) (hash : Text)
    → event.integrity_hash ≡ []
    → calculate_hash env (record event { integrity_hash = hash }) ≡ calculate_hash env event
unfolding calculate_hash
signed_hash env event hash unsigned = rw (sym unsigned) refl

verifies :
    (env : Env) (event : ExperienceEvent)
    → calculate_hash env event ≡ ok event.integrity_hash
    → verify_integrity env event ≡ ok true
unfolding verify_integrity
verifies env event h = ground (arith, eq_refl event.integrity_hash)

-- An event that `new_with_id` makes has a valid integrity hash.
pub new_with_id-verifies :
    (env : Env) (occurred_at recorded_at : Text) (event_id : EventId) (actor_id : PrincipalId)
    (event_kind : EventKind) (subject : Option EntityRef) (payload : Json) (source : EventSource)
    (causation_id : Option EventId) (correlation_id : Option Text) (confidence : Option ℕ)
    (event : ExperienceEvent)
    → new_with_id env occurred_at recorded_at event_id actor_id event_kind subject payload source
        causation_id correlation_id confidence
      ≡ ok event
    → verify_integrity env event ≡ ok true
unfolding new_with_id
new_with_id-verifies env occurred_at recorded_at event_id actor_id event_kind subject payload source
      causation_id correlation_id confidence event q =
    let (hash, rest, hashed) = >>=-eq-ok _ _ q in
    let same = ok-injective _ event rest in
    verifies env event (
      subst (λ (e : ExperienceEvent). calculate_hash env e ≡ ok e.integrity_hash) same
        (signed_hash env _ hash refl ∙ hashed))
