-- ===== src/Projector/BatchLaws.antt =====
-- What recording batches over a store comes to (src/runtime/projector.rs).
use hekate.Core.Env.{Env}
use hekate.Core.Events.{ExperienceEvent}
use hekate.Core.State.{CurrentState}
use hekate.Prelude.{ℕ, ◌≡◌, refl, ap, ◌∙◌, sym, subst, Option, none, List, [], ◌∷◌}
use hekate.Prelude.Results.{Result, try_fold, ok, err, ok-injective, map_err, >>=-eq-ok}
use hekate.Projector.Apply.{apply, apply_all}
use hekate.Projector.Batch.{check_base, record_batch, record_event}
use hekate.Projector.Errors.{duplicate, storage}
use hekate.Projector.Ledger.{Ledger, apply_again}
use hekate.Storage.{Storage}

pub map_err-ok :
    {E F A : Type 0} (f : E → F) (r : Result E A) (a : A) → map_err f r ≡ ok a → r ≡ ok a
map_err-ok f (ok b) a q = cc
map_err-ok f (err e) a q = cc

module _ {Store Trace : Type 0} (port : Storage Store Trace) (env : Env) where
  -- A recorded batch was applied to the state that was loaded, and its result is loaded next.
  pub record Recorded (store : Store) (es : List ExperienceEvent) (expected : Option ℕ)
      (trace : Option Trace) (s' : CurrentState) (after : Store) : Type 0 where
    pub before : CurrentState
    pub loaded : port.load_state store ≡ ok before
    pub applied : apply_all env before es ≡ ok s'
    pub wrote : port.commit_batch store es s' expected trace ≡ ok after
    pub kept : port.load_state after ≡ ok s'

  pub recorded :
      (store : Store) (es : List ExperienceEvent) (expected : Option ℕ) (trace : Option Trace)
      (s' : CurrentState) (after : Store)
      → record_batch port env store es expected trace ≡ ok (s', after)
      → Recorded store es expected trace s' after
  unfolding record_batch
  recorded store es expected trace s' after q =
      let (before, rest, loading) = >>=-eq-ok _ _ q in
      let (_, rest, _) = >>=-eq-ok (check_base before expected) _ rest in
      let (projected, rest, applied) = >>=-eq-ok (apply_all env before es) _ rest in
      let (committed, rest, commit) = >>=-eq-ok _ _ rest in
      let one : projected ≡ s' =
        ap (λ (p : CurrentState × Store). p.0) (ok-injective _ (s', after) rest) in
      let two : committed ≡ after =
        ap (λ (p : CurrentState × Store). p.1) (ok-injective _ (s', after) rest) in
      let written : port.commit_batch store es s' expected trace ≡ ok after =
        ap (λ p. port.commit_batch store es p expected trace) (sym one)
        ∙ map_err-ok storage _ committed commit
        ∙ ap ok two in
      let loaded = map_err-ok storage (port.load_state store) before loading in
      record {
        before = before;
        loaded = loaded;
        applied = applied ∙ ap ok one;
        wrote = written;
        kept =
            port.load-commit env store before es s' expected trace after loaded
              (applied ∙ ap ok one) written;
      }

  -- A batch that is recorded after another is applied to the state of the other.
  follows :
      (store : Store) (es : List ExperienceEvent) (expected : Option ℕ) (trace : Option Trace)
      (s s' : CurrentState) (after : Store)
      → port.load_state store ≡ ok s
      → record_batch port env store es expected trace ≡ ok (s', after)
      → (apply_all env s es ≡ ok s') × (port.load_state after ≡ ok s')
  follows store es expected trace s s' after l q =
      let r = recorded store es expected trace s' after q in
      let same : r.before ≡ s = ok-injective _ s (sym r.loaded ∙ l) in
      (subst (λ b. apply_all env b es ≡ ok s') same r.applied, r.kept)

  -- Over a store that loads what was committed, an event that was recorded on a state with a sound ledger
  -- is refused as a duplicate when it is recorded again, after any further batch.
  pub recorded_once :
      (store : Store) (e : ExperienceEvent) (fs : List ExperienceEvent) (expected : Option ℕ)
      (trace : Option Trace) (s t u : CurrentState) (middle after : Store)
      → port.load_state store ≡ ok s
      → Ledger s
      → record_event port env store e ≡ ok (t, middle)
      → record_batch port env middle fs expected trace ≡ ok (u, after)
      → record_event port env after e ≡ err (duplicate (env.uuid_text e.event_id))
  unfolding record_batch record_event check_base try_fold
  recorded_once store e fs expected trace s t u middle after l sound p q =
      let (first, loads) = follows store (e ∷ []) none none s t middle l p in
      let (second, kept) = follows middle fs expected trace t u after loads q in
      let (v, rest, one) = >>=-eq-ok (apply env s e) _ first in
      let again = apply_again env s e t fs u sound (one ∙ rest) second in rw (kept, again) refl
