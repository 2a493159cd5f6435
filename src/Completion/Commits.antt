-- ===== src/Completion/Commits.antt =====
-- What a commit of the completion service leaves in the store (src/runtime/completion.rs).
use hekate.Completion.{CompletionError}
use hekate.Completion.Service.{commit, commit_error}
use hekate.Core.Env.{Env}
use hekate.Core.Events.{ExperienceEvent}
use hekate.Core.State.{CurrentState}
use hekate.Prelude.{ℕ, ◌≡◌, ◌∙◌, sym, subst, some, none, List, [], ◌∷◌, ◌++◌}
use hekate.Prelude.Results.{ok, ok-injective, try_fold}
use hekate.Prelude.Text.{Text}
use hekate.Projector.Apply.{apply, apply_all}
use hekate.Projector.BatchLaws.{map_err-ok, recorded}
use hekate.Projector.Steps.{apply_all-cons}
use hekate.Storage.{EventLog, Storage}

module _ {Store Trace : Type 0} (port : Storage Store Trace) (log : EventLog port) (env : Env)
    (error_text : CompletionError → Text) where
  -- What a commit leaves in the store.
  pub record Committed (store : Store) (event : ExperienceEvent) (before committed : CurrentState)
      (after : Store) : Type 0 where
    pub applied : apply env before event ≡ ok committed
    pub kept : port.load_state after ≡ ok committed
    pub logged :
        (events : List ExperienceEvent)
        → log.load_events store ≡ ok events
        → log.load_events after ≡ ok (events ++ event ∷ [])

  pub commit-Committed :
      (store : Store) (revision : ℕ) (event : ExperienceEvent) (before committed : CurrentState)
      (after : Store)
      → port.load_state store ≡ ok before
      → commit port log env error_text store revision event ≡ ok (committed, after)
      → Committed store event before committed after
  unfolding commit try_fold
  commit-Committed store revision event before committed after loaded q =
      let r =
        recorded port env store (event ∷ []) (some revision) none committed after
          (map_err-ok commit_error _ (committed, after) q) in
      let same : r.before ≡ before = ok-injective r.before before (sym r.loaded ∙ loaded) in
      let (t, rest, one) =
        apply_all-cons env before event [] committed
          (subst (λ b. apply_all env b (event ∷ []) ≡ ok committed) same r.applied) in
      record {
        applied = one ∙ rest;
        kept = r.kept;
        logged = λ events p.
            log.events-commit store (event ∷ []) committed (some revision) none after events r.wrote
              p;
      }
