-- ===== src/Projector/Steps.antt =====
-- A successful `apply` taken apart, and induction over a run of events (src/runtime/projector.rs).
use hekate.Core.Env.{Env}
use hekate.Core.Events.{ExperienceEvent}
use hekate.Core.State.{CurrentState, empty}
use hekate.Prelude.{◌≡◌, refl, Bool, true, false, List, ◌∷◌, ◌++◌, contains, ℕ_eq}
use hekate.Prelude.Results.{
  ok, err, ◌>>=◌, ◌>>◌, reject_if, try_fold, try_fold-keeps, try_fold-append, >>=-eq-ok,
}
use hekate.Projector.Apply.{advance, apply, apply_all, dispatch, replay}
use hekate.Projector.Errors.{Outcome, duplicate}
use hekate.Projector.Footprint.{Footprint, dispatch-Footprint}

-- The arm of the event gave `moved`, and `moved` with the event counted is the new state.
pub record Applied (env : Env) (s : CurrentState) (e : ExperienceEvent) (s' : CurrentState)
    : Type 0 where
  pub moved : CurrentState
  pub fresh : contains s.applied_events e.event_id ≡ false
  pub ran : dispatch e.event_kind env s e ≡ ok moved
  pub footprint : Footprint e.event_kind s moved
  pub counted : s' ≡ advance moved e

pub apply-Applied :
    (env : Env) (s : CurrentState) (e : ExperienceEvent) (s' : CurrentState)
    → apply env s e ≡ ok s'
    → Applied env s e s'
unfolding apply
apply-Applied env s e s' q =
    split (contains s.applied_events e.event_id) (dispatch e.event_kind env s e) refl refl q
  where
    split :
        (b : Bool) (r : Outcome CurrentState)
        → contains s.applied_events e.event_id ≡ b
        → dispatch e.event_kind env s e ≡ r
        → (reject_if b (duplicate (env.uuid_text e.event_id))
            >> (r >>= λ moved. ok (advance moved e)))
          ≡ ok s'
        → Applied env s e s'
    split true r f g h = cc
    split false (err x) f g h = cc
    split false (ok moved) f g h = record {
      moved = moved;
      fresh = f;
      ran = g;
      footprint = (dispatch-Footprint e.event_kind env s e).at moved g;
      counted = cc;
    }

-- What one successful event preserves holds at the end of a run.
module _ (env : Env) (P : CurrentState → Type 0)
    (step : (s : CurrentState) (e : ExperienceEvent) (s' : CurrentState)
      → P s
      → Applied env s e s'
      → P s') where
  pub apply_all-keeps :
      (s : CurrentState) (events : List ExperienceEvent) (s' : CurrentState)
      → P s
      → apply_all env s events ≡ ok s'
      → P s'
  apply_all-keeps s events s' h q =
      (try_fold-keeps P (apply env)
          (λ t e p. record { at = λ t' r. step t e t' p (apply-Applied env t e t' r) }) s events
          h).at
        s' q

  pub replay-keeps :
      (events : List ExperienceEvent) (s' : CurrentState)
      → P empty
      → replay env events ≡ ok s'
      → P s'
  unfolding replay
  replay-keeps events s' h q = apply_all-keeps empty events s' h q

-- Events in two parts: the second part runs from the state that the first leaves.
pub apply_all-append :
    (env : Env) (s : CurrentState) (xs ys : List ExperienceEvent)
    → apply_all env s (xs ++ ys) ≡ (apply_all env s xs >>= λ t. apply_all env t ys)
apply_all-append env s xs ys = try_fold-append (apply env) s xs ys

-- A successful run begins with a successful event.
pub apply_all-cons :
    (env : Env) (s : CurrentState) (x : ExperienceEvent) (xs : List ExperienceEvent)
    (s' : CurrentState)
    → apply_all env s (x ∷ xs) ≡ ok s'
    → (t : CurrentState) × (apply_all env t xs ≡ ok s') × (apply env s x ≡ ok t)
unfolding try_fold
apply_all-cons env s x xs s' q = >>=-eq-ok (apply env s x) (λ t. apply_all env t xs) q
