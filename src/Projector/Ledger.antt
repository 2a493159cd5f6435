-- ===== src/Projector/Ledger.antt =====
-- The ledger of applied events and the revision that counts it (src/runtime/projector.rs).

use hekate.Core.Env.{Env}
use hekate.Core.Events.{ExperienceEvent}
use hekate.Core.Ids.{EventId}
use hekate.Core.State.{CurrentState, empty}
use mathlib.Core.List.{append-nil, append_assoc}
use hekate.Prelude.{
  subst, ◌∙◌, sym, suc, ◌+◌, ap, ℕ, ◌%◌, ◌≡◌, refl, Bool, true, false, not, ◌||◌, ◌&&◌, List, [],
  ◌∷◌, ◌++◌, arith, contains, length, ℕ_eq, nat_eq,
}
use hekate.Prelude.Results.{ok-injective, ok, err, try_fold}
use hekate.Projector.Errors.{duplicate}
use hekate.Projector.Steps.{Applied, apply-Applied, apply_all-cons}
use hekate.Projector.Apply.{apply, apply_all, advance, replay, u64_modulus}

-- No id stands twice.
unfoldable pub distinct : List ℕ → Bool
distinct [] = true
distinct (x ∷ xs) = not (contains xs x) && distinct xs

contains-snoc : (xs : List ℕ) (a b : ℕ) → contains (xs ++ a ∷ []) b ≡ (contains xs b || nat_eq a b)
unfolding contains
contains-snoc [] a b = ground arith
contains-snoc (x ∷ xs) a b = ground (arith, contains-snoc xs a b)

distinct-snoc :
    (xs : List ℕ) (a : ℕ)
    → distinct xs ≡ true
    → contains xs a ≡ false
    → distinct (xs ++ a ∷ []) ≡ true
unfolding distinct contains
distinct-snoc [] a d f = refl
distinct-snoc (x ∷ xs) a d f = ground (arith, contains-snoc xs a x, distinct-snoc xs a)

pub record Ledger (s : CurrentState) : Type 0 where
  pub counted : s.revision ≡ length s.applied_events % u64_modulus
  pub no_repeat : distinct s.applied_events ≡ true

unfoldable pub event_ids : List ExperienceEvent → List EventId
event_ids [] = []
event_ids (e ∷ es) = e.event_id ∷ event_ids es

pub length-event_ids : (es : List ExperienceEvent) → length (event_ids es) ≡ length es
unfolding event_ids
length-event_ids [] = refl
length-event_ids (e ∷ es) = ap suc (length-event_ids es)

length-snoc : (xs : List ℕ) (a : ℕ) → length (xs ++ a ∷ []) ≡ suc (length xs)
length-snoc [] a = refl
length-snoc (x ∷ xs) a = ap suc (length-snoc xs a)

-- One event joins the ledger at its end.
pub applied_events-apply :
    {env : Env} {s : CurrentState} {e : ExperienceEvent} {s' : CurrentState}
    → Applied env s e s'
    → s'.applied_events ≡ s.applied_events ++ e.event_id ∷ []
unfolding advance
applied_events-apply {e = e} a =
    ap CurrentState.applied_events a.counted
    ∙ ap (λ (l : List EventId). l ++ e.event_id ∷ []) a.footprint.applied_events

pub revision-apply :
    {env : Env} {s : CurrentState} {e : ExperienceEvent} {s' : CurrentState}
    → Applied env s e s'
    → s'.revision ≡ (s.revision + 1) % u64_modulus
unfolding advance
revision-apply a =
    ap CurrentState.revision a.counted ∙ ap (λ (n : ℕ). (n + 1) % u64_modulus) a.footprint.revision

pub apply-Ledger :
    {env : Env} {s : CurrentState} {e : ExperienceEvent} {s' : CurrentState}
    → Applied env s e s'
    → Ledger s
    → Ledger s'
apply-Ledger {s = s} {e = e} a h = record {
  counted = rw (applied_events-apply a, length-snoc) (omega (arith, revision-apply a, h.counted));
  no_repeat =
      rw (applied_events-apply a) (distinct-snoc s.applied_events e.event_id h.no_repeat a.fresh);
}

pub apply_all-Ledger :
    (env : Env) (s : CurrentState) (es : List ExperienceEvent) (s' : CurrentState)
    → Ledger s
    → apply_all env s es ≡ ok s'
    → Ledger s' × (s'.applied_events ≡ s.applied_events ++ event_ids es)
unfolding event_ids try_fold
apply_all-Ledger env s [] s' h q =
    let same : s ≡ s' = ok-injective s s' q in
    (
      subst Ledger same h,
      ap CurrentState.applied_events (sym same) ∙ sym (append-nil s.applied_events),
    )
apply_all-Ledger env s (e ∷ es) s' h q =
    let (t, rest, first) = apply_all-cons env s e es s' q in
    let a = apply-Applied env s e t first in
    let (l, ids) = apply_all-Ledger env t es s' (apply-Ledger a h) rest in
    (
      l,
      ids
          ∙ ap (λ (m : List EventId). m ++ event_ids es) (applied_events-apply a)
          ∙ append_assoc s.applied_events (e.event_id ∷ []) (event_ids es),
    )

empty-Ledger : Ledger empty
unfolding distinct
empty-Ledger = record { counted = refl; no_repeat = refl }

-- A successful replay has applied exactly the events of the log, in order: the ledger lists their ids,
-- no id stands twice in the log, and the revision is their number modulo 2 ^ 64.
pub replay-ledger :
    (env : Env) (es : List ExperienceEvent) (s' : CurrentState)
    → replay env es ≡ ok s'
    → (s'.applied_events ≡ event_ids es)
      × (distinct (event_ids es) ≡ true)
      × (s'.revision ≡ length es % u64_modulus)
unfolding replay
replay-ledger env es s' q =
    let (l, ids) = apply_all-Ledger env empty es s' empty-Ledger q in
    (
      ids,
      subst (λ m. distinct m ≡ true) ids l.no_repeat,
      l.counted
          ∙ ap (λ (m : List EventId). length m % u64_modulus) ids
          ∙ ap (λ (n : ℕ). n % u64_modulus) (length-event_ids es),
    )

contains-append : (xs ys : List ℕ) (a : ℕ) → contains xs a ≡ true → contains (xs ++ ys) a ≡ true
unfolding contains
contains-append [] ys a h = cc
contains-append (x ∷ xs) ys a h = ground (arith, contains-append xs ys a)

contains_last : (xs : List ℕ) (a : ℕ) → contains (xs ++ a ∷ []) a ≡ true
contains_last xs a = ground (arith, contains-snoc xs a a)

-- An event that was applied once is refused as a duplicate ever after, whatever events came between.
pub apply_again :
    (env : Env) (s : CurrentState) (e : ExperienceEvent) (t : CurrentState)
    (es : List ExperienceEvent) (u : CurrentState)
    → Ledger s
    → apply env s e ≡ ok t
    → apply_all env t es ≡ ok u
    → apply env u e ≡ err (duplicate (env.uuid_text e.event_id))
unfolding apply
apply_again env s e t es u l first rest =
    let a = apply-Applied env s e t first in
    let (_, ids) = apply_all-Ledger env t es u (apply-Ledger a l) rest in
    let held : contains u.applied_events e.event_id ≡ true =
      rw (ids, applied_events-apply a)
        (contains-append (s.applied_events ++ e.event_id ∷ []) (event_ids es) e.event_id
          (contains_last s.applied_events e.event_id)) in
    rw held
