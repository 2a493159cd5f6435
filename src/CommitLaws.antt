-- ===== src/CommitLaws.antt =====
-- The projector and the store on one batch (src/runtime/projector.rs,
-- src/adapters/sqlite/store.rs).
use hekate.Core.Env.{Env}
use hekate.Core.Events.{ExperienceEvent}
use hekate.Core.Ids.{EventId}
use hekate.Core.State.{CurrentState}
use hekate.Prelude.{
  ℕ, ◌+◌, ◌-◌, ◌%◌, ◌≡◌, refl, ap, ◌∙◌, sym, subst, Bool, is_some_and, Option, none, some, true,
  false, List, [], ◌∷◌, ◌++◌, length, is_empty, arith, ℕ_eq, option_eq, ◌!=◌,
}
use hekate.Prelude.ListLaws.{length-++}
use hekate.Prelude.Results.{Result, ok, ◌>>◌, reject_if, for_each}
use hekate.Projector.Apply.{apply_all, u64_modulus}
use hekate.Projector.Ledger.{Ledger, apply_all-Ledger, event_ids, length-event_ids}
use hekate.SqliteStore.{
  check_base_revision, check_batch, check_integrity, check_ledger_end, get_elem?,
}
use mathlib.Core.List.{append_assoc}

get_elem?-append : (xs ys : List ℕ) (y : ℕ) → get_elem? (xs ++ y ∷ ys) (length xs) ≡ some y
unfolding get_elem?
get_elem?-append [] ys y = refl
get_elem?-append (x ∷ xs) ys y = get_elem?-append xs ys y

-- A test that fails lets the rest run.
not_rejected :
    {E : Type 0} (b : Bool) (e : E) (k : Result E (Unit {0}))
    → b ≡ false
    → k ≡ ok tt
    → (reject_if b e >> k) ≡ ok tt
not_rejected true e k f h = cc
not_rejected false e k f h = h

same_id : (found : Option ℕ) (id : ℕ) → found ≡ some id → (found != some id) ≡ false
unfolding option_eq
same_id found id h = ground arith

-- A ledger that ends with the ids of the batch passes the comparison.
ledger_end_passes :
    (before : List EventId) (events : List ExperienceEvent) (start : ℕ)
    → start ≡ length before
    → check_ledger_end (before ++ event_ids events) start events ≡ ok tt
unfolding check_ledger_end event_ids
ledger_end_passes before [] start at = refl
ledger_end_passes before (e ∷ es) start at =
    let found : get_elem? (before ++ e.event_id ∷ event_ids es) start ≡ some e.event_id =
      rw at (get_elem?-append before (event_ids es) e.event_id) in
    let rest : check_ledger_end ((before ++ e.event_id ∷ []) ++ event_ids es) (start + 1) es
        ≡ ok tt =
      ledger_end_passes (before ++ e.event_id ∷ []) es (start + 1)
        (omega (arith, at, length-++ before (e.event_id ∷ []))) in
    not_rejected _ _ _ (same_id _ e.event_id found) (
      subst (λ l. check_ledger_end l (start + 1) es ≡ ok tt)
        (append_assoc before (e.event_id ∷ []) (event_ids es)) rest)

base_passes :
    (expected : Option ℕ) (actual : ℕ)
    → is_some_and expected (λ base. base != actual) ≡ false
    → check_base_revision expected actual ≡ ok tt
unfolding check_base_revision
base_passes none actual h = refl
base_passes (some base) actual h = ground arith

-- A state that the projector computes from a stored state with a sound ledger passes every check that the
-- store makes before it writes a batch, provided that the batch is not empty, its events have valid
-- integrity hashes, the table of events holds as many events as the stored revision counts, and the base
-- revision, where one is expected, is that revision.
pub projected_batch_commits :
    (env : Env) (s : CurrentState) (es : List ExperienceEvent) (s' : CurrentState)
    (expected : Option ℕ)
    → Ledger s
    → apply_all env s es ≡ ok s'
    → is_empty es ≡ false
    → for_each (check_integrity env) es ≡ ok tt
    → is_some_and expected (λ base. base != s.revision) ≡ false
    → check_batch env s.revision es s' expected ≡ ok tt
unfolding check_batch
projected_batch_commits env s es s' expected l q filled valid base =
    let (l', ids) = apply_all-Ledger env s es s' l q in
    let size : length s'.applied_events ≡ length s.applied_events + length es =
      ap (λ (ids : List EventId). length ids) ids
      ∙ length-++ s.applied_events (event_ids es)
      ∙ ap (λ n. length s.applied_events + n) (length-event_ids es) in
    let counted : s'.revision ≡ (s.revision + length es) % u64_modulus =
      omega (arith, l.counted, l'.counted, size) in
    let ends : check_ledger_end s'.applied_events (length s'.applied_events - length es) es
        ≡ ok tt =
      subst (λ m. check_ledger_end m (length s'.applied_events - length es) es ≡ ok tt) (sym ids)
        (ledger_end_passes s.applied_events es (length s'.applied_events - length es)
          (omega (arith, size))) in
    not_rejected _ _ _ filled (
      rw (valid, base_passes expected s.revision base)
        (not_rejected _ _ _ (ground (arith, counted)) ends))
