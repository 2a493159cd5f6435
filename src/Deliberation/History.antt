-- ===== src/Deliberation/History.antt =====
-- How an accepted judgment continues a stored conflict (`validate_judgment`, src/runtime/deliberation.rs).
use hekate.Core.Actions.{Decision}
use hekate.Core.Blocked.{is_unresolved}
use hekate.Core.Ids.{ConflictId, EventId, PrincipalId}
use hekate.Core.Stances.{Conflict, ConflictStatus}
use hekate.Core.State.{CurrentState}
use hekate.Core.Thoughts.{ThoughtContext}
use hekate.Deliberation.{saturating_suc}
use hekate.Deliberation.Judgment.{check_previous, valid_conflict_transition, validate_judgment}
use hekate.Deliberation.Laws.{judged_conflict}
use hekate.Prelude.{
  ◌≡◌, ◌≢◌, refl, ◌∙◌, ap, subst, Bool, true, false, some, List, arith, eq_of_beq, list_eq, ℕ_eq,
}
use hekate.Prelude.BTreeMap.{get}
use hekate.Prelude.Results.{ok}

from_unresolved :
    (from to : ConflictStatus)
    → valid_conflict_transition from to ≡ true
    → is_unresolved from ≡ true
unfolding valid_conflict_transition
from_unresolved ConflictStatus.opened to h = refl
from_unresolved ConflictStatus.negotiating to h = refl
from_unresolved ConflictStatus.resolved to h = cc
from_unresolved ConflictStatus.accepted_disagreement to h = cc

-- An update of a stored conflict that passes.
previous_unresolved :
    (previous conflict : Conflict)
    → check_previous (some previous) conflict ≡ ok tt
    → (previous.subject ≡ conflict.subject)
      × (conflict.revision ≡ saturating_suc previous.revision)
      × (is_unresolved previous.status ≡ true)
unfolding check_previous
previous_unresolved previous conflict q = (
  eq_of_beq _ _ (ground (arith, q)),
  eq_of_beq _ _ (ground (arith, q)),
  from_unresolved previous.status conflict.status (ground (arith, q)),
)

-- What an accepted judgment may do to a stored conflict: its conflict keeps the subject of the stored one of
-- the same id and has the next revision, as far as 32 bits hold it, and the stored one was unresolved.
pub judgment_continues_conflict :
    (context : ThoughtContext) (state : CurrentState) (event_ids : List EventId)
    (decision : Decision) (hekate_id : PrincipalId) (conflict previous : Conflict)
    → validate_judgment context state event_ids decision hekate_id ≡ ok tt
    → decision.conflict ≡ some conflict
    → get state.conflicts conflict.id ≡ some previous
    → (previous.subject ≡ conflict.subject)
      × (conflict.revision ≡ saturating_suc previous.revision)
      × (is_unresolved previous.status ≡ true)
judgment_continues_conflict context state event_ids decision hekate_id conflict previous q present
      stored =
    previous_unresolved previous conflict (
      subst (λ o. check_previous o conflict ≡ ok tt) stored
        (judged_conflict context state event_ids decision hekate_id conflict q present))

-- The conflict of an accepted judgment is not a closed one.
pub another_conflict :
    (context : ThoughtContext) (state : CurrentState) (event_ids : List EventId)
    (decision : Decision) (hekate_id : PrincipalId) (conflict : Conflict) (id : ConflictId)
    (closed : Conflict)
    → get state.conflicts id ≡ some closed
    → is_unresolved closed.status ≡ false
    → validate_judgment context state event_ids decision hekate_id ≡ ok tt
    → decision.conflict ≡ some conflict
    → conflict.id ≢ id
another_conflict context state event_ids decision hekate_id conflict id closed stored final q
      present =
    λ same.
      let (_, _, unresolved) =
        judgment_continues_conflict context state event_ids decision hekate_id conflict closed q
          present (ap (get state.conflicts) same ∙ stored) in
      absurd (the_other (is_unresolved closed.status) unresolved final)
  where
    the_other : (b : Bool) → b ≡ true → b ≡ false → ⊥
    the_other b p q = cc
