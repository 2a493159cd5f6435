-- ===== src/Deliberation/Laws.antt =====
-- What a judgment that `validate_judgment` accepts may rest on and change (src/runtime/deliberation.rs).
use hekate.Core.Actions.{Decision}
use hekate.Core.Ids.{EventId, PrincipalId}
use hekate.Core.Stances.{Conflict, Position}
use hekate.Core.State.{CurrentState}
use hekate.Core.Thoughts.{ThoughtContext}
use hekate.Deliberation.Judgment.{
  check_previous, validate_conflict, validate_position, check_conflict, check_own_position,
  check_user_position, validate_evidence, validate_judgment,
}
use hekate.Prelude.BTreeMap.{get}
use hekate.Prelude.{
  eq_of_beq, ◌≡◌, refl, Bool, true, Option, none, some, List, [], ◌∷◌, ◌++◌, arith, all, contains,
  list_eq, option_eq, ℕ_eq, ◌==◌,
}
use hekate.Prelude.Results.{ok, for_each}

all-append :
    (p : EventId → Bool) (xs ys : List EventId)
    → all p xs ≡ true
    → all p ys ≡ true
    → all p (xs ++ ys) ≡ true
unfolding all
all-append p [] ys h k = k
all-append p (x ∷ xs) ys h k = ground (arith, h, all-append p xs ys)

known_events :
    (refs event_ids : List EventId)
    → validate_evidence refs event_ids ≡ ok tt
    → all (contains event_ids) refs ≡ true
unfolding validate_evidence for_each all
known_events [] event_ids q = refl
known_events (x ∷ xs) event_ids q = ground (arith, q, known_events xs event_ids)

-- The evidence of a part of the decision, if it has that part.
abbrev pub position_evidence : Option Position → List EventId
position_evidence none = []
position_evidence (some position) = position.evidence_refs

abbrev pub conflict_evidence : Option Conflict → List EventId
conflict_evidence none = []
conflict_evidence (some conflict) = conflict.evidence_refs

-- All that the decision cites.
abbrev pub cited : Decision → List EventId
cited decision =
    decision.evidence_refs
    ++ (position_evidence decision.position
        ++ (position_evidence decision.user_position ++ conflict_evidence decision.conflict))

-- The position, if there is one, is this principal's.
abbrev pub held_by : PrincipalId → Option Position → Bool
held_by principal_id none = true
held_by principal_id (some position) = position.principal_id == principal_id

module _ (context : ThoughtContext) (state : CurrentState) (event_ids : List EventId)
    (decision : Decision) (hekate_id : PrincipalId) where
  record Accepted : Type 0 where
    targeted : (decision.target_principal_id == some (context.observation.actor_id)) ≡ true
    hashed : (decision.context_hash == context.snapshot_hash) ≡ true
    evidence : validate_evidence decision.evidence_refs event_ids ≡ ok tt
    own : check_own_position state event_ids hekate_id decision.position ≡ ok tt
    users : check_user_position context state event_ids decision.user_position ≡ ok tt
    conflicts : check_conflict context state event_ids decision hekate_id decision.conflict ≡ ok tt

  judgment-Accepted :
      validate_judgment context state event_ids decision hekate_id ≡ ok tt → Accepted
  unfolding validate_judgment
  judgment-Accepted q = record {
    targeted = ground (arith, q);
    hashed = ground (arith, q);
    evidence = ground (arith, q);
    own = ground (arith, q);
    users = ground (arith, q);
    conflicts = ground (arith, q);
  }

  own_evidence :
      (position : Option Position)
      → check_own_position state event_ids hekate_id position ≡ ok tt
      → (all (contains event_ids) (position_evidence position) ≡ true)
        × (held_by hekate_id position ≡ true)
  unfolding check_own_position validate_position all
  own_evidence none q = (refl, refl)
  own_evidence (some position) q =
      (known_events position.evidence_refs event_ids (ground (arith, q)), ground (arith, q))

  users_evidence :
      (position : Option Position)
      → check_user_position context state event_ids position ≡ ok tt
      → (all (contains event_ids) (position_evidence position) ≡ true)
        × (held_by context.observation.actor_id position ≡ true)
  unfolding check_user_position all
  users_evidence none q = (refl, refl)
  users_evidence (some position) q =
      (known_events position.evidence_refs event_ids (ground (arith, q)), ground (arith, q))

  conflicts_evidence :
      (conflict : Option Conflict)
      → check_conflict context state event_ids decision hekate_id conflict ≡ ok tt
      → all (contains event_ids) (conflict_evidence conflict) ≡ true
  unfolding check_conflict validate_conflict all
  conflicts_evidence none q = refl
  conflicts_evidence (some conflict) q =
      known_events conflict.evidence_refs event_ids (ground (arith, q))

  -- An accepted judgment is an answer to the observed user on the context it was made from, everything it
  -- cites as evidence is one of the given events, and it takes a position only for HEKATE and reports one
  -- only for that user.
  pub judgment_is_grounded :
      validate_judgment context state event_ids decision hekate_id ≡ ok tt
      → (decision.target_principal_id ≡ some (context.observation.actor_id))
        × (decision.context_hash ≡ context.snapshot_hash)
        × (all (contains event_ids) (cited decision) ≡ true)
        × (held_by hekate_id decision.position ≡ true)
        × (held_by context.observation.actor_id decision.user_position ≡ true)
  judgment_is_grounded q =
      let a = judgment-Accepted q in
      let (own, hekates) = own_evidence decision.position a.own in
      let (reported, users) = users_evidence decision.user_position a.users in
      (
        eq_of_beq _ _ a.targeted,
        eq_of_beq _ _ a.hashed,
        all-append _ _ _ (known_events _ event_ids a.evidence) (
            all-append _ _ _ own
              (all-append _ _ _ reported (conflicts_evidence decision.conflict a.conflicts))),
        hekates,
        users,
      )

  pub judged_conflict :
      (conflict : Conflict)
      → validate_judgment context state event_ids decision hekate_id ≡ ok tt
      → decision.conflict ≡ some conflict
      → check_previous (get state.conflicts conflict.id) conflict ≡ ok tt
  unfolding check_conflict validate_conflict
  judged_conflict conflict q present =
      let a = judgment-Accepted q in ground (arith, a.conflicts, present)
