-- ===== src/Projector/InitiativeLife.antt =====
-- The life of an initiative (src/runtime/projector.rs).
use hekate.Projector.Apply.{advance, apply, dispatch}
use hekate.Projector.Footprint.{dispatch-Footprint}
use hekate.Projector.Steps.{apply-Applied}
use hekate.Core.Env.{Env}
use hekate.Core.Events.{ExperienceEvent, EventKind}
use hekate.Core.Initiatives.{
  InitiativeProposal, InitiativeStatus, initiative_proposal_eq, initiative_status_eq,
}
use hekate.Core.State.{CurrentState}
use hekate.Prelude.{
  ℕ, ◌≡◌, ◌≢◌, ap, ◌∙◌, sym, subst, true, false, some, arith, any, eq_of_beq, ◌==◌, list_eq, ℕ_eq,
  refl, ◌!=◌, ◌||◌, ◌&&◌, not,
}
use native.Mathlib.Decide.{ℕ_discrete}
use hekate.Prelude.BTreeMap.{get, insert, values, contains_key, get-insert, same_entry}
use hekate.Prelude.Results.{Ensures, Ensures-bind, Ensures-reject, Ensures-ok_or, ok}
use hekate.Projector.Errors.{payload, is_model_actor}
use hekate.Projector.Initiatives.{
  apply_initiative_proposed, apply_initiative_status, apply_initiative_transition,
  apply_initiative_dismissed,
}

-- The status changes that the projector makes.
pub data StatusStep : InitiativeStatus → InitiativeStatus → Type 0 where
  stay : {status : InitiativeStatus} → StatusStep status status
  ready : StatusStep InitiativeStatus.proposed InitiativeStatus.ready
  dismiss_proposed : StatusStep InitiativeStatus.proposed InitiativeStatus.dismissed
  dismiss_ready : StatusStep InitiativeStatus.ready InitiativeStatus.dismissed

-- The stored proposal `p` lives on in `s'` under its key.
pub record Lives (s' : CurrentState) (k : ℕ) (p : InitiativeProposal) : Type 0 where
  pub next : InitiativeProposal
  pub found : get s'.initiatives k ≡ some next
  pub same_data : next ≡ record p { status = next.status }
  pub step : StatusStep p.status next.status

-- What a successful change of status has checked and stored.
record Changed (s : CurrentState) (proposal : InitiativeProposal) (from to : InitiativeStatus)
    (s' : CurrentState) : Type 0 where
  current : InitiativeProposal
  found : get s.initiatives proposal.id ≡ some current
  was : (current.status == from) ≡ true
  agrees : (record current { status = to } == proposal) ≡ true
  stored : s'.initiatives ≡ insert s.initiatives proposal.id proposal

changed :
    (env : Env) (s : CurrentState) (e : ExperienceEvent) (proposal : InitiativeProposal)
    (from to : InitiativeStatus)
    → Ensures (Changed s proposal from to) (apply_initiative_status env s e proposal from to)
unfolding apply_initiative_status
changed env s e proposal from to = record { at = λ s' q. ground arith }

-- What a successful proposal has checked and stored.
record Proposed (s : CurrentState) (proposal : InitiativeProposal) (s' : CurrentState)
    : Type 0 where
  new_id : contains_key s.initiatives proposal.id ≡ false
  new_fingerprint :
      any
        (λ (existing : InitiativeProposal). existing.fingerprint == proposal.fingerprint)
        (values s.initiatives)
      ≡ false
  stored : s'.initiatives ≡ insert s.initiatives proposal.id proposal

proposed :
    (env : Env) (s : CurrentState) (e : ExperienceEvent)
    → Ensures
        (λ s'. (proposal : InitiativeProposal) × Proposed s proposal s')
        (apply_initiative_proposed env s e)
unfolding apply_initiative_proposed
proposed env s e =
    Ensures-bind _ (payload env.decode_initiative_proposal e) _
      λ proposal _. record { at = λ s' q. (proposal, ground arith) }

-- A proposal that nothing touches lives on.
untouched-Lives :
    (s : CurrentState) (k : ℕ) (p : InitiativeProposal) (s' : CurrentState)
    → get s'.initiatives k ≡ get s.initiatives k
    → get s.initiatives k ≡ some p
    → Lives s' k p
untouched-Lives s k p s' e g = record { next = p; found = e ∙ g; same_data = refl; step = stay }

-- Another key than the one inserted.
other_key :
    (s : CurrentState) (proposal : InitiativeProposal) (s' : CurrentState) (k : ℕ)
    → s'.initiatives ≡ insert s.initiatives proposal.id proposal
    → proposal.id ≢ k
    → get s'.initiatives k ≡ get s.initiatives k
other_key s proposal s' k stored ne =
    ap (λ m. get m k) stored ∙ ground (arith, get-insert s.initiatives proposal.id proposal k)

same_key :
    (s : CurrentState) (proposal : InitiativeProposal) (s' : CurrentState)
    → s'.initiatives ≡ insert s.initiatives proposal.id proposal
    → get s'.initiatives proposal.id ≡ some proposal
same_key s proposal s' stored =
    ap (λ m. get m proposal.id) stored
    ∙ ground (arith, get-insert s.initiatives proposal.id proposal proposal.id)

proposed-Lives :
    (s : CurrentState) (proposal : InitiativeProposal) (s' : CurrentState) (k : ℕ)
    (p : InitiativeProposal)
    → Proposed s proposal s'
    → get s.initiatives k ≡ some p
    → Lives s' k p
proposed-Lives s proposal s' k p c g =
    untouched-Lives s k p s'
      (other_key s proposal s' k c.stored
        (λ same. absurd (taken (subst (λ i. contains_key s.initiatives i ≡ false) same c.new_id))))
      g
  where
    taken : contains_key s.initiatives k ≡ false → ⊥
    taken free = ground arith

changed-Lives :
    (s : CurrentState) (proposal : InitiativeProposal) (from to : InitiativeStatus)
    (s' : CurrentState) (k : ℕ) (p : InitiativeProposal)
    → Changed s proposal from to s'
    → StatusStep from to
    → get s.initiatives k ≡ some p
    → Lives s' k p
changed-Lives s proposal from to s' k p c step g = elim (ℕ_discrete proposal.id k) [
  | yes same ↦
      let one : p ≡ c.current =
        same_entry (get s.initiatives k) p c.current g
          (subst (λ i. get s.initiatives i ≡ some c.current) same c.found) in
      let next : record p { status = to } ≡ proposal =
        ap (λ (x : InitiativeProposal). record x { status = to }) one
        ∙ eq_of_beq (record c.current { status = to }) proposal c.agrees in
      let before : p.status ≡ from =
        ap (λ (x : InitiativeProposal). x.status) one ∙ eq_of_beq c.current.status from c.was in
      record {
        next = record p { status = to };
        found =
            subst (λ i. get s'.initiatives i ≡ some (record p { status = to })) same
              (same_key s proposal s' c.stored ∙ ap some (sym next));
        same_data = refl;
        step = subst (λ x. StatusStep x to) (sym before) step;
      }
  | no other ↦ untouched-Lives s k p s' (other_key s proposal s' k c.stored other) g
]

-- What the two handlers of status changes come to.
readied :
    (env : Env) (s : CurrentState) (e : ExperienceEvent)
    → Ensures
        (λ s'.
          (proposal : InitiativeProposal) × Changed s proposal InitiativeStatus.proposed
            InitiativeStatus.ready s')
        (apply_initiative_transition env s e InitiativeStatus.proposed InitiativeStatus.ready)
unfolding apply_initiative_transition
readied env s e = Ensures-bind _ (payload env.decode_initiative_proposal e) _ λ proposal _.
    Ensures-reject _
      (proposal.status != InitiativeStatus.ready || not (is_model_actor s e.actor_id)) _ _
      λ _. record {
        at = λ s' q. (
          proposal,
          (changed env s e proposal InitiativeStatus.proposed InitiativeStatus.ready).at s' q,
        );
      }

-- A status that may still be dismissed.
dismissal_step :
    (status : InitiativeStatus)
    → (status != InitiativeStatus.proposed && status != InitiativeStatus.ready) ≡ false
    → StatusStep status InitiativeStatus.dismissed
unfolding initiative_status_eq
dismissal_step InitiativeStatus.proposed h = dismiss_proposed
dismissal_step InitiativeStatus.ready h = dismiss_ready
dismissal_step InitiativeStatus.awaiting_approval h = cc
dismissal_step InitiativeStatus.delivered h = cc
dismissal_step InitiativeStatus.dismissed h = cc

dismissed :
    (env : Env) (s : CurrentState) (e : ExperienceEvent)
    → Ensures
        (λ s'.
          (proposal : InitiativeProposal) × (from : InitiativeStatus) × Changed s proposal from
            InitiativeStatus.dismissed s'
          × StatusStep from InitiativeStatus.dismissed)
        (apply_initiative_dismissed env s e)
unfolding apply_initiative_dismissed
dismissed env s e = Ensures-bind _ (payload env.decode_initiative_proposal e) _ λ proposal _.
    Ensures-reject _
      (proposal.status != InitiativeStatus.dismissed || e.actor_id != proposal.target_principal_id)
      _ _
      λ _. Ensures-ok_or _ (get s.initiatives proposal.id) _ _ λ current _.
        Ensures-reject _
          (current.status != InitiativeStatus.proposed && current.status != InitiativeStatus.ready)
          _ _
          λ may. record {
            at = λ s' q. (
              proposal,
              current.status,
              (changed env s e proposal current.status InitiativeStatus.dismissed).at s' q,
              dismissal_step current.status may,
            );
          }

dispatch-Lives :
    (kind : EventKind) (env : Env) (s : CurrentState) (e : ExperienceEvent) (k : ℕ)
    (p : InitiativeProposal)
    → get s.initiatives k ≡ some p
    → Ensures (λ s'. Lives s' k p) (dispatch kind env s e)
unfolding dispatch
dispatch-Lives EventKind.initiative_proposed env s e k p g = record {
  at = λ s' q.
      let (proposal, c) = (proposed env s e).at s' q in proposed-Lives s proposal s' k p c g;
}
dispatch-Lives EventKind.initiative_readied env s e k p g = record {
  at = λ s' q.
      let (proposal, c) = (readied env s e).at s' q in
      changed-Lives s proposal InitiativeStatus.proposed InitiativeStatus.ready s' k p c ready g;
}
dispatch-Lives EventKind.initiative_dismissed env s e k p g = record {
  at = λ s' q.
      let (proposal, from, c, step) = (dismissed env s e).at s' q in
      changed-Lives s proposal from InitiativeStatus.dismissed s' k p c step g;
}
dispatch-Lives kind env s e k p g = record {
  at = λ s' q.
      untouched-Lives s k p s'
        (ap (λ m. get m k) ((dispatch-Footprint kind env s e).at s' q).initiatives) g;
}

-- A stored initiative survives every successful event under its id with all its data, and its status stays
-- or goes from proposed to ready, or from proposed or ready to dismissed.
pub initiative_lifecycle :
    (env : Env) (s : CurrentState) (e : ExperienceEvent) (s' : CurrentState) (k : ℕ)
    (p : InitiativeProposal)
    → get s.initiatives k ≡ some p
    → apply env s e ≡ ok s'
    → Lives s' k p
unfolding advance
initiative_lifecycle env s e s' k p g q =
    let a = apply-Applied env s e s' q in
    let l = (dispatch-Lives e.event_kind env s e k p g).at a.moved a.ran in
    subst (λ t. Lives t k p) (sym a.counted)
      (record { next = l.next; found = l.found; same_data = l.same_data; step = l.step })
