-- ===== src/Completion/GateLaws.antt =====
-- What a ready gate has seen (src/runtime/completion.rs).
use hekate.Completion.{CompletionError}
use hekate.Completion.Gate.{
  open_blockers, LatestClaims, Tally, blocker_of, latest_claim_of, tally_claim, tally_verified,
}
use hekate.Core.Env.{Env}
use hekate.Core.Events.{ExperienceEvent}
use hekate.Core.Evidence.{CompletionClaim, CompletionCriterion, VerificationDisposition}
use hekate.Core.Fingerprints.{completion_fingerprint}
use hekate.Completion.Checks.{present_blocker, validate_evidence_refs}
use hekate.Prelude.Results.{ok}
use hekate.Completion.{ready}
use hekate.Core.Ids.{CompletionClaimId, ApprovalId, OperationId}
use hekate.Completion.Gate.{gate_of, tally_criteria}
use hekate.Core.State.{CurrentState}
use mathlib.Core.List.{Memᴰ, append-nil}
use mathlib.Core.List.Memᴰ
use hekate.Completion.Gate.{tally_unclaimed, tally_criterion, tally_criteria}
use hekate.Completion.{CompletionGateResult, ready}
use hekate.Completion.Checks.{ensure_task}
use hekate.Core.Ids.{TaskId}
use hekate.Core.Actions.{Approval, Operation}
use hekate.Completion.Gate.{
  evaluate_task_completion_in, no_tally, required_criteria, pending_approvals, unsettled_operations,
  latest_claims,
}
use hekate.Prelude.Results.{ok-injective}
use hekate.Prelude.{
  ◌∙◌, ◌↔◌, eq_of_beq, eq_refl, ◌==◌, ap, subst, sym, inl, inr, Option-cases, ◌≡◌, refl, Bool, true,
  false, Option, none, some, List, [], ◌∷◌, ◌++◌, any, arith, filter, is_empty, map, ℕ_eq, list_eq,
}
use hekate.Prelude.Text.{Text}

is_empty-snoc : {A : Type 0} (xs : List A) (x : A) → is_empty (xs ++ x ∷ []) ≡ false
is_empty-snoc [] x = refl
is_empty-snoc (y ∷ ys) x = refl

is_empty-left : {A : Type 0} (xs ys : List A) → is_empty (xs ++ ys) ≡ true → is_empty xs ≡ true
is_empty-left [] ys h = refl
is_empty-left (x ∷ xs) ys h = cc

is_empty-map :
    {A B : Type 0} (f : A → B) (xs : List A) → is_empty (map f xs) ≡ true → is_empty xs ≡ true
is_empty-map f [] h = refl
is_empty-map f (x ∷ xs) h = cc

-- No stored value passes a test that keeps none.
none_kept :
    {V : Type 0} (p : V → Bool) (xs : List V) → is_empty (filter p xs) ≡ true → any p xs ≡ false
unfolding filter any
none_kept p [] h = refl
none_kept p (x ∷ xs) h = ground (arith, none_kept p xs)

record IsClean (tally : Tally) : Type 0 where
  missing : is_empty tally.missing ≡ true
  needs_validation : is_empty tally.needs_validation ≡ true
  rejected : is_empty tally.rejected ≡ true
  blockers : is_empty tally.blockers ≡ true

module _ (env : Env) (error_text : CompletionError → Text) (state : CurrentState)
    (events : List ExperienceEvent) where
  -- The latest claim for the criterion is verified, and nothing blocks it.
  pub record IsSettled (latest : LatestClaims) (criterion : CompletionCriterion) : Type 0 where
    pub claim : CompletionClaim
    pub found : latest_claim_of state latest criterion.id ≡ some claim
    pub verified : claim.disposition ≡ VerificationDisposition.verified
    pub unblocked : present_blocker claim.blocker ≡ none
    pub evidenced : is_empty claim.evidence_refs ≡ false
    pub fingerprint :
        claim.fingerprint
        ≡ completion_fingerprint env claim.task_id claim.criterion_id claim.evidence_refs
    pub valid :
        validate_evidence_refs env state events claim.evidence_refs claim.as_of_sequence ≡ ok tt

  -- No blocker, in the terms of the four tests.
  record IsUnblocked (claim : CompletionClaim) : Type 0 where
    unblocked : present_blocker claim.blocker ≡ none
    evidenced : is_empty claim.evidence_refs ≡ false
    fingerprint :
        (claim.fingerprint
          == completion_fingerprint env claim.task_id claim.criterion_id claim.evidence_refs)
        ≡ true
    valid : validate_evidence_refs env state events claim.evidence_refs claim.as_of_sequence ≡ ok tt

  blocker_of-none :
      (claim : CompletionClaim)
      → blocker_of env error_text state events claim ≡ none
      → IsUnblocked claim
  unfolding blocker_of
  blocker_of-none claim h = record {
    unblocked = ground (arith, h);
    evidenced = ground (arith, h);
    fingerprint = ground (arith, h);
    valid = ground (arith, h);
  }

  none-blocker_of :
      (claim : CompletionClaim)
      → IsUnblocked claim
      → blocker_of env error_text state events claim ≡ none
  unfolding blocker_of
  none-blocker_of claim u = ground (arith, u.unblocked, u.evidenced, u.fingerprint, u.valid)

  claim-IsClean :
      (d : VerificationDisposition) (claim : CompletionClaim) (tally : Tally)
      → IsClean (tally_claim env error_text d state events claim tally)
      → (d ≡ VerificationDisposition.verified)
        × (blocker_of env error_text state events claim ≡ none)
        × IsClean tally
  unfolding tally_claim
  claim-IsClean VerificationDisposition.needs_validation claim tally c =
      cc (is_empty-snoc tally.needs_validation claim.id, c.needs_validation)
  claim-IsClean VerificationDisposition.rejected claim tally c =
      cc (is_empty-snoc tally.rejected claim.id, c.rejected)
  claim-IsClean VerificationDisposition.verified claim tally c =
      let (unblocked, clean) = step (blocker_of env error_text state events claim) c in
      (refl, unblocked, clean)
    where
      step :
          (blocker : Option Text)
          → IsClean (tally_verified blocker claim.id tally)
          → (blocker ≡ none) × IsClean tally
      step none c = (
        refl,
        record {
          missing = c.missing;
          needs_validation = c.needs_validation;
          rejected = c.rejected;
          blockers = c.blockers;
        },
      )
      step (some blocker) c = cc (is_empty-snoc tally.blockers blocker, c.blockers)

  criterion-IsClean :
      (latest : LatestClaims) (criterion : CompletionCriterion) (tally : Tally)
      → IsClean (tally_criterion env error_text state events latest tally criterion)
      → IsSettled latest criterion × IsClean tally
  unfolding tally_criterion
  criterion-IsClean latest criterion tally c =
      elim (Option-cases (latest_claim_of state latest criterion.id)) [
        | inl absent ↦ missing absent c
        | inr (claim, found) ↦
            let (v, unblocked, clean) =
              claim-IsClean (CompletionClaim.disposition claim) claim tally
                (subst IsClean (present claim found) c) in
            let u = blocker_of-none claim unblocked in
            (
              record {
                claim = claim;
                found = found;
                verified = v;
                unblocked = u.unblocked;
                evidenced = u.evidenced;
                fingerprint = eq_of_beq _ _ u.fingerprint;
                valid = u.valid;
              },
              clean,
            )
      ]
    where
      unclaimed :
          latest_claim_of state latest criterion.id ≡ none
          → tally_criterion env error_text state events latest tally criterion
            ≡ tally_unclaimed env error_text criterion.id tally
      unclaimed absent = rw (absent, tally_criterion) refl

      missing :
          latest_claim_of state latest criterion.id ≡ none
          → IsClean (tally_criterion env error_text state events latest tally criterion)
          → IsSettled latest criterion × IsClean tally
      missing absent c = cc (
        is_empty-snoc tally.missing criterion.id,
        ap (λ (t : Tally). is_empty t.missing) (unclaimed absent),
        c.missing,
      )

      present :
          (claim : CompletionClaim)
          → latest_claim_of state latest criterion.id ≡ some claim
          → tally_criterion env error_text state events latest tally criterion
            ≡ tally_claim env error_text
                (CompletionClaim.disposition claim)
                state
                events
                claim
                tally
      present claim found = rw (found, tally_criterion) refl

  criteria-IsClean :
      (latest : LatestClaims) (criteria : List CompletionCriterion) (tally : Tally)
      → IsClean (tally_criteria env error_text state events latest tally criteria)
      → ((criterion : CompletionCriterion) → Memᴰ criterion criteria → IsSettled latest criterion)
        × IsClean tally
  unfolding tally_criteria
  criteria-IsClean latest [] tally c = (λ criterion m. elim m [ ], c)
  criteria-IsClean latest (x ∷ xs) tally c =
      let (settled, clean) =
        criteria-IsClean latest xs (tally_criterion env error_text state events latest tally x) c in
      let (first, before) = criterion-IsClean latest x tally clean in
      (
        λ criterion m. elim (Memᴰ.cases_cons m) [
          | inl e ↦ subst (IsSettled latest) (sym e) first
          | inr rest ↦ settled criterion rest
        ],
        before,
      )

  settled-IsClean :
      (latest : LatestClaims) (criterion : CompletionCriterion) (tally : Tally)
      → IsSettled latest criterion
      → IsClean tally
      → IsClean (tally_criterion env error_text state events latest tally criterion)
  unfolding tally_criterion tally_claim blocker_of
  settled-IsClean latest criterion tally s c =
      let unblocked : blocker_of env error_text state events s.claim ≡ none =
        none-blocker_of s.claim (record {
          unblocked = s.unblocked;
          evidenced = s.evidenced;
          fingerprint = rw (sym s.fingerprint) (eq_refl s.claim.fingerprint);
          valid = s.valid;
        }) in
      rw (s.found, tally_criterion, s.verified, tally_claim, unblocked)
        (record {
          missing = c.missing;
          needs_validation = c.needs_validation;
          rejected = c.rejected;
          blockers = c.blockers;
        })

  all_settled-IsClean :
      (latest : LatestClaims) (criteria : List CompletionCriterion) (tally : Tally)
      → ((criterion : CompletionCriterion) → Memᴰ criterion criteria → IsSettled latest criterion)
      → IsClean tally
      → IsClean (tally_criteria env error_text state events latest tally criteria)
  unfolding tally_criteria
  all_settled-IsClean latest [] tally settled c = c
  all_settled-IsClean latest (x ∷ xs) tally settled c =
      all_settled-IsClean latest xs (tally_criterion env error_text state events latest tally x)
        (λ criterion m. settled criterion (Memᴰ.tail m))
        (settled-IsClean latest x tally (settled x (Memᴰ.head refl)) c)

  record IsOpenGate (tally : Tally) (pending : List ApprovalId) (unsettled : List OperationId)
      : Type 0 where
    clean : IsClean tally
    approvals : is_empty pending ≡ true
    operations : is_empty unsettled ≡ true

  gate-IsOpenGate :
      (tally : Tally) (pending : List ApprovalId) (unsettled : List OperationId)
      (ids : List CompletionClaimId)
      → gate_of env error_text tally pending unsettled ≡ ready ids
      → IsOpenGate tally pending unsettled
  unfolding gate_of
  gate-IsOpenGate tally pending unsettled ids q = record {
    clean = record {
      missing = ground (arith, q);
      needs_validation = ground (arith, q);
      rejected = ground (arith, q);
      blockers =
          is_empty-left tally.blockers (open_blockers env error_text pending unsettled)
            (ground (arith, q));
    };
    approvals = ground (arith, q);
    operations = ground (arith, q);
  }

  clean-ready :
      (tally : Tally) → IsClean tally → gate_of env error_text tally [] [] ≡ ready tally.verified
  unfolding gate_of
  clean-ready tally c =
      ground
        (arith, c.missing, c.needs_validation, c.rejected, c.blockers, append-nil tally.blockers)

  -- What the gate collects is settled or empty.
  pub record IsThrough (latest : LatestClaims) (task_id : TaskId) : Type 0 where
    pub settled :
        (criterion : CompletionCriterion)
        → Memᴰ criterion (required_criteria state task_id)
        → IsSettled latest criterion
    pub approvals : pending_approvals state ≡ []
    pub operations : unsettled_operations state ≡ []

  is_empty-nil : {A : Type 0} (xs : List A) → is_empty xs ≡ true → xs ≡ []
  is_empty-nil [] h = refl
  is_empty-nil (x ∷ xs) h = cc

  pub gate-IsThrough :
      (task_id : TaskId) (latest : LatestClaims)
      → ensure_task state task_id ≡ ok tt
      → latest_claims env events ≡ ok latest
      → ((ids : List CompletionClaimId) × (evaluate_task_completion_in env error_text state events
              task_id
            ≡ ok (ready ids)))
        ↔ IsThrough latest task_id
  unfolding evaluate_task_completion_in
  gate-IsThrough task_id latest known claims = (forward, backward)
    where
      tally : Tally
      tally =
          tally_criteria env error_text state events latest no_tally
            (required_criteria state task_id)

      gate : CompletionGateResult
      gate =
          gate_of env error_text tally
            (map (λ approval. Approval.id approval) (pending_approvals state))
            (map (λ operation. Operation.id operation) (unsettled_operations state))

      evaluated : evaluate_task_completion_in env error_text state events task_id ≡ ok gate
      evaluated = rw (known, claims) refl

      forward :
          ((ids : List CompletionClaimId) × (evaluate_task_completion_in env error_text state events
                task_id
              ≡ ok (ready ids)))
          → IsThrough latest task_id
      forward (ids, q) =
          let o =
            gate-IsOpenGate tally _ _ ids (ok-injective gate (ready ids) (sym evaluated ∙ q)) in
          record {
            settled =
                (criteria-IsClean latest (required_criteria state task_id) no_tally o.clean).0;
            approvals = is_empty-nil _ (is_empty-map _ _ o.approvals);
            operations = is_empty-nil _ (is_empty-map _ _ o.operations);
          }

      backward :
          IsThrough latest task_id
          → ((ids : List CompletionClaimId) × (evaluate_task_completion_in env error_text state
                  events task_id
                ≡ ok (ready ids)))
      backward r =
          let clean =
            all_settled-IsClean latest (required_criteria state task_id) no_tally r.settled
              (record {
                missing = refl;
                needs_validation = refl;
                rejected = refl;
                blockers = refl;
              }) in
          (
            tally.verified,
            evaluated ∙ ap ok (rw (r.approvals, r.operations) (clean-ready tally clean)),
          )
