-- ===== src/Projector/SoundClaims.antt =====
-- The completion claims that the projector stores (src/runtime/projector.rs).
use hekate.Core.Env.{Env}
use hekate.Core.Evidence.{
  CompletionClaim, CompletionClaimTransition, VerificationDisposition, verification_disposition_eq,
  evidence_ref_eq,
}
use hekate.Core.Events.{EventKind, ExperienceEvent}
use hekate.Core.Fingerprints.{completion_fingerprint, normalize_evidence_refs}
use hekate.Core.State.{CurrentState}
use hekate.Prelude.{
  List, sym, eq_of_beq, subst, inl, inr, ◌==◌, any, ltb, ℕ, ◌≤◌, ◌≡◌, Bool, true, false, not, arith,
  is_empty, is_some_and, some, ℕ_eq, list_eq,
}
use hekate.Prelude.BTreeMap.{
  get, insert, modify, contains_key, get-modify_cases, same_entry, get-insert_cases, values,
}
use hekate.Prelude.Results.{Ensures, Ensures-bind, Ensures-reject, ok}
use hekate.Projector.Apply.{advance, dispatch, replay}
use hekate.Projector.Steps.{Applied, replay-keeps}
use hekate.Projector.Errors.{payload}
use hekate.Projector.Footprint.{dispatch-Footprint}
use hekate.Prelude.Text.{trim}
use hekate.Projector.Claims.{
  apply_claim_created, apply_claim_created_event, apply_claim_transition,
  apply_claim_transition_event, check_verifiable,
}

-- The claim names a blocker that is not blank.
abbrev pub is_blocked : CompletionClaim → Bool
is_blocked claim = is_some_and claim.blocker λ blocker. not (is_empty (trim blocker))

-- What the checks of creation and verification leave true of a stored claim.
record IsSound (env : Env) (claim : CompletionClaim) : Type 0 where
  pub confidence : claim.confidence ≤ 100
  pub fingerprint :
      claim.fingerprint
      ≡ completion_fingerprint env claim.task_id claim.criterion_id claim.evidence_refs
  pub evidenced :
      claim.disposition ≡ VerificationDisposition.verified → is_empty claim.evidence_refs ≡ false
  pub unblocked : claim.disposition ≡ VerificationDisposition.verified → is_blocked claim ≡ false

abbrev SoundClaims : Env → CurrentState → Type 0
SoundClaims env s =
    (k : ℕ) (claim : CompletionClaim) → get s.completion_claims k ≡ some claim → IsSound env claim

-- The claim that a creation stores.
abbrev pub normalized : CompletionClaim → CompletionClaim
normalized raw = record raw { evidence_refs = normalize_evidence_refs raw.evidence_refs }

abbrev pub decide_claim : VerificationDisposition → CompletionClaim → CompletionClaim
decide_claim d stored = record stored { disposition = d }

-- What a successful creation has checked and stored.
pub record Created (env : Env) (s : CurrentState) (raw : CompletionClaim) (s' : CurrentState)
    : Type 0 where
  pub stored : s'.completion_claims ≡ insert s.completion_claims raw.id (normalized raw)
  pub confident : ltb 100 raw.confidence ≡ false
  pub open_claim : (raw.disposition == VerificationDisposition.needs_validation) ≡ true
  pub hashed :
      (raw.fingerprint
        == completion_fingerprint env raw.task_id raw.criterion_id (normalized raw).evidence_refs)
      ≡ true
  pub new_id : contains_key s.completion_claims raw.id ≡ false
  pub new_fingerprint :
      any
        (λ (existing : CompletionClaim). existing.fingerprint == raw.fingerprint)
        (values s.completion_claims)
      ≡ false

pub created :
    (env : Env) (s : CurrentState) (raw : CompletionClaim) (e : ExperienceEvent)
    → Ensures (Created env s raw) (apply_claim_created env s raw e)
unfolding apply_claim_created
created env s raw e = record { at = λ s' q. ground arith }

normalized-IsSound :
    (env : Env) (s : CurrentState) (raw : CompletionClaim) (s' : CurrentState)
    → Created env s raw s'
    → IsSound env (normalized raw)
normalized-IsSound env s raw s' c =
    let hashed : raw.fingerprint ≡ _ =
      eq_of_beq raw.fingerprint
        (completion_fingerprint env raw.task_id raw.criterion_id (normalized raw).evidence_refs)
        c.hashed in
    let undecided : raw.disposition ≡ VerificationDisposition.needs_validation =
      eq_of_beq raw.disposition VerificationDisposition.needs_validation c.open_claim in
    record {
      confidence = ground (arith, c.confident);
      fingerprint = hashed;
      evidenced = λ v. cc;
      unblocked = λ v. cc;
    }

creation-SoundClaims :
    (env : Env) (s : CurrentState) (raw : CompletionClaim) (s' : CurrentState)
    → Created env s raw s'
    → SoundClaims env s
    → SoundClaims env s'
creation-SoundClaims env s raw s' c h k claim g =
    elim (get-insert_cases s.completion_claims raw.id (normalized raw) k claim
      (subst (λ m. get m k ≡ some claim) c.stored g)) [
        | inl new ↦ subst (IsSound env) new.1 (normalized-IsSound env s raw s' c)
        | inr old ↦ h k claim old.1
      ]

-- What a successful transition has checked and stored.
pub record Moved (s : CurrentState) (t : CompletionClaimTransition) (d : VerificationDisposition)
    (e : ExperienceEvent) (s' : CurrentState) : Type 0 where
  pub claim : CompletionClaim
  pub found : get s.completion_claims t.claim_id ≡ some claim
  pub undecided : (claim.disposition == t.previous_disposition) ≡ true
  pub needed : (t.previous_disposition == VerificationDisposition.needs_validation) ≡ true
  pub verifiable : check_verifiable d e claim ≡ ok tt
  pub stored : s'.completion_claims ≡ modify (decide_claim d) s.completion_claims t.claim_id

pub moved :
    (s : CurrentState) (t : CompletionClaimTransition) (d : VerificationDisposition)
    (e : ExperienceEvent)
    → Ensures (Moved s t d e) (apply_claim_transition s t d e)
unfolding apply_claim_transition
moved s t d e = record { at = λ s' q. ground arith }

-- A claim that passed the checks of a decision is sound with that decision.
decided-IsSound :
    (env : Env) (d : VerificationDisposition) (e : ExperienceEvent) (claim : CompletionClaim)
    → check_verifiable d e claim ≡ ok tt
    → IsSound env claim
    → IsSound env (decide_claim d claim)
unfolding check_verifiable
decided-IsSound env VerificationDisposition.verified e claim c h = ground arith
decided-IsSound env _ e claim c h = record {
  confidence = h.confidence;
  fingerprint = h.fingerprint;
  evidenced = λ v. cc;
  unblocked = λ v. cc;
}

moved-SoundClaims :
    (env : Env) (s : CurrentState) (t : CompletionClaimTransition) (d : VerificationDisposition)
    (e : ExperienceEvent) (s' : CurrentState)
    → Moved s t d e s'
    → SoundClaims env s
    → SoundClaims env s'
moved-SoundClaims env s t d e s' m h k claim g =
    elim (get-modify_cases (decide_claim d) s.completion_claims t.claim_id k claim
      (subst (λ c. get c k ≡ some claim) m.stored g)) [
        | inl (same, (v, held, changed)) ↦
            let one : v ≡ m.claim =
              same_entry (get s.completion_claims k) v m.claim held
                (subst (λ i. get s.completion_claims i ≡ some m.claim) same m.found) in
            subst (IsSound env) (sym changed) (
              decided-IsSound env d e v
                (subst (λ c. check_verifiable d e c ≡ ok tt) (sym one) m.verifiable) (h k v held))
        | inr old ↦ h k claim old.1
      ]

decision-SoundClaims :
    (env : Env) (d : VerificationDisposition) (s : CurrentState) (e : ExperienceEvent)
    → SoundClaims env s
    → Ensures (SoundClaims env) (apply_claim_transition_event env d s e)
unfolding apply_claim_transition_event
decision-SoundClaims env d s e h = Ensures-reject _ _ _ _ λ _.
    Ensures-bind _ (payload env.decode_completion_claim_transition e) _
      λ t _. record { at = λ s' q. moved-SoundClaims env s t d e s' ((moved s t d e).at s' q) h }

-- The claims of the next state are sound, whatever the kind of the event.
dispatch-SoundClaims :
    (kind : EventKind) (env : Env) (s : CurrentState) (e : ExperienceEvent)
    → SoundClaims env s
    → Ensures (SoundClaims env) (dispatch kind env s e)
unfolding dispatch apply_claim_created_event apply_claim_transition_event
dispatch-SoundClaims EventKind.completion_claim_created env s e h = Ensures-reject _ _ _ _ λ _.
    Ensures-bind _ (payload env.decode_completion_claim e) _ λ raw _. record {
      at = λ s' q. creation-SoundClaims env s raw s' ((created env s raw e).at s' q) h;
    }
dispatch-SoundClaims EventKind.completion_claim_verified env s e h =
    decision-SoundClaims env VerificationDisposition.verified s e h
dispatch-SoundClaims EventKind.completion_claim_rejected env s e h =
    decision-SoundClaims env VerificationDisposition.rejected s e h
dispatch-SoundClaims kind env s e h = record {
  at = λ s' q k claim g. h k claim (
      subst (λ c. get c k ≡ some claim)
        ((dispatch-Footprint kind env s e).at s' q).completion_claims g);
}

apply-SoundClaims :
    (env : Env) (s : CurrentState) (e : ExperienceEvent) (s' : CurrentState)
    → SoundClaims env s
    → Applied env s e s'
    → SoundClaims env s'
unfolding advance
apply-SoundClaims env s e s' h a =
    subst (SoundClaims env) (sym a.counted)
      ((dispatch-SoundClaims e.event_kind env s e h).at a.moved a.ran)

-- In every state that a replay reaches, each completion claim has a confidence of at most 100 and the
-- fingerprint of its task, criterion and evidence, and a verified one has evidence and no blocker.
replay-SoundClaims :
    (env : Env) (es : List ExperienceEvent) (s' : CurrentState)
    → replay env es ≡ ok s'
    → SoundClaims env s'
unfolding get
replay-SoundClaims env es s' q =
    replay-keeps env (SoundClaims env) (apply-SoundClaims env) es s' (λ k claim g. cc) q

-- In every state that a replay reaches, each stored completion claim has a confidence of at most 100, and
-- its fingerprint is the one computed from its task, its criterion and its evidence.
pub claim_fingerprint :
    (env : Env) (es : List ExperienceEvent) (s' : CurrentState) (k : ℕ) (claim : CompletionClaim)
    → replay env es ≡ ok s'
    → get s'.completion_claims k ≡ some claim
    → (claim.confidence ≤ 100)
      × (claim.fingerprint
          ≡ completion_fingerprint env claim.task_id claim.criterion_id claim.evidence_refs)
claim_fingerprint env es s' k claim q g =
    let sound = replay-SoundClaims env es s' q k claim g in (sound.confidence, sound.fingerprint)

-- In every state that a replay reaches, a stored completion claim that is verified has evidence, and its
-- blocker is absent or blank.
pub verified_claim_has_evidence :
    (env : Env) (es : List ExperienceEvent) (s' : CurrentState) (k : ℕ) (claim : CompletionClaim)
    → replay env es ≡ ok s'
    → get s'.completion_claims k ≡ some claim
    → claim.disposition ≡ VerificationDisposition.verified
    → (is_empty claim.evidence_refs ≡ false) × (is_blocked claim ≡ false)
verified_claim_has_evidence env es s' k claim q g v =
    let sound = replay-SoundClaims env es s' q k claim g in (sound.evidenced v, sound.unblocked v)
