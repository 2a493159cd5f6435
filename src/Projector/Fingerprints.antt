-- ===== src/Projector/Fingerprints.antt =====
-- The fingerprints of stored completion claims and integration candidates (src/runtime/projector.rs).
use hekate.Core.Env.{Env}
use hekate.Core.Events.{EventKind, ExperienceEvent}
use hekate.Core.Evidence.{CompletionClaim, VerificationDisposition}
use hekate.Core.Sleep.{IntegrationCandidate}
use hekate.Core.State.{CurrentState}
use hekate.Prelude.{ℕ, ◌≡◌, refl, sym, subst, List, some}
use hekate.Prelude.BTreeMap.{get, same_entry}
use hekate.Prelude.Results.{Ensures, Ensures-bind, Ensures-reject, ok}
use hekate.Prelude.Unique.{IsUnique, insert-IsUnique, modify-IsUnique}
use hekate.Projector.Apply.{advance, dispatch, replay}
use hekate.Projector.Candidates.{apply_integration_transition}
use hekate.Projector.Claims.{apply_claim_created_event, apply_claim_transition_event}
use hekate.Projector.Errors.{payload}
use hekate.Projector.Footprint.{dispatch-Footprint}
use hekate.Projector.SoundCandidates as Candidates
use hekate.Projector.SoundClaims as Claims
use hekate.Projector.Steps.{Applied, replay-keeps}

abbrev claim_text : CompletionClaim → List ℕ
claim_text claim = claim.fingerprint

abbrev candidate_text : IntegrationCandidate → List ℕ
candidate_text candidate = candidate.fingerprint

record Fingerprinted (s : CurrentState) : Type 0 where
  claims : IsUnique claim_text s.completion_claims
  candidates : IsUnique candidate_text s.integration_candidates

decision-claims :
    (env : Env) (d : VerificationDisposition) (s : CurrentState) (e : ExperienceEvent)
    → IsUnique claim_text s.completion_claims
    → Ensures
        (λ s'. IsUnique claim_text s'.completion_claims)
        (apply_claim_transition_event env d s e)
unfolding apply_claim_transition_event
decision-claims env d s e h = Ensures-reject _ _ _ _ λ _.
    Ensures-bind _ (payload env.decode_completion_claim_transition e) _ λ t _. record {
      at = λ s' q. subst (IsUnique claim_text) (sym ((Claims.moved s t d e).at s' q).stored) (
          modify-IsUnique claim_text (Claims.decide_claim d) s.completion_claims t.claim_id
            (λ v. refl) h);
    }

dispatch-claims :
    (kind : EventKind) (env : Env) (s : CurrentState) (e : ExperienceEvent)
    → IsUnique claim_text s.completion_claims
    → Ensures (λ s'. IsUnique claim_text s'.completion_claims) (dispatch kind env s e)
unfolding dispatch apply_claim_created_event
dispatch-claims EventKind.completion_claim_created env s e h = Ensures-reject _ _ _ _ λ _.
    Ensures-bind _ (payload env.decode_completion_claim e) _ λ raw _. record {
      at = λ s' q.
          let c = (Claims.created env s raw e).at s' q in
          subst (IsUnique claim_text) (sym c.stored) (
            insert-IsUnique claim_text s.completion_claims raw.id (Claims.normalized raw)
              c.new_fingerprint h);
    }
dispatch-claims EventKind.completion_claim_verified env s e h =
    decision-claims env VerificationDisposition.verified s e h
dispatch-claims EventKind.completion_claim_rejected env s e h =
    decision-claims env VerificationDisposition.rejected s e h
dispatch-claims kind env s e h = record {
  at = λ s' q.
      subst (IsUnique claim_text)
        (sym ((dispatch-Footprint kind env s e).at s' q).completion_claims) h;
}

decision-candidates :
    (env : Env) (d : VerificationDisposition) (s : CurrentState) (e : ExperienceEvent)
    → IsUnique candidate_text s.integration_candidates
    → Ensures
        (λ s'. IsUnique candidate_text s'.integration_candidates)
        (apply_integration_transition env d s e)
decision-candidates env d s e h = record {
  at = λ s' q.
      let (v, c) = (Candidates.verified env d s e).at s' q in
      subst (IsUnique candidate_text) (sym c.candidates) (
        modify-IsUnique candidate_text (Candidates.decide_candidate d) s.integration_candidates
          c.candidate.id (λ v. refl) h);
}

dispatch-candidates :
    (kind : EventKind) (env : Env) (s : CurrentState) (e : ExperienceEvent)
    → IsUnique candidate_text s.integration_candidates
    → Ensures (λ s'. IsUnique candidate_text s'.integration_candidates) (dispatch kind env s e)
unfolding dispatch
dispatch-candidates EventKind.integration_candidate_created env s e h = record {
  at = λ s' q.
      let (candidate, c) = (Candidates.created env s e).at s' q in
      subst (IsUnique candidate_text) (sym c.stored) (
        insert-IsUnique candidate_text s.integration_candidates candidate.id candidate
          c.new_fingerprint h);
}
dispatch-candidates EventKind.integration_candidate_verified env s e h =
    decision-candidates env VerificationDisposition.verified s e h
dispatch-candidates EventKind.integration_candidate_rejected env s e h =
    decision-candidates env VerificationDisposition.rejected s e h
dispatch-candidates kind env s e h = record {
  at = λ s' q.
      subst (IsUnique candidate_text)
        (sym ((dispatch-Footprint kind env s e).at s' q).integration_candidates) h;
}

apply-Fingerprinted :
    (env : Env) (s : CurrentState) (e : ExperienceEvent) (s' : CurrentState)
    → Fingerprinted s
    → Applied env s e s'
    → Fingerprinted s'
unfolding advance
apply-Fingerprinted env s e s' h a =
    let claims = (dispatch-claims e.event_kind env s e h.claims).at a.moved a.ran in
    let candidates = (dispatch-candidates e.event_kind env s e h.candidates).at a.moved a.ran in
    subst Fingerprinted (sym a.counted) (record { claims = claims; candidates = candidates })

replay-Fingerprinted :
    (env : Env) (es : List ExperienceEvent) (s' : CurrentState)
    → replay env es ≡ ok s'
    → Fingerprinted s'
unfolding get
replay-Fingerprinted env es s' q =
    replay-keeps env Fingerprinted (apply-Fingerprinted env) es s'
      (record {
        claims = record { at = λ j k v w p r same. cc };
        candidates = record { at = λ j k v w p r same. cc };
      })
      q

-- In every state that a replay reaches, two completion claims with the same fingerprint are one, and stand
-- under one key.
pub claim_fingerprint_is_unique :
    (env : Env) (es : List ExperienceEvent) (s' : CurrentState) (j k : ℕ) (a b : CompletionClaim)
    → replay env es ≡ ok s'
    → get s'.completion_claims j ≡ some a
    → get s'.completion_claims k ≡ some b
    → a.fingerprint ≡ b.fingerprint
    → (j ≡ k) × (a ≡ b)
claim_fingerprint_is_unique env es s' j k a b q g h same =
    let one = (replay-Fingerprinted env es s' q).claims.at j k a b g h same in
    (
      one,
      same_entry (get s'.completion_claims k) a b
          (subst (λ i. get s'.completion_claims i ≡ some a) one g) h,
    )

-- In every state that a replay reaches, two integration candidates with the same fingerprint are one, and
-- stand under one key.
pub candidate_fingerprint_is_unique :
    (env : Env) (es : List ExperienceEvent) (s' : CurrentState) (j k : ℕ)
    (a b : IntegrationCandidate)
    → replay env es ≡ ok s'
    → get s'.integration_candidates j ≡ some a
    → get s'.integration_candidates k ≡ some b
    → a.fingerprint ≡ b.fingerprint
    → (j ≡ k) × (a ≡ b)
candidate_fingerprint_is_unique env es s' j k a b q g h same =
    let one = (replay-Fingerprinted env es s' q).candidates.at j k a b g h same in
    (
      one,
      same_entry (get s'.integration_candidates k) a b
          (subst (λ i. get s'.integration_candidates i ≡ some a) one g) h,
    )
