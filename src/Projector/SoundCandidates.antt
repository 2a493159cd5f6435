-- ===== src/Projector/SoundCandidates.antt =====
-- The integration candidates that the projector stores, and their verification records
-- (src/runtime/projector.rs).
use hekate.Core.Env.{Env}
use hekate.Core.Evidence.{VerificationDisposition, verification_disposition_eq}
use hekate.Core.Events.{EventKind, ExperienceEvent}
use hekate.Core.Fingerprints.{normalize_evidence_refs}
use hekate.Prelude.Text.{trim}
use hekate.Core.Integration.{IntegrationVerification}
use hekate.Core.Sleep.{SleepRun, SleepRunStatus, sleep_run_status_eq, IntegrationCandidate}
use hekate.Core.State.{CurrentState}
use hekate.Prelude.{
  any, ◌!=◌, ap, ◌∙◌, ℕ, ◌≡◌, ◌≢◌, sym, subst, inl, inr, true, false, List, some, arith, is_empty,
  eq_of_beq, ◌==◌, ℕ_eq, list_eq, refl,
}
use hekate.Prelude.BTreeMap.{
  values, get, insert, modify, get-insert_cases, get-modify_cases, get-insert,
}
use hekate.Prelude.Results.{Ensures, Ensures-bind, Ensures-reject, Ensures-ok_or, ok}
use hekate.Projector.Apply.{advance, dispatch, replay}
use hekate.Projector.Candidates.{
  apply_candidate_created, apply_integration_transition, candidate_is_invalid,
  provenance_is_invalid, store_candidate, with_revision,
}
use hekate.Projector.Errors.{payload}
use hekate.Projector.Footprint.{dispatch-Footprint}
use hekate.Projector.Steps.{Applied, replay-keeps}

-- The verification that `k` was decided by.
pub record Decided (s : CurrentState) (k : ℕ) (d : VerificationDisposition) : Type 0 where
  pub record_of : IntegrationVerification
  pub stored : get s.integration_verifications k ≡ some record_of
  pub agrees : record_of.new_disposition ≡ d
  pub evidenced : is_empty record_of.evidence_refs ≡ false

record IsSound (s : CurrentState) (k : ℕ) (candidate : IntegrationCandidate) : Type 0 where
  pub keyed : candidate.id ≡ k
  pub decided :
      candidate.disposition ≢ VerificationDisposition.needs_validation
      → Decided s k candidate.disposition

abbrev SoundCandidates : CurrentState → Type 0
SoundCandidates s =
    (k : ℕ) (candidate : IntegrationCandidate)
    → get s.integration_candidates k ≡ some candidate
    → IsSound s k candidate

-- What a successful creation has checked and stored.
pub record Created (s : CurrentState) (candidate : IntegrationCandidate) (s' : CurrentState)
    : Type 0 where
  pub stored : s'.integration_candidates ≡ insert s.integration_candidates candidate.id candidate
  pub undecided : (candidate.disposition == VerificationDisposition.needs_validation) ≡ true
  pub kept : s'.integration_verifications ≡ s.integration_verifications
  pub new_fingerprint :
      any
        (λ (item : IntegrationCandidate). item.fingerprint == candidate.fingerprint)
        (values s.integration_candidates)
      ≡ false

stored :
    (env : Env) (s : CurrentState) (e : ExperienceEvent) (run : SleepRun)
    (candidate : IntegrationCandidate)
    → (candidate.disposition == VerificationDisposition.needs_validation) ≡ true
    → Ensures (Created s candidate) (store_candidate env s e run candidate)
unfolding store_candidate
stored env s e run candidate undecided = record { at = λ s' q. ground arith }

-- A valid payload is undecided, and so is the candidate that is made of it.
with_revision_undecided :
    (env : Env) (e : ExperienceEvent) (run : SleepRun) (raw : IntegrationCandidate)
    → candidate_is_invalid raw ≡ false
    → ((with_revision env e run raw).disposition == VerificationDisposition.needs_validation) ≡ true
unfolding candidate_is_invalid with_revision
with_revision_undecided env e run raw valid = ground arith

pub created :
    (env : Env) (s : CurrentState) (e : ExperienceEvent)
    → Ensures
        (λ s'. (candidate : IntegrationCandidate) × Created s candidate s')
        (apply_candidate_created env s e)
unfolding apply_candidate_created
created env s e = Ensures-bind _ (payload env.decode_integration_candidate e) _ λ raw _.
    Ensures-reject _ (candidate_is_invalid raw) _ _ λ valid.
      Ensures-reject _ (provenance_is_invalid s raw) _ _ λ _.
        Ensures-ok_or _ (get s.sleep_runs raw.sleep_run_id) _ _ λ run _.
          Ensures-reject _ (run.status != SleepRunStatus.running) _ _ λ _. record {
            at = λ s' q. (
              with_revision env e run raw,
              (stored env s e run (with_revision env e run raw)
                    (with_revision_undecided env e run raw valid)).at
                  s' q,
            );
          }

abbrev pub decide_candidate : VerificationDisposition → IntegrationCandidate → IntegrationCandidate
decide_candidate d stored = record stored { disposition = d }

abbrev stored_verification : ExperienceEvent → IntegrationVerification → IntegrationVerification
stored_verification e v = record v {
  verification_event_id = some e.event_id;
  reason = trim v.reason;
  evidence_refs = normalize_evidence_refs v.evidence_refs;
}

-- What a successful verification or rejection has checked and stored.
pub record Verified (s : CurrentState) (e : ExperienceEvent) (d : VerificationDisposition)
    (v : IntegrationVerification) (s' : CurrentState) : Type 0 where
  pub candidate : IntegrationCandidate
  pub found : get s.integration_candidates v.candidate_id ≡ some candidate
  pub undecided : (candidate.disposition == v.previous_disposition) ≡ true
  pub needed : (v.previous_disposition == VerificationDisposition.needs_validation) ≡ true
  pub agrees : (v.new_disposition == d) ≡ true
  pub evidenced : is_empty (normalize_evidence_refs v.evidence_refs) ≡ false
  pub candidates :
      s'.integration_candidates ≡ modify (decide_candidate d) s.integration_candidates candidate.id
  pub verifications :
      s'.integration_verifications
      ≡ insert s.integration_verifications v.candidate_id (stored_verification e v)

pub verified :
    (env : Env) (d : VerificationDisposition) (s : CurrentState) (e : ExperienceEvent)
    → Ensures
        (λ s'. (v : IntegrationVerification) × Verified s e d v s')
        (apply_integration_transition env d s e)
unfolding apply_integration_transition
verified env d s e =
    Ensures-bind _ (payload env.decode_integration_verification e) _
      λ v _. record { at = λ s' q. (v, ground arith) }

-- A record of another candidate, or one for which nothing changed, stays.
Decided-keeps :
    (s s' : CurrentState) (k : ℕ) (d : VerificationDisposition)
    → get s'.integration_verifications k ≡ get s.integration_verifications k
    → Decided s k d
    → Decided s' k d
Decided-keeps s s' k d e h = record {
  record_of = h.record_of;
  stored = e ∙ h.stored;
  agrees = h.agrees;
  evidenced = h.evidenced;
}

creation-SoundCandidates :
    (s : CurrentState) (candidate : IntegrationCandidate) (s' : CurrentState)
    → Created s candidate s'
    → SoundCandidates s
    → SoundCandidates s'
creation-SoundCandidates s candidate s' c h k one g =
    elim (get-insert_cases s.integration_candidates candidate.id candidate k one
      (subst (λ m. get m k ≡ some one) c.stored g)) [
        | inl new ↦ record {
          keyed = cc;
          decided = λ ne. absurd (
              ne (
                sym (ap (λ (x : IntegrationCandidate). x.disposition) new.1)
                ∙ eq_of_beq candidate.disposition VerificationDisposition.needs_validation
                    c.undecided));
        }
        | inr old ↦
            let was = h k one old.1 in
            record {
              keyed = was.keyed;
              decided = λ ne.
                  Decided-keeps s s' k one.disposition (ap (λ m. get m k) c.kept) (was.decided ne);
            }
      ]

-- The record of the candidate that is decided.
new-Decided :
    (s : CurrentState) (e : ExperienceEvent) (d : VerificationDisposition)
    (v : IntegrationVerification) (s' : CurrentState)
    → Verified s e d v s'
    → Decided s' v.candidate_id d
new-Decided s e d v s' c = record {
  record_of = stored_verification e v;
  stored =
      subst (λ m. get m v.candidate_id ≡ some (stored_verification e v)) (sym c.verifications)
        (ground (
          arith,
          get-insert s.integration_verifications v.candidate_id (stored_verification e v)
              v.candidate_id,
        ));
  agrees = eq_of_beq v.new_disposition d c.agrees;
  evidenced = c.evidenced;
}

other_verification :
    (s : CurrentState) (e : ExperienceEvent) (d : VerificationDisposition)
    (v : IntegrationVerification) (s' : CurrentState) (k : ℕ)
    → Verified s e d v s'
    → v.candidate_id ≢ k
    → get s'.integration_verifications k ≡ get s.integration_verifications k
other_verification s e d v s' k c ne =
    subst (λ m. get m k ≡ get s.integration_verifications k) (sym c.verifications)
      (ground
        (arith, get-insert s.integration_verifications v.candidate_id (stored_verification e v) k))

verified-SoundCandidates :
    (s : CurrentState) (e : ExperienceEvent) (d : VerificationDisposition)
    (v : IntegrationVerification) (s' : CurrentState)
    → Verified s e d v s'
    → SoundCandidates s
    → SoundCandidates s'
verified-SoundCandidates s e d v s' c h k one g =
    let own : c.candidate.id ≡ v.candidate_id = (h v.candidate_id c.candidate c.found).keyed in
    elim (get-modify_cases (decide_candidate d) s.integration_candidates c.candidate.id k one
      (subst (λ m. get m k ≡ some one) c.candidates g)) [
        | inl (same, (was, held, changed)) ↦ record {
          keyed = ap (λ (x : IntegrationCandidate). x.id) changed ∙ (h k was held).keyed;
          decided = λ ne.
              subst (Decided s' k) (sym (ap (λ (x : IntegrationCandidate). x.disposition) changed))
                (subst (λ i. Decided s' i d) (sym own ∙ same) (new-Decided s e d v s' c));
        }
        | inr (other, held) ↦ record {
          keyed = (h k one held).keyed;
          decided = λ ne.
              Decided-keeps s s' k one.disposition
                (other_verification s e d v s' k c (λ same. other (own ∙ same)))
                ((h k one held).decided ne);
        }
      ]

decision-SoundCandidates :
    (env : Env) (d : VerificationDisposition) (s : CurrentState) (e : ExperienceEvent)
    → SoundCandidates s
    → Ensures SoundCandidates (apply_integration_transition env d s e)
decision-SoundCandidates env d s e h = record {
  at = λ s' q. let (v, c) = (verified env d s e).at s' q in verified-SoundCandidates s e d v s' c h;
}

dispatch-SoundCandidates :
    (kind : EventKind) (env : Env) (s : CurrentState) (e : ExperienceEvent)
    → SoundCandidates s
    → Ensures SoundCandidates (dispatch kind env s e)
unfolding dispatch
dispatch-SoundCandidates EventKind.integration_candidate_created env s e h = record {
  at = λ s' q.
      let (candidate, c) = (created env s e).at s' q in creation-SoundCandidates s candidate s' c h;
}
dispatch-SoundCandidates EventKind.integration_candidate_verified env s e h =
    decision-SoundCandidates env VerificationDisposition.verified s e h
dispatch-SoundCandidates EventKind.integration_candidate_rejected env s e h =
    decision-SoundCandidates env VerificationDisposition.rejected s e h
dispatch-SoundCandidates kind env s e h = record {
  at = λ s' q k one g.
      let f = (dispatch-Footprint kind env s e).at s' q in
      let was = h k one (subst (λ m. get m k ≡ some one) f.integration_candidates g) in
      record {
        keyed = was.keyed;
        decided = λ ne.
            Decided-keeps s s' k one.disposition (ap (λ m. get m k) f.integration_verifications)
              (was.decided ne);
      };
}

apply-SoundCandidates :
    (env : Env) (s : CurrentState) (e : ExperienceEvent) (s' : CurrentState)
    → SoundCandidates s
    → Applied env s e s'
    → SoundCandidates s'
unfolding advance
apply-SoundCandidates env s e s' h a =
    let kept = (dispatch-SoundCandidates e.event_kind env s e h).at a.moved a.ran in
    subst SoundCandidates (sym a.counted) (λ k one g. record {
      keyed = (kept k one g).keyed;
      decided = λ ne.
          Decided-keeps a.moved (advance a.moved e) k one.disposition refl
            ((kept k one g).decided ne);
    })

-- In every state that a replay reaches, each integration candidate stands under its own id, and one that is
-- verified or rejected has a verification record with the same disposition and with evidence.
replay-SoundCandidates :
    (env : Env) (es : List ExperienceEvent) (s' : CurrentState)
    → replay env es ≡ ok s'
    → SoundCandidates s'
unfolding get
replay-SoundCandidates env es s' q =
    replay-keeps env SoundCandidates (apply-SoundCandidates env) es s' (λ k one g. cc) q

-- In every state that a replay reaches, a stored integration candidate that is verified or rejected has a
-- verification record of that disposition, with evidence, under the same key, which is its own id.
pub decided_candidate_has_record :
    (env : Env) (es : List ExperienceEvent) (s' : CurrentState) (k : ℕ)
    (candidate : IntegrationCandidate)
    → replay env es ≡ ok s'
    → get s'.integration_candidates k ≡ some candidate
    → candidate.disposition ≢ VerificationDisposition.needs_validation
    → (candidate.id ≡ k) × Decided s' k candidate.disposition
decided_candidate_has_record env es s' k candidate q g ne =
    let sound = replay-SoundCandidates env es s' q k candidate g in (sound.keyed, sound.decided ne)
