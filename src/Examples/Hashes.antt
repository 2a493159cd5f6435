-- ===== src/Examples/Hashes.antt =====
-- Fingerprints and hashes at concrete inputs (src/core/evidence.rs, src/core/sleep.rs).
use hekate.Core.Env.{Env}
use hekate.Core.FingerprintLaws.{
  integration_candidate_fingerprint-order, initiative_fingerprint-set, sha256_hex-valid,
}
use hekate.Core.Fingerprints.{
  initiative_fingerprint, integration_candidate_fingerprint, sha256_hex, valid_sha256_hex,
}
use hekate.Core.Events.{EntityKind, EntityRef}
use hekate.Core.Initiatives.{InitiativeKind}
use hekate.Core.Sleep.{IntegrationCandidateKind}
use hekate.Examples.World.{executable, no_payloads}
use hekate.Prelude.{◌≡◌, refl, true, [], ◌∷◌, ◌++◌, contains, arith, ℕ_eq, List, ℕ}
use hekate.Prelude.Text.{codes}
use mathlib.Core.List.{Permᴰ}

abbrev four_bytes : List ℕ
four_bytes = 0 ∷ 171 ∷ 255 ∷ 16 ∷ []

abbrev sixteen_bytes : List ℕ
sixteen_bytes = four_bytes ++ four_bytes ++ four_bytes ++ four_bytes

abbrev env : Env
env = record no_payloads { digest = λ bytes. sixteen_bytes ++ sixteen_bytes }

sha256_hex-valid_example : valid_sha256_hex (sha256_hex env (1 ∷ 2 ∷ [])) ≡ true
unfolding executable
sha256_hex-valid_example = sha256_hex-valid env (1 ∷ 2 ∷ []) refl refl

integration_candidate_fingerprint-order_example :
    integration_candidate_fingerprint no_payloads IntegrationCandidateKind.memory
      (codes " lists ")
      (4 ∷ 9 ∷ [])
      (7 ∷ [])
    ≡ integration_candidate_fingerprint no_payloads IntegrationCandidateKind.memory
        (codes "lists")
        (9 ∷ 4 ∷ [])
        (7 ∷ [])
unfolding executable
integration_candidate_fingerprint-order_example =
    integration_candidate_fingerprint-order no_payloads IntegrationCandidateKind.memory
      (codes " lists ") (codes "lists") (4 ∷ 9 ∷ []) (9 ∷ 4 ∷ []) (7 ∷ []) (7 ∷ []) refl
      (Permᴰ.swap refl refl) (Permᴰ.cons refl Permᴰ.nil)

abbrev source : EntityRef
source = record { kind = EntityKind.goal; id = 3 }

same_members : (id : ℕ) → contains (4 ∷ 9 ∷ 4 ∷ []) id ≡ contains (9 ∷ 4 ∷ []) id
unfolding contains
same_members id = ground arith

initiative_fingerprint-set_example :
    initiative_fingerprint no_payloads InitiativeKind.question source 1 5 (4 ∷ 9 ∷ 4 ∷ [])
    ≡ initiative_fingerprint no_payloads InitiativeKind.question source 1 5 (9 ∷ 4 ∷ [])
initiative_fingerprint-set_example =
    initiative_fingerprint-set no_payloads InitiativeKind.question source 1 5 (4 ∷ 9 ∷ 4 ∷ [])
      (9 ∷ 4 ∷ []) same_members
