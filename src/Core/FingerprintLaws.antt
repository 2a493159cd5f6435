-- ===== src/Core/FingerprintLaws.antt =====
-- Laws of the hashes and fingerprints (src/core/evidence.rs, src/core/sleep.rs, src/core/initiative.rs).
use hekate.Core.Env.{Env}
use hekate.Core.Fingerprints.{
  hex, hex_digit, integration_candidate_fingerprint, initiative_fingerprint, is_lower_hex,
  sha256_hex, valid_sha256_hex,
}
use hekate.Prelude.{
  ℕ, ◌*◌, ◌/◌, ◌%◌, ◌<◌, ◌≡◌, refl, true, List, [], ◌∷◌, all, contains, ℕ_eq, length, ltb, arith,
}
use hekate.Core.Events.{EntityRef}
use hekate.Core.Ids.{EventId, PrincipalId}
use hekate.Core.Initiatives.{InitiativeKind}
use hekate.Prelude.SetLaws.{normal_set-eq}
use hekate.Core.Sleep.{IntegrationCandidateKind}
use hekate.Prelude.SortLaws.{sort-Permᴰ}
use mathlib.Core.List.{Permᴰ}
use hekate.Prelude.Text.{Text, trim, len, utf8_width}

digit-is_lower_hex : (d : ℕ) → d < 16 → is_lower_hex (hex_digit d) ≡ true
digit-is_lower_hex d h = ground arith

digit-width : (d : ℕ) → d < 16 → utf8_width (hex_digit d) ≡ 1
unfolding utf8_width
digit-width d h = ground arith

len-hex :
    (bytes : List ℕ) → all (λ byte. ltb byte 256) bytes ≡ true → len (hex bytes) ≡ 2 * length bytes
unfolding hex len all
len-hex [] h = refl
len-hex (byte ∷ bytes) h =
    ground (arith, len-hex bytes, digit-width (byte / 16), digit-width (byte % 16))

all-hex :
    (bytes : List ℕ) → all (λ byte. ltb byte 256) bytes ≡ true → all is_lower_hex (hex bytes) ≡ true
unfolding hex all
all-hex [] h = refl
all-hex (byte ∷ bytes) h =
    ground (arith, all-hex bytes, digit-is_lower_hex (byte / 16), digit-is_lower_hex (byte % 16))

-- If the digest of the bytes is 32 bytes, each below 256, its lower-case hex text passes the test for a
-- SHA-256 hash.
pub sha256_hex-valid :
    (env : Env) (bytes : List ℕ)
    → length (env.digest bytes) ≡ 32
    → all (λ byte. ltb byte 256) (env.digest bytes) ≡ true
    → valid_sha256_hex (sha256_hex env bytes) ≡ true
unfolding valid_sha256_hex sha256_hex
sha256_hex-valid env bytes size bytes_fit =
    ground (arith, len-hex (env.digest bytes) bytes_fit, all-hex (env.digest bytes) bytes_fit)

-- The fingerprint of an integration candidate does not depend on the order of its source events, nor on
-- that of its counterevidence, nor on white space around its content.
pub integration_candidate_fingerprint-order :
    (env : Env) (kind : IntegrationCandidateKind) (content content' : Text)
    (sources sources' against against' : List EventId)
    → trim content ≡ trim content'
    → Permᴰ sources sources'
    → Permᴰ against against'
    → integration_candidate_fingerprint env kind content sources against
      ≡ integration_candidate_fingerprint env kind content' sources' against'
unfolding integration_candidate_fingerprint
integration_candidate_fingerprint-order env kind content content' sources sources' against against'
      t p q =
    rw (t, sort-Permᴰ p, sort-Permᴰ q)

-- The fingerprint of an initiative depends on its source events as a set: not on their order, nor on how
-- often one is repeated.
pub initiative_fingerprint-set :
    (env : Env) (kind : InitiativeKind) (source_entity : EntityRef) (source_version : ℕ)
    (target_principal_id : PrincipalId) (sources sources' : List EventId)
    → ((id : EventId) → contains sources id ≡ contains sources' id)
    → initiative_fingerprint env kind source_entity source_version target_principal_id sources
      ≡ initiative_fingerprint env kind source_entity source_version target_principal_id sources'
unfolding initiative_fingerprint
initiative_fingerprint-set env kind source_entity source_version target_principal_id sources
      sources' same =
    rw (normal_set-eq sources sources' same) refl
