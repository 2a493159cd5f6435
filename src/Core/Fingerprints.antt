-- ===== src/Core/Fingerprints.antt =====
-- Normal forms, hashes and fingerprints (src/core/evidence.rs, src/core/sleep.rs,
-- src/core/initiative.rs).

use hekate.Core.Env.{Env}
use hekate.Core.Events.{EntityRef}
use hekate.Core.Evidence.{EvidenceRef}
use hekate.Core.Ids.{CompletionCriterionId, EventId, PrincipalId, TaskId}
use hekate.Core.Initiatives.{InitiativeKind}
use hekate.Core.Sleep.{IntegrationCandidateKind}
use hekate.Prelude.{
  ℕ, ◌+◌, ◌/◌, ◌%◌, Bool, true, false, ◌||◌, ◌&&◌, Option, none, some, List, [], ◌∷◌, ◌++◌, map,
  ltb, leb, nat_eq, all, if◌then◌else◌, ◌==◌, ℕ_eq, option_eq, list_eq,
}
use hekate.Prelude.Text.{Text, codes, trim, split_whitespace, join, len}
use hekate.Prelude.Sort.{sort, dedup_by}

-- `str::as_bytes`
unfoldable pub as_bytes : Text → List ℕ
as_bytes [] = []
as_bytes (c ∷ s) =
    if ltb c 0x80
    then c ∷ as_bytes s
    else if ltb c 0x800
    then (0xc0 + c / 64) ∷ (0x80 + c % 64) ∷ as_bytes s
    else if ltb c 0x10000
    then (0xe0 + c / 4096) ∷ (0x80 + c / 64 % 64) ∷ (0x80 + c % 64) ∷ as_bytes s
    else (0xf0 + c / 262144)
      ∷ (0x80 + c / 4096 % 64)
      ∷ (0x80 + c / 64 % 64)
      ∷ (0x80 + c % 64)
      ∷ as_bytes s

-- One digit of `{:02x}`.
abbrev pub hex_digit : ℕ → ℕ
hex_digit d = if ltb d 10 then b'0' + d else 87 + d

unfoldable pub hex : List ℕ → Text
hex [] = []
hex (byte ∷ bytes) = hex_digit (byte / 16) ∷ hex_digit (byte % 16) ∷ hex bytes

abbrev pub is_lower_hex : ℕ → Bool
is_lower_hex c = leb b'0' c && leb c b'9' || leb b'a' c && leb c b'f'

-- The code points stand for the bytes: a byte beyond ASCII fails the test either way.
unfoldable pub valid_sha256_hex : Text → Bool
valid_sha256_hex value = nat_eq (len value) 64 && all is_lower_hex value

-- The derived order of text, of an `Option` and of numbers, each as `cmp`'s "less or equal" with what
-- decides between equals.
abbrev pub then_le : Bool → Bool → Bool → Bool
then_le lt eq rest = lt || eq && rest

unfoldable pub text_lt : Text → Text → Bool
text_lt [] [] = false
text_lt [] (y ∷ ys) = true
text_lt (x ∷ xs) [] = false
text_lt (x ∷ xs) (y ∷ ys) = ltb x y || nat_eq x y && text_lt xs ys

abbrev pub text_le : Text → Text → Bool
text_le a b = if text_lt b a then false else true

abbrev pub option_lt : Option ℕ → Option ℕ → Bool
option_lt none none = false
option_lt none (some b) = true
option_lt (some a) none = false
option_lt (some a) (some b) = ltb a b

-- The comparison of `normalize_evidence_refs`.
unfoldable pub evidence_le : EvidenceRef → EvidenceRef → Bool
unfolding option_eq list_eq text_lt
evidence_le left right =
    then_le (ltb left.event_id right.event_id) (left.event_id == right.event_id) (
      then_le (option_lt left.artifact_id right.artifact_id) (left.artifact_id == right.artifact_id)
        (then_le (text_lt left.source_hash right.source_hash)
          (left.source_hash == right.source_hash) (leb left.as_of_sequence right.as_of_sequence)))

unfoldable pub same_evidence : EvidenceRef → EvidenceRef → Bool
unfolding option_eq list_eq
same_evidence left right =
    left.event_id == right.event_id
    && left.artifact_id == right.artifact_id
    && left.source_hash == right.source_hash

unfoldable pub normalize_evidence_refs : List EvidenceRef → List EvidenceRef
unfolding sort dedup_by evidence_le same_evidence
normalize_evidence_refs refs = dedup_by same_evidence (sort evidence_le refs)

artifact_texts : (ℕ → Text) → List EvidenceRef → List Text
artifact_texts uuid_text [] = []
artifact_texts uuid_text (e ∷ es) =
    let rest = artifact_texts uuid_text es in
    elim e.artifact_id [ none ↦ rest | some id ↦ uuid_text id ∷ rest ]

abbrev newline : Text
newline = codes "\n"

abbrev comma : Text
comma = codes ","

abbrev nul : Text
nul = 0 ∷ []

module _ (env : Env) where
  open env use {uuid_text, to_lowercase, digest, kind_json, initiative_json}

  unfoldable pub normalize_description : Text → Text
  unfolding split_whitespace join
  normalize_description value = to_lowercase (join (codes " ") (split_whitespace value))

  unfoldable pub sha256_hex : List ℕ → Text
  unfolding hex
  sha256_hex bytes = hex (digest bytes)

  unfoldable pub completion_fingerprint : TaskId → CompletionCriterionId → List EvidenceRef → Text
  unfolding sha256_hex as_bytes artifact_texts sort join
  completion_fingerprint task_id criterion_id evidence_refs =
      let event_ids = sort text_le (map (λ e. uuid_text (EvidenceRef.event_id e)) evidence_refs) in
      let artifact_ids = sort text_le (artifact_texts uuid_text evidence_refs) in
      let source_hashes = sort text_le (map (λ e. EvidenceRef.source_hash e) evidence_refs) in
      sha256_hex (
        as_bytes (
          codes "completion"
          ++ newline
          ++ uuid_text task_id
          ++ newline
          ++ uuid_text criterion_id
          ++ newline
          ++ join comma event_ids
          ++ newline
          ++ join comma artifact_ids
          ++ newline
          ++ join comma source_hashes))

  -- The ids of `update`, each with the zero byte behind it.
  id_bytes : List EventId → List ℕ
  id_bytes [] = []
  id_bytes (id ∷ ids) = as_bytes (uuid_text id) ++ nul ++ id_bytes ids

  unfoldable pub integration_candidate_fingerprint :
      IntegrationCandidateKind → Text → List EventId → List EventId → Text
  unfolding sha256_hex as_bytes sort trim id_bytes
  integration_candidate_fingerprint kind content source_event_ids counterevidence_event_ids =
      sha256_hex (
        as_bytes (kind_json kind)
        ++ nul
        ++ as_bytes (trim content)
        ++ nul
        ++ id_bytes (sort leb source_event_ids)
        ++ (1 ∷ [])
        ++ id_bytes (sort leb counterevidence_event_ids))

  unfoldable pub initiative_fingerprint :
      InitiativeKind → EntityRef → ℕ → PrincipalId → List EventId → Text
  unfolding sha256_hex sort dedup_by
  initiative_fingerprint kind source_entity source_version target_principal_id source_event_ids =
      sha256_hex (
        initiative_json kind source_entity source_version target_principal_id
          (dedup_by nat_eq (sort leb source_event_ids)))
