-- ===== src/Core/Proposals.antt =====
-- The typed proposals that the content of a candidate holds, and the checks of their parsers
-- (src/core/integration.rs). Reading the JSON itself is a function of `Core.Env`.
use hekate.Core.Ids.{EventId, MemoryId, PositionId}
use hekate.Core.Stances.{Stance}
use hekate.Prelude.{
  ℕ, Bool, ◌||◌, not, List, String, ltb, nat_eq, is_empty, length, ◌!=◌, list_eq, ℕ_eq,
}
use hekate.Prelude.Text.{Text, codes, trim, len}
use hekate.Prelude.Results.{Result, ok, ◌>>=◌, ◌>>◌, reject_if, for_each, map_err}

pub data PositionIntegrationOperation : Type 0 where
  establish : Text → Stance → List Text → List Text → PositionIntegrationOperation
  revise : PositionId → ℕ → Stance → List Text → List Text → PositionIntegrationOperation
  withdraw : PositionId → ℕ → Text → PositionIntegrationOperation

pub record PositionIntegrationProposal : Type 0 where
  pub schema : Text
  pub operation : PositionIntegrationOperation

pub data MemoryRevisionOperation : Type 0 where
  replace : MemoryId → EventId → Text → Text → MemoryRevisionOperation
  expire : MemoryId → EventId → Text → MemoryRevisionOperation

pub record MemoryRevisionProposal : Type 0 where
  pub schema : Text
  pub operation : MemoryRevisionOperation

-- The messages of the parsers; `field_text` and `field_count` name the field.
pub data ParseError : Type 0 where
  json field_text field_count : String → ParseError
  wrong_schema version_not_positive invalid_event_hash invalid_replacement : ParseError

abbrev pub position_integration_schema : Text
position_integration_schema = codes "hekate.position_integration.v1"

abbrev pub memory_revision_schema : Text
memory_revision_schema = codes "hekate.memory_revision.v1"

abbrev pub max_candidate_sources : ℕ
max_candidate_sources = 16

abbrev pub max_sleep_text : ℕ
max_sleep_text = 2000

-- The closure `validate_text`.
unfoldable pub validate_text : Text → String → Result ParseError (Unit {0})
validate_text value field =
    reject_if (is_empty (trim value) || ltb max_sleep_text (len (trim value))) (field_text field)

-- The closure `validate_texts`.
unfoldable pub validate_texts : List Text → String → Result ParseError (Unit {0})
unfolding validate_text
validate_texts values field = do
  reject_if (is_empty values || ltb max_candidate_sources (length values)) (field_count field)
  for_each (λ value. validate_text value field) values

validate_position_operation : PositionIntegrationOperation → Result ParseError (Unit {0})
unfolding validate_texts
validate_position_operation (establish subject stance reasons conditions) = do
  validate_text subject "subject"
  validate_texts reasons "reasons"
  validate_texts conditions "reconsideration_conditions"
validate_position_operation (revise position_id expected_version stance reasons conditions) = do
  reject_if (nat_eq expected_version 0) version_not_positive
  validate_texts reasons "reasons"
  validate_texts conditions "reconsideration_conditions"
validate_position_operation (withdraw position_id expected_version reason) = do
  reject_if (nat_eq expected_version 0) version_not_positive
  validate_text reason "reason"

-- `PositionIntegrationProposal::parse`, behind the reading of the JSON text.
unfoldable pub parse_position_proposal :
    (Text → Result String PositionIntegrationProposal)
    → Text
    → Result ParseError PositionIntegrationProposal
unfolding validate_position_operation list_eq
parse_position_proposal from_str content = do
  proposal ← map_err json (from_str content)
  reject_if (proposal.schema != position_integration_schema) wrong_schema
  validate_position_operation proposal.operation
  ok proposal

abbrev event_hash_of : MemoryRevisionOperation → Text
event_hash_of (replace target event hash replacement) = hash
event_hash_of (expire target event hash) = hash

validate_replacement : MemoryRevisionOperation → Result ParseError (Unit {0})
validate_replacement (replace target event hash replacement) =
    reject_if (is_empty (trim replacement) || ltb max_sleep_text (len (trim replacement)))
      invalid_replacement
validate_replacement (expire target event hash) = ok tt

-- `MemoryRevisionProposal::parse`, behind the reading of the JSON text. `valid_hash` is
-- `valid_sha256_hex`.
unfoldable pub parse_memory_proposal :
    (Text → Result String MemoryRevisionProposal)
    → (Text → Bool)
    → Text
    → Result ParseError MemoryRevisionProposal
unfolding validate_replacement list_eq
parse_memory_proposal from_str valid_hash content = do
  proposal ← map_err json (from_str content)
  reject_if (proposal.schema != memory_revision_schema) wrong_schema
  reject_if (not (valid_hash (event_hash_of proposal.operation))) invalid_event_hash
  validate_replacement proposal.operation
  ok proposal
