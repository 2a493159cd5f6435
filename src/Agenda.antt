-- ===== src/Agenda.antt =====
-- `select` of the initiative agenda (src/runtime/initiative/agenda.rs).
pub mod Bounds
pub mod Ledger
pub mod Provenance
pub mod Select
pub mod Sources
use hekate.Core.Events.{ExperienceEvent}
use hekate.Prelude.{ℕ}
use hekate.Prelude.BTreeMap.{BTreeMap}

-- The events with their sequence numbers, by event id.
abbrev pub VerifiedLedger : Type 0
VerifiedLedger = BTreeMap (ExperienceEvent × ℕ)

abbrev pub max_text_bytes : ℕ
max_text_bytes = 320

-- `MAX_SLEEP_CANDIDATES`
abbrev pub max_sleep_candidates : ℕ
max_sleep_candidates = 8
