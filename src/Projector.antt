-- ===== src/Projector.antt =====
-- The projector (src/runtime/projector.rs): a module for each group of handlers, `Apply` for the match
-- over the kinds of events and `Batch` for the public operations.
pub mod Errors
pub mod Focus
pub mod Tasks
pub mod Initiatives
pub mod Clock
pub mod Conflicts
pub mod Sleep
pub mod Evidence
pub mod Claims
pub mod Candidates
pub mod Materialize
pub mod Positions
pub mod Inserts
pub mod Apply
pub mod Frames
pub mod Footprint
pub mod Steps
pub mod Ledger
pub mod SoundClaims
pub mod SoundCandidates
pub mod ModelActor
pub mod InitiativeLife
pub mod TaskLife
pub mod SleepLife
pub mod Fingerprints
pub mod ConflictLaws
pub mod Batch
pub mod BatchLaws
