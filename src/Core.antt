-- ===== src/Core.antt =====
-- The data model of src/core: ids, entities, events and the projected state, a module for each part.
pub mod Ids
pub mod ModelIo
pub mod Social
pub mod Work
pub mod Stances
pub mod Memories
pub mod Actions
pub mod Continuity
pub mod Events
pub mod Evidence
pub mod Sleep
pub mod Initiatives
pub mod Integration
pub mod State
pub mod StateEq
pub mod Proposals
pub mod Env
pub mod Fingerprints
pub mod Blocked
pub mod FingerprintLaws
pub mod Integrity
pub mod IntegrityLaws
pub mod Recall
pub mod Agenda
pub mod SleepContexts
pub mod Diagnostics
pub mod Thoughts
