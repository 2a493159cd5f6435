-- ===== src/Examples.antt =====
-- The theorems at concrete states and logs.
pub mod World
mod Claims
mod Candidates
mod Initiatives
mod Work
mod Stores
mod Hashes
mod Conflicts
mod SleepRuns
mod Prompts
mod SleepBatches
mod Leases
mod Judgments
mod Completions
mod Recoveries
mod Agendas
mod Turns
