-- ===== src/Lib.antt =====
-- A model of the event-sourced core of Hekate, an agent runtime, and what is proved of it.
--
-- The program records everything that happens as an `ExperienceEvent` (src/core/event.rs) and projects the
-- events onto one `CurrentState` (src/core/model.rs). The projector (src/runtime/projector.rs) is the only
-- code that changes that state: `Projector::apply` refuses an event whose id it has seen, dispatches on
-- the kind of the event to a handler that checks the payload against the state, and then counts the event.
-- The services of src/runtime build events, and the storage port keeps the log and the state.
--
-- Which file models what:
--   Prelude/      what the program uses of Rust's standard library: text as a list of code points, ordered
--                 maps as sorted association lists, `Result` with its `?`, stable sort, dedup.
--   Core/         the data types of src/core; `Core.State` is `CurrentState`, `Core.Events` the events,
--                 `Core.Fingerprints` the normal forms and hashes (src/core/evidence.rs, sleep.rs,
--                 initiative.rs), `Core.Integrity` the hash of an event, `Core.Proposals` and
--                 `Core.Blocked` src/core/integration.rs.
--   Core.Env      the parameters: uuid, sha2, serde_json, Unicode's tables and the clock that serde reads for
--                 a missing date, as a record of functions. Projector.Clock compares runs at other times.
--   Transition    src/core/transition.rs; TransitionLaws its theorems.
--   Deliberation  src/runtime/deliberation.rs: `validate_position_revision`, and in Deliberation.Judgment
--                 `decision_from_cycle` and `validate_judgment`; Deliberation.Laws and
--                 Deliberation.History hold theorems.
--   Engine        the end of a cognitive turn in src/runtime/engine.rs, from the model's answer on:
--                 `Engine.Events` for the events that `process_observation` makes, `Engine.Turns` for its
--                 checks and its batch; Conflicts, Judged and Finality hold lemmas and theorems.
--   Completion    src/runtime/completion.rs: its types, `Completion.Checks` for what its operations share,
--                 `Completion.Gate` for the gate, `Completion.Service` for the operations of
--                 `CompletionGate`; GateLaws, Readiness, Commits, TaskLaws and Progress hold lemmas and theorems.
--   Agenda        src/runtime/initiative/agenda.rs: `Agenda.Ledger` for the verified ledger, `Agenda.Sources`
--                 for sources, terms and texts, `Agenda.Select` for the candidates and `select`; Bounds
--                 and Provenance hold lemmas and theorems.
--   Recovery      src/runtime/recovery.rs; Recovery.Laws its theorems.
--   PromptBudget  src/runtime/prompt_budget.rs; PromptBudgetLaws its theorems.
--   SleepBatch    src/runtime/sleep_batch.rs; SleepBatch.Laws its theorems.
--   Storage       src/ports/storage.rs: the errors, and the trait as a record with its laws.
--   SqliteStore   the checks of `commit_batch` in src/adapters/sqlite/store.rs, and in SqliteStore.Leases
--                 the foreground lease.
--   CommitLaws    what the projector and the store have to do with each other.
--   Projector/    src/runtime/projector.rs, a module for each group of handlers, `Projector.Apply` for
--                 `apply` and `replay`, `Projector.Batch` for `record` and `record_batch`; the modules
--                 Clock, Frames, Footprint, Steps, Ledger, SoundClaims, SoundCandidates, ModelActor,
--                 InitiativeLife, TaskLife, SleepLife, Fingerprints, ConflictLaws and BatchLaws hold lemmas
--                 and theorems.
--   Examples/     logs and states at which the theorems are applied.
--
-- Conventions: ids are numbers, as the program only compares, orders and prints them; instants are texts;
-- a handler returns the new state or the error, where the source changes the state in place, since every
-- caller drops a state whose event fails; an error keeps the kind of the event where the source keeps its
-- debug text. The revision is a 64-bit number and wraps. No definition needs fuel: every loop of the
-- program that is modelled runs over a list or down a number. An operation of a service takes the ids
-- and the readings of the clock that it uses as arguments.
--
-- Not modelled: the services but the one of completion, the agenda, the recovery and the end of a turn of
-- the engine; the saved traces; the adapters, capabilities and interfaces; input and output; the JSON encoders and decoders, which are parameters; of the SQL store all but the checks before
-- a write and the lease.
pub mod Prelude
pub mod Completion
pub mod Core
pub mod Transition
pub mod TransitionLaws
pub mod Storage
pub mod SqliteStore
pub mod Agenda
pub mod CommitLaws
pub mod PromptBudget
pub mod Recovery
pub mod SleepBatch
pub mod PromptBudgetLaws
pub mod Deliberation
pub mod Projector
pub mod Engine
pub mod Examples
