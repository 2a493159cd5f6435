-- ===== src/Core/SleepContexts.antt =====
-- What a sleep run shows to the model, and what the model drafts (src/core/sleep.rs).
use hekate.Core.Actions.{Observation}
use hekate.Core.Ids.{EventId, SleepRunId}
use hekate.Core.Recall.{RecalledItem}
use hekate.Core.Sleep.{IntegrationCandidateKind}
use hekate.Core.Social.{IdentityVersion, Relationship}
use hekate.Core.Stances.{Conflict, Position}
use hekate.Prelude.{Bool, List, Option, ℕ}
use hekate.Prelude.Text.{Text}

pub record SleepSeed : Type 0 where
  pub event_id : EventId
  pub sequence : ℕ
  pub observation : Observation

pub record SleepContext : Type 0 where
  pub sleep_run_id : SleepRunId
  pub high_water_revision : ℕ
  pub seed_observations : List SleepSeed
  pub recalled_experiences : List RecalledItem
  pub identity : Option IdentityVersion
  pub active_positions : List Position
  pub active_conflicts : List Conflict
  pub relationship : Option Relationship
  pub snapshot_hash : Text

pub record IntegrationCandidateDraft : Type 0 where
  pub kind : IntegrationCandidateKind
  pub content : Text
  pub rationale : Text
  pub source_event_ids : List EventId
  pub counterevidence_event_ids : List EventId
  pub confidence : ℕ

pub record SleepSelfReview : Type 0 where
  pub weak_points : List Text
  pub possible_counterevidence_event_ids : List EventId
  pub revised : Bool
