-- ===== src/Core/Thoughts.antt =====
-- Thought contexts, drafts, reviews, judgments and traces (src/core/model.rs).
use hekate.Core.Actions.{Approval, Artifact, DecisionKind, Observation}
use hekate.Core.Diagnostics.{ModelIoDiagnostic}
use hekate.Core.Events.{ExperienceEvent}
use hekate.Core.Ids.{EventId, Json, PositionId}
use hekate.Core.Memories.{ActiveMemory, MemoryCandidate}
use hekate.Core.Recall.{RecallBundle}
use hekate.Core.Social.{IdentityVersion, Relationship}
use hekate.Core.Stances.{Commitment, Conflict, Position}
use hekate.Core.Work.{Focus, Goal, Run, Task, WorkingState}
use hekate.Prelude.{List, Option, ℕ}
use hekate.Prelude.Text.{Text}

pub record ActionProposal : Type 0 where
  pub capability : Text
  pub operation : Text
  pub target : Text
  pub arguments : Json
  pub expected_effect : Text
  pub preconditions : List Text

pub record ThoughtDraft : Type 0 where
  pub interpretation : Text
  pub initial_judgment : DecisionKind
  pub reasons : List Text
  pub uncertainties : List Text
  pub initial_intent : Text

pub record SelfReview : Type 0 where
  pub strongest_counterargument : Text
  pub value_conflicts : List Text
  pub unsupported_claims : List Text
  pub revision_direction : Option Text

pub record CommittedJudgment : Type 0 where
  pub final_act : DecisionKind
  pub reasons : List Text
  pub response : Text
  pub confidence : ℕ
  pub unresolved_questions : List Text
  pub alternatives : List Text
  pub reconsideration_conditions : List Text
  pub evidence_refs : List EventId
  pub related_position_ids : List PositionId
  pub position : Option Position
  pub user_position : Option Position
  pub conflict : Option Conflict
  pub action : Option ActionProposal

pub record CognitiveTrace : Type 0 where
  pub model_io : List ModelIoDiagnostic
  pub trace_id : Text
  pub outcome : Text
  pub provider : Text
  pub model : Text
  pub schema_version : Text
  pub context_sequence : ℕ
  pub context_hash : Text
  pub referenced_event_ids : List EventId
  pub draft : Option ThoughtDraft
  pub review : Option SelfReview
  pub commitment : Option CommittedJudgment
  pub parse_errors : List Text
  pub retries : ℕ
  pub elapsed_ms : ℕ
  pub raw_response_hash : Option Text
  pub error_kind : Option Text
  pub created_at : Text

pub record ThoughtCycle : Type 0 where
  pub draft : ThoughtDraft
  pub review : SelfReview
  pub commitment : CommittedJudgment
  pub trace : CognitiveTrace

pub record ThoughtContext : Type 0 where
  pub event_sequence : ℕ
  pub observation : Observation
  pub current_observation_event_id : Option EventId
  pub focus : Focus
  pub identity : Option IdentityVersion
  pub relationship : Option Relationship
  pub goal : Option Goal
  pub task : Option Task
  pub run : Option Run
  pub working_state : Option WorkingState
  pub positions : List Position
  pub user_positions : List Position
  pub conflicts : List Conflict
  pub commitments : List Commitment
  pub memories : List ActiveMemory
  pub memory_candidates : List MemoryCandidate
  pub pending_approvals : List Approval
  pub artifacts : List Artifact
  pub recall : RecallBundle
  pub context_snapshot : Option Json
  pub recent_event_ids : List EventId
  pub relevant_events : List ExperienceEvent
  pub available_capabilities : List Text
  pub output_schema : Text
  pub snapshot_hash : Text
