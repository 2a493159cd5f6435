-- ===== src/Core/Stances.antt =====
-- Positions, conflicts and commitments (src/core/model.rs).
use hekate.Core.Ids.{CommitmentId, ConflictId, EventId, PositionId, PrincipalId}
use hekate.Prelude.{Eq, List, Option, eq_of_discrete, ℕ}
use hekate.Prelude.Text.{Text}
use native.Mathlib.Decide.{ℕ_discrete}

pub data Stance : Type 0 where
  support oppose uncertain neutral : Stance

unfoldable pub Stance-discrete : Discrete Stance
Stance-discrete = hlevel

instance unfoldable pub stance_eq : Eq Stance
unfolding Stance-discrete
stance_eq = eq_of_discrete Stance-discrete

pub data PositionStatus : Type 0 where
  active superseded retracted : PositionStatus

unfoldable pub PositionStatus-discrete : Discrete PositionStatus
PositionStatus-discrete = hlevel

instance unfoldable pub position_status_eq : Eq PositionStatus
unfolding PositionStatus-discrete
position_status_eq = eq_of_discrete PositionStatus-discrete

pub record Position : Type 0 where
  pub id : PositionId
  pub principal_id : PrincipalId
  pub subject : Text
  pub stance : Stance
  pub version : ℕ
  pub status : PositionStatus
  pub confidence : ℕ
  pub supersedes : Option PositionId
  pub reasons : List Text
  pub evidence_refs : List EventId
  pub reconsideration_conditions : List Text
  pub created_at : Text

unfoldable pub Position-discrete : Discrete Position
unfolding ℕ_discrete Stance-discrete PositionStatus-discrete
Position-discrete = hlevel (ℕ_discrete, Stance-discrete, PositionStatus-discrete)

instance unfoldable pub position_eq : Eq Position
unfolding Position-discrete
position_eq = eq_of_discrete Position-discrete

pub data ConflictStatus : Type 0 where
  opened negotiating resolved accepted_disagreement : ConflictStatus

unfoldable pub ConflictStatus-discrete : Discrete ConflictStatus
ConflictStatus-discrete = hlevel

instance unfoldable pub conflict_status_eq : Eq ConflictStatus
unfolding ConflictStatus-discrete
conflict_status_eq = eq_of_discrete ConflictStatus-discrete

pub record Conflict : Type 0 where
  pub id : ConflictId
  pub subject : Text
  pub participant_positions : List PositionId
  pub status : ConflictStatus
  pub revision : ℕ
  pub reasons : List Text
  pub evidence_refs : List EventId
  pub alternatives : List Text
  pub reconsideration_conditions : List Text
  pub unresolved_questions : List Text
  pub resolution : Option Text
  pub resolved_at : Option Text
  pub created_at : Text

pub data CommitmentStatus : Type 0 where
  opened fulfilled broken cancelled : CommitmentStatus

pub record Commitment : Type 0 where
  pub id : CommitmentId
  pub debtor_principal_id : PrincipalId
  pub creditor_principal_id : PrincipalId
  pub promise : Text
  pub status : CommitmentStatus
  pub source_event_id : Option EventId
  pub created_at : Text

unfoldable pub Conflict-discrete : Discrete Conflict
unfolding ℕ_discrete
Conflict-discrete = hlevel (ℕ_discrete)

instance unfoldable pub conflict_eq : Eq Conflict
unfolding Conflict-discrete
conflict_eq = eq_of_discrete Conflict-discrete

unfoldable pub Commitment-discrete : Discrete Commitment
unfolding ℕ_discrete
Commitment-discrete = hlevel (ℕ_discrete)

instance unfoldable pub commitment_eq : Eq Commitment
unfolding Commitment-discrete
commitment_eq = eq_of_discrete Commitment-discrete
