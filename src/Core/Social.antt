-- ===== src/Core/Social.antt =====
-- Principals, their identity versions and their relationships (src/core/model.rs).
use hekate.Core.Ids.{CommitmentId, ConflictId, IdentityVersionId, PrincipalId, RelationshipId}
use hekate.Prelude.{Eq, List, Option, eq_of_discrete, ℕ}
use hekate.Prelude.Text.{Text}

pub data PrincipalKind : Type 0 where
  user hekate_principal unit : PrincipalKind

unfoldable pub PrincipalKind-discrete : Discrete PrincipalKind
PrincipalKind-discrete = hlevel

instance unfoldable pub principal_kind_eq : Eq PrincipalKind
unfolding PrincipalKind-discrete
principal_kind_eq = eq_of_discrete PrincipalKind-discrete

pub record Principal : Type 0 where
  pub id : PrincipalId
  pub kind : PrincipalKind
  pub name : Text
  pub identity_version_id : Option IdentityVersionId

pub record IdentityVersion : Type 0 where
  pub id : IdentityVersionId
  pub principal_id : PrincipalId
  pub version : ℕ
  pub name : Text
  pub values : List Text
  pub boundaries : List Text
  pub created_at : Text
  pub supersedes : Option IdentityVersionId

pub record Relationship : Type 0 where
  pub id : RelationshipId
  pub participants : List PrincipalId
  pub shared_commitments : List CommitmentId
  pub unresolved_conflicts : List ConflictId
  pub trust_by_domain : List (Text × ℕ)
  pub interaction_norms : List Text
