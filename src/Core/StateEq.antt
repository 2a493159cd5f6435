-- ===== src/Core/StateEq.antt =====
-- `PartialEq` of `CurrentState`, which src/core/model.rs derives.
use hekate.Core.State.{CurrentState}
use hekate.Prelude.{Eq, eq_of_discrete}
use native.Mathlib.Decide.{ℕ_discrete}

unfoldable pub CurrentState-discrete : Discrete CurrentState
unfolding ℕ_discrete
CurrentState-discrete = hlevel (ℕ_discrete)

instance unfoldable pub current_state_eq : Eq CurrentState
unfolding CurrentState-discrete
current_state_eq = eq_of_discrete CurrentState-discrete
