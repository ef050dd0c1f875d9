-- ===== src/Transition.antt =====
-- src/transition-coordinator.hpp: the actions of an operator.
use obs_live_delay_plugin.Base.{ℕ}
use obs_live_delay_plugin.Base.Int.{ℤ}

pub data TransitionAction : Type 0 where
  set_delay return_live emergency_dump : TransitionAction

-- `epoch` is reserved where the owner admits the action.
pub record TransitionRequest : Type 0 where
  pub action : TransitionAction
  pub target : ℤ
  pub epoch : ℕ
