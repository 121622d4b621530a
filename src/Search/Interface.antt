-- ===== src/Search/Interface.antt =====
-- include/mcmini/MCTransition.h: what the search asks of a transition, for an implementation `T` of the
-- class MCTransition and the objects `S` that the transitions read and change.
use dmtcp_integration.Base.{ℕ, Bool, Option}

pub record TransitionClass (S T : Type 0) : Type 0 where
  pub get_thread_id : T → ℕ
  -- `MCTransition::dependentTransitions`, `coenabledTransitions` and `transitionsInDataRace`
  pub dependent : T → T → Bool
  pub coenabled : T → T → Bool
  pub in_data_race : T → T → Bool
  -- `MCTransition::transitionEnabledInState`
  pub enabled_in_state : S → T → Bool
  pub is_reversible_in_state : S → T → Bool
  pub ensures_deadlock_is_impossible : T → Bool
  pub counts_against_thread_execution_depth : T → Bool
  pub static_copy : T → T
  pub dynamic_copy_in_state : S → T → T
  -- `none` is an assertion that fires, or an exception.
  pub apply_to_state : S → T → Option S
  pub unapply_to_state : S → T → Option S
