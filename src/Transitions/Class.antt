-- ===== src/Transitions/Class.antt =====
-- The transitions and the program as the search of src/MCStack.cpp uses them, through the interface of
-- include/mcmini/MCTransition.h.
pub mod Copies
use dmtcp_integration.Base.{ℕ, Bool, true, false, Option, none, some, ◌>>=◌}
use dmtcp_integration.Objects.Barrier
use dmtcp_integration.Objects.Barrier.{Barrier}
use dmtcp_integration.Store
use dmtcp_integration.Search.Interface.{TransitionClass}
use dmtcp_integration.Transitions.{
  Ref, BarrierOperation, CondOperation, cond_wait, Operation, on_barrier, on_cond, Transition,
}
use dmtcp_integration.Transitions.Program.{Program, VisibleObject}
use dmtcp_integration.Transitions.Execution.{cast_barrier, cast_cond, cast_mutex, apply_to_state}
use dmtcp_integration.Transitions.Enabled.{
  transition_enabled_in_state, ensures_deadlock_is_impossible,
  counts_against_thread_execution_depth,
}
use dmtcp_integration.Transitions.Undo.{is_reversible_in_state, unapply_to_state}
use dmtcp_integration.Transitions.Relations.{
  dependent_transitions, coenabled_transitions, transitions_in_data_race,
}

-- The barrier that the state has under the id, if it has one.
unfoldable pub barrier_in_state : Program → Ref → Barrier → Barrier
barrier_in_state p b c =
    elim (Store.get_object_with_id p.object_storage b.object_id >>= cast_barrier) [
      | none ↦ c
      | some d ↦ d
    ]

-- The mutex of the condition variable that the state has under the id, if it has both.
unfoldable pub mutex_of_cond : Program → Ref → Option Ref
mutex_of_cond p c = do
  v ← Store.get_object_with_id p.object_storage c.object_id
  d ← cast_cond v
  id ← d.mutex
  w ← Store.get_object_with_id p.object_storage id
  n ← cast_mutex w
  some (record { object_id = id; system_identity = n.system_identity })

unfoldable pub mutex_in_state : Program → Ref → Ref → Ref
unfolding mutex_of_cond
mutex_in_state p c m = elim (mutex_of_cond p c) [ none ↦ m | some r ↦ r ]

-- The virtual `dynamicCopyInState`: ids and addresses stay; what the copy of an object said is read again.
unfoldable pub dynamic_copy_in_state : Program → Transition → Transition
unfolding barrier_in_state mutex_in_state
dynamic_copy_in_state p t = record t {
  operation = elim t.operation [
    | on_barrier o b c ↦ on_barrier o b (barrier_in_state p b c)
    | on_cond (cond_wait m) c ↦ on_cond (cond_wait (mutex_in_state p c m)) c
    | o ↦ o
  ];
}

-- The virtual `staticCopy`, which copies the barrier like every object.
unfoldable pub static_copy : Transition → Transition
static_copy t = record t {
  operation = elim t.operation [ on_barrier o b c ↦ on_barrier o b (Barrier.copy c) | o ↦ o ];
}

abbrev holds : Option Bool → Bool
holds none = false
holds (some b) = b

-- Undefined behaviour of a guard reads as false here.
abbrev pub mc_transition : TransitionClass Program Transition
mc_transition = record {
  get_thread_id = λ t. t.thread;
  dependent = dependent_transitions;
  coenabled = coenabled_transitions;
  in_data_race = transitions_in_data_race;
  enabled_in_state = λ p t. holds (transition_enabled_in_state p t);
  is_reversible_in_state = λ p t. is_reversible_in_state t.operation;
  ensures_deadlock_is_impossible = ensures_deadlock_is_impossible;
  counts_against_thread_execution_depth = counts_against_thread_execution_depth;
  static_copy = static_copy;
  dynamic_copy_in_state = dynamic_copy_in_state;
  apply_to_state = apply_to_state;
  unapply_to_state = unapply_to_state;
}
