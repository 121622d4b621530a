-- ===== src/Search/Growth.antt =====
-- How a transition extends the stacks of src/MCStack.cpp, and how it is applied to the objects.
pub mod Sleepers
pub mod Laws
pub mod Order
pub mod Returns
use dmtcp_integration.Base.{
  ℕ, zero, suc, ◌+◌, ◌-◌, Bool, true, false, not, Option, none, some, List, [], ◌∷◌, ◌++◌,
  if◌then◌else◌, length, set, assert, ◌>>=◌, ◌>>◌,
}
use dmtcp_integration.History.SortedStack
use dmtcp_integration.History.SortedStack.{SortedStack}
use dmtcp_integration.History.ClockVector.{ClockVector, assign}
use dmtcp_integration.History.ThreadData
use dmtcp_integration.History.ThreadData.{ThreadData}
use dmtcp_integration.History.StackItem
use dmtcp_integration.History.StackItem.{StackItem}
use dmtcp_integration.Search.Interface.{TransitionClass}
use dmtcp_integration.Search.Stack.{
  Stack, get_state_stack_top, state_stack_is_empty, grow_state_stack_with, set_thread_data,
  set_next_transition_for_thread,
}
use dmtcp_integration.Search.Clocks.{transition_stack_max_clock_vector}
use dmtcp_integration.Search.Schedule.{get_currently_enabled_threads}

-- What the old top of the state stack becomes.
abbrev pub departed : StackItem → List ℕ → ℕ → StackItem
departed old_s_top enabled_threads tid =
    StackItem.mark_backtrack_thread_searched
      (StackItem.add_thread_to_sleep_set
        (StackItem.mark_threads_enabled_in_state old_s_top enabled_threads) tid)
      tid

module _ {S T : Type 0} (c : TransitionClass S T) where
  unfoldable pub virtually_apply_transition : Stack S T → T → Option (Stack S T)
  virtually_apply_transition s transition = do
    objects ← c.apply_to_state s.objects (c.dynamic_copy_in_state s.objects transition)
    some (record s { objects = objects })

  unfoldable pub virtually_unapply_transition : Stack S T → T → Option (Stack S T)
  virtually_unapply_transition s transition = do
    objects ← c.unapply_to_state s.objects (c.dynamic_copy_in_state s.objects transition)
    some (record s { objects = objects })

  unfoldable pub increment_thread_depth_if_necessary : Stack S T → T → Stack S T
  unfolding set_thread_data
  increment_thread_depth_if_necessary s transition =
      let tid = c.get_thread_id transition in
      if c.counts_against_thread_execution_depth transition
      then set_thread_data s tid (ThreadData.increment_execution_depth (s.thread_data tid))
      else s

  unfoldable pub decrement_thread_depth_if_necessary : Stack S T → T → Stack S T
  unfolding set_thread_data
  decrement_thread_depth_if_necessary s transition =
      let tid = c.get_thread_id transition in
      if c.counts_against_thread_execution_depth transition
      then set_thread_data s tid
          (ThreadData.decrement_execution_depth_if_necessary (s.thread_data tid))
      else s

  unfoldable pub virtually_run_transition : Stack S T → T → Option (Stack S T)
  unfolding virtually_apply_transition increment_thread_depth_if_necessary set_thread_data
  virtually_run_transition s transition = do
    let tid = c.get_thread_id transition
    applied ← virtually_apply_transition s transition
    let counted = increment_thread_depth_if_necessary applied transition
    thread_data ←
        ThreadData.push_new_latest_execution_point (counted.thread_data tid)
          (length counted.transition_stack - 1)
    some (set_thread_data counted tid thread_data)

  unfoldable pub grow_transition_stack_running : Stack S T → T → Stack S T
  grow_transition_stack_running s transition = record s {
    transition_stack = s.transition_stack ++ c.static_copy transition ∷ [];
  }

  -- The loop over the old sleep set: the sleepers whose next transition is independent of the one that
  -- runs are put to sleep in the new state.
  unfoldable pub inherit_sleepers : Stack S T → T → List ℕ → StackItem → Option StackItem
  inherit_sleepers s t [] item = some item
  inherit_sleepers s t (tid ∷ tids) item = do
    tid_next ← s.next_transitions tid
    inherit_sleepers s t tids
        (if not (c.dependent tid_next t) then StackItem.add_thread_to_sleep_set item tid else item)

  unfoldable pub with_irreversible : Stack S T → Bool → Option SortedStack
  with_irreversible s true = some s.irreversible_states_stack
  with_irreversible s false =
      SortedStack.push s.irreversible_states_stack (length s.state_stack - 1)

  -- The third argument is what `getNextTraceSeqEntry` returns in `getCurrentlyEnabledThreads`.
  unfoldable pub grow_state_stack_running_transition : Stack S T → T → Option ℕ → Option (Stack S T)
  unfolding inherit_sleepers with_irreversible grow_state_stack_with set_thread_data
      get_state_stack_top
  grow_state_stack_running_transition s t trace_entry = do
    assert (not (state_stack_is_empty s))
    let transition_is_revertible = c.is_reversible_in_state s.objects t
    let tid = c.get_thread_id t
    enabled_threads ← get_currently_enabled_threads c s trace_entry
    old_s_top ← get_state_stack_top s
    let cv = assign (transition_stack_max_clock_vector c s t) tid (length s.transition_stack - 1)
    let grown = grow_state_stack_with s cv transition_is_revertible
    new_s_top ← inherit_sleepers s t old_s_top.sleep_set (StackItem.new cv transition_is_revertible)
    let states =
        set (set grown.state_stack (length s.state_stack) new_s_top) (length s.state_stack - 1)
          (departed old_s_top enabled_threads tid)
    let marked = record grown { state_stack = states }
    let clocked =
        set_thread_data marked tid (ThreadData.set_clock_vector (marked.thread_data tid) cv)
    irreversible ← with_irreversible clocked transition_is_revertible
    some (record clocked { irreversible_states_stack = irreversible })

  -- `setNextTransitionForThread(tid, shmTypeInfo, shmData)`: the second argument is the handler that is
  -- registered for the type of the operation, if one is. It reads the shared memory, may change the
  -- stack, and returns a transition; `none` is a null pointer, which is fatal.
  unfoldable pub set_next_from_memory :
      Stack S T → Option (Stack S T → Option (Stack S T × T)) → ℕ → Option (Stack S T)
  unfolding set_next_transition_for_thread
  set_next_from_memory s none tid = some s
  set_next_from_memory s (some handler) tid = do
    (s', new_transition_for_thread) ← handler s
    some (set_next_transition_for_thread s' tid new_transition_for_thread)

  unfoldable pub simulate_running_transition :
      Stack S T → T → Option ℕ → Option (Stack S T → Option (Stack S T × T)) → Option (Stack S T)
  unfolding grow_transition_stack_running grow_state_stack_running_transition
      virtually_run_transition set_next_from_memory
  simulate_running_transition s transition trace_entry handler = do
    grown ←
        grow_state_stack_running_transition (grow_transition_stack_running s transition) transition
          trace_entry
    run ← virtually_run_transition grown transition
    set_next_from_memory run handler (c.get_thread_id transition)
