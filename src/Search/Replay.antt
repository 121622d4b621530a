-- ===== src/Search/Replay.antt =====
-- How src/MCStack.cpp returns to an earlier state of the trace: `reflectStateAtTransitionIndex`. A
-- thread number or an index that a loop runs over is given by the number of the rounds left.
pub mod Laws
pub mod Revert
use dmtcp_integration.Base.{
  ℕ, zero, suc, ◌+◌, ◌-◌, Bool, true, false, not, Option, none, some, List, [], ◌∷◌, ◌==◌, leb,
  if◌then◌else◌, length, take, assert, ◌>>=◌, ◌>>◌,
}
use dmtcp_integration.History.SortedStack
use dmtcp_integration.History.SortedStack.{SortedStack}
use dmtcp_integration.History.ClockVector.{ClockVector, assign, value_for_thread}
use dmtcp_integration.History.ThreadData
use dmtcp_integration.History.ThreadData.{ThreadData}
use dmtcp_integration.Search.Interface.{TransitionClass}
use dmtcp_integration.Search.Stack.{
  Stack, get_transition_at_index, set_thread_data, set_next_transition_for_thread, grow_state_stack,
}
use dmtcp_integration.Search.Clocks.{
  get_thread_running_transition_at_index, clock_vector_for_transition_at_index,
}
use dmtcp_integration.Search.Growth.{
  virtually_apply_transition, virtually_unapply_transition, increment_thread_depth_if_necessary,
  decrement_thread_depth_if_necessary,
}

module _ {S T : Type 0} where
  unfoldable pub can_run_in_reverse_to_state_at_index : Stack S T → ℕ → Bool
  can_run_in_reverse_to_state_at_index s state_stack_index =
      elim (SortedStack.top s.irreversible_states_stack) [
        | none ↦ true
        | some t ↦ leb t state_stack_index
      ]

  unfoldable pub start : Stack S T → Stack S T
  unfolding grow_state_stack
  start s = grow_state_stack s

  unfoldable pub reset : Stack S T → Stack S T
  reset s = record s { state_stack = []; transition_stack = []; next_thread_id = 0 }

  -- One operation on the data of every thread below a number.
  unfoldable pub for_threads : (ThreadData → ThreadData) → ℕ → Stack S T → Stack S T
  unfolding set_thread_data
  for_threads f zero s = s
  for_threads f (suc n) s =
      let s' = for_threads f n s in set_thread_data s' n (f (s'.thread_data n))

module _ {S T : Type 0} (c : TransitionClass S T) where
  unfoldable pub virtually_rerun_transition_at_index : Stack S T → ℕ → Option (Stack S T)
  unfolding virtually_apply_transition increment_thread_depth_if_necessary set_thread_data
  virtually_rerun_transition_at_index s i = do
    transition ← get_transition_at_index s i
    let tid = c.get_thread_id transition
    applied ← virtually_apply_transition c s transition
    let counted = increment_thread_depth_if_necessary c applied transition
    pushed ← ThreadData.push_new_latest_execution_point (counted.thread_data tid) i
    cv ← clock_vector_for_transition_at_index c counted i
    some (set_thread_data counted tid (ThreadData.set_clock_vector pushed cv))

  unfoldable pub virtually_revert_transition_at_index : Stack S T → ℕ → Option (Stack S T)
  unfolding virtually_unapply_transition decrement_thread_depth_if_necessary set_thread_data
  virtually_revert_transition_at_index s i = do
    transition ← get_transition_at_index s i
    let tid = c.get_thread_id transition
    unapplied ← virtually_unapply_transition c s transition
    let counted = decrement_thread_depth_if_necessary c unapplied transition
    let popped = ThreadData.pop_latest_execution_point (counted.thread_data tid)
    cv ← clock_vector_for_transition_at_index c counted i
    some (set_thread_data counted tid (ThreadData.set_clock_vector popped cv))

  -- The transitions from an index on, upwards.
  unfoldable pub rerun_from : Stack S T → ℕ → ℕ → Option (Stack S T)
  unfolding virtually_rerun_transition_at_index
  rerun_from s i zero = some s
  rerun_from s i (suc rounds) = do
    s' ← virtually_rerun_transition_at_index s i
    rerun_from s' (i + 1) rounds

  -- The transitions above an index, downwards.
  unfoldable pub revert_down : Stack S T → ℕ → ℕ → Option (Stack S T)
  unfolding virtually_revert_transition_at_index
  revert_down s index zero = some s
  revert_down s index (suc rounds) = do
    s' ← virtually_revert_transition_at_index s (index + suc rounds)
    revert_down s' index rounds

  -- `threadToClosestIndexMap`, from the top of the transition stack down to above an index.
  unfoldable pub closest_from : Stack S T → ℕ → ℕ → ClockVector → Option ClockVector
  unfolding get_thread_running_transition_at_index
  closest_from s index zero closest = some closest
  closest_from s index (suc rounds) closest = do
    tid ← get_thread_running_transition_at_index c s (index + suc rounds)
    closest_from s index rounds (assign closest tid (index + suc rounds))

  unfoldable pub thread_to_closest_index_map : Stack S T → ℕ → Option ClockVector
  unfolding closest_from
  thread_to_closest_index_map s index =
      closest_from s index (length s.transition_stack - (index + 1)) []

  -- Each thread that ran after the index is about to run its first transition after it.
  unfoldable pub set_closest : Stack S T → ClockVector → Option (Stack S T)
  unfolding get_transition_at_index set_next_transition_for_thread
  set_closest s [] = some s
  set_closest s ((tid, latest_index) ∷ elems) = do
    transition ← get_transition_at_index s latest_index
    set_closest
        (set_next_transition_for_thread s tid (c.dynamic_copy_in_state s.objects transition)) elems

  -- The next transitions of the threads below a number that did not run after the index, copied for the
  -- objects that are new.
  unfoldable pub refresh_others : Stack S T → ClockVector → ℕ → Option (Stack S T)
  unfolding set_next_transition_for_thread
  refresh_others s closest zero = some s
  refresh_others s closest (suc n) = do
    s' ← refresh_others s closest n
    elim (value_for_thread closest n) [
      | some j ↦ some s'
      | none ↦ (do
        t ← s'.next_transitions n
        some (set_next_transition_for_thread s' n (c.dynamic_copy_in_state s'.objects t)))
    ]

  -- The first argument is `resetObjectsToInitialStateInStore` of the objects.
  unfoldable pub reflect_state_at_transition_index : (S → S) → Stack S T → ℕ → Option (Stack S T)
  unfolding can_run_in_reverse_to_state_at_index for_threads rerun_from revert_down
      thread_to_closest_index_map set_closest refresh_others
  reflect_state_at_transition_index reset_objects s index = do
    assert (leb (index + 1) (length s.transition_stack))
    let num_threads_to_process = s.next_thread_id
    let state_stack_index = index + 1
    let reverse = can_run_in_reverse_to_state_at_index s state_stack_index
    moved ←
        (if not reverse
          then rerun_from
              (for_threads ThreadData.reset_execution_data s.next_thread_id
                (record s { objects = reset_objects s.objects }))
              0 (index + 1)
          else revert_down
              (for_threads (λ d. ThreadData.pop_execution_points_greater_than d index)
                s.next_thread_id s)
              index (length s.transition_stack - (index + 1)))
    closest ← thread_to_closest_index_map moved index
    nexts ← set_closest moved closest
    refreshed ←
        (if not reverse then refresh_others nexts closest num_threads_to_process else some nexts)
    some (record refreshed {
      irreversible_states_stack =
          SortedStack.pop_greater_than refreshed.irreversible_states_stack state_stack_index;
      transition_stack = take (index + 1) refreshed.transition_stack;
      state_stack = take (index + 2) refreshed.state_stack;
    })

  -- The same for the index -1, which the source passes as the largest `uint32_t`. The loop that would run
  -- transitions again then leaves the stack, which is undefined; the loop that reverts them, and the one
  -- that pops execution points, find nothing to do. The map is made from the whole stack.
  unfoldable pub closest_in_all : Stack S T → ℕ → ClockVector → Option ClockVector
  unfolding get_thread_running_transition_at_index
  closest_in_all s zero closest = some closest
  closest_in_all s (suc i) closest = do
    tid ← get_thread_running_transition_at_index c s i
    closest_in_all s i (assign closest tid i)

  unfoldable pub reflect_state_at_minus_one : Stack S T → Option (Stack S T)
  unfolding can_run_in_reverse_to_state_at_index closest_in_all set_closest
  reflect_state_at_minus_one s = do
    assert (can_run_in_reverse_to_state_at_index s 0)
    closest ← closest_in_all s (length s.transition_stack) []
    nexts ← set_closest s closest
    some (record nexts {
      irreversible_states_stack = SortedStack.pop_greater_than nexts.irreversible_states_stack 0;
      transition_stack = [];
      state_stack = take 1 nexts.state_stack;
    })

  -- `reflectStateAtTransitionIndex` at the index before a number.
  unfoldable pub reflect_state_before : (S → S) → Stack S T → ℕ → Option (Stack S T)
  unfolding reflect_state_at_minus_one reflect_state_at_transition_index
  reflect_state_before reset_objects s zero = reflect_state_at_minus_one s
  reflect_state_before reset_objects s (suc index) =
      reflect_state_at_transition_index reset_objects s index
