-- ===== src/Search/Schedule.antt =====
-- What src/MCStack.cpp answers about the threads at the top of the trace: which are enabled, which runs
-- next, whether they are in a deadlock or a data race, and where the search branches next. A loop over
-- an index is written with the index and the number of its rounds that are left.
pub mod Deadlock
pub mod FirstEnabled
pub mod EnabledThreads
pub mod BranchPoint
use dmtcp_integration.Base.{
  ℕ, zero, suc, ◌+◌, ◌-◌, ◌%◌, ◌^◌, Bool, true, false, not, ◌&&◌, Option, none, some, List, [], ◌∷◌,
  ◌==◌, ltb, if◌then◌else◌, insert, length, ◌>>=◌,
}
use dmtcp_integration.History.StackItem
use dmtcp_integration.History.StackItem.{StackItem}
use dmtcp_integration.Search.Interface.{TransitionClass}
use dmtcp_integration.Search.Stack.{
  Stack, get_num_program_threads, get_state_item_at_index, get_state_stack_top,
}

module _ {S T : Type 0} (c : TransitionClass S T) where
  unfoldable pub transition_is_enabled : Stack S T → T → Bool
  transition_is_enabled s t =
      ltb (s.thread_data (c.get_thread_id t)).execution_depth s.max_thread_execution_depth
      && c.enabled_in_state s.objects t

  unfoldable pub first_enabled_from : Stack S T → ℕ → ℕ → Option (Option T)
  unfolding transition_is_enabled get_state_stack_top
  first_enabled_from s i zero = some none
  first_enabled_from s i (suc rounds) = do
    next_transition ← s.next_transitions i
    s_top ← get_state_stack_top s
    let rest = first_enabled_from s (i + 1) rounds
    (if transition_is_enabled s next_transition && not (StackItem.thread_is_in_sleep_set s_top i)
        then some (some next_transition)
        else rest)

  -- The second argument is what `getNextTraceSeqEntry` returns, `none` for a negative number.
  unfoldable pub get_first_enabled_transition : Stack S T → Option ℕ → Option (Option T)
  unfolding first_enabled_from get_num_program_threads
  get_first_enabled_transition s (some next_trace_entry) = do
    t ← s.next_transitions next_trace_entry
    some (some t)
  get_first_enabled_transition s none = first_enabled_from s 0 (get_num_program_threads s)

  unfoldable pub enabled_threads_from : Stack S T → ℕ → ℕ → List ℕ → Option (List ℕ)
  enabled_threads_from s i zero enabled = some enabled
  enabled_threads_from s i (suc rounds) enabled = do
    next_transition ← s.next_transitions i
    enabled_threads_from s (i + 1) rounds
        (if c.enabled_in_state s.objects next_transition then insert i enabled else enabled)

  unfoldable pub get_currently_enabled_threads : Stack S T → Option ℕ → Option (List ℕ)
  unfolding enabled_threads_from get_num_program_threads
  get_currently_enabled_threads s (some next_trace_entry) = some (insert next_trace_entry [])
  get_currently_enabled_threads s none = enabled_threads_from s 0 (get_num_program_threads s) []

  unfoldable pub deadlock_from : Stack S T → ℕ → ℕ → Option Bool
  deadlock_from s tid zero = some true
  deadlock_from s tid (suc rounds) = do
    next_transition_for_tid ← s.next_transitions tid
    let rest = deadlock_from s (tid + 1) rounds
    (if c.ensures_deadlock_is_impossible next_transition_for_tid
        then some false
        else (if c.enabled_in_state s.objects next_transition_for_tid then some false else rest))

  unfoldable pub is_in_deadlock : Stack S T → Option Bool
  unfolding deadlock_from get_num_program_threads
  is_in_deadlock s = deadlock_from s 0 (get_num_program_threads s)

  unfoldable pub data_race_from : Stack S T → T → ℕ → ℕ → Option Bool
  data_race_from s transition i zero = some false
  data_race_from s transition i (suc rounds) =
      let rest = data_race_from s transition (i + 1) rounds in
      if i == c.get_thread_id transition then rest else (do
        next_transition_for_thread_i ← s.next_transitions i
        (if c.in_data_race next_transition_for_thread_i transition then some true else rest))

  unfoldable pub has_a_data_race_with_new_transition : Stack S T → T → Option Bool
  unfolding data_race_from get_num_program_threads
  has_a_data_race_with_new_transition s transition =
      data_race_from s transition 0 (get_num_program_threads s)

module _ {S T : Type 0} where
  -- The index of the last state of the list that has threads to backtrack on; the first argument is the
  -- number of the states. `none` is `FIRST_BRANCH`.
  unfoldable pub deepest_branch_below : ℕ → Stack S T → Option ℕ
  unfolding get_state_item_at_index
  deepest_branch_below zero s = none
  deepest_branch_below (suc j) s =
      let rest = deepest_branch_below j s in
      elim (get_state_item_at_index s j) [
        | none ↦ rest
        | some item ↦ if StackItem.has_threads_to_backtrack_on item then some j else rest
      ]

  unfoldable pub get_deepest_dpor_branch_point : Stack S T → Option ℕ
  unfolding deepest_branch_below
  get_deepest_dpor_branch_point s = deepest_branch_below (length s.state_stack) s

  -- The total is a `uint32_t`.
  unfoldable pub depth_from : Stack S T → ℕ → ℕ → ℕ → ℕ
  depth_from s i zero total = total
  depth_from s i (suc rounds) total =
      depth_from s (i + 1) rounds ((total + (s.thread_data i).execution_depth) % 2 ^ 32)

  unfoldable pub total_thread_execution_depth : Stack S T → ℕ
  unfolding depth_from
  total_thread_execution_depth s = depth_from s 0 s.next_thread_id 0
