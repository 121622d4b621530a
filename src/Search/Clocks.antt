-- ===== src/Search/Clocks.antt =====
-- The happens-before relation of src/MCStack.cpp, by clock vectors.
pub mod Laws
use dmtcp_integration.Base.{
  ℕ, zero, suc, ◌+◌, ◌-◌, Bool, true, false, ◌||◌, ◌&&◌, Option, none, some, List, [], ◌∷◌, ◌==◌,
  if◌then◌else◌, leb, ◌>>=◌,
}
use dmtcp_integration.History.ClockVector.{
  ClockVector, new_empty_clock_vector, value_for_thread, value_or, max_vector,
}
use dmtcp_integration.History.StackItem.{StackItem}
use dmtcp_integration.Search.Interface.{TransitionClass}
use dmtcp_integration.Search.Stack.{
  Stack, get_transition_at_index, get_resultant_state, get_transition_stack_size,
}

-- The state stack without its bottom, the initial state.
abbrev pub drop_bottom : List StackItem → List StackItem
drop_bottom [] = []
drop_bottom (s ∷ ss) = ss

module _ {S T : Type 0} (c : TransitionClass S T) where
  unfoldable pub get_thread_running_transition_at_index : Stack S T → ℕ → Option ℕ
  unfolding get_transition_at_index
  get_thread_running_transition_at_index s i = do
    t ← get_transition_at_index s i
    some (c.get_thread_id t)

  unfoldable pub clock_vector_for_transition_at_index : Stack S T → ℕ → Option ClockVector
  unfolding get_resultant_state
  clock_vector_for_transition_at_index s i = do
    item ← get_resultant_state s i
    some item.clock_vector

  unfoldable pub happens_before : Stack S T → ℕ → ℕ → Option Bool
  unfolding get_thread_running_transition_at_index clock_vector_for_transition_at_index
  happens_before s i j = do
    tid ← get_thread_running_transition_at_index s i
    cv ← clock_vector_for_transition_at_index s j
    some (leb i (value_or (value_for_thread cv tid) 0))

  unfoldable pub happens_before_thread : Stack S T → ℕ → ℕ → Option Bool
  unfolding get_thread_running_transition_at_index
  happens_before_thread s i p = do
    tid ← get_thread_running_transition_at_index s i
    some (leb i (value_or (value_for_thread (s.thread_data p).clock_vector tid) 0))

  -- The loop of `threadsRaceAfterDepth` from the index `j` on, by the number of rounds left.
  unfoldable pub threads_race_from : Stack S T → ℕ → ℕ → ℕ → ℕ → Option Bool
  unfolding happens_before_thread
  threads_race_from s zero j q p = some false
  threads_race_from s (suc rounds) j q p = do
    tid ← get_thread_running_transition_at_index s j
    before ← (if q == tid then happens_before_thread s j p else some false)
    let rest = threads_race_from s rounds (j + 1) q p
    if before then some true else rest

  unfoldable pub threads_race_after_depth : Stack S T → ℕ → ℕ → ℕ → Option Bool
  unfolding threads_race_from get_transition_stack_size
  threads_race_after_depth s depth q p =
      threads_race_from s (get_transition_stack_size s - (depth + 1)) (depth + 1) q p

  -- The loop of `transitionStackMaxClockVector`: the transitions from the bottom, each with the state
  -- that it leads to, up to the top of the state stack.
  unfoldable pub max_clock_from : List T → List StackItem → T → ClockVector → ClockVector
  max_clock_from ts [] transition cv = cv
  max_clock_from [] (s ∷ ss) transition cv = cv
  max_clock_from (t ∷ ts) (s ∷ ss) transition cv =
      max_clock_from ts ss transition
        (if c.dependent t transition then max_vector s.clock_vector cv else cv)

  unfoldable pub transition_stack_max_clock_vector : Stack S T → T → ClockVector
  unfolding max_clock_from
  transition_stack_max_clock_vector s transition =
      max_clock_from s.transition_stack (drop_bottom s.state_stack) transition
        new_empty_clock_vector
