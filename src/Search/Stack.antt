-- ===== src/Search/Stack.antt =====
-- The state of src/MCStack.cpp. The arrays are lists that end at the top of a stack, the bottom first:
-- `transitionStackTop` is `length transition_stack - 1`, and likewise for the states.
use dmtcp_integration.Base.{
  ℕ, suc, ◌-◌, Bool, Option, some, List, [], ◌∷◌, ◌++◌, ◌==◌, if◌then◌else◌, length, get_elem?,
  is_empty,
}
use dmtcp_integration.History.SortedStack.{SortedStack}
use dmtcp_integration.History.ClockVector.{ClockVector, new_empty_clock_vector}
use dmtcp_integration.History.ThreadData.{ThreadData}
use dmtcp_integration.History.StackItem
use dmtcp_integration.History.StackItem.{StackItem}

-- A thread that has no next transition has a null pointer.
pub record Stack (S T : Type 0) : Type 0 where
  pub objects : S
  pub transition_stack : List T
  pub state_stack : List StackItem
  pub next_transitions : ℕ → Option T
  pub thread_data : ℕ → ThreadData
  pub next_thread_id : ℕ
  pub irreversible_states_stack : SortedStack
  pub max_thread_execution_depth : ℕ

-- An assignment to one entry of an array.
abbrev pub update {ℓ} : {A : Type ℓ} → (ℕ → A) → ℕ → A → ℕ → A
update f i a j = if i == j then a else f j

module _ {S T : Type 0} where
  unfoldable pub get_num_program_threads : Stack S T → ℕ
  get_num_program_threads s = s.next_thread_id

  unfoldable pub get_transition_stack_size : Stack S T → ℕ
  get_transition_stack_size s = length s.transition_stack

  unfoldable pub get_state_stack_size : Stack S T → ℕ
  get_state_stack_size s = length s.state_stack

  unfoldable pub get_transition_at_index : Stack S T → ℕ → Option T
  get_transition_at_index s i = get_elem? s.transition_stack i

  unfoldable pub get_state_item_at_index : Stack S T → ℕ → Option StackItem
  get_state_item_at_index s i = get_elem? s.state_stack i

  unfoldable pub get_state_stack_top : Stack S T → Option StackItem
  unfolding get_state_item_at_index
  get_state_stack_top s = get_state_item_at_index s (length s.state_stack - 1)

  unfoldable pub get_transition_stack_top : Stack S T → Option T
  unfolding get_transition_at_index
  get_transition_stack_top s = get_transition_at_index s (length s.transition_stack - 1)

  unfoldable pub get_resultant_state : Stack S T → ℕ → Option StackItem
  unfolding get_state_item_at_index
  get_resultant_state s i = get_state_item_at_index s (suc i)

  unfoldable pub get_departing_state : Stack S T → ℕ → Option StackItem
  unfolding get_state_item_at_index
  get_departing_state s i = get_state_item_at_index s i

  unfoldable pub set_next_transition_for_thread : Stack S T → ℕ → T → Stack S T
  set_next_transition_for_thread s tid t = record s {
    next_transitions = update s.next_transitions tid (some t);
  }

  unfoldable pub set_thread_data : Stack S T → ℕ → ThreadData → Stack S T
  set_thread_data s tid d = record s { thread_data = update s.thread_data tid d }

  unfoldable pub grow_state_stack_with : Stack S T → ClockVector → Bool → Stack S T
  unfolding StackItem.new
  grow_state_stack_with s cv revertible = record s {
    state_stack = s.state_stack ++ StackItem.new cv revertible ∷ [];
  }

  unfoldable pub grow_state_stack : Stack S T → Stack S T
  unfolding grow_state_stack_with
  grow_state_stack s = grow_state_stack_with s new_empty_clock_vector Bool.false

  unfoldable pub transition_stack_is_empty : Stack S T → Bool
  transition_stack_is_empty s = is_empty s.transition_stack

  unfoldable pub state_stack_is_empty : Stack S T → Bool
  state_stack_is_empty s = is_empty s.state_stack
