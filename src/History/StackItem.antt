-- ===== src/History/StackItem.antt =====
-- src/MCStackItem.cpp and include/mcmini/MCStackItem.h: what the search keeps of one state of a trace.
pub mod Laws
use dmtcp_integration.Base.{
  ℕ, Bool, not, Option, none, some, List, [], ◌∷◌, ltb, ◌==◌, if◌then◌else◌, is_empty, contains,
  insert, erase, insert_all, assert, ◌>>=◌, ◌>>◌, any,
}
use dmtcp_integration.History.ClockVector.{ClockVector}

pub record StackItem : Type 0 where
  pub backtrack_set : List ℕ
  pub done_set : List ℕ
  pub sleep_set : List ℕ
  pub enabled_threads : List ℕ
  pub clock_vector : ClockVector
  pub spawning_transition_can_revert_state : Bool

-- `MCStackItem(cv, reversibleInState)`
unfoldable pub new : ClockVector → Bool → StackItem
new cv revertible = record {
  backtrack_set = [];
  done_set = [];
  sleep_set = [];
  enabled_threads = [];
  clock_vector = cv;
  spawning_transition_can_revert_state = revertible;
}

unfoldable pub add_backtracking_thread_if_unsearched : StackItem → ℕ → StackItem
add_backtracking_thread_if_unsearched s tid =
    let contained_in_done_set = contains s.done_set tid in
    if not contained_in_done_set then record s { backtrack_set = insert tid s.backtrack_set } else s

unfoldable pub mark_backtrack_thread_searched : StackItem → ℕ → StackItem
mark_backtrack_thread_searched s tid = record s {
  done_set = insert tid s.done_set;
  backtrack_set = erase tid s.backtrack_set;
}

unfoldable pub has_threads_to_backtrack_on : StackItem → Bool
has_threads_to_backtrack_on s = not (is_empty s.backtrack_set)

unfoldable pub is_backtracking_on_thread : StackItem → ℕ → Bool
is_backtracking_on_thread s tid = contains s.backtrack_set tid

unfoldable pub thread_is_in_sleep_set : StackItem → ℕ → Bool
thread_is_in_sleep_set s tid = any (λ t. t == tid) s.sleep_set

-- The loop of `popThreadToBacktrackOn`.
unfoldable pub smallest_from : ℕ → List ℕ → ℕ
smallest_from backtrack_thread [] = backtrack_thread
smallest_from backtrack_thread (tid ∷ ts) =
    smallest_from (if ltb tid backtrack_thread then tid else backtrack_thread) ts

-- The first argument is `*begin()` of a set that is not empty, whichever element that is.
unfoldable pub pop_thread_to_backtrack_on : (List ℕ → ℕ) → StackItem → Option (ℕ × StackItem)
unfolding has_threads_to_backtrack_on mark_backtrack_thread_searched
pop_thread_to_backtrack_on begin s = do
  assert (has_threads_to_backtrack_on s)
  let backtrack_thread = smallest_from (begin s.backtrack_set) s.backtrack_set
  some (backtrack_thread, mark_backtrack_thread_searched s backtrack_thread)

unfoldable pub mark_threads_enabled_in_state : StackItem → List ℕ → StackItem
mark_threads_enabled_in_state s enabled = record s {
  enabled_threads = insert_all enabled s.enabled_threads;
}

unfoldable pub is_revertible : StackItem → Bool
is_revertible s = s.spawning_transition_can_revert_state

unfoldable pub add_thread_to_sleep_set : StackItem → ℕ → StackItem
add_thread_to_sleep_set s tid = record s { sleep_set = insert tid s.sleep_set }
