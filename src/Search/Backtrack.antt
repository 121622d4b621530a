-- ===== src/Search/Backtrack.antt =====
-- The backtrack points of src/MCStack.cpp: `dynamicallyUpdateBacktrackSets` and its helper.
pub mod Laws
pub mod Points
pub mod Returns
use dmtcp_integration.Base.{
  ℕ, zero, suc, ◌+◌, ◌-◌, Bool, true, false, not, ◌||◌, ◌&&◌, Option, none, some, List, [], ◌∷◌,
  ◌==◌, if◌then◌else◌, is_empty, insert, erase, any, set, length, ◌>>=◌,
}
use dmtcp_integration.History.StackItem
use dmtcp_integration.History.StackItem.{StackItem}
use dmtcp_integration.Search.Interface.{TransitionClass}
use dmtcp_integration.Search.Stack.{
  Stack, get_transition_at_index, get_state_item_at_index, get_num_program_threads,
}
use dmtcp_integration.Search.Clocks.{happens_before_thread, threads_race_after_depth}

-- Requests to backtrack on every thread of the first list that is not asleep at the state.
unfoldable pub add_all_awake : List ℕ → StackItem → StackItem
add_all_awake [] item = item
add_all_awake (q ∷ qs) item = add_all_awake qs (
    if not (StackItem.thread_is_in_sleep_set item q)
    then StackItem.add_backtracking_thread_if_unsearched item q
    else item)

-- The first argument of what follows is `*begin()` of a set that is not empty.
-- What the helper does with its set `E`.
unfoldable pub add_backtrack_point : (List ℕ → ℕ) → List ℕ → List ℕ → StackItem → StackItem
unfolding add_all_awake
add_backtrack_point begin e enabled item =
    if is_empty e
    then add_all_awake enabled item
    else (if any (λ q. StackItem.is_backtracking_on_thread item q) e
        then item
        else StackItem.add_backtracking_thread_if_unsearched item (begin e))

module _ {S T : Type 0} (c : TransitionClass S T) where
  -- `q == p || threadsRaceAfterDepth(i, q, p)`
  unfoldable pub in_e : Stack S T → ℕ → ℕ → ℕ → Option Bool
  unfolding threads_race_after_depth
  in_e s i p q = if q == p then some true else threads_race_after_depth c s i q p

  -- The loop that fills the set `E` from the threads that are enabled at the state.
  unfoldable pub collect_e : Stack S T → StackItem → ℕ → ℕ → List ℕ → List ℕ → Option (List ℕ)
  unfolding in_e
  collect_e s item i p [] e = some e
  collect_e s item i p (q ∷ qs) e = do
    member ← in_e s i p q
    collect_e s item i p qs
        (if member && not (StackItem.thread_is_in_sleep_set item q) then insert q e else e)

  unfoldable pub should_process : Stack S T → T → T → ℕ → ℕ → Option Bool
  unfolding happens_before_thread
  should_process s s_i next_sp i p =
      if c.dependent s_i next_sp && c.coenabled s_i next_sp
      then (do before ← happens_before_thread c s i p; some (not before))
      else some false

  unfoldable pub dynamically_update_backtrack_sets_helper :
      (List ℕ → ℕ) → Stack S T → T → StackItem → T → ℕ → ℕ → Option (Bool × StackItem)
  unfolding should_process collect_e add_backtrack_point
  dynamically_update_backtrack_sets_helper begin s s_i pre_si next_sp i p = do
    process ← should_process s s_i next_sp i p
    (if process
        then (do
          e ← collect_e s pre_si i p pre_si.enabled_threads []
          some (true, add_backtrack_point begin e pre_si.enabled_threads pre_si))
        else some (false, pre_si))

  -- The helper at the transition and the state of an index, with the next transition of a thread; the
  -- state in the stack is changed.
  unfoldable pub update_at : (List ℕ → ℕ) → Stack S T → ℕ → ℕ → Option (Bool × Stack S T)
  unfolding dynamically_update_backtrack_sets_helper get_transition_at_index get_state_item_at_index
  update_at begin s i p = do
    next ← s.next_transitions p
    s_i ← get_transition_at_index s i
    pre_si ← get_state_item_at_index s i
    (processed, item) ← dynamically_update_backtrack_sets_helper begin s s_i pre_si next i p
    some (processed, record s { state_stack = set s.state_stack i item })

  -- The loop over the threads other than the one that ran last, at the top of the stack.
  unfoldable pub update_others : (List ℕ → ℕ) → Stack S T → ℕ → List ℕ → Option (Stack S T)
  unfolding update_at
  update_others begin s top [] = some s
  update_others begin s top (tid ∷ tids) = do
    (processed, s') ← update_at begin s top tid
    update_others begin s' top tids

  -- The loop for the thread that ran last, from the index `rounds - 1` down to 0, until a state is
  -- processed.
  unfoldable pub update_downwards : (List ℕ → ℕ) → Stack S T → ℕ → ℕ → Option (Stack S T)
  unfolding update_at
  update_downwards begin s p zero = some s
  update_downwards begin s p (suc i) = do
    (processed, s') ← update_at begin s i p
    let rest = update_downwards begin s' p i
    if processed then some s' else rest

  -- `thread_ids`: the threads below a number.
  unfoldable pub thread_ids : ℕ → List ℕ
  thread_ids zero = []
  thread_ids (suc n) = insert n (thread_ids n)

  unfoldable pub dynamically_update_backtrack_sets : (List ℕ → ℕ) → Stack S T → Option (Stack S T)
  unfolding update_others update_downwards thread_ids get_num_program_threads
      get_transition_at_index
  dynamically_update_backtrack_sets begin s = do
    let top = length s.transition_stack - 1
    t_stack_top ← get_transition_at_index s top
    let most_recent = c.get_thread_id t_stack_top
    s' ← update_others begin s top (erase most_recent (thread_ids (get_num_program_threads s)))
    update_downwards begin s' most_recent top
