-- ===== src/Search/Tests.antt =====
-- The search on a small program: two threads whose transitions each use one object, and are dependent
-- if they use the same one or belong to the same thread.
use dmtcp_integration.Base.{
  Bool, ℕ, zero, suc, ◌+◌, ◌-◌, ◌≤◌, ◌<◌, ◌≡◌, refl, inl, inr, ◌⊎◌, true, false, not, ◌||◌, Option,
  none, some, List, [], ◌∷◌, arith, ◌==◌, contains, insert, get_elem?,
}
use dmtcp_integration.History.ClockVector.{ClockVector, value_for_thread}
use dmtcp_integration.History.ThreadData
use dmtcp_integration.History.ThreadData.{ThreadData}
use dmtcp_integration.History.StackItem
use dmtcp_integration.History.StackItem.{StackItem}
use dmtcp_integration.Search.Interface.{TransitionClass}
use dmtcp_integration.Search.Stack.{
  Stack, get_transition_at_index, get_state_stack_top, state_stack_is_empty,
}
use dmtcp_integration.Search.Clocks.{happens_before}
use dmtcp_integration.Search.Backtrack.{should_process, dynamically_update_backtrack_sets_helper}
use dmtcp_integration.Search.Backtrack.Points.{PicksMember, Served}
use dmtcp_integration.Search.Backtrack.Returns.{helper-Served}
use dmtcp_integration.Search.Schedule.{
  get_deepest_dpor_branch_point, is_in_deadlock, get_first_enabled_transition,
  get_currently_enabled_threads,
}
use dmtcp_integration.Search.Schedule.Deadlock.{AllSet, Alive, is_in_deadlock-exact}
use dmtcp_integration.Search.Schedule.FirstEnabled.{Ready, get_first_enabled_transition-least}
use dmtcp_integration.Search.Schedule.EnabledThreads.{
  EnabledAs, get_currently_enabled_threads-exact,
}
use dmtcp_integration.Search.Schedule.BranchPoint.{
  Branch, NoBranch, get_deepest_dpor_branch_point-deepest,
}
use dmtcp_integration.Search.Replay.{
  virtually_revert_transition_at_index, thread_to_closest_index_map,
}
use dmtcp_integration.Search.Replay.Revert.{run-revert}
use dmtcp_integration.Search.Clocks.{clock_vector_for_transition_at_index}
use dmtcp_integration.Search.Replay.Laws.{FirstAfter, Ran, thread_to_closest_index_map-least}
use dmtcp_integration.Search.Growth.{
  virtually_run_transition, grow_state_stack_running_transition, grow_transition_stack_running,
}
use dmtcp_integration.Search.Growth.Laws.{Grown}
use dmtcp_integration.Search.Growth.Returns.{MarkedAs, grow_state_stack_running_transition_returns}
use dmtcp_integration.Search.Growth.Order.{
  Clocked, WellClocked, grow, grow-WellClocked, grow-orders-dependent,
}

-- A thread and an object.
abbrev Use : Type 0
Use = ℕ × ℕ

abbrev uses : TransitionClass ℕ Use
uses = record {
  get_thread_id = λ t. t.0;
  dependent = λ t u. t.0 == u.0 || t.1 == u.1;
  coenabled = λ t u. not (t.0 == u.0);
  in_data_race = λ t u. false;
  enabled_in_state = λ s t. true;
  is_reversible_in_state = λ s t. true;
  ensures_deadlock_is_impossible = λ t. false;
  counts_against_thread_execution_depth = λ t. true;
  static_copy = λ t. t;
  dynamic_copy_in_state = λ s t. t;
  apply_to_state = λ s t. some (s + 1);
  unapply_to_state = λ s t. some (s - 1);
}

abbrev state_with : ClockVector → StackItem
state_with cv = record {
  backtrack_set = [];
  done_set = [];
  sleep_set = [];
  enabled_threads = 0 ∷ 1 ∷ [];
  clock_vector = cv;
  spawning_transition_can_revert_state = true;
}

abbrev next_of : ℕ → Option Use
next_of zero = some (0, 6)
next_of (suc n) = some (1, 5)

-- Thread 0 has used the objects 9 and 5; thread 1, which has not run, is about to use object 5.
abbrev ran : Stack ℕ Use
ran = record {
  objects = 0;
  transition_stack = (0, 9) ∷ (0, 5) ∷ [];
  state_stack = state_with [] ∷ state_with ((0, 0) ∷ []) ∷ state_with ((0, 1) ∷ []) ∷ [];
  next_transitions = next_of;
  thread_data = λ tid. ThreadData.new;
  next_thread_id = 2;
  irreversible_states_stack = [];
  max_thread_execution_depth = 10;
}

ran-AllSet : AllSet ran 0 2
ran-AllSet zero low high = ((0, 6), refl)
ran-AllSet (suc n) low high = ((1, 5), refl)

is_in_deadlock-exact_example :
    ((is_in_deadlock uses ran ≡ some true) × ((tid : ℕ) → (2 ≤ tid) ⊎ Alive uses ran tid false))
    ⊎ ((is_in_deadlock uses ran ≡ some false) × ((tid : ℕ) × (tid < 2) × Alive uses ran tid true))
is_in_deadlock-exact_example = is_in_deadlock-exact uses ran ran-AllSet

ran-top : get_state_stack_top ran ≡ some (state_with ((0, 1) ∷ []))
unfolding get_state_stack_top
ran-top = refl

get_first_enabled_transition-least_example :
    ((get_first_enabled_transition uses ran none ≡ some none)
      × ((u : ℕ) → (2 ≤ u) ⊎ ((t : Use) × Ready uses ran (state_with ((0, 1) ∷ [])) u t false)))
    ⊎ ((tid : ℕ) × (t : Use) × (get_first_enabled_transition uses ran none ≡ some (some t))
        × (tid < 2)
        × Ready uses ran (state_with ((0, 1) ∷ [])) tid t true
        × ((u : ℕ)
            → (tid ≤ u) ⊎ ((t' : Use) × Ready uses ran (state_with ((0, 1) ∷ [])) u t' false)))
get_first_enabled_transition-least_example =
    get_first_enabled_transition-least uses ran (state_with ((0, 1) ∷ [])) ran-top ran-AllSet

get_currently_enabled_threads-exact_example :
    (r : List ℕ) × (get_currently_enabled_threads uses ran none ≡ some r)
    × ((u : ℕ) → ((2 ≤ u) × (contains r u ≡ false)) ⊎ EnabledAs uses ran u (contains r u))
get_currently_enabled_threads-exact_example =
    get_currently_enabled_threads-exact uses ran ran-AllSet

get_deepest_dpor_branch_point-deepest_example :
    ((get_deepest_dpor_branch_point ran ≡ none) × ((k : ℕ) → (3 ≤ k) ⊎ NoBranch ran k))
    ⊎ ((j : ℕ) × (get_deepest_dpor_branch_point ran ≡ some j)
        × (j < 3)
        × Branch ran j
        × ((k : ℕ) → (3 ≤ k) ⊎ (k ≤ j) ⊎ NoBranch ran k))
get_deepest_dpor_branch_point-deepest_example = get_deepest_dpor_branch_point-deepest ran

ran-WellClocked : WellClocked uses ran
unfolding value_for_thread
ran-WellClocked = record { size = refl; clocked = at }
  where
    at : (i : ℕ) → (2 ≤ i) ⊎ Clocked uses ran i
    at zero = inr ((0, 9), state_with ((0, 0) ∷ []), refl, refl, (refl, tt), refl)
    at (suc zero) = inr ((0, 5), state_with ((0, 1) ∷ []), refl, refl, (refl, tt), refl)
    at (suc (suc i)) = inl (omega arith)

abbrev or_else : {A : Type 0} → Option A → A → A
or_else none d = d
or_else (some a) d = a

-- The stacks after thread 1 has used object 5.
abbrev after : Stack ℕ Use
after = or_else (grow uses ran (1, 5) none) ran

after-grow : grow uses ran (1, 5) none ≡ some after
unfolding grow_state_stack_running_transition grow_transition_stack_running
    get_currently_enabled_threads contains insert state_stack_is_empty
after-grow = refl

grow-WellClocked_example : WellClocked uses after
grow-WellClocked_example =
    grow-WellClocked uses ran (1, 5) none (state_with ((0, 1) ∷ [])) after ran-WellClocked refl
      ran-top after-grow

grow-orders-dependent_example : happens_before uses after 1 2 ≡ some true
grow-orders-dependent_example =
    grow-orders-dependent uses ran (1, 5) none (state_with ((0, 1) ∷ [])) after ran-WellClocked refl
      ran-top after-grow 1 (0, 5) refl refl

grow_state_stack_running_transition_returns_example :
    (s' : Stack ℕ Use) × (grow_state_stack_running_transition uses ran (1, 5) none ≡ some s')
    × Grown uses ran (1, 5) (state_with ((0, 1) ∷ [])) s'
    × (left : StackItem) × (get_elem? s'.state_stack 2 ≡ some left)
    × ((u : ℕ) → MarkedAs uses ran (1, 5) (state_with ((0, 1) ∷ [])) left u)
unfolding contains
grow_state_stack_running_transition_returns_example =
    grow_state_stack_running_transition_returns uses ran (1, 5) (state_with ((0, 1) ∷ [])) ran-top
      ran-AllSet (λ u. inl refl) tt

abbrev first_of : List ℕ → ℕ
first_of [] = 0
first_of (x ∷ xs) = x

first_of-PicksMember : PicksMember first_of
unfolding contains
first_of-PicksMember [] h = absurd (h refl)
first_of-PicksMember (x ∷ xs) h = ground arith

-- The state in which thread 0 used object 5, and in which thread 1 could have.
abbrev raced : StackItem
raced = state_with ((0, 0) ∷ [])

helper-Served_example :
    (processed : Bool) × (item' : StackItem) × (dynamically_update_backtrack_sets_helper uses
        first_of ran
        (0, 5)
        raced
        (1, 5)
        1
        1
      ≡ some (processed, item'))
    × (should_process uses ran (0, 5) (1, 5) 1 1 ≡ some processed)
    × (((processed ≡ false) × (item' ≡ raced))
        ⊎ ((processed ≡ true) × Served uses ran raced 1 1 item'))
helper-Served_example =
    helper-Served uses ran first_of raced (0, 5) (1, 5) 1 1 first_of-PicksMember (omega arith)

-- The race is found: thread 1 is to be searched from the state.
abbrev requested : StackItem
requested = record raced { backtrack_set = 1 ∷ [] }

raced_run :
    dynamically_update_backtrack_sets_helper uses first_of ran (0, 5) raced (1, 5) 1 1
    ≡ some (true, requested)
unfolding dynamically_update_backtrack_sets_helper value_for_thread contains insert
    StackItem.thread_is_in_sleep_set StackItem.is_backtracking_on_thread
    StackItem.add_backtracking_thread_if_unsearched
raced_run = refl

-- Back to the first transition: thread 0 is about to run the transition of index 1 again.
thread_to_closest_index_map-least_example :
    (m : ClockVector) × (thread_to_closest_index_map uses ran 0 ≡ some m)
    × (((j : ℕ) × (value_for_thread m 0 ≡ some j) × FirstAfter uses ran 0 0 j)
        ⊎ ((value_for_thread m 0 ≡ none) × ((k : ℕ) → (k ≤ 0) ⊎ (2 ≤ k) ⊎ (¬ (Ran uses ran 0 k)))))
thread_to_closest_index_map-least_example =
    thread_to_closest_index_map-least uses ran 0 0 (omega arith)

ran-at_top : get_transition_at_index ran 1 ≡ some (0, 5)
unfolding get_transition_at_index
ran-at_top = refl

ran-top_clock : clock_vector_for_transition_at_index uses ran 1 ≡ some ((0, 1) ∷ [])
unfolding clock_vector_for_transition_at_index
ran-top_clock = refl

-- The second transition of thread 0, at the top of the stack, runs and is reverted.
run-revert_example :
    (m : Stack ℕ Use) × (g : ℕ → ThreadData) × (virtually_run_transition uses ran (0, 5) ≡ some m)
    × (virtually_revert_transition_at_index uses m 1 ≡ some (record ran { thread_data = g }))
    × (g 0 ≡ ThreadData.set_clock_vector (ran.thread_data 0) ((0, 1) ∷ []))
    × ((v : ℕ) → ((0 == v) ≡ true) ⊎ (g v ≡ ran.thread_data v))
run-revert_example =
    run-revert uses ran (0, 5) (0, 5) 1 ((0, 1) ∷ []) ran-at_top refl refl ran-top_clock refl refl
      tt (omega arith)
