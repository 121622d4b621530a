-- ===== src/Scheduler/Tests.antt =====
-- The search of a branch of a target with one thread, which runs two transitions.
use dmtcp_integration.Base.{
  ℕ, ◌+◌, ◌-◌, ◌≡◌, refl, sym, subst, ◌≤◌, length, ◌⊎◌, true, false, Option, none, some, List, [],
  ◌∷◌, arith, ltb, insert, erase,
}
use dmtcp_integration.History.ThreadData
use dmtcp_integration.History.StackItem
use dmtcp_integration.History.ClockVector.{new_empty_clock_vector}
use dmtcp_integration.Search.Interface.{TransitionClass}
use dmtcp_integration.Search.Stack.{Stack, state_stack_is_empty}
use dmtcp_integration.Search.Growth.{simulate_running_transition}
use dmtcp_integration.Search.Backtrack.{dynamically_update_backtrack_sets}
use dmtcp_integration.Search.Schedule.{
  get_currently_enabled_threads, has_a_data_race_with_new_transition, get_first_enabled_transition,
}
use dmtcp_integration.Scheduler.{
  Scheduler, Surroundings, Outcome, stopped, LoopEnd, no_transition_left, search_loop,
  search_dpor_branch_with_thread, fork_next_trace_at_current_state,
}
use dmtcp_integration.Scheduler.ModelTrace.{KeepsTrace}
use dmtcp_integration.Scheduler.Laws.{IsInStep, ReachesLimit, end_state, search_loop-IsInStep}
use dmtcp_integration.Scheduler.Branch.{
  Ended, fork_next_trace_at_current_state-IsInStep, search_dpor_branch_with_thread-Ended,
}
use dmtcp_integration.Scheduler.Explore.{Explored, explored, explore_branch, first_branch}
use dmtcp_integration.Scheduler.Explore.Laws.{IsBetween, Explores-Complete}
use dmtcp_integration.Search.Schedule.BranchPoint.{NoBranch, Branch}

-- A transition adds one to the objects, and is enabled below two.
abbrev counts : TransitionClass ℕ ℕ
counts = record {
  get_thread_id = λ t. 0;
  dependent = λ t u. true;
  coenabled = λ t u. false;
  in_data_race = λ t u. false;
  enabled_in_state = λ s t. ltb s 2;
  is_reversible_in_state = λ s t. true;
  ensures_deadlock_is_impossible = λ t. true;
  counts_against_thread_execution_depth = λ t. true;
  static_copy = λ t. t;
  dynamic_copy_in_state = λ s t. t;
  apply_to_state = λ s t. some (s + 1);
  unapply_to_state = λ s t. some (s - 1);
}

abbrev writes_next : Stack ℕ ℕ → Option (Stack ℕ ℕ × ℕ)
writes_next s = some (s, 7)

abbrev around : Surroundings ℕ ℕ
around = record {
  handler_after = λ threads. some writes_next;
  get_next_trace_seq_entry = λ i. none;
  begin = λ threads. 0;
  first_deadlock = false;
  is_target_trace_id = λ trace. false;
  reset_objects = λ s. 0;
}

abbrev starting : Scheduler ℕ ℕ
starting = record {
  program_state = record {
    objects = 0;
    transition_stack = [];
    state_stack = StackItem.new new_empty_clock_vector false ∷ [];
    next_transitions = λ tid. some 7;
    thread_data = λ tid. ThreadData.new;
    next_thread_id = 1;
    irreversible_states_stack = [];
    max_thread_execution_depth = 10;
  };
  trace = some [];
  trace_id = 0;
  transition_id = 0;
  trace_seq_idx = 0;
  enabled_seq_idx = 1;
  results = record { first_found = []; others_exist = false };
}

writes_next-KeepsTrace :
    (threads : List ℕ) (handler : Stack ℕ ℕ → Option (Stack ℕ ℕ × ℕ))
    → around.handler_after threads ≡ some handler
    → KeepsTrace counts handler
writes_next-KeepsTrace threads handler h s s' t e =
    let same : writes_next ≡ handler = ground (arith, h) in
    let written : writes_next s ≡ some (s', t) = subst (λ f. f s ≡ some (s', t)) (sym same) e in
    ground (arith, written)

abbrev or_stopped : Option (Outcome ℕ ℕ) → Outcome ℕ ℕ
or_stopped none = stopped starting
or_stopped (some r) = r

abbrev or_left : Option (LoopEnd ℕ ℕ) → LoopEnd ℕ ℕ
or_left none = no_transition_left starting
or_left (some r) = r

abbrev loop_end : LoopEnd ℕ ℕ
loop_end = or_left (search_loop counts around starting 7 1)

loop_ends : search_loop counts around starting 7 1 ≡ some loop_end
unfolding search_loop StackItem.new simulate_running_transition state_stack_is_empty
    get_currently_enabled_threads ThreadData.push_new_latest_execution_point
    ThreadData.increment_execution_depth ThreadData.set_clock_vector
    dynamically_update_backtrack_sets erase insert has_a_data_race_with_new_transition
    get_first_enabled_transition StackItem.thread_is_in_sleep_set
loop_ends = refl

abbrev branch_end : Outcome ℕ ℕ
branch_end = or_stopped (search_dpor_branch_with_thread counts around starting 0)

branch_ends : search_dpor_branch_with_thread counts around starting 0 ≡ some branch_end
unfolding search_dpor_branch_with_thread simulate_running_transition state_stack_is_empty
    get_currently_enabled_threads ThreadData.push_new_latest_execution_point
    ThreadData.increment_execution_depth ThreadData.set_clock_vector
    dynamically_update_backtrack_sets erase insert has_a_data_race_with_new_transition
    get_first_enabled_transition StackItem.thread_is_in_sleep_set
branch_ends = refl

search_loop-IsInStep_example :
    IsInStep counts (end_state counts around (λ t. refl) writes_next-KeepsTrace loop_end)
    × ReachesLimit counts around (λ t. refl) writes_next-KeepsTrace loop_end 1
search_loop-IsInStep_example =
    search_loop-IsInStep counts around (λ t. refl) writes_next-KeepsTrace starting 7 1 loop_end refl
      loop_ends

search_dpor_branch_with_thread-Ended_example :
    Ended counts around (λ t. refl) writes_next-KeepsTrace branch_end
search_dpor_branch_with_thread-Ended_example =
    search_dpor_branch_with_thread-Ended counts around (λ t. refl) writes_next-KeepsTrace starting 0
      branch_end refl (omega arith) branch_ends

-- Two transitions ran in the trace before, whose process is gone.
abbrev between : Scheduler ℕ ℕ
between = record starting {
  program_state = record starting.program_state { transition_stack = 7 ∷ 7 ∷ [] };
  trace = none;
}

fork_next_trace_at_current_state-IsInStep_example :
    (s' : Scheduler ℕ ℕ) × (fork_next_trace_at_current_state counts between ≡ some s')
    × (s'.program_state ≡ between.program_state)
    × IsInStep counts s'
fork_next_trace_at_current_state-IsInStep_example =
    fork_next_trace_at_current_state-IsInStep counts between refl

abbrev unstarted : Scheduler ℕ ℕ
unstarted = record starting { trace = none }

abbrev explored_state : Option (Explored ℕ ℕ) → Scheduler ℕ ℕ
explored_state (some (explored s next)) = s
explored_state _ = starting

abbrev first_explored : Scheduler ℕ ℕ
first_explored = explored_state (explore_branch counts around unstarted none)

explores_first : explore_branch counts around unstarted none ≡ some (explored first_explored none)
unfolding explore_branch simulate_running_transition state_stack_is_empty
    get_currently_enabled_threads ThreadData.push_new_latest_execution_point
    ThreadData.increment_execution_depth ThreadData.set_clock_vector
    dynamically_update_backtrack_sets erase insert has_a_data_race_with_new_transition
    get_first_enabled_transition StackItem.thread_is_in_sleep_set
    StackItem.has_threads_to_backtrack_on StackItem.mark_backtrack_thread_searched
    StackItem.add_thread_to_sleep_set StackItem.mark_threads_enabled_in_state
explores_first = refl

Explores-Complete_example :
    IsBetween counts around (λ t. refl) writes_next-KeepsTrace first_explored
    × (((◌≡◌ {A = Option ℕ} none none)
          × ((k : ℕ)
              → (length first_explored.program_state.state_stack ≤ k)
                ⊎ NoBranch first_explored.program_state k))
        ⊎ ((j : ℕ) × (none ≡ some j)
            × Branch first_explored.program_state j
            × ((k : ℕ)
                → (length first_explored.program_state.state_stack ≤ k)
                  ⊎ (k ≤ j)
                  ⊎ NoBranch first_explored.program_state k)))
Explores-Complete_example =
    Explores-Complete counts around (λ t. refl) writes_next-KeepsTrace {s = unstarted} refl refl
      (first_branch explores_first)
