-- ===== src/Scheduler.antt =====
-- The loop of src/mcmini_private.cpp that searches one branch of the schedules: it runs the target and the
-- model of it in step, one transition after the other, until no transition is left or a limit is reached.
pub mod ModelTrace
pub mod Laws
pub mod Branch
pub mod Explore
mod Tests
use dmtcp_integration.Base.{
  ℕ, zero, suc, ◌+◌, ◌-◌, Bool, true, false, ◌||◌, Option, none, some, List, [], ◌∷◌, ◌++◌,
  if◌then◌else◌, length, assert, ◌>>=◌, ◌>>◌,
}
use dmtcp_integration.Search.Interface.{TransitionClass}
use dmtcp_integration.Search.Stack.{Stack, get_transition_stack_size}
use dmtcp_integration.Search.Clocks.{get_thread_running_transition_at_index}
use dmtcp_integration.Search.Growth.{simulate_running_transition}
use dmtcp_integration.Search.Backtrack.{dynamically_update_backtrack_sets}
use dmtcp_integration.Search.Schedule.{
  get_first_enabled_transition, is_in_deadlock, has_a_data_race_with_new_transition,
}

abbrev pub max_total_transitions_in_program : ℕ
max_total_transitions_in_program = 1500

-- The results that are reported.
pub data Result : Type 0 where
  data_race_detected : Result
  deadlock_detected : Result

abbrev same_result : Result → Result → Bool
same_result data_race_detected data_race_detected = true
same_result deadlock_detected deadlock_detected = true
same_result _ _ = false

-- `resultString`: the results with the numbers of the traces that had them first, and whether the text says
-- that other traces had them too.
pub record Results : Type 0 where
  pub first_found : List (Result × ℕ)
  pub others_exist : Bool

abbrev has_result : List (Result × ℕ) → Result → Bool
has_result [] result = false
has_result ((r, trace) ∷ rs) result = same_result r result || has_result rs result

unfoldable pub add_result : Results → Result → ℕ → Results
add_result found result trace_id =
    if has_result found.first_found result
    then record found { others_exist = true }
    else record found { first_found = found.first_found ++ (result, trace_id) ∷ [] }

-- The globals of the scheduler. `trace` is the process of `trace_pid`: the threads that the scheduler has
-- run in it, in order; `none` is a `trace_pid` of -1. `enabled_seq_idx` is the static `traceSeqIdx` of
-- `getCurrentlyEnabledThreads`, which is not the one of `getFirstEnabledTransition`.
pub record Scheduler (S T : Type 0) : Type 0 where
  pub program_state : Stack S T
  pub trace : Option (List ℕ)
  pub trace_id : ℕ
  pub transition_id : ℕ
  pub trace_seq_idx : ℕ
  pub enabled_seq_idx : ℕ
  pub results : Results

-- What is outside the scheduler: the handler of the operation that the target has written to shared memory
-- after some threads were run in it; what `getNextTraceSeqEntry` gives for an index, which is `none` if the
-- environment asks for no trace, and which in the source also depends on the trace that has ended last;
-- `*begin()` of a set; whether the environment asks to stop at the first deadlock, and whether it asks to
-- stop after a trace; and `resetObjectsToInitialStateInStore` of the objects.
pub record Surroundings (S T : Type 0) : Type 0 where
  pub handler_after : List ℕ → Option (Stack S T → Option (Stack S T × T))
  pub get_next_trace_seq_entry : ℕ → Option ℕ
  pub begin : List ℕ → ℕ
  pub first_deadlock : Bool
  pub is_target_trace_id : ℕ → Bool
  pub reset_objects : S → S

-- How the search of a branch ends: the process that ran the target is terminated, or the model checker stops.
pub data Outcome (S T : Type 0) : Type 0 where
  searched : Scheduler S T → Outcome S T
  stopped : Scheduler S T → Outcome S T

-- How the loop ends: with no transition left, or at the limit of transitions.
pub data LoopEnd (S T : Type 0) : Type 0 where
  no_transition_left : Scheduler S T → LoopEnd S T
  limit_reached : Scheduler S T → LoopEnd S T

module _ {S T : Type 0} where
  -- Without a process, the scheduler waits forever.
  unfoldable pub run_thread_to_next_visible_operation : Scheduler S T → ℕ → Option (Scheduler S T)
  run_thread_to_next_visible_operation s tid = do
    threads ← s.trace
    some (record s { trace = some (threads ++ tid ∷ []) })

  unfoldable pub terminate_trace : Scheduler S T → Scheduler S T
  terminate_trace s = record s { trace = none }

  -- `trace_pid == -1`
  abbrev pub has_no_trace : Scheduler S T → Bool
  has_no_trace s = elim s.trace [ none ↦ true | some threads ↦ false ]

  -- The side of the parent process.
  unfoldable pub fork_new_trace : Scheduler S T → Option (Scheduler S T)
  fork_new_trace s = do assert (has_no_trace s); some (record s { trace = some [] })

module _ {S T : Type 0} (c : TransitionClass S T) where
  unfoldable pub rerun_threads_from : Scheduler S T → ℕ → ℕ → Option (Scheduler S T)
  unfolding run_thread_to_next_visible_operation get_thread_running_transition_at_index
  rerun_threads_from s i zero = some s
  rerun_threads_from s i (suc rounds) = do
    next_tid ← get_thread_running_transition_at_index c s.program_state i
    s' ← run_thread_to_next_visible_operation s next_tid
    rerun_threads_from s' (i + 1) rounds

  unfoldable pub fork_next_trace_at_current_state : Scheduler S T → Option (Scheduler S T)
  unfolding fork_new_trace rerun_threads_from get_transition_stack_size
  fork_next_trace_at_current_state s = do
    forked ← fork_new_trace s
    rerun_threads_from forked 0 (get_transition_stack_size forked.program_state)

  -- One round of the loop, with the transition that is next afterwards, if one is.
  unfoldable pub search_step :
      Surroundings S T → Scheduler S T → T → Option (Scheduler S T × Option T)
  unfolding run_thread_to_next_visible_operation add_result
  search_step e s next_transition = do
    let tid = c.get_thread_id next_transition
    ran ← run_thread_to_next_visible_operation s tid
    threads ← ran.trace
    simulated ←
        simulate_running_transition c ran.program_state next_transition
          (e.get_next_trace_seq_entry s.enabled_seq_idx) (e.handler_after threads)
    updated ← dynamically_update_backtrack_sets c e.begin simulated
    next_transition_for_tid ← updated.next_transitions tid
    race ← has_a_data_race_with_new_transition c updated next_transition_for_tid
    next ← get_first_enabled_transition c updated (e.get_next_trace_seq_entry s.trace_seq_idx)
    some (
      record ran {
        program_state = updated;
        transition_id = s.transition_id + 1;
        trace_seq_idx = s.trace_seq_idx + 1;
        enabled_seq_idx = s.enabled_seq_idx + 1;
        results = if race then add_result s.results data_race_detected s.trace_id else s.results;
      },
      next,
    )

  -- The loop; its last argument is the number of transitions up to the limit.
  unfoldable pub search_loop : Surroundings S T → Scheduler S T → T → ℕ → Option (LoopEnd S T)
  unfolding search_step
  search_loop e s next_transition zero = some (limit_reached s)
  search_loop e s next_transition (suc depth_left) = do
    (s', next) ← search_step e s next_transition
    elim next [ none ↦ some (no_transition_left s') | some t ↦ search_loop e s' t depth_left ]

  -- What follows the loop.
  unfoldable pub end_branch : Surroundings S T → LoopEnd S T → Option (Outcome S T)
  unfolding terminate_trace add_result is_in_deadlock
  end_branch e (limit_reached s) = some (stopped (terminate_trace s))
  end_branch e (no_transition_left s) = do
    has_deadlock ← is_in_deadlock c s.program_state
    let reported =
        if has_deadlock
        then record s { results = add_result s.results deadlock_detected s.trace_id }
        else s
    some (
        if has_deadlock
        then (if e.first_deadlock then stopped reported else searched (terminate_trace reported))
        else searched (terminate_trace reported))

  unfoldable pub search_dpor_branch_with_thread :
      Surroundings S T → Scheduler S T → ℕ → Option (Outcome S T)
  unfolding search_loop end_branch
  search_dpor_branch_with_thread e s backtrack_thread = do
    initial_transition ← s.program_state.next_transitions backtrack_thread
    loop_end ←
        search_loop e s initial_transition
          (max_total_transitions_in_program - length s.program_state.transition_stack)
    end_branch e loop_end
