-- ===== src/Scheduler/Explore.antt =====
-- The choice of the branches in src/mcmini_private.cpp: `mc_explore_branch`, and the loop of
-- `mc_do_model_checking` as sequences of branches.
pub mod Laws
use dmtcp_integration.Base.{
  ℕ, ◌+◌, ◌≡◌, Bool, Option, none, some, List, [], set, if◌then◌else◌, ◌>>=◌,
}
use dmtcp_integration.History.StackItem
use dmtcp_integration.Search.Interface.{TransitionClass}
use dmtcp_integration.Search.Stack.{Stack, get_state_item_at_index}
use dmtcp_integration.Search.Schedule.{get_deepest_dpor_branch_point}
use dmtcp_integration.Search.Replay.{reflect_state_before}
use dmtcp_integration.Scheduler.{
  Scheduler, Surroundings, Outcome, searched, stopped, fork_new_trace,
  fork_next_trace_at_current_state, search_dpor_branch_with_thread,
}

-- What exploring a branch leads to: the next branch point, where `none` is `FIRST_BRANCH`, or the end of the
-- process.
pub data Explored (S T : Type 0) : Type 0 where
  explored : Scheduler S T → Option ℕ → Explored S T
  process_exits : Scheduler S T → Explored S T

module _ {S T : Type 0} (c : TransitionClass S T) where
  -- The thread that the branch starts with, and a target that has reached the state before it.
  unfoldable pub prepare_branch :
      Surroundings S T → Scheduler S T → Option ℕ → Option (Scheduler S T × ℕ)
  unfolding fork_new_trace fork_next_trace_at_current_state get_state_item_at_index
      reflect_state_before
  prepare_branch e s none = do forked ← fork_new_trace s; some (forked, 0)
  prepare_branch e s (some branch_point) = do
    s_next ← get_state_item_at_index s.program_state branch_point
    (backtrack_thread, item) ← StackItem.pop_thread_to_backtrack_on e.begin s_next
    let popped = record s.program_state {
      state_stack = set s.program_state.state_stack branch_point item;
    }
    reflected ← reflect_state_before c e.reset_objects popped branch_point
    forked ← fork_next_trace_at_current_state c (record s { program_state = reflected })
    some (forked, backtrack_thread)

  -- What follows the search of a branch, `mc_exit_with_trace_if_necessary` included.
  unfoldable pub finish_branch : Surroundings S T → Outcome S T → Explored S T
  unfolding get_deepest_dpor_branch_point
  finish_branch e (stopped s) = process_exits s
  finish_branch e (searched s) =
      let counted = record s { trace_id = s.trace_id + 1 } in
      if e.is_target_trace_id s.trace_id
      then process_exits (record counted { trace = none })
      else explored (record counted { trace_seq_idx = 0 })
          (get_deepest_dpor_branch_point s.program_state)

  unfoldable pub explore_branch :
      Surroundings S T → Scheduler S T → Option ℕ → Option (Explored S T)
  unfolding prepare_branch finish_branch search_dpor_branch_with_thread
  explore_branch e s branch_point = do
    (forked, backtrack_thread) ← prepare_branch e s branch_point
    outcome ← search_dpor_branch_with_thread c e forked backtrack_thread
    some (finish_branch e outcome)

  -- The runs of the loop: some branches were explored, and the next branch point is known. After the
  -- first branch it is what `mc_explore_branch` returned, and later it is asked for once more.
  pub data Explores (e : Surroundings S T) (s : Scheduler S T)
      : Scheduler S T → Option ℕ → Type 0 where
    first_branch :
        {s' : Scheduler S T} {next : Option ℕ}
        → explore_branch e s none ≡ some (explored s' next)
        → Explores e s s' next
    next_branch :
        {s' s'' : Scheduler S T} {branch_point : ℕ} {next : Option ℕ}
        → Explores e s s' (some branch_point)
        → explore_branch e s' (some branch_point) ≡ some (explored s'' next)
        → Explores e s s'' (get_deepest_dpor_branch_point s''.program_state)
