-- ===== src/Scheduler/Explore/Laws.antt =====
-- What the loop over the branches in src/mcmini_private.cpp keeps, and what holds when it ends.
use dmtcp_integration.Base.{
  ℕ, zero, suc, ◌≤◌, ◌≡◌, refl, ◌∙◌, ◌⊎◌, inl, inr, Option, none, some, List, [], ◌∷◌, arith,
  length, get_elem?, set, take, Option-cases,
}
use dmtcp_integration.History.StackItem
use dmtcp_integration.History.StackItem.{StackItem}
use dmtcp_integration.Search.Interface.{TransitionClass}
use dmtcp_integration.Search.Stack.{Stack, get_state_item_at_index}
use dmtcp_integration.Search.Schedule.{get_deepest_dpor_branch_point}
use dmtcp_integration.Search.Schedule.BranchPoint.{
  NoBranch, Branch, get_deepest_dpor_branch_point-deepest,
}
use dmtcp_integration.Search.Replay.{
  reflect_state_before, reflect_state_at_transition_index, reflect_state_at_minus_one,
}
use dmtcp_integration.Scheduler.{
  Scheduler, Surroundings, searched, stopped, fork_new_trace, search_dpor_branch_with_thread,
  max_total_transitions_in_program,
}
use dmtcp_integration.Scheduler.ModelTrace.{KeepsTrace}
use dmtcp_integration.Scheduler.Laws.{IsInStep}
use dmtcp_integration.Scheduler.Branch.{
  Ended, fork_next_trace_at_current_state-IsInStep, search_dpor_branch_with_thread-Ended,
}
use dmtcp_integration.Scheduler.Explore.{
  explored, prepare_branch, finish_branch, explore_branch, Explores, first_branch, next_branch,
}

length-take : {A : Type 0} (n : ℕ) (xs : List A) → length (take n xs) ≤ n
length-take zero xs = omega arith
length-take (suc n) [] = omega arith
length-take (suc n) (x ∷ xs) = omega (arith, length-take n xs)

module _ {S T : Type 0} (c : TransitionClass S T) (reset_objects : S → S) where
  return-bound :
      (s s' : Stack S T) (index : ℕ)
      → reflect_state_at_transition_index c reset_objects s index ≡ some s'
      → length s'.transition_stack ≤ length s.transition_stack
  unfolding reflect_state_at_transition_index
  return-bound s s' index h = grind (arith, length-take)

  return_before-bound :
      (s s' : Stack S T) (n : ℕ)
      → reflect_state_before c reset_objects s n ≡ some s'
      → length s'.transition_stack ≤ length s.transition_stack
  unfolding reflect_state_before reflect_state_at_minus_one
  return_before-bound s s' zero h = ground (arith, h)
  return_before-bound s s' (suc index) h = return-bound s s' index h

module _ {S T : Type 0} (c : TransitionClass S T) (e : Surroundings S T)
    (same_thread : (t : T) → c.get_thread_id (c.static_copy t) ≡ c.get_thread_id t)
    (keeps : (threads : List ℕ) (handler : Stack S T → Option (Stack S T × T))
      → e.handler_after threads ≡ some handler
      → KeepsTrace c handler) where
  -- Between two branches: no process runs the target, and the trace is within the limit.
  abbrev pub IsBetween : Scheduler S T → Type 0
  IsBetween s =
      (s.trace ≡ none)
      × (length s.program_state.transition_stack ≤ max_total_transitions_in_program)

  -- The first branch starts with an empty trace.
  abbrev Starts : Scheduler S T → Option ℕ → Type 0
  Starts s none = s.program_state.transition_stack ≡ []
  Starts s (some branch_point) = ℕ

  prepare_branch-IsInStep :
      (s forked : Scheduler S T) (branch_point : Option ℕ) (tid : ℕ)
      → IsBetween s
      → Starts s branch_point
      → prepare_branch c e s branch_point ≡ some (forked, tid)
      → IsInStep c forked
        × (length forked.program_state.transition_stack ≤ max_total_transitions_in_program)
  unfolding prepare_branch fork_new_trace get_state_item_at_index
  prepare_branch-IsInStep s forked none tid (nothing, bound) empty h =
      let same : record s { trace = some [] } ≡ forked = ground (arith, h, nothing) in
      rw (← same) (ground (arith, empty), bound)
  prepare_branch-IsInStep s forked (some n) tid (nothing, bound) start h =
      elim (Option-cases (get_elem? s.program_state.state_stack n)) [
        | inl failed ↦ ground (arith, h, failed)
        | inr (s_next, found) ↦
            elim (Option-cases (StackItem.pop_thread_to_backtrack_on e.begin s_next)) [
              | inl failed ↦ ground (arith, h, found, failed)
              | inr ((u, item), popped) ↦
                  let model = record s.program_state {
                    state_stack = set s.program_state.state_stack n item;
                  } in
                  elim (Option-cases (reflect_state_before c e.reset_objects model n)) [
                    | inl failed ↦ ground (arith, h, found, popped, failed)
                    | inr (reflected, returned) ↦
                        let (s', forks, kept, in_step) =
                          fork_next_trace_at_current_state-IsInStep c
                            (record s { program_state = reflected }) nothing in
                        let same : s' ≡ forked =
                          ground (arith, h, found, popped, returned, forks) in
                        let size : length s'.program_state.transition_stack
                            ≤ max_total_transitions_in_program =
                          rw kept (
                            omega (
                              arith,
                              return_before-bound c e.reset_objects model reflected n returned,
                              bound,
                            )) in
                        rw (← same) (in_step, size)
                  ]
            ]
      ]

  -- One branch leads to a state between two branches, and to the deepest state that has threads to
  -- backtrack on.
  explore_branch-IsBetween :
      (s s' : Scheduler S T) (branch_point next : Option ℕ)
      → IsBetween s
      → Starts s branch_point
      → explore_branch c e s branch_point ≡ some (explored s' next)
      → IsBetween s' × (next ≡ get_deepest_dpor_branch_point s'.program_state)
  unfolding explore_branch finish_branch
  explore_branch-IsBetween s s' branch_point next between start h =
      elim (Option-cases (prepare_branch c e s branch_point)) [
        | inl failed ↦ ground (arith, h, failed)
        | inr ((forked, tid), prepared) ↦
            let (in_step, bound) =
              prepare_branch-IsInStep s forked branch_point tid between start prepared in
            elim (Option-cases (search_dpor_branch_with_thread c e forked tid)) [
              | inl failed ↦ ground (arith, h, prepared, failed)
              | inr (stopped q, ends) ↦ ground (arith, h, prepared, ends)
              | inr (searched q, ends) ↦
                  let ended : Ended c e same_thread keeps (searched q) =
                    search_dpor_branch_with_thread-Ended c e same_thread keeps forked tid
                      (searched q) in_step bound ends in
                  ground (arith, h, prepared, ends, ended.0, ended.1)
            ]
      ]

  Explores-IsBetween :
      {s s' : Scheduler S T} {next : Option ℕ}
      → IsBetween s
      → s.program_state.transition_stack ≡ []
      → Explores c e s s' next
      → IsBetween s' × (next ≡ get_deepest_dpor_branch_point s'.program_state)
  Explores-IsBetween {s} {s'} {next} between empty (first_branch h) =
      explore_branch-IsBetween s s' none next between empty h
  Explores-IsBetween {s} {s'} between empty
        (next_branch {s' = m} {branch_point = n} {next = k} run h) =
      let (before, same) = Explores-IsBetween between empty run in
      ((explore_branch-IsBetween m s' (some n) k before 0 h).0, refl)

  -- Model checking that starts with no process and an empty trace: after every branch the process of the
  -- target is gone, so that the next fork passes its assertion, and the trace is within the limit of
  -- transitions. If there is no next branch point, no state of the stack has threads to backtrack on; if
  -- there is one, it is the deepest state that has some. It is assumed that static copies keep the thread,
  -- and that the handlers leave the model's trace alone.
  pub Explores-Complete :
      {s s' : Scheduler S T} {next : Option ℕ}
      → s.trace ≡ none
      → s.program_state.transition_stack ≡ []
      → Explores c e s s' next
      → IsBetween s'
        × (((next ≡ none)
              × ((k : ℕ) → (length s'.program_state.state_stack ≤ k) ⊎ NoBranch s'.program_state k))
            ⊎ ((j : ℕ) × (next ≡ some j)
                × Branch s'.program_state j
                × ((k : ℕ)
                    → (length s'.program_state.state_stack ≤ k)
                      ⊎ (k ≤ j)
                      ⊎ NoBranch s'.program_state k)))
  Explores-Complete {s} {s'} {next} nothing empty run =
      let (between, same) = Explores-IsBetween (nothing, ground (arith, empty)) empty run in
      (
        between,
        elim (get_deepest_dpor_branch_point-deepest s'.program_state) [
          | inl (absent, idle) ↦ inl (same ∙ absent, idle)
          | inr (j, result, bound, branch, above) ↦ inr (j, same ∙ result, branch, above)
        ],
      )
