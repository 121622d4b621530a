-- ===== src/Scheduler/Branch.antt =====
-- The start of a branch of the search in src/mcmini_private.cpp, and its end.
use dmtcp_integration.Base.{
  ℕ, ◌+◌, ◌-◌, ◌≤◌, ◌≡◌, refl, sym, ap, subst, ◌∙◌, ◌⊎◌, inl, inr, true, false, Option, none, some,
  List, [], ◌∷◌, ◌++◌, arith, length, length-append, Option-cases, get_elem?,
}
use dmtcp_integration.Search.Interface.{TransitionClass}
use dmtcp_integration.Search.Stack.{Stack}
use dmtcp_integration.Search.Schedule.{is_in_deadlock}
use dmtcp_integration.Scheduler.{
  Scheduler, Surroundings, LoopEnd, no_transition_left, limit_reached, Outcome, searched, stopped,
  rerun_threads_from, search_loop, end_branch, fork_next_trace_at_current_state,
  search_dpor_branch_with_thread, max_total_transitions_in_program,
}
use dmtcp_integration.Scheduler.ModelTrace.{KeepsTrace}
use dmtcp_integration.Scheduler.Laws.{
  threads_of, threads_of-append, IsInStep, end_state, ReachesLimit, search_loop-IsInStep,
}

append_assoc : {A : Type 0} (xs ys zs : List A) → (xs ++ ys) ++ zs ≡ xs ++ (ys ++ zs)
append_assoc [] ys zs = refl
append_assoc (x ∷ xs) ys zs = ap (◌∷◌ x) (append_assoc xs ys zs)

get_elem?-middle :
    {A : Type 0} (xs ys : List A) (y : A) → get_elem? (xs ++ y ∷ ys) (length xs) ≡ some y
get_elem?-middle [] ys y = refl
get_elem?-middle (x ∷ xs) ys y = ground (arith, get_elem?-middle xs ys y)

module _ {S T : Type 0} (c : TransitionClass S T) where
  rerun_threads_from-IsInStep :
      (s : Scheduler S T) (before after : List T)
      → s.program_state.transition_stack ≡ before ++ after
      → s.trace ≡ some (threads_of c before)
      → (s' : Scheduler S T) × (rerun_threads_from c s (length before) (length after) ≡ some s')
        × (s'.program_state ≡ s.program_state)
        × IsInStep c s'
  unfolding rerun_threads_from
  rerun_threads_from-IsInStep s before [] split ran =
      let all : before ++ [] ≡ before = append_nil before in
      (s, refl, refl, ran ∙ ap (λ ts. some (threads_of c ts)) (sym all ∙ sym split))
    where
      append_nil : (ts : List T) → ts ++ [] ≡ ts
      append_nil [] = refl
      append_nil (t ∷ ts) = ap (◌∷◌ t) (append_nil ts)
  rerun_threads_from-IsInStep s before (t ∷ ts) split ran =
      let here : get_elem? s.program_state.transition_stack (length before) ≡ some t =
        ap (λ us. get_elem? us (length before)) split ∙ get_elem?-middle before ts t in
      let m : Scheduler S T = record s {
        trace = some (threads_of c before ++ c.get_thread_id t ∷ []);
      } in
      let next : length (before ++ t ∷ []) ≡ length before + 1 =
        omega (arith, length-append before (t ∷ [])) in
      let (s', returned, kept, in_step) =
        rerun_threads_from-IsInStep m (before ++ t ∷ []) ts
          (split ∙ sym (append_assoc before (t ∷ []) ts))
          (ap some (sym (threads_of-append c before (t ∷ [])))) in
      let moved : rerun_threads_from c m (length before + 1) (length ts) ≡ some s' =
        subst (λ i. rerun_threads_from c m i (length ts) ≡ some s') next returned in
      (s', ground (arith, here, ran, moved), kept, in_step)

  -- Where no process runs the target, `mc_fork_next_trace_at_current_state` passes its assertion and
  -- returns; the model is unchanged, and the new process has run the threads of the transitions of the
  -- model's trace, in the order of the trace.
  pub fork_next_trace_at_current_state-IsInStep :
      (s : Scheduler S T)
      → s.trace ≡ none
      → (s' : Scheduler S T) × (fork_next_trace_at_current_state c s ≡ some s')
        × (s'.program_state ≡ s.program_state)
        × IsInStep c s'
  unfolding fork_next_trace_at_current_state
  fork_next_trace_at_current_state-IsInStep s nothing =
      let (s', returned, kept, in_step) =
        rerun_threads_from-IsInStep (record s { trace = some [] }) []
          s.program_state.transition_stack refl refl in
      (s', ground (arith, nothing, returned), kept, in_step)

module _ {S T : Type 0} (c : TransitionClass S T) (e : Surroundings S T)
    (same_thread : (t : T) → c.get_thread_id (c.static_copy t) ≡ c.get_thread_id t)
    (keeps : (threads : List ℕ) (handler : Stack S T → Option (Stack S T × T))
      → e.handler_after threads ≡ some handler
      → KeepsTrace c handler) where
  -- The two ways in which the search of a branch ends.
  abbrev pub Ended : Outcome S T → Type 0
  Ended (searched s) =
      (s.trace ≡ none)
      × (length s.program_state.transition_stack ≤ max_total_transitions_in_program)
      × ((is_in_deadlock c s.program_state ≡ some false)
          ⊎ ((is_in_deadlock c s.program_state ≡ some true) × (e.first_deadlock ≡ false)))
  Ended (stopped s) =
      ((s.trace ≡ none)
        × (length s.program_state.transition_stack ≡ max_total_transitions_in_program))
      ⊎ ((is_in_deadlock c s.program_state ≡ some true) × (e.first_deadlock ≡ true) × IsInStep c s)

  end_branch-Ended :
      (l : LoopEnd S T) (r : Outcome S T)
      → IsInStep c (end_state c e same_thread keeps l)
      → ReachesLimit c e same_thread keeps l max_total_transitions_in_program
      → end_branch c e l ≡ some r
      → Ended r
  unfolding end_branch
  end_branch-Ended (limit_reached s) r in_step limit h = ground (arith, h, limit)
  end_branch-Ended (no_transition_left s) r in_step limit h =
      elim (Option-cases (is_in_deadlock c s.program_state)) [
        | inl failed ↦ ground (arith, h, failed)
        | inr (true, d) ↦ ground (arith, h, d, limit, in_step)
        | inr (false, d) ↦ ground (arith, h, d, limit)
      ]

  -- For a target that is in step with the model, and a trace that is not above the limit: where the
  -- search of a branch returns, it has terminated the target's process, with a trace that is not above
  -- the limit, and the model is not in a deadlock, or the environment does not ask to stop at one; or
  -- the model checker stops, at the limit itself, or in a deadlock if the environment asks for that, the
  -- target being in step with the model. It is assumed that static copies keep the thread, and that the
  -- handlers leave the model's trace alone.
  pub search_dpor_branch_with_thread-Ended :
      (s : Scheduler S T) (backtrack_thread : ℕ) (r : Outcome S T)
      → IsInStep c s
      → length s.program_state.transition_stack ≤ max_total_transitions_in_program
      → search_dpor_branch_with_thread c e s backtrack_thread ≡ some r
      → Ended r
  unfolding search_dpor_branch_with_thread
  search_dpor_branch_with_thread-Ended s backtrack_thread r in_step bound h =
      let depth = length s.program_state.transition_stack in
      let left = max_total_transitions_in_program - depth in
      elim (Option-cases (s.program_state.next_transitions backtrack_thread)) [
        | inl failed ↦ ground (arith, h, failed)
        | inr (t, found) ↦ elim (Option-cases (search_loop c e s t left)) [
          | inl failed ↦ ground (arith, h, found, failed)
          | inr (l, f) ↦
              let (kept, limit) = search_loop-IsInStep c e same_thread keeps s t left l in_step f in
              end_branch-Ended l r kept
                (subst (ReachesLimit c e same_thread keeps l) (omega (arith, bound)) limit)
                (ground (arith, h, found, f))
        ]
      ]
