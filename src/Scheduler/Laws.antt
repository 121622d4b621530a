-- ===== src/Scheduler/Laws.antt =====
-- The target and the model of src/mcmini_private.cpp run in step.
use dmtcp_integration.Base.{
  ℕ, zero, suc, ◌+◌, ◌≤◌, ◌≡◌, refl, sym, ap, subst, ◌∙◌, Option, none, some, List, [], ◌∷◌, ◌++◌,
  arith, length, length-append, Option-cases, inl, inr,
}
use dmtcp_integration.Search.Interface.{TransitionClass}
use dmtcp_integration.Search.Stack.{Stack}
use dmtcp_integration.Search.Growth.{simulate_running_transition}
use dmtcp_integration.Search.Backtrack.{dynamically_update_backtrack_sets}
use dmtcp_integration.Scheduler.{
  Scheduler, Surroundings, LoopEnd, no_transition_left, limit_reached, search_step, search_loop,
}
use dmtcp_integration.Scheduler.ModelTrace.{KeepsTrace, update_keeps, simulate_extends}

module _ {S T : Type 0} (c : TransitionClass S T) where
  -- The threads of the transitions of the model's trace.
  abbrev pub threads_of : List T → List ℕ
  threads_of [] = []
  threads_of (t ∷ ts) = c.get_thread_id t ∷ threads_of ts

  -- The target has run the threads of the trace, in its order.
  abbrev pub IsInStep : Scheduler S T → Type 0
  IsInStep s = s.trace ≡ some (threads_of s.program_state.transition_stack)

  pub threads_of-append : (ts us : List T) → threads_of (ts ++ us) ≡ threads_of ts ++ threads_of us
  threads_of-append [] us = refl
  threads_of-append (t ∷ ts) us = ap (◌∷◌ (c.get_thread_id t)) (threads_of-append ts us)

module _ {S T : Type 0} (c : TransitionClass S T) (e : Surroundings S T)
    (same_thread : (t : T) → c.get_thread_id (c.static_copy t) ≡ c.get_thread_id t)
    (keeps : (threads : List ℕ) (handler : Stack S T → Option (Stack S T × T))
      → e.handler_after threads ≡ some handler
      → KeepsTrace c handler) where
  -- What one round of the loop does to the trace of the model and to that of the target.
  search_step_lem :
      (s s' : Scheduler S T) (t : T) (next : Option T) (threads : List ℕ)
      → s.trace ≡ some threads
      → search_step c e s t ≡ some (s', next)
      → (s'.trace ≡ some (threads ++ c.get_thread_id t ∷ []))
        × (s'.program_state.transition_stack
            ≡ s.program_state.transition_stack ++ c.static_copy t ∷ [])
  unfolding search_step
  search_step_lem s s' t next threads running h =
      let tid = c.get_thread_id t in
      let entry = e.get_next_trace_seq_entry s.enabled_seq_idx in
      let memory = e.handler_after (threads ++ tid ∷ []) in
      elim (Option-cases (simulate_running_transition c s.program_state t entry memory)) [
        | inl failed ↦ ground (arith, h, running, failed)
        | inr (simulated, f) ↦
            elim (Option-cases (dynamically_update_backtrack_sets c e.begin simulated)) [
              | inl failed ↦ ground (arith, h, running, f, failed)
              | inr (updated, g) ↦
                  let parts : (s'.trace ≡ some (threads ++ tid ∷ []))
                      × (s'.program_state ≡ updated) =
                    ground (arith, h, running, f, g) in
                  (
                    parts.0,
                    ap (λ q. q.transition_stack) parts.1
                        ∙ update_keeps c e.begin simulated updated g
                        ∙ simulate_extends c s.program_state simulated t entry memory
                            (λ handler. keeps (threads ++ tid ∷ []) handler) f,
                  )
            ]
      ]

  search_step-IsInStep :
      (s s' : Scheduler S T) (t : T) (next : Option T)
      → IsInStep c s
      → search_step c e s t ≡ some (s', next)
      → IsInStep c s'
        × (length s'.program_state.transition_stack ≡ length s.program_state.transition_stack + 1)
  search_step-IsInStep s s' t next in_step h =
      let old = s.program_state.transition_stack in
      let (ran, extended) = search_step_lem s s' t next (threads_of c old) in_step h in
      (
        ran
            ∙ ap some (
                ap (λ u. threads_of c old ++ u ∷ []) (sym (same_thread t))
                ∙ sym (threads_of-append c old (c.static_copy t ∷ []))
                ∙ ap (threads_of c) (sym extended)),
        ap length extended ∙ omega (arith, length-append old (c.static_copy t ∷ [])),
      )

  -- The state of the scheduler at the end of the loop.
  abbrev pub end_state : LoopEnd S T → Scheduler S T
  end_state (no_transition_left s) = s
  end_state (limit_reached s) = s

  -- The trace has a number of transitions at the limit, and at most that many before it.
  abbrev pub ReachesLimit : LoopEnd S T → ℕ → Type 0
  ReachesLimit (no_transition_left s) n = length s.program_state.transition_stack ≤ n
  ReachesLimit (limit_reached s) n = length s.program_state.transition_stack ≡ n

  -- However the loop ends, the target that was in step with the model still is: it has run the threads
  -- of the transitions of the model's trace, in the order of the trace. The trace has grown by all the
  -- transitions that the limit left if the loop ended at the limit, and by no more if it did not. It is
  -- assumed that static copies keep the thread, and that the handlers leave the model's trace alone.
  pub search_loop-IsInStep :
      (s : Scheduler S T) (t : T) (depth_left : ℕ) (r : LoopEnd S T)
      → IsInStep c s
      → search_loop c e s t depth_left ≡ some r
      → IsInStep c (end_state r)
        × ReachesLimit r (length s.program_state.transition_stack + depth_left)
  unfolding search_loop
  search_loop-IsInStep s t zero r in_step h =
      let same : limit_reached s ≡ r = ground (arith, h) in rw (← same) (in_step, omega arith)
  search_loop-IsInStep s t (suc depth_left) r in_step h =
      elim (Option-cases (search_step c e s t)) [
        | inl failed ↦ ground (arith, h, failed)
        | inr ((m, none), f) ↦
            let same : no_transition_left m ≡ r = ground (arith, h, f) in
            let (kept, grown) = search_step-IsInStep s m t none in_step f in
            rw (← same) (kept, omega (arith, grown))
        | inr ((m, some u), f) ↦
            let (kept, grown) = search_step-IsInStep s m t (some u) in_step f in
            let (kept', limit) =
              search_loop-IsInStep m u depth_left r kept (ground (arith, h, f)) in
            (kept', subst (ReachesLimit r) (omega (arith, grown)) limit)
      ]
