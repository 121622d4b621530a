-- ===== src/Scheduler/ModelTrace.antt =====
-- What the operations of src/MCStack.cpp that the scheduler calls do to the stack of transitions.
use dmtcp_integration.Base.{
  ℕ, zero, suc, ◌-◌, ◌≡◌, refl, ◌∙◌, Bool, true, false, Option, none, some, List, [], ◌∷◌, ◌++◌,
  arith, length, Option-cases, inl, inr, erase, get_elem?,
}
use dmtcp_integration.Search.Interface.{TransitionClass}
use dmtcp_integration.Search.Stack.{Stack, get_transition_at_index, get_num_program_threads}
use dmtcp_integration.Search.Growth.{
  grow_transition_stack_running, grow_state_stack_running_transition, virtually_run_transition,
  set_next_from_memory, simulate_running_transition,
}
use dmtcp_integration.Search.Backtrack.{
  update_at, update_others, update_downwards, thread_ids, dynamically_update_backtrack_sets,
}

module _ {S T : Type 0} (c : TransitionClass S T) where
  growth_keeps :
      (s s' : Stack S T) (t : T) (entry : Option ℕ)
      → grow_state_stack_running_transition c s t entry ≡ some s'
      → s'.transition_stack ≡ s.transition_stack
  unfolding grow_state_stack_running_transition
  growth_keeps s s' t entry h = ground (arith, h)

  run_keeps :
      (s s' : Stack S T) (t : T)
      → virtually_run_transition c s t ≡ some s'
      → s'.transition_stack ≡ s.transition_stack
  unfolding virtually_run_transition
  run_keeps s s' t h = ground (arith, h)

  update_at_keeps :
      (begin : List ℕ → ℕ) (s s' : Stack S T) (i p : ℕ) (processed : Bool)
      → update_at c begin s i p ≡ some (processed, s')
      → s'.transition_stack ≡ s.transition_stack
  unfolding update_at
  update_at_keeps begin s s' i p processed h = ground (arith, h)

  update_others_keeps :
      (begin : List ℕ → ℕ) (s s' : Stack S T) (top : ℕ) (tids : List ℕ)
      → update_others c begin s top tids ≡ some s'
      → s'.transition_stack ≡ s.transition_stack
  unfolding update_others
  update_others_keeps begin s s' top [] h = ground (arith, h)
  update_others_keeps begin s s' top (tid ∷ tids) h =
      elim (Option-cases (update_at c begin s top tid)) [
        | inl failed ↦ ground (arith, h, failed)
        | inr ((processed, m), e) ↦
            update_others_keeps begin m s' top tids (ground (arith, h, e))
            ∙ update_at_keeps begin s m top tid processed e
      ]

  update_downwards_keeps :
      (begin : List ℕ → ℕ) (s s' : Stack S T) (p rounds : ℕ)
      → update_downwards c begin s p rounds ≡ some s'
      → s'.transition_stack ≡ s.transition_stack
  unfolding update_downwards
  update_downwards_keeps begin s s' p zero h = ground (arith, h)
  update_downwards_keeps begin s s' p (suc i) h = elim (Option-cases (update_at c begin s i p)) [
    | inl failed ↦ ground (arith, h, failed)
    | inr ((true, m), e) ↦ update_at_keeps begin s s' i p true (ground (arith, h, e))
    | inr ((false, m), e) ↦
        update_downwards_keeps begin m s' p i (ground (arith, h, e))
        ∙ update_at_keeps begin s m i p false e
  ]

  pub update_keeps :
      (begin : List ℕ → ℕ) (s s' : Stack S T)
      → dynamically_update_backtrack_sets c begin s ≡ some s'
      → s'.transition_stack ≡ s.transition_stack
  unfolding dynamically_update_backtrack_sets get_transition_at_index
  update_keeps begin s s' h =
      let top = length s.transition_stack - 1 in
      elim (Option-cases (get_elem? s.transition_stack top)) [
        | inl failed ↦ ground (arith, h, failed)
        | inr (t, found) ↦
            let tids = erase (c.get_thread_id t) (thread_ids c (get_num_program_threads s)) in
            elim (Option-cases (update_others c begin s top tids)) [
              | inl failed ↦ ground (arith, h, found, failed)
              | inr (m, e) ↦
                  update_downwards_keeps begin m s' (c.get_thread_id t) top
                    (ground (arith, h, found, e))
                  ∙ update_others_keeps begin s m top tids e
            ]
      ]

  -- A handler that leaves the trace of the model alone.
  abbrev pub KeepsTrace : (Stack S T → Option (Stack S T × T)) → Type 0
  KeepsTrace handler =
      (s s' : Stack S T) (t : T)
      → handler s ≡ some (s', t)
      → s'.transition_stack ≡ s.transition_stack

  memory_keeps :
      (s s' : Stack S T) (m : Option (Stack S T → Option (Stack S T × T))) (tid : ℕ)
      → ((handler : Stack S T → Option (Stack S T × T)) → m ≡ some handler → KeepsTrace handler)
      → set_next_from_memory c s m tid ≡ some s'
      → s'.transition_stack ≡ s.transition_stack
  unfolding set_next_from_memory
  memory_keeps s s' none tid keeps h = ground (arith, h)
  memory_keeps s s' (some handler) tid keeps h = elim (Option-cases (handler s)) [
    | inl failed ↦ ground (arith, h, failed)
    | inr ((q, t), e) ↦
        let kept : q.transition_stack ≡ s.transition_stack = keeps handler refl s q t e in
        let set : s'.transition_stack ≡ q.transition_stack = ground (arith, h, e) in set ∙ kept
  ]

  pushed_trace :
      (s : Stack S T) (t : T)
      → (grow_transition_stack_running c s t).transition_stack
        ≡ s.transition_stack ++ c.static_copy t ∷ []
  unfolding grow_transition_stack_running
  pushed_trace s t = refl

  -- What simulating a transition does to the stack of transitions.
  pub simulate_extends :
      (s s' : Stack S T) (t : T) (entry : Option ℕ)
      (m : Option (Stack S T → Option (Stack S T × T)))
      → ((handler : Stack S T → Option (Stack S T × T)) → m ≡ some handler → KeepsTrace handler)
      → simulate_running_transition c s t entry m ≡ some s'
      → s'.transition_stack ≡ s.transition_stack ++ c.static_copy t ∷ []
  unfolding simulate_running_transition
  simulate_extends s s' t entry m keeps h =
      let pushed = grow_transition_stack_running c s t in
      elim (Option-cases (grow_state_stack_running_transition c pushed t entry)) [
        | inl failed ↦ ground (arith, h, failed)
        | inr (grown, e) ↦ elim (Option-cases (virtually_run_transition c grown t)) [
          | inl failed ↦ ground (arith, h, e, failed)
          | inr (run, f) ↦
              memory_keeps run s' m (c.get_thread_id t) keeps (ground (arith, h, e, f))
              ∙ run_keeps grown run t f
              ∙ growth_keeps pushed grown t entry e
              ∙ pushed_trace s t
        ]
      ]
