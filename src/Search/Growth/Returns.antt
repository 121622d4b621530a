-- ===== src/Search/Growth/Returns.antt =====
-- Where `growStateStackRunningTransition` of src/MCStack.cpp returns.
use dmtcp_integration.Base.{
  ℕ, ◌-◌, ◌≤◌, ◌||◌, ◌∙◌, get_elem?, get_elem?-bound, ◌≡◌, refl, subst, ◌⊎◌, inl, inr, Bool, true,
  false, not, none, some, List, [], ◌∷◌, arith, if◌then◌else◌, Bool-cases, ==_self, contains,
  contains-insert_all, length, is_empty, List-cases,
}
use dmtcp_integration.History.SortedStack
use dmtcp_integration.History.SortedStack.{SortedStack}
use dmtcp_integration.History.SortedStack.Laws.{Below}
use dmtcp_integration.History.StackItem
use dmtcp_integration.History.StackItem.{StackItem}
use dmtcp_integration.Search.Interface.{TransitionClass}
use dmtcp_integration.Search.Stack.{Stack, get_state_stack_top, state_stack_is_empty}
use dmtcp_integration.Search.Schedule.Deadlock.{AllSet}
use dmtcp_integration.Search.Schedule.EnabledThreads.{
  EnabledAs, get_currently_enabled_threads-exact,
}
use dmtcp_integration.Search.Growth.{
  departed, inherit_sleepers, with_irreversible, grow_state_stack_running_transition,
}
use dmtcp_integration.Search.Growth.Laws.{
  new_clock, Grown, grown_stack, new_states-length, new_states-left,
  grow_state_stack_running_transition-Grown,
}

module _ {S T : Type 0} (c : TransitionClass S T) (s : Stack S T) (t : T) where
  -- Every thread that sleeps has a next transition.
  abbrev pub SleepersSet : List ℕ → Type 0
  SleepersSet old =
      (u : ℕ) → (contains old u ≡ false) ⊎ ((next : T) × (s.next_transitions u ≡ some next))

  inherit_sleepers_returns :
      (old : List ℕ) (item : StackItem)
      → SleepersSet old
      → (new : StackItem) × (inherit_sleepers c s t old item ≡ some new)
  unfolding inherit_sleepers contains
  inherit_sleepers_returns [] item set = (item, refl)
  inherit_sleepers_returns (q ∷ qs) item set = elim (set q) [
    | inl absent ↦ ground (arith, ==_self q)
    | inr (next, found) ↦
        let (new, result) =
          inherit_sleepers_returns qs
            (if not (c.dependent next t) then StackItem.add_thread_to_sleep_set item q else item)
            (λ u. elim (set u) [ inl absent ↦ inl (ground arith) | inr known ↦ inr known ]) in
        (new, ground (arith, found, result))
  ]

  push_returns :
      (stack : SortedStack) (n : ℕ) → Below n stack → SortedStack.push stack n ≡ some (n ∷ stack)
  unfolding SortedStack.push
  push_returns [] n below = refl
  push_returns (x ∷ xs) n below = ground (arith, below.0)

  with_irreversible_returns :
      (s' : Stack S T) (b : Bool)
      → Below (length s'.state_stack - 1) s'.irreversible_states_stack
      → (irreversible : SortedStack) × (with_irreversible c s' b ≡ some irreversible)
  unfolding with_irreversible
  with_irreversible_returns s' true below = (s'.irreversible_states_stack, refl)
  with_irreversible_returns s' false below =
      (_, push_returns s'.irreversible_states_stack (length s'.state_stack - 1) below)

  -- A thread of the program is marked as enabled in the state that is left if it was before, or if its
  -- next transition is enabled; another thread, only if it was before.
  abbrev pub MarkedAs : StackItem → StackItem → ℕ → Type 0
  MarkedAs old left u =
      ((s.next_thread_id ≤ u) × (contains left.enabled_threads u ≡ contains old.enabled_threads u))
      ⊎ ((next : T) × (s.next_transitions u ≡ some next)
          × (contains left.enabled_threads u
              ≡ (c.enabled_in_state s.objects next || contains old.enabled_threads u)))

  departed-MarkedAs :
      (old : StackItem) (enabled : List ℕ) (u : ℕ)
      → ((s.next_thread_id ≤ u) × (contains enabled u ≡ false))
        ⊎ EnabledAs c s u (contains enabled u)
      → MarkedAs old (departed old enabled (c.get_thread_id t)) u
  unfolding StackItem.mark_backtrack_thread_searched StackItem.add_thread_to_sleep_set
      StackItem.mark_threads_enabled_in_state
  departed-MarkedAs old enabled u (inl (high, out)) =
      inl (high, contains-insert_all enabled old.enabled_threads u ∙ rw out refl)
  departed-MarkedAs old enabled u (inr (next, found, exact)) =
      inr (next, found, contains-insert_all enabled old.enabled_threads u ∙ rw (← exact) refl)

  -- With a state at the top, a next transition for every thread and every sleeper, no trace to replay,
  -- and irreversible states that are not above the new state: the growth of the state stack returns.
  -- The objects and the transitions are kept, and so is every state below the old top. The old top has
  -- exactly the threads marked as enabled that were marked before or whose next transition is enabled,
  -- and the thread that runs is added to its sleep set, moved out of its backtrack set and added to its
  -- done set, so that it is in two of the three sets. The new top has nothing to search, and the old
  -- sleepers whose next transition is independent of the one that runs sleep in it, and no other thread.
  -- Its clock vector, and the thread's, is the maximum over the dependent transitions of the trace, with
  -- the index of the top of the transition stack for the thread that runs.
  pub grow_state_stack_running_transition_returns :
      (old : StackItem)
      → get_state_stack_top s ≡ some old
      → AllSet s 0 s.next_thread_id
      → SleepersSet old.sleep_set
      → Below (length s.state_stack) s.irreversible_states_stack
      → (s' : Stack S T) × (grow_state_stack_running_transition c s t none ≡ some s')
        × Grown c s t old s'
        × (left : StackItem) × (get_elem? s'.state_stack (length s.state_stack - 1) ≡ some left)
        × ((u : ℕ) → MarkedAs old left u)
  unfolding grow_state_stack_running_transition get_state_stack_top state_stack_is_empty
  grow_state_stack_running_transition_returns old top set sleepers below =
      let (enabled, computed, exact) = get_currently_enabled_threads-exact c s set in
      let (new_state, inherited) =
        inherit_sleepers_returns old.sleep_set
          (StackItem.new (new_clock c s t) (c.is_reversible_in_state s.objects t)) sleepers in
      let (irreversible, pushed) =
        with_irreversible_returns
          (grown_stack c s t old enabled new_state s.irreversible_states_stack)
          (c.is_reversible_in_state s.objects t)
          (subst (λ n. Below n s.irreversible_states_stack) (height enabled new_state) below) in
      let result : grow_state_stack_running_transition c s t none
          ≡ some (grown_stack c s t old enabled new_state irreversible) =
        ground (arith, something, computed, top, inherited, pushed) in
      (
        grown_stack c s t old enabled new_state irreversible,
        result,
        grow_state_stack_running_transition-Grown c s t none old _ top result,
        departed old enabled (c.get_thread_id t),
        new_states-left c s t
            (StackItem.new (new_clock c s t) (c.is_reversible_in_state s.objects t)) new_state
            (departed old enabled (c.get_thread_id t))
            (omega (arith, get_elem?-bound s.state_stack (length s.state_stack - 1) old top)),
        λ u. departed-MarkedAs old enabled u (exact u),
      )
    where
      empty_top : is_empty s.state_stack ≡ true → ⊥
      empty_top nothing = elim (List-cases s.state_stack) [
        | inl none_left ↦ ground (arith, top, none_left)
        | inr (x, xs, cons) ↦ ground (arith, cons, nothing)
      ]

      something : is_empty s.state_stack ≡ false
      something = elim (Bool-cases (is_empty s.state_stack)) [
        | inl nothing ↦ absurd (empty_top nothing)
        | inr some_state ↦ some_state
      ]

      height :
          (enabled : List ℕ) (new_state : StackItem)
          → length s.state_stack
            ≡ length
                (grown_stack c s t old enabled new_state s.irreversible_states_stack).state_stack
              - 1
      height enabled new_state = omega (
        arith,
        new_states-length c s t
            (StackItem.new (new_clock c s t) (c.is_reversible_in_state s.objects t)) new_state
            (departed old enabled (c.get_thread_id t)),
      )
