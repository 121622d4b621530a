-- ===== src/Search/Growth/Laws.antt =====
-- What `growStateStackRunningTransition` of src/MCStack.cpp does with the state stack.
use dmtcp_integration.Base.{
  ℕ, ◌+◌, ◌-◌, ◌≤◌, ◌<◌, ◌≡◌, refl, ◌∙◌, subst, ◌⊎◌, inl, inr, not, ◌||◌, ◌&&◌, Option, some, List,
  [], ◌∷◌, ◌++◌, arith, ◌==◌, leb, Bool-cases, Option-cases, contains, contains-insert,
  contains-erase, ==_self, length, length-append, length-set, get_elem?, set, get_elem?-append_left,
  get_elem?-bound, get_elem?-set_self, get_elem?-set_ne, is_empty,
}
use dmtcp_integration.History.SortedStack.{SortedStack}
use dmtcp_integration.History.ClockVector.{ClockVector, assign}
use dmtcp_integration.History.ThreadData
use dmtcp_integration.History.StackItem
use dmtcp_integration.History.StackItem.{StackItem}
use dmtcp_integration.Search.Interface.{TransitionClass}
use dmtcp_integration.Search.Stack.{Stack, get_state_stack_top, update}
use dmtcp_integration.Search.Clocks.{transition_stack_max_clock_vector}
use dmtcp_integration.Search.Schedule.{get_currently_enabled_threads}
use dmtcp_integration.Search.Growth.{
  inherit_sleepers, departed, with_irreversible, grow_state_stack_running_transition,
}
use dmtcp_integration.Search.Growth.Sleepers.{Inherits, inherit_sleepers_lem}

module _ {S T : Type 0} (c : TransitionClass S T) (s : Stack S T) (t : T) where
  -- The clock vector of the transition that runs.
  abbrev pub new_clock : ClockVector
  new_clock =
      assign (transition_stack_max_clock_vector c s t) (c.get_thread_id t)
        (length s.transition_stack - 1)

  -- The stack that `growStateStackRunningTransition` returns, by its two changed states.
  pub record Grown (old : StackItem) (s' : Stack S T) : Type 0 where
    pub objects : s'.objects ≡ s.objects
    pub transitions : s'.transition_stack ≡ s.transition_stack
    pub height : length s'.state_stack ≡ length s.state_stack + 1
    pub below :
        (k : ℕ)
        → (length s.state_stack - 1 ≤ k) ⊎ (get_elem? s'.state_stack k ≡ get_elem? s.state_stack k)
    pub enabled : List ℕ
    pub departed_state :
        get_elem? s'.state_stack (length s.state_stack - 1)
        ≡ some (departed old enabled (c.get_thread_id t))
    pub searched :
        (u : ℕ)
        → contains (departed old enabled (c.get_thread_id t)).done_set u
          ≡ (c.get_thread_id t == u || contains old.done_set u)
    pub pending :
        (u : ℕ)
        → contains (departed old enabled (c.get_thread_id t)).backtrack_set u
          ≡ (not (c.get_thread_id t == u) && contains old.backtrack_set u)
    pub asleep :
        (u : ℕ)
        → contains (departed old enabled (c.get_thread_id t)).sleep_set u
          ≡ (c.get_thread_id t == u || contains old.sleep_set u)
    pub new_state : StackItem
    pub at_top : get_elem? s'.state_stack (length s.state_stack) ≡ some new_state
    pub sleepers : (u : ℕ) → Inherits c s t old.sleep_set [] new_state.sleep_set u
    pub no_backtrack : new_state.backtrack_set ≡ []
    pub no_done : new_state.done_set ≡ []
    pub clock : new_state.clock_vector ≡ new_clock
    pub thread_clock : (s'.thread_data (c.get_thread_id t)).clock_vector ≡ new_clock

  -- The state stack that results from the old one and the two changed states.
  abbrev new_states : StackItem → StackItem → StackItem → List StackItem
  new_states fresh new_state left =
      set (set (s.state_stack ++ fresh ∷ []) (length s.state_stack) new_state)
        (length s.state_stack - 1) left

  pub new_states-length :
      (fresh new_state left : StackItem)
      → length (new_states fresh new_state left) ≡ length s.state_stack + 1
  new_states-length fresh new_state left =
      length-set (set (s.state_stack ++ fresh ∷ []) (length s.state_stack) new_state)
        (length s.state_stack - 1) left
      ∙ length-set (s.state_stack ++ fresh ∷ []) (length s.state_stack) new_state
      ∙ length-append s.state_stack (fresh ∷ [])

  pub new_states-left :
      (fresh new_state left : StackItem)
      → 0 < length s.state_stack
      → get_elem? (new_states fresh new_state left) (length s.state_stack - 1) ≡ some left
  new_states-left fresh new_state left h =
      get_elem?-set_self (set (s.state_stack ++ fresh ∷ []) (length s.state_stack) new_state)
        (length s.state_stack - 1) left
        (omega (
          arith,
          length-set (s.state_stack ++ fresh ∷ []) (length s.state_stack) new_state,
          length-append s.state_stack (fresh ∷ []),
        ))

  new_states-top :
      (fresh new_state left : StackItem)
      → 0 < length s.state_stack
      → get_elem? (new_states fresh new_state left) (length s.state_stack) ≡ some new_state
  new_states-top fresh new_state left h =
      get_elem?-set_ne (set (s.state_stack ++ fresh ∷ []) (length s.state_stack) new_state) left
        (λ e. omega arith)
      ∙ get_elem?-set_self (s.state_stack ++ fresh ∷ []) (length s.state_stack) new_state
          (omega (arith, length-append s.state_stack (fresh ∷ [])))

  new_states-below :
      (fresh new_state left : StackItem) (k : ℕ)
      → k < length s.state_stack - 1
      → get_elem? (new_states fresh new_state left) k ≡ get_elem? s.state_stack k
  new_states-below fresh new_state left k h =
      get_elem?-set_ne (set (s.state_stack ++ fresh ∷ []) (length s.state_stack) new_state) left
        (λ e. omega arith)
      ∙ get_elem?-set_ne (s.state_stack ++ fresh ∷ []) new_state (λ e. omega arith)
      ∙ get_elem?-append_left s.state_stack (fresh ∷ []) k (omega arith)

  -- The stack that is returned, from the values that the calls on the way return.
  abbrev pub grown_stack : StackItem → List ℕ → StackItem → SortedStack → Stack S T
  grown_stack old enabled new_state irreversible = record s {
    state_stack =
        new_states (StackItem.new new_clock (c.is_reversible_in_state s.objects t)) new_state
          (departed old enabled (c.get_thread_id t));
    thread_data =
        update s.thread_data (c.get_thread_id t)
          (ThreadData.set_clock_vector (s.thread_data (c.get_thread_id t)) new_clock);
    irreversible_states_stack = irreversible;
  }

  grown_stack_lem :
      (trace_entry : Option ℕ) (old : StackItem) (s' : Stack S T)
      → get_state_stack_top s ≡ some old
      → grow_state_stack_running_transition c s t trace_entry ≡ some s'
      → (enabled : List ℕ) × (new_state : StackItem) × (irreversible : SortedStack)
        × (inherit_sleepers c s t old.sleep_set
              (StackItem.new new_clock (c.is_reversible_in_state s.objects t))
            ≡ some new_state)
        × (grown_stack old enabled new_state irreversible ≡ s')
  unfolding grow_state_stack_running_transition
  grown_stack_lem trace_entry old s' top h = elim (Bool-cases (is_empty s.state_stack)) [
    | inl nothing ↦ ground (arith, nothing)
    | inr something ↦ elim (Option-cases (get_currently_enabled_threads c s trace_entry)) [
      | inl failed ↦ ground (arith, something, failed)
      | inr (enabled, computed) ↦
          elim (Option-cases (
            inherit_sleepers c s t old.sleep_set
              (StackItem.new new_clock (c.is_reversible_in_state s.objects t)))) [
                | inl failed ↦ ground (arith, something, computed, top, failed)
                | inr (new_state, inherited) ↦
                    elim (Option-cases (
                      with_irreversible c
                        (grown_stack old enabled new_state s.irreversible_states_stack)
                        (c.is_reversible_in_state s.objects t))) [
                          | inl failed ↦ ground (arith, something, computed, top, inherited, failed)
                          | inr (irreversible, pushed) ↦ (
                            enabled,
                            new_state,
                            irreversible,
                            inherited,
                            ground (arith, something, computed, top, inherited, pushed),
                          )
                        ]
              ]
    ]
  ]

  -- What growth has done where it has returned.
  pub grow_state_stack_running_transition-Grown :
      (trace_entry : Option ℕ) (old : StackItem) (s' : Stack S T)
      → get_state_stack_top s ≡ some old
      → grow_state_stack_running_transition c s t trace_entry ≡ some s'
      → Grown old s'
  unfolding get_state_stack_top contains StackItem.new ThreadData.set_clock_vector
      StackItem.mark_backtrack_thread_searched StackItem.add_thread_to_sleep_set
      StackItem.mark_threads_enabled_in_state
  grow_state_stack_running_transition-Grown trace_entry old s' top h =
      let (enabled, new_state, irreversible, inherited, same) =
        grown_stack_lem trace_entry old s' top h in
      let fresh : StackItem = StackItem.new new_clock (c.is_reversible_in_state s.objects t) in
      let left : StackItem = departed old enabled (c.get_thread_id t) in
      let some_state : 0 < length s.state_stack =
        omega (arith, get_elem?-bound s.state_stack (length s.state_stack - 1) old top) in
      subst (Grown old) same record {
        objects = refl;
        transitions = refl;
        height = new_states-length fresh new_state left;
        below = λ k. elim (Bool-cases (leb (length s.state_stack - 1) k)) [
          | inl high ↦ inl (ground arith)
          | inr low ↦ inr (new_states-below fresh new_state left k (ground arith))
        ];
        enabled = enabled;
        departed_state = new_states-left fresh new_state left some_state;
        searched = λ u. contains-insert (c.get_thread_id t) u old.done_set;
        pending = λ u. contains-erase (c.get_thread_id t) u old.backtrack_set;
        asleep = λ u. contains-insert (c.get_thread_id t) u old.sleep_set;
        new_state = new_state;
        at_top = new_states-top fresh new_state left some_state;
        sleepers = λ u. (inherit_sleepers_lem c s t old.sleep_set fresh new_state u inherited).0;
        no_backtrack = (inherit_sleepers_lem c s t old.sleep_set fresh new_state 0 inherited).1;
        no_done = (inherit_sleepers_lem c s t old.sleep_set fresh new_state 0 inherited).2;
        clock = (inherit_sleepers_lem c s t old.sleep_set fresh new_state 0 inherited).3;
        thread_clock = ground (arith, ==_self (c.get_thread_id t));
      }
