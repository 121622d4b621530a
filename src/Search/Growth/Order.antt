-- ===== src/Search/Growth/Order.antt =====
-- The clock vectors that the growth of the stacks of src/MCStack.cpp leaves, and the happens-before
-- relation that they stand for.
use dmtcp_integration.Base.{
  ℕ, suc, ◌+◌, ◌-◌, ◌≤◌, ◌≡◌, refl, sym, ◌∙◌, ap, subst, ◌⊎◌, inl, inr, true, Option, some, List,
  [], ◌∷◌, ◌++◌, arith, ◌==◌, if◌then◌else◌, Bool-cases, ==_iff, ==_self, length, length-append,
  get_elem?, get_elem?-append_left, get_elem?-append_end, get_elem?-bound, All,
}
use dmtcp_integration.History.ClockVector.{ClockVector, assign, new_empty_clock_vector}
use dmtcp_integration.History.ClockVector.Laws.{value, IsMap, value_for_thread-assign, assign-IsMap}
use dmtcp_integration.History.StackItem
use dmtcp_integration.History.StackItem.{StackItem}
use dmtcp_integration.Search.Interface.{TransitionClass}
use dmtcp_integration.Search.Stack.{Stack, get_state_stack_top}
use dmtcp_integration.Search.Clocks.{drop_bottom, happens_before, transition_stack_max_clock_vector}
use dmtcp_integration.Search.Clocks.Laws.{AreMaps, max_clock_from-IsMap, max_clock_from-bounds}
use dmtcp_integration.Search.Growth.{
  departed, grow_transition_stack_running, grow_state_stack_running_transition,
}
use dmtcp_integration.Search.Growth.Laws.{
  new_clock, Grown, grow_state_stack_running_transition-Grown,
}

All-index :
    {A : Type 0} {P : A → Type 0} (xs : List A)
    → ((i : ℕ) → (length xs ≤ i) ⊎ ((x : A) × (get_elem? xs i ≡ some x) × P x))
    → All P xs
All-index [] h = tt
All-index {P = P} (x ∷ xs) h = (first (h 0), All-index xs (λ i. shift i (h (suc i))))
  where
    first : (length (x ∷ xs) ≤ 0) ⊎ ((y : _) × (get_elem? (x ∷ xs) 0 ≡ some y) × P y) → P x
    first (inl short) = absurd (omega arith)
    first (inr (y, found, p)) = subst P (ground (arith, found)) p

    shift :
        (i : ℕ)
        → (length (x ∷ xs) ≤ suc i) ⊎ ((y : _) × (get_elem? (x ∷ xs) (suc i) ≡ some y) × P y)
        → (length xs ≤ i) ⊎ ((y : _) × (get_elem? xs i ≡ some y) × P y)
    shift i (inl short) = inl (omega arith)
    shift i (inr rest) = inr rest

drop_bottom-index :
    (ss : List StackItem) (i : ℕ) → get_elem? (drop_bottom ss) i ≡ get_elem? ss (suc i)
drop_bottom-index [] i = refl
drop_bottom-index (s ∷ ss) i = refl

drop_bottom-length : (ss : List StackItem) → length (drop_bottom ss) ≡ length ss - 1
drop_bottom-length [] = refl
drop_bottom-length (s ∷ ss) = omega arith

value-assign :
    (cv : ClockVector) (tid index u : ℕ)
    → value (assign cv tid index) u ≡ (if tid == u then index else value cv u)
value-assign cv tid index u = ground (arith, value_for_thread-assign cv tid index u)

module _ {S T : Type 0} (c : TransitionClass S T) where
  -- The state that a transition leads to has a clock vector, with the transition's index for the thread
  -- that ran it.
  abbrev pub Clocked : Stack S T → ℕ → Type 0
  Clocked s i =
      (t : T) × (item : StackItem) × (get_elem? s.transition_stack i ≡ some t)
      × (get_elem? s.state_stack (suc i) ≡ some item)
      × IsMap item.clock_vector
      × (value item.clock_vector (c.get_thread_id t) ≡ i)

  pub record WellClocked (s : Stack S T) : Type 0 where
    pub size : length s.state_stack ≡ length s.transition_stack + 1
    pub clocked : (i : ℕ) → (length s.transition_stack ≤ i) ⊎ Clocked s i

  WellClocked-AreMaps : (s : Stack S T) → WellClocked s → AreMaps (drop_bottom s.state_stack)
  WellClocked-AreMaps s w = All-index (drop_bottom s.state_stack) (λ i. elim (w.clocked i) [
    | inl high ↦ inl (omega (arith, drop_bottom-length s.state_stack, w.size))
    | inr (t, item, at_t, at_item, is_map, own) ↦
        inr (item, drop_bottom-index s.state_stack i ∙ at_item, is_map)
  ])

  -- One growth of both stacks.
  abbrev pub grow : Stack S T → T → Option ℕ → Option (Stack S T)
  grow s t trace_entry =
      grow_state_stack_running_transition c (grow_transition_stack_running c s t) t trace_entry

departed-clock :
    (old : StackItem) (enabled : List ℕ) (tid : ℕ)
    → (departed old enabled tid).clock_vector ≡ old.clock_vector
unfolding StackItem.mark_backtrack_thread_searched StackItem.add_thread_to_sleep_set
    StackItem.mark_threads_enabled_in_state
departed-clock old enabled tid = refl

module _ {S T : Type 0} (c : TransitionClass S T) (s : Stack S T) (t : T) (trace_entry : Option ℕ)
    (old : StackItem) (s' : Stack S T) (w : WellClocked c s)
    (same_thread : c.get_thread_id (c.static_copy t) ≡ c.get_thread_id t)
    (at_top : get_state_stack_top s ≡ some old) (returned : grow c s t trace_entry ≡ some s') where
  mid : Stack S T
  mid = grow_transition_stack_running c s t

  grown : Grown c mid t old s'
  unfolding grow_transition_stack_running get_state_stack_top mid
  grown = grow_state_stack_running_transition-Grown c mid t trace_entry old s' at_top returned

  transitions : s'.transition_stack ≡ s.transition_stack ++ c.static_copy t ∷ []
  unfolding grow_transition_stack_running mid
  transitions = grown.transitions

  clock_value :
      (u : ℕ)
      → value (new_clock c mid t) u ≡ (
          if c.get_thread_id t == u
          then length s.transition_stack
          else value (transition_stack_max_clock_vector c mid t) u)
  unfolding grow_transition_stack_running mid
  clock_value u =
      value-assign (transition_stack_max_clock_vector c mid t) (c.get_thread_id t) _ u
      ∙ ap
          (λ n.
            if c.get_thread_id t == u
            then n
            else value (transition_stack_max_clock_vector c mid t) u)
          (omega (arith, length-append s.transition_stack (c.static_copy t ∷ [])))

  new_clock-IsMap : IsMap (new_clock c mid t)
  unfolding transition_stack_max_clock_vector mid
  new_clock-IsMap = assign-IsMap _ (c.get_thread_id t) _ (
      max_clock_from-IsMap c t mid.transition_stack (drop_bottom mid.state_stack)
        new_empty_clock_vector tt)

  old_transition :
      (i : ℕ) (t_i : T)
      → get_elem? s.transition_stack i ≡ some t_i
      → get_elem? s'.transition_stack i ≡ some t_i
  old_transition i t_i found =
      ap (λ ts. get_elem? ts i) transitions
      ∙ get_elem?-append_left s.transition_stack (c.static_copy t ∷ []) i
          (get_elem?-bound s.transition_stack i t_i found)
      ∙ found

  -- The state at an index keeps its clock vector, the old top included.
  old_item :
      (k : ℕ) (item : StackItem)
      → get_elem? s.state_stack k ≡ some item
      → (item' : StackItem) × (get_elem? s'.state_stack k ≡ some item')
        × (item'.clock_vector ≡ item.clock_vector)
  unfolding grow_transition_stack_running get_state_stack_top mid
  old_item k item found = elim (grown.below k) [
    | inr same ↦ (item, same ∙ found, refl)
    | inl high ↦
        let top : length s.state_stack - 1 ≡ k =
          omega (arith, get_elem?-bound s.state_stack k item found) in
        let same_item : some old ≡ some item =
          sym at_top ∙ ap (get_elem? s.state_stack) top ∙ found in
        let same_clock : old.clock_vector ≡ item.clock_vector = ground (arith, same_item) in
        (
          departed old grown.enabled (c.get_thread_id t),
          ap (get_elem? s'.state_stack) (sym top) ∙ grown.departed_state,
          departed-clock old grown.enabled (c.get_thread_id t) ∙ same_clock,
        )
  ]

  old-Clocked : (i : ℕ) → Clocked c s i → Clocked c s' i
  old-Clocked i (t_i, item, at_t, at_item, is_map, own) =
      let (item', at_item', same) = old_item (suc i) item at_item in
      (t_i, item', old_transition i t_i at_t, at_item', rw same is_map, rw same own)

  new_transition :
      get_elem? s'.transition_stack (length s.transition_stack) ≡ some (c.static_copy t)
  new_transition =
      ap (λ ts. get_elem? ts (length s.transition_stack)) transitions
      ∙ get_elem?-append_end s.transition_stack (c.static_copy t)

  new_item : get_elem? s'.state_stack (suc (length s.transition_stack)) ≡ some grown.new_state
  unfolding grow_transition_stack_running mid
  new_item = ap (get_elem? s'.state_stack) (omega (arith, w.size)) ∙ grown.at_top

  new-Clocked : Clocked c s' (length s.transition_stack)
  new-Clocked = (
    c.static_copy t,
    grown.new_state,
    new_transition,
    new_item,
    rw grown.clock new_clock-IsMap,
    rw (grown.clock, same_thread, clock_value (c.get_thread_id t), ==_self (c.get_thread_id t))
        refl,
  )

  -- Whenever the two stacks, well clocked and with a state at the top, grow by a transition whose static
  -- copy belongs to the same thread, and the growth returns, the stacks that it returns are well clocked.
  pub grow-WellClocked : WellClocked c s'
  unfolding grow_transition_stack_running mid
  grow-WellClocked = record {
    size = omega (
      arith,
      grown.height,
      w.size,
      ap length transitions,
      length-append s.transition_stack (c.static_copy t ∷ []),
    );
    clocked = λ i. elim (w.clocked i) [
      | inr old_index ↦ inr (old-Clocked i old_index)
      | inl high ↦ elim (Bool-cases (length s.transition_stack == i)) [
        | inl same ↦
            inr (subst (Clocked c s') ((==_iff (length s.transition_stack) i).0 same) new-Clocked)
        | inr differs ↦ inl (
            ground (
              arith,
              ap length transitions,
              length-append s.transition_stack (c.static_copy t ∷ []),
            ))
      ]
    ];
  }

  -- The new clock vector is at least that of each transition that is dependent with the new one, at
  -- every thread but the one that runs.
  new_clock-bounds :
      (i u : ℕ) (t_i : T) (item : StackItem)
      → get_elem? s.transition_stack i ≡ some t_i
      → get_elem? s.state_stack (suc i) ≡ some item
      → c.dependent t_i t ≡ true
      → value item.clock_vector u ≤ value (transition_stack_max_clock_vector c mid t) u
  unfolding transition_stack_max_clock_vector grow_transition_stack_running mid
  new_clock-bounds i u t_i item found at_item dep =
      max_clock_from-bounds c t (s.transition_stack ++ c.static_copy t ∷ [])
        (drop_bottom s.state_stack) new_empty_clock_vector i u t_i item tt
        (WellClocked-AreMaps c s w)
        (get_elem?-append_left s.transition_stack (c.static_copy t ∷ []) i
            (get_elem?-bound s.transition_stack i t_i found)
          ∙ found)
        (drop_bottom-index s.state_stack i ∙ at_item) dep

  -- Whenever the two stacks, well clocked and with a state at the top, grow by a transition whose static
  -- copy belongs to the same thread, and the growth returns, each transition of the old trace that is
  -- dependent with the new one happens before it in the stacks that are returned, in the sense of
  -- `happensBefore`.
  pub grow-orders-dependent :
      (i : ℕ) (t_i : T)
      → get_elem? s.transition_stack i ≡ some t_i
      → c.dependent t_i t ≡ true
      → happens_before c s' i (length s.transition_stack) ≡ some true
  unfolding happens_before mid
  grow-orders-dependent i t_i found dep = elim (w.clocked i) [
    | inl high ↦ absurd (omega (arith, get_elem?-bound s.transition_stack i t_i found))
    | inr (t_i', item, at_t, at_item, is_map, own) ↦
        let same : t_i' ≡ t_i = ground (arith, at_t, found) in
        let bound : value item.clock_vector (c.get_thread_id t_i)
            ≤ value (transition_stack_max_clock_vector c mid t) (c.get_thread_id t_i) =
          new_clock-bounds i (c.get_thread_id t_i) t_i item found at_item dep in
        let own' : value item.clock_vector (c.get_thread_id t_i) ≡ i = rw (← same) own in
        let covers : i ≤ value grown.new_state.clock_vector (c.get_thread_id t_i) =
          rw (grown.clock, clock_value (c.get_thread_id t_i))
            (ground (arith, bound, own', get_elem?-bound s.transition_stack i t_i found)) in
        rw (old_transition i t_i found, new_item) (ground (arith, covers))
  ]
