-- ===== src/Search/Backtrack/Returns.antt =====
-- The helper `dynamicallyUpdateBacktrackSetsHelper` of src/MCStack.cpp returns at every index of the
-- transition stack.
use dmtcp_integration.Base.{
  ℕ, zero, suc, ◌+◌, ◌-◌, ◌≤◌, ◌<◌, ◌≡◌, refl, ◌⊎◌, inl, inr, Bool, true, false, not, ◌&&◌, Option,
  some, List, [], ◌∷◌, arith, ◌==◌, leb, if◌then◌else◌, Bool-cases, length, get_elem?-some, insert,
}
use dmtcp_integration.History.StackItem
use dmtcp_integration.History.StackItem.{StackItem}
use dmtcp_integration.History.ClockVector.{value_for_thread, value_or}
use dmtcp_integration.Search.Interface.{TransitionClass}
use dmtcp_integration.Search.Stack.{Stack, get_transition_stack_size}
use dmtcp_integration.Search.Clocks.{
  get_thread_running_transition_at_index, happens_before_thread, threads_race_from,
  threads_race_after_depth,
}
use dmtcp_integration.Search.Backtrack.{
  in_e, collect_e, should_process, dynamically_update_backtrack_sets_helper, add_backtrack_point,
}
use dmtcp_integration.Search.Backtrack.Points.{PicksMember, Served, returned-Served}

-- A computation that returns.
abbrev Returns : {A : Type 0} → Option A → Type 0
Returns {A} o = (a : A) × (o ≡ some a)

module _ {S T : Type 0} (c : TransitionClass S T) (s : Stack S T) where
  running-Returns :
      (i : ℕ)
      → i < length s.transition_stack
      → Returns (get_thread_running_transition_at_index c s i)
  unfolding get_thread_running_transition_at_index
  running-Returns i h =
      let (t, found) = get_elem?-some s.transition_stack i h in
      (c.get_thread_id t, ground (arith, found))

  happens_before_thread-Returns :
      (i p : ℕ) → i < length s.transition_stack → Returns (happens_before_thread c s i p)
  unfolding happens_before_thread
  happens_before_thread-Returns i p h =
      let (tid, found) = running-Returns i h in
      (
        leb i (value_or (value_for_thread (s.thread_data p).clock_vector tid) 0),
        ground (arith, found),
      )

  threads_race_from-Returns :
      (rounds j q p : ℕ)
      → j + rounds ≤ length s.transition_stack
      → Returns (threads_race_from c s rounds j q p)
  unfolding threads_race_from
  threads_race_from-Returns zero j q p h = (false, refl)
  threads_race_from-Returns (suc rounds) j q p h =
      let (tid, found) = running-Returns j (omega arith) in
      let (before, known) = happens_before_thread-Returns j p (omega arith) in
      let (rest, result) = threads_race_from-Returns rounds (j + 1) q p (omega arith) in
      elim (Bool-cases (q == tid)) [
        | inl same ↦ (if before then true else rest, ground (arith, found, known, result, same))
        | inr differs ↦ (rest, ground (arith, found, known, result, differs))
      ]

  in_e-Returns : (i p q : ℕ) → i < length s.transition_stack → Returns (in_e c s i p q)
  unfolding in_e threads_race_after_depth get_transition_stack_size
  in_e-Returns i p q h =
      let (race, result) =
        threads_race_from-Returns (length s.transition_stack - (i + 1)) (i + 1) q p (omega arith) in
      (if q == p then true else race, ground (arith, result))

  collect_e-Returns :
      (item : StackItem) (i p : ℕ) (qs e : List ℕ)
      → i < length s.transition_stack
      → Returns (collect_e c s item i p qs e)
  unfolding collect_e
  collect_e-Returns item i p [] e h = (e, refl)
  collect_e-Returns item i p (q ∷ qs) e h =
      let (member, known) = in_e-Returns i p q h in
      let (r, result) =
        collect_e-Returns item i p qs
          (if member && not (StackItem.thread_is_in_sleep_set item q) then insert q e else e) h in
      (r, rw known result)

  should_process-Returns :
      (s_i next : T) (i p : ℕ)
      → i < length s.transition_stack
      → Returns (should_process c s s_i next i p)
  unfolding should_process
  should_process-Returns s_i next i p h =
      let (before, known) = happens_before_thread-Returns i p h in
      (
        if c.dependent s_i next && c.coenabled s_i next then not before else false,
        ground (arith, known),
      )

  helper-Returns :
      (begin : List ℕ → ℕ) (item : StackItem) (s_i next : T) (i p : ℕ)
      → i < length s.transition_stack
      → Returns (dynamically_update_backtrack_sets_helper c begin s s_i item next i p)
  unfolding dynamically_update_backtrack_sets_helper
  helper-Returns begin item s_i next i p h =
      let (process, known) = should_process-Returns s_i next i p h in
      let (e, collected) = collect_e-Returns item i p item.enabled_threads [] h in
      elim (Bool-cases process) [
        | inl yes_race ↦ (
          (true, add_backtrack_point begin e item.enabled_threads item),
          ground (arith, known, collected, yes_race),
        )
        | inr no_race ↦ ((false, item), ground (arith, known, no_race))
      ]

  -- At every index of the transition stack, for any state and transitions, and with any choice of
  -- `*begin()` that gives a member: the helper returns. If it says that it did not process the state,
  -- the two transitions do not race there and the state is unchanged. If it says that it did, they race
  -- there, and the state's backtrack set has grown at most by enabled threads that are awake; and either
  -- some enabled thread that is awake, and is the thread of the next transition or races with it later,
  -- waits to be searched or has been, or there is none and this holds of every enabled thread that is
  -- awake.
  pub helper-Served :
      (begin : List ℕ → ℕ) (item : StackItem) (s_i next : T) (i p : ℕ)
      → PicksMember begin
      → i < length s.transition_stack
      → (processed : Bool) × (item' : StackItem) × (dynamically_update_backtrack_sets_helper c begin
            s s_i item next i p
          ≡ some (processed, item'))
        × (should_process c s s_i next i p ≡ some processed)
        × (((processed ≡ false) × (item' ≡ item))
            ⊎ ((processed ≡ true) × Served c s item i p item'))
  helper-Served begin item s_i next i p picks h =
      let ((processed, item'), result) = helper-Returns begin item s_i next i p h in
      let (race, served) =
        returned-Served c s item i p begin s_i next processed item' picks result in
      (processed, item', result, race, served)
