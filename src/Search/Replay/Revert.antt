-- ===== src/Search/Replay/Revert.antt =====
-- Reverting the transition that ran last: `virtuallyRevertTransitionAtIndex` after `virtuallyRunTransition`.
use dmtcp_integration.Base.{
  ℕ, ◌+◌, ◌-◌, ◌<◌, ◌^◌, ◌%◌, ◌≡◌, refl, ◌∙◌, Bool, true, false, some, ◌∷◌, arith, ◌==◌, ==_self,
  Bool-cases, inl, inr, ◌⊎◌, length, if◌then◌else◌,
}
use dmtcp_integration.History.ClockVector.{ClockVector}
use dmtcp_integration.History.ThreadData
use dmtcp_integration.History.ThreadData.{ThreadData}
use dmtcp_integration.History.ThreadData.Laws.{push-point}
use dmtcp_integration.History.SortedStack.Laws.{Below}
use dmtcp_integration.Search.Interface.{TransitionClass}
use dmtcp_integration.Search.Stack.{Stack, get_transition_at_index, update}
use dmtcp_integration.Search.Clocks.{clock_vector_for_transition_at_index}
use dmtcp_integration.Search.Growth.{virtually_run_transition}
use dmtcp_integration.Search.Replay.{virtually_revert_transition_at_index}

-- The data of a thread whose transition ran at an index, by whether it counts.
abbrev ran_data : Bool → ThreadData → ℕ → ThreadData
ran_data counts d top = record d {
  execution_depth = if counts then (d.execution_depth + 1) % 2 ^ 32 else d.execution_depth;
  execution_points = top ∷ d.execution_points;
}

module _ {S T : Type 0} (c : TransitionClass S T) (s : Stack S T) (t u : T) (after : S) where
  abbrev top : ℕ
  top = length s.transition_stack - 1

  abbrev tid : ℕ
  tid = c.get_thread_id t

  run-result :
      (counts : Bool)
      → c.counts_against_thread_execution_depth t ≡ counts
      → c.apply_to_state s.objects (c.dynamic_copy_in_state s.objects t) ≡ some after
      → Below top (s.thread_data tid).execution_points
      → (f : ℕ → ThreadData) × (virtually_run_transition c s t
          ≡ some (record s { objects = after; thread_data = f }))
        × (f tid ≡ ran_data counts (s.thread_data tid) top)
        × ((v : ℕ) → (tid == v) ≡ false → f v ≡ s.thread_data v)
  unfolding virtually_run_transition ThreadData.increment_execution_depth
  run-result true count applies below =
      let d = record (s.thread_data tid) {
        execution_depth = ((s.thread_data tid).execution_depth + 1) % 2 ^ 32;
      } in
      let pushes = push-point d top (s.thread_data tid).execution_points refl below in
      (
        update (update s.thread_data tid d) tid (ran_data true (s.thread_data tid) top),
        ground (arith, count, applies, pushes, ==_self tid),
        ground (arith, ==_self tid),
        λ v differs. ground (arith, differs),
      )
  run-result false count applies below =
      let d = s.thread_data tid in
      let pushes = push-point d top d.execution_points refl below in
      (
        update s.thread_data tid (ran_data false d top),
        ground (arith, count, applies, pushes),
        ground (arith, ==_self tid),
        λ v differs. ground (arith, differs),
      )

  depth_back : (d : ℕ) → d < 2 ^ 32 → ((d + 1) % 2 ^ 32 + 2 ^ 32 - 1) % 2 ^ 32 ≡ d
  depth_back d h = omega (arith, h)

  revert-result :
      (counts : Bool) (f : ℕ → ThreadData) (cv : ClockVector)
      → get_transition_at_index s top ≡ some u
      → c.get_thread_id u ≡ tid
      → c.counts_against_thread_execution_depth u ≡ counts
      → clock_vector_for_transition_at_index c s top ≡ some cv
      → c.unapply_to_state after (c.dynamic_copy_in_state after u) ≡ some s.objects
      → (s.thread_data tid).execution_depth < 2 ^ 32
      → f tid ≡ ran_data counts (s.thread_data tid) top
      → (g : ℕ → ThreadData) × (virtually_revert_transition_at_index c
            (record s { objects = after; thread_data = f })
            top
          ≡ some (record s { thread_data = g }))
        × (g tid ≡ ThreadData.set_clock_vector (s.thread_data tid) cv)
        × ((v : ℕ) → (tid == v) ≡ false → g v ≡ f v)
  unfolding virtually_revert_transition_at_index ThreadData.set_clock_vector
      ThreadData.decrement_execution_depth_if_necessary ThreadData.pop_latest_execution_point
      get_transition_at_index clock_vector_for_transition_at_index
  revert-result true f cv at_top thread count clock unapplies bounded ran =
      let back = depth_back (s.thread_data tid).execution_depth bounded in
      let restored = record (s.thread_data tid) { clock_vector = cv } in
      let d = record (f tid) {
        execution_depth = ((f tid).execution_depth + 2 ^ 32 - 1) % 2 ^ 32;
      } in
      (
        update (update f tid d) tid restored,
        ground (arith, at_top, thread, count, clock, unapplies, back, ran, ==_self tid),
        ground (arith, ==_self tid),
        λ v differs. ground (arith, differs),
      )
  revert-result false f cv at_top thread count clock unapplies bounded ran =
      let restored = record (s.thread_data tid) { clock_vector = cv } in
      (
        update f tid restored,
        ground (arith, at_top, thread, count, clock, unapplies, ran),
        ground (arith, ==_self tid),
        λ v differs. ground (arith, differs),
      )

  -- A transition that ran last is reverted. Its static copy `u` at the top of the stack belongs to the same
  -- thread and counts against its depth if it does; the effect on the objects is what `unapplyToState`
  -- undoes; the top index is not below the thread's execution points, and its depth is a 32-bit number.
  -- Then `virtuallyRunTransition` and after it `virtuallyRevertTransitionAtIndex` at the top return, and all
  -- is as before, except that the thread has the clock vector of the state that the transition led to.
  pub run-revert :
      (cv : ClockVector)
      → get_transition_at_index s (length s.transition_stack - 1) ≡ some u
      → c.get_thread_id u ≡ c.get_thread_id t
      → c.counts_against_thread_execution_depth u ≡ c.counts_against_thread_execution_depth t
      → clock_vector_for_transition_at_index c s (length s.transition_stack - 1) ≡ some cv
      → c.apply_to_state s.objects (c.dynamic_copy_in_state s.objects t) ≡ some after
      → c.unapply_to_state after (c.dynamic_copy_in_state after u) ≡ some s.objects
      → Below (length s.transition_stack - 1) (s.thread_data (c.get_thread_id t)).execution_points
      → (s.thread_data (c.get_thread_id t)).execution_depth < 2 ^ 32
      → (m : Stack S T) × (g : ℕ → ThreadData) × (virtually_run_transition c s t ≡ some m)
        × (virtually_revert_transition_at_index c m (length s.transition_stack - 1)
            ≡ some (record s { thread_data = g }))
        × (g (c.get_thread_id t)
            ≡ ThreadData.set_clock_vector (s.thread_data (c.get_thread_id t)) cv)
        × ((v : ℕ) → ((c.get_thread_id t == v) ≡ true) ⊎ (g v ≡ s.thread_data v))
  run-revert cv at_top thread count clock applies unapplies below bounded =
      let counts = c.counts_against_thread_execution_depth t in
      let (f, runs, ran, others) = run-result counts refl applies below in
      let (g, reverts, back, kept) =
        revert-result counts f cv at_top thread count clock unapplies bounded ran in
      (
        record s { objects = after; thread_data = f },
        g,
        runs,
        reverts,
        back,
        λ v. elim (Bool-cases (tid == v)) [
          | inl own ↦ inl own
          | inr differs ↦ inr (kept v differs ∙ others v differs)
        ],
      )
