-- ===== src/Search/Schedule/FirstEnabled.antt =====
-- The transition that `getFirstEnabledTransition` of src/MCStack.cpp chooses.
use dmtcp_integration.Base.{
  ℕ, zero, suc, ◌+◌, ◌≤◌, ◌<◌, ◌≡◌, refl, ◌⊎◌, inl, inr, Bool, true, false, not, ◌&&◌, none, some,
  arith, ◌==◌, Bool-cases, ==_iff,
}
use dmtcp_integration.History.StackItem
use dmtcp_integration.History.StackItem.{StackItem}
use dmtcp_integration.Search.Interface.{TransitionClass}
use dmtcp_integration.Search.Stack.{Stack, get_state_stack_top}
use dmtcp_integration.Search.Schedule.{
  transition_is_enabled, first_enabled_from, get_first_enabled_transition,
}
use dmtcp_integration.Search.Schedule.Deadlock.{AllSet, AllSet-tail}

module _ {S T : Type 0} (c : TransitionClass S T) (s : Stack S T) where
  -- The next transition of a thread may run next, with the given state at the top.
  abbrev pub Ready : StackItem → ℕ → T → Bool → Type 0
  Ready top tid t b =
      (s.next_transitions tid ≡ some t)
      × ((transition_is_enabled c s t && not (StackItem.thread_is_in_sleep_set top tid)) ≡ b)

  abbrev FirstFrom : StackItem → ℕ → ℕ → Type 0
  FirstFrom top i n =
      ((first_enabled_from c s i n ≡ some none)
        × ((u : ℕ) → (u < i) ⊎ (i + n ≤ u) ⊎ ((t : T) × Ready top u t false)))
      ⊎ ((tid : ℕ) × (t : T) × (first_enabled_from c s i n ≡ some (some t))
          × (tid < i + n)
          × Ready top tid t true
          × ((u : ℕ) → (u < i) ⊎ (tid ≤ u) ⊎ ((t' : T) × Ready top u t' false)))

  first_enabled_from_lem :
      (top : StackItem) (i n : ℕ)
      → get_state_stack_top s ≡ some top
      → AllSet s i n
      → FirstFrom top i n
  unfolding first_enabled_from
  first_enabled_from_lem top i zero at_top set = inl (refl, λ tid. ground arith)
  first_enabled_from_lem top i (suc n) at_top set =
      let (t, found) = set i (omega arith) (omega arith) in
      elim (Bool-cases
        (transition_is_enabled c s t && not (StackItem.thread_is_in_sleep_set top i))) [
          | inl ready ↦
              inr (
                i,
                t,
                ground (arith, found, at_top),
                omega arith,
                (found, ready),
                λ u. ground arith,
              )
          | inr blocked ↦
              let here : (u : ℕ) → i ≡ u → (t' : T) × Ready top u t' false =
                λ u same. rw (← same) (t, (found, blocked)) in
              elim (first_enabled_from_lem top (i + 1) n at_top (AllSet-tail s i n set)) [
                | inl (nothing, all_blocked) ↦ inl (
                  ground (arith, found, at_top),
                  λ u. elim (Bool-cases (i == u)) [
                    | inl same ↦ inr (inr (here u ((==_iff i u).0 same)))
                    | inr differs ↦ elim (all_blocked u) [
                      | inl low ↦ inl (ground arith)
                      | inr (inl high) ↦ inr (inl (omega arith))
                      | inr (inr also) ↦ inr (inr also)
                    ]
                  ],
                )
                | inr (tid, t', result, bound, ready, least) ↦ inr (
                  tid,
                  t',
                  ground (arith, found, at_top),
                  omega arith,
                  ready,
                  λ u. elim (Bool-cases (i == u)) [
                    | inl same ↦ inr (inr (here u ((==_iff i u).0 same)))
                    | inr differs ↦ elim (least u) [
                      | inl low ↦ inl (ground arith)
                      | inr (inl high) ↦ inr (inl high)
                      | inr (inr also) ↦ inr (inr also)
                    ]
                  ],
                )
              ]
        ]

  -- For a program whose threads all have a next transition, with no trace to replay:
  -- `getFirstEnabledTransition` returns; either it returns a null pointer, and each thread's next
  -- transition is not enabled, beyond the thread's depth limit, or asleep at the top state; or it
  -- returns the next transition of a thread that is none of these, with the smallest number of all
  -- such threads.
  pub get_first_enabled_transition-least :
      (top : StackItem)
      → get_state_stack_top s ≡ some top
      → AllSet s 0 s.next_thread_id
      → ((get_first_enabled_transition c s none ≡ some none)
          × ((u : ℕ) → (s.next_thread_id ≤ u) ⊎ ((t : T) × Ready top u t false)))
        ⊎ ((tid : ℕ) × (t : T) × (get_first_enabled_transition c s none ≡ some (some t))
            × (tid < s.next_thread_id)
            × Ready top tid t true
            × ((u : ℕ) → (tid ≤ u) ⊎ ((t' : T) × Ready top u t' false)))
  unfolding get_first_enabled_transition
  get_first_enabled_transition-least top at_top set =
      elim (first_enabled_from_lem top 0 s.next_thread_id at_top set) [
        | inl (nothing, all_blocked) ↦ inl (
          nothing,
          λ u. elim (all_blocked u) [
            | inl low ↦ inl (omega arith)
            | inr (inl high) ↦ inl (omega arith)
            | inr (inr also) ↦ inr also
          ],
        )
        | inr (tid, t, result, bound, ready, least) ↦ inr (
          tid,
          t,
          result,
          omega arith,
          ready,
          λ u. elim (least u) [ inl low ↦ inl (omega arith) | inr rest ↦ rest ],
        )
      ]
