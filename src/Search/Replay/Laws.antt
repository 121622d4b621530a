-- ===== src/Search/Replay/Laws.antt =====
-- The map from threads to their next transitions that `reflectStateAtTransitionIndex` of
-- src/MCStack.cpp makes.
use dmtcp_integration.Base.{
  ℕ, zero, suc, ◌+◌, ◌-◌, ◌≤◌, ◌<◌, ◌≡◌, refl, ◌∙◌, subst, ◌⊎◌, inl, inr, false, none, some, [],
  arith, ◌==◌, if◌then◌else◌, Bool-cases, ==_iff, length, get_elem?-some,
}
use dmtcp_integration.History.ClockVector.{ClockVector, assign, value_for_thread}
use dmtcp_integration.History.ClockVector.Laws.{value_for_thread-assign}
use dmtcp_integration.Search.Interface.{TransitionClass}
use dmtcp_integration.Search.Stack.{Stack}
use dmtcp_integration.Search.Clocks.{get_thread_running_transition_at_index}
use dmtcp_integration.Search.Replay.{closest_from, thread_to_closest_index_map}

module _ {S T : Type 0} (c : TransitionClass S T) (s : Stack S T) where
  -- The thread ran the transition at the index, or did not.
  abbrev pub Ran : ℕ → ℕ → Type 0
  Ran tid k = get_thread_running_transition_at_index c s k ≡ some tid

  -- The index of the first transition of a thread after an index.
  abbrev pub FirstAfter : ℕ → ℕ → ℕ → Type 0
  FirstAfter index tid j =
      (index < j) × Ran tid j × ((k : ℕ) → (k ≤ index) ⊎ (j ≤ k) ⊎ (¬ (Ran tid k)))

  running : (k : ℕ) → k < length s.transition_stack → (tid : ℕ) × Ran tid k
  unfolding get_thread_running_transition_at_index
  running k h =
      let (t, found) = get_elem?-some s.transition_stack k h in
      (c.get_thread_id t, ground (arith, found))

  closest_from_lem :
      (index n : ℕ) (acc : ClockVector)
      → index + n < length s.transition_stack
      → (m : ClockVector) × (closest_from c s index n acc ≡ some m)
        × ((tid : ℕ)
            → ((j : ℕ) × (value_for_thread m tid ≡ some j)
                × (j ≤ index + n)
                × FirstAfter index tid j)
              ⊎ ((value_for_thread m tid ≡ value_for_thread acc tid)
                  × ((k : ℕ) → (k ≤ index) ⊎ (index + n < k) ⊎ (¬ (Ran tid k)))))
  unfolding closest_from
  closest_from_lem index zero acc h = (acc, refl, λ tid. inr (refl, λ k. ground arith))
  closest_from_lem index (suc n) acc h =
      let (t, here) = running (index + suc n) h in
      let (m, result, holds) =
        closest_from_lem index n (assign acc t (index + suc n)) (omega arith) in
      (
        m,
        rw here result,
        λ tid. elim (holds tid) [
          | inl (j, value, bound, first) ↦ inl (j, value, omega arith, first)
          | inr (value, below) ↦
              let assigned : value_for_thread m tid
                  ≡ (if t == tid then some (index + suc n) else value_for_thread acc tid) =
                value ∙ value_for_thread-assign acc t (index + suc n) tid in
              elim (Bool-cases (t == tid)) [
                | inl same ↦ inl (
                  index + suc n,
                  ground (arith, assigned, same),
                  omega arith,
                  (
                    omega arith,
                    rw (← (==_iff t tid).0 same) here,
                    λ k. elim (below k) [
                      | inl low ↦ inl low
                      | inr (inl high) ↦ inr (inl (omega arith))
                      | inr (inr never) ↦ inr (inr never)
                    ],
                  ),
                )
                | inr differs ↦ inr (
                  ground (arith, assigned, differs),
                  λ k. elim (below k) [
                    | inl low ↦ inl low
                    | inr (inr never) ↦ inr (inr never)
                    | inr (inl high) ↦ elim (Bool-cases (k == index + suc n)) [
                      | inr above ↦ inr (inl (ground arith))
                      | inl at ↦
                          let at' : k ≡ index + suc n = (==_iff k (index + suc n)).0 at in
                          inr (inr (λ ran. not_here tid differs (subst (Ran tid) at' ran)))
                    ]
                  ],
                )
              ]
        ],
      )
    where
      not_here :
          (tid : ℕ) → (running (index + suc n) h).0 == tid ≡ false → ¬ (Ran tid (index + suc n))
      not_here tid differs ran =
          let (t, here) = running (index + suc n) h in ground (arith, here, ran, differs)

  -- For a thread of any number and an index of the transition stack, the map is made without an error;
  -- it has the index of the thread's first transition after the index, if there is one, and does not
  -- have the thread if there is none.
  pub thread_to_closest_index_map-least :
      (index tid : ℕ)
      → index < length s.transition_stack
      → (m : ClockVector) × (thread_to_closest_index_map c s index ≡ some m)
        × (((j : ℕ) × (value_for_thread m tid ≡ some j) × FirstAfter index tid j)
            ⊎ ((value_for_thread m tid ≡ none)
                × ((k : ℕ) → (k ≤ index) ⊎ (length s.transition_stack ≤ k) ⊎ (¬ (Ran tid k)))))
  unfolding thread_to_closest_index_map value_for_thread
  thread_to_closest_index_map-least index tid h =
      let (m, result, holds) =
        closest_from_lem index (length s.transition_stack - (index + 1)) [] (omega arith) in
      (
        m,
        result,
        elim (holds tid) [
          | inl (j, value, bound, first) ↦ inl (j, value, first)
          | inr (value, below) ↦ inr (
            value,
            λ k. elim (below k) [
              | inl low ↦ inl low
              | inr (inl high) ↦ inr (inl (omega arith))
              | inr (inr never) ↦ inr (inr never)
            ],
          )
        ],
      )
