-- ===== src/History/Tests.antt =====
-- The stacks, sets and clock vectors of the history on small inputs.
use dmtcp_integration.Base.{
  ℕ, max, ◌≡◌, ◌≢◌, refl, ◌↔◌, true, false, none, some, List, [], ◌∷◌, arith, contains, ==_self,
}
use dmtcp_integration.History.SortedStack.{pop_greater_than}
use dmtcp_integration.History.SortedStack.Laws.{keep_le, pop_greater_than-eq-filter}
use dmtcp_integration.History.ClockVector.{max_vector, value_for_thread}
use dmtcp_integration.History.ClockVector.Laws.{IsMap, value, value-max_vector}
use dmtcp_integration.History.StackItem
use dmtcp_integration.History.StackItem.{StackItem}
use dmtcp_integration.History.StackItem.Laws.{Popped, pop-Popped}

pop_greater_than-eq-filter_example : pop_greater_than (5 ∷ 3 ∷ []) 4 ≡ keep_le 4 (5 ∷ 3 ∷ [])
pop_greater_than-eq-filter_example = pop_greater_than-eq-filter (5 ∷ 3 ∷ []) 4 (omega arith, tt)

abbrev clock1 : List (ℕ × ℕ)
clock1 = (0, 4) ∷ (1, 2) ∷ []

abbrev clock2 : List (ℕ × ℕ)
clock2 = (1, 3) ∷ []

clock1-IsMap : IsMap clock1
unfolding value_for_thread
clock1-IsMap = (refl, (refl, tt))

clock2-IsMap : IsMap clock2
unfolding value_for_thread
clock2-IsMap = (refl, tt)

value-max_vector_example :
    (value (max_vector clock1 clock2) 1 ≡ max (value clock1 1) (value clock2 1))
    × ((value_for_thread (max_vector clock1 clock2) 1 ≡ none)
        ↔ ((value_for_thread clock1 1 ≡ none) × (value_for_thread clock2 1 ≡ none)))
value-max_vector_example = value-max_vector clock1 clock2 1 clock1-IsMap clock2-IsMap

-- Threads 2 and 1 wait to be searched; thread 0 has been.
abbrev item : StackItem
item = record {
  backtrack_set = 2 ∷ 1 ∷ [];
  done_set = 0 ∷ [];
  sleep_set = [];
  enabled_threads = 0 ∷ 1 ∷ 2 ∷ [];
  clock_vector = [];
  spawning_transition_can_revert_state = false;
}

abbrev first_of : List ℕ → ℕ
first_of [] = 0
first_of (x ∷ xs) = x

first_of-member : (xs : List ℕ) → xs ≢ [] → contains xs (first_of xs) ≡ true
unfolding contains
first_of-member [] h = absurd (h refl)
first_of-member (x ∷ xs) h = rw (==_self x) refl

pop-Popped_example :
    (tid : ℕ) × (s' : StackItem) × (StackItem.pop_thread_to_backtrack_on first_of item
      ≡ some (tid, s'))
    × Popped item tid s'
unfolding StackItem.has_threads_to_backtrack_on
pop-Popped_example = pop-Popped first_of first_of-member item refl
