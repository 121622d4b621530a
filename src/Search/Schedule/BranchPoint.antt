-- ===== src/Search/Schedule/BranchPoint.antt =====
-- The state that `getDeepestDPORBranchPoint` of src/MCStack.cpp finds.
use dmtcp_integration.Base.{
  ℕ, zero, suc, ◌≤◌, ◌<◌, ◌≡◌, refl, ◌∙◌, subst, ◌⊎◌, inl, inr, true, false, none, some, arith,
  ◌==◌, Bool-cases, Option-cases, ==_iff, length,
}
use dmtcp_integration.History.StackItem
use dmtcp_integration.History.StackItem.{StackItem}
use dmtcp_integration.Search.Stack.{Stack, get_state_item_at_index}
use dmtcp_integration.Search.Schedule.{deepest_branch_below, get_deepest_dpor_branch_point}

module _ {S T : Type 0} (s : Stack S T) where
  abbrev pub NoBranch : ℕ → Type 0
  NoBranch k =
      (get_state_item_at_index s k ≡ none)
      ⊎ ((item : StackItem) × (get_state_item_at_index s k ≡ some item)
          × (StackItem.has_threads_to_backtrack_on item ≡ false))

  abbrev pub Branch : ℕ → Type 0
  Branch j =
      (item : StackItem) × (get_state_item_at_index s j ≡ some item)
      × (StackItem.has_threads_to_backtrack_on item ≡ true)

  abbrev DeepestBelow : ℕ → Type 0
  DeepestBelow n =
      ((deepest_branch_below n s ≡ none) × ((k : ℕ) → (n ≤ k) ⊎ NoBranch k))
      ⊎ ((j : ℕ) × (deepest_branch_below n s ≡ some j)
          × (j < n)
          × Branch j
          × ((k : ℕ) → (n ≤ k) ⊎ (k ≤ j) ⊎ NoBranch k))

  DeepestBelow-suc :
      (n : ℕ)
      → NoBranch n
      → deepest_branch_below (suc n) s ≡ deepest_branch_below n s
      → DeepestBelow n
      → DeepestBelow (suc n)
  DeepestBelow-suc n nothing skip (inl (absent, below)) = inl (
    skip ∙ absent,
    λ k. elim (Bool-cases (n == k)) [
      | inl same ↦ inr (subst NoBranch ((==_iff n k).0 same) nothing)
      | inr differs ↦ elim (below k) [ inl high ↦ inl (ground arith) | inr also ↦ inr also ]
    ],
  )
  DeepestBelow-suc n nothing skip (inr (j, result, bound, branch, below)) = inr (
    j,
    skip ∙ result,
    omega arith,
    branch,
    λ k. elim (Bool-cases (n == k)) [
      | inl same ↦ inr (inr (subst NoBranch ((==_iff n k).0 same) nothing))
      | inr differs ↦ elim (below k) [ inl high ↦ inl (ground arith) | inr also ↦ inr also ]
    ],
  )

  deepest_branch_below_lem : (n : ℕ) → DeepestBelow n
  unfolding deepest_branch_below
  deepest_branch_below_lem zero = inl (refl, λ k. ground arith)
  deepest_branch_below_lem (suc n) = elim (Option-cases (get_state_item_at_index s n)) [
    | inl missing ↦
        DeepestBelow-suc n (inl missing) (ground (arith, missing)) (deepest_branch_below_lem n)
    | inr (item, found) ↦ elim (Bool-cases (StackItem.has_threads_to_backtrack_on item)) [
      | inl pending ↦ inr (
        n,
        ground (arith, found, pending),
        omega arith,
        (item, found, pending),
        λ k. ground arith,
      )
      | inr idle ↦
          DeepestBelow-suc n (inr (item, found, idle)) (ground (arith, found, idle))
            (deepest_branch_below_lem n)
    ]
  ]

  -- `getDeepestDPORBranchPoint` returns `FIRST_BRANCH` exactly if no state of the stack has threads to
  -- backtrack on; else it returns the greatest index of such a state.
  pub get_deepest_dpor_branch_point-deepest :
      ((get_deepest_dpor_branch_point s ≡ none)
        × ((k : ℕ) → (length s.state_stack ≤ k) ⊎ NoBranch k))
      ⊎ ((j : ℕ) × (get_deepest_dpor_branch_point s ≡ some j)
          × (j < length s.state_stack)
          × Branch j
          × ((k : ℕ) → (length s.state_stack ≤ k) ⊎ (k ≤ j) ⊎ NoBranch k))
  unfolding get_deepest_dpor_branch_point
  get_deepest_dpor_branch_point-deepest = deepest_branch_below_lem (length s.state_stack)
