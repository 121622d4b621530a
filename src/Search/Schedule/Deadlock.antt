-- ===== src/Search/Schedule/Deadlock.antt =====
-- What `isInDeadlock` of src/MCStack.cpp means.
use dmtcp_integration.Base.{
  ℕ, zero, suc, ◌+◌, ◌≤◌, ◌<◌, ◌≡◌, refl, ◌⊎◌, inl, inr, Bool, true, false, ◌||◌, some, arith, ◌==◌,
  Bool-cases, ==_iff,
}
use dmtcp_integration.Search.Interface.{TransitionClass}
use dmtcp_integration.Search.Stack.{Stack}
use dmtcp_integration.Search.Schedule.{deadlock_from, is_in_deadlock}

-- Every thread from an index on, for a number of threads, has a next transition.
abbrev pub AllSet : {S T : Type 0} → Stack S T → ℕ → ℕ → Type 0
AllSet {T = T} s i n =
    (tid : ℕ) → i ≤ tid → tid < i + n → (t : T) × (s.next_transitions tid ≡ some t)

pub AllSet-tail : {S T : Type 0} (s : Stack S T) (i n : ℕ) → AllSet s i (suc n) → AllSet s (i + 1) n
AllSet-tail s i n set tid low high = set tid (omega arith) (omega arith)

module _ {S T : Type 0} (c : TransitionClass S T) (s : Stack S T) where
  -- The next transition of a thread can run, or promises that the threads are not in a deadlock.
  abbrev pub Alive : ℕ → Bool → Type 0
  Alive tid b =
      (t : T) × (s.next_transitions tid ≡ some t)
      × ((c.ensures_deadlock_is_impossible t || c.enabled_in_state s.objects t) ≡ b)

  abbrev DeadlockFrom : ℕ → ℕ → Type 0
  DeadlockFrom i n =
      ((deadlock_from c s i n ≡ some true)
        × ((tid : ℕ) → (tid < i) ⊎ (i + n ≤ tid) ⊎ Alive tid false))
      ⊎ ((deadlock_from c s i n ≡ some false) × ((tid : ℕ) × (tid < i + n) × Alive tid true))

  deadlock_from_lem : (i n : ℕ) → AllSet s i n → DeadlockFrom i n
  unfolding deadlock_from
  deadlock_from_lem i zero set = inl (refl, λ tid. ground arith)
  deadlock_from_lem i (suc n) set =
      let (t, found) = set i (omega arith) (omega arith) in
      elim (Bool-cases (c.ensures_deadlock_is_impossible t || c.enabled_in_state s.objects t)) [
        | inl alive ↦ inr (ground (arith, found), (i, omega arith, (t, found, alive)))
        | inr blocked ↦ elim (deadlock_from_lem (i + 1) n (AllSet-tail s i n set)) [
          | inl (dead, all_blocked) ↦ inl (
            ground (arith, found),
            λ tid. elim (Bool-cases (i == tid)) [
              | inl same ↦ inr (inr (rw (← (==_iff i tid).0 same) (t, found, blocked)))
              | inr differs ↦ elim (all_blocked tid) [
                | inl low ↦ inl (ground arith)
                | inr (inl high) ↦ inr (inl (omega arith))
                | inr (inr also) ↦ inr (inr also)
              ]
            ],
          )
          | inr (live, (tid, bound, alive)) ↦ inr (ground (arith, found), (tid, omega arith, alive))
        ]
      ]

  -- For a program whose threads all have a next transition, `isInDeadlock` returns; it says yes
  -- exactly if no thread's next transition is enabled or rules a deadlock out, whatever the limits on
  -- the threads' execution depths.
  pub is_in_deadlock-exact :
      AllSet s 0 s.next_thread_id
      → ((is_in_deadlock c s ≡ some true)
          × ((tid : ℕ) → (s.next_thread_id ≤ tid) ⊎ Alive tid false))
        ⊎ ((is_in_deadlock c s ≡ some false)
            × ((tid : ℕ) × (tid < s.next_thread_id) × Alive tid true))
  unfolding is_in_deadlock
  is_in_deadlock-exact set = elim (deadlock_from_lem 0 s.next_thread_id set) [
    | inl (dead, all_blocked) ↦ inl (
      dead,
      λ tid. elim (all_blocked tid) [
        | inl low ↦ inl (omega arith)
        | inr (inl high) ↦ inl (omega arith)
        | inr (inr also) ↦ inr also
      ],
    )
    | inr (live, (tid, bound, alive)) ↦ inr (live, (tid, omega arith, alive))
  ]
