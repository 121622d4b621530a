-- ===== src/Search/Growth/Sleepers.antt =====
-- The sleep set that `growStateStackRunningTransition` of src/MCStack.cpp passes on.
use dmtcp_integration.Base.{
  ℕ, ◌≡◌, refl, ◌∙◌, ◌⊎◌, inl, inr, true, false, not, ◌||◌, ◌&&◌, some, List, [], ◌∷◌, arith, ◌==◌,
  if◌then◌else◌, Bool-cases, Option-cases, contains, contains-insert, ==_iff,
}
use dmtcp_integration.History.StackItem
use dmtcp_integration.History.StackItem.{StackItem}
use dmtcp_integration.Search.Interface.{TransitionClass}
use dmtcp_integration.Search.Stack.{Stack}
use dmtcp_integration.Search.Growth.{inherit_sleepers}

module _ {S T : Type 0} (c : TransitionClass S T) (s : Stack S T) (t : T) where
  -- An old sleeper sleeps in the new set if it did before the loop, or if its next transition is
  -- independent of the one that runs; a thread that is no old sleeper, only if it did before the loop.
  abbrev pub Inherits : List ℕ → List ℕ → List ℕ → ℕ → Type 0
  Inherits old acc new u =
      ((contains old u ≡ false) × (contains new u ≡ contains acc u))
      ⊎ ((contains old u ≡ true)
          × (next : T) × (s.next_transitions u ≡ some next)
          × (contains new u ≡ (contains acc u || not (c.dependent next t))))

  -- The item after one round of the loop over the old sleep set.
  abbrev after_sleeper : ℕ → T → StackItem → StackItem
  after_sleeper q next item =
      if not (c.dependent next t) then StackItem.add_thread_to_sleep_set item q else item

  after_sleeper_lem :
      (q : ℕ) (next : T) (item : StackItem) (u : ℕ)
      → (contains (after_sleeper q next item).sleep_set u
          ≡ (contains item.sleep_set u || ((q == u) && not (c.dependent next t))))
        × ((after_sleeper q next item).backtrack_set ≡ item.backtrack_set)
        × ((after_sleeper q next item).done_set ≡ item.done_set)
        × ((after_sleeper q next item).clock_vector ≡ item.clock_vector)
  unfolding StackItem.add_thread_to_sleep_set
  after_sleeper_lem q next item u = elim (Bool-cases (c.dependent next t)) [
    | inl dep ↦ rw dep (ground arith, refl, refl, refl)
    | inr indep ↦ rw indep (ground (arith, contains-insert q u item.sleep_set), refl, refl, refl)
  ]

  pub inherit_sleepers_lem :
      (old : List ℕ) (item new : StackItem) (u : ℕ)
      → inherit_sleepers c s t old item ≡ some new
      → Inherits old item.sleep_set new.sleep_set u
        × (new.backtrack_set ≡ item.backtrack_set)
        × (new.done_set ≡ item.done_set)
        × (new.clock_vector ≡ item.clock_vector)
  unfolding inherit_sleepers contains
  inherit_sleepers_lem [] item new u h = ground arith
  inherit_sleepers_lem (q ∷ qs) item new u h = elim (Option-cases (s.next_transitions q)) [
    | inl missing ↦ ground (arith, missing)
    | inr (next, found) ↦
        let h' : inherit_sleepers c s t qs (after_sleeper q next item) ≡ some new =
          ground (arith, found) in
        let (asleep, backtrack, done, clock) = after_sleeper_lem q next item u in
        let (inherits, backtrack', done', clock') =
          inherit_sleepers_lem qs (after_sleeper q next item) new u h' in
        (
          elim inherits [
            | inl (out, same) ↦ elim (Bool-cases (q == u)) [
              | inl here ↦ inr (
                ground arith,
                next,
                rw (← (==_iff q u).0 here) found,
                ground (arith, same, asleep, here),
              )
              | inr there ↦ inl (ground arith, ground (arith, same, asleep, there))
            ]
            | inr (asleep_before, next', found', same) ↦ elim (Bool-cases (q == u)) [
              | inl here ↦
                  let found'' : s.next_transitions u ≡ some next =
                    rw (← (==_iff q u).0 here) found in
                  inr (
                    ground arith,
                    next,
                    found'',
                    ground (arith, same, asleep, here, found', found''),
                  )
              | inr there ↦ inr (
                ground (arith, asleep_before),
                next',
                found',
                ground (arith, same, asleep, there),
              )
            ]
          ],
          backtrack' ∙ backtrack,
          done' ∙ done,
          clock' ∙ clock,
        )
  ]
