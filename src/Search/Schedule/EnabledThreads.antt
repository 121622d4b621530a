-- ===== src/Search/Schedule/EnabledThreads.antt =====
-- What `getCurrentlyEnabledThreads` of src/MCStack.cpp returns.
use dmtcp_integration.Base.{
  ℕ, zero, suc, ◌+◌, ◌≤◌, ◌<◌, ◌≡◌, refl, subst, ◌⊎◌, inl, inr, Bool, false, none, some, List, [],
  arith, ◌==◌, if◌then◌else◌, Bool-cases, contains, insert, contains-insert, ==_iff,
}
use dmtcp_integration.Search.Interface.{TransitionClass}
use dmtcp_integration.Search.Stack.{Stack}
use dmtcp_integration.Search.Schedule.{enabled_threads_from, get_currently_enabled_threads}
use dmtcp_integration.Search.Schedule.Deadlock.{AllSet, AllSet-tail}

module _ {S T : Type 0} (c : TransitionClass S T) (s : Stack S T) where
  -- Whether the next transition of a thread is enabled.
  abbrev pub EnabledAs : ℕ → Bool → Type 0
  EnabledAs u b = (t : T) × (s.next_transitions u ≡ some t) × (c.enabled_in_state s.objects t ≡ b)

  enabled_threads_from_lem :
      (i n : ℕ) (enabled : List ℕ)
      → AllSet s i n
      → ((u : ℕ) → (u < i) ⊎ (contains enabled u ≡ false))
      → (r : List ℕ) × (enabled_threads_from c s i n enabled ≡ some r)
        × ((u : ℕ)
            → ((u < i) × (contains r u ≡ contains enabled u))
              ⊎ ((i + n ≤ u) × (contains r u ≡ false))
              ⊎ EnabledAs u (contains r u))
  unfolding enabled_threads_from
  enabled_threads_from_lem i zero enabled set below = (enabled, refl, λ u. ground (arith, below u))
  enabled_threads_from_lem i (suc n) enabled set below =
      let (t, found) = set i (omega arith) (omega arith) in
      let enabled' : List ℕ =
        if c.enabled_in_state s.objects t then insert i enabled else enabled in
      let here : contains enabled' i ≡ c.enabled_in_state s.objects t =
        ground (arith, below i, contains-insert i i enabled) in
      let (r, result, holds) =
        enabled_threads_from_lem (i + 1) n enabled' (AllSet-tail s i n set)
          (λ u. ground (arith, below u, contains-insert i u enabled)) in
      (
        r,
        ground (arith, found, result),
        λ u. elim (Bool-cases (i == u)) [
          | inl same ↦
              let same' : i ≡ u = (==_iff i u).0 same in
              elim (holds u) [
                | inl (low, kept) ↦ inr (
                    inr (
                      t,
                      rw (← same') found,
                      ground (
                        arith,
                        kept,
                        subst (λ v. contains enabled' v ≡ c.enabled_in_state s.objects t) same'
                            here,
                      ),
                    ))
                | inr (inl (high, out)) ↦ ground arith
                | inr (inr also) ↦ inr (inr also)
              ]
          | inr differs ↦ elim (holds u) [
            | inl (low, kept) ↦
                inl (ground arith, ground (arith, kept, contains-insert i u enabled))
            | inr (inl (high, out)) ↦ inr (inl (omega arith, out))
            | inr (inr also) ↦ inr (inr also)
          ]
        ],
      )

  -- For a program whose threads all have a next transition, with no trace to replay:
  -- `getCurrentlyEnabledThreads` returns a set, whose members are exactly the threads of the program
  -- whose next transition is enabled, whatever the limits on execution depths.
  pub get_currently_enabled_threads-exact :
      AllSet s 0 s.next_thread_id
      → (r : List ℕ) × (get_currently_enabled_threads c s none ≡ some r)
        × ((u : ℕ) → ((s.next_thread_id ≤ u) × (contains r u ≡ false)) ⊎ EnabledAs u (contains r u))
  unfolding get_currently_enabled_threads contains
  get_currently_enabled_threads-exact set =
      let (r, result, holds) = enabled_threads_from_lem 0 s.next_thread_id [] set (λ u. inr refl) in
      (
        r,
        result,
        λ u. elim (holds u) [
          | inl (low, kept) ↦ inl (omega arith, kept)
          | inr (inl (high, out)) ↦ inl (omega arith, out)
          | inr (inr also) ↦ inr also
        ],
      )
