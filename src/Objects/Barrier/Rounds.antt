-- ===== src/Objects/Barrier/Rounds.antt =====
-- Rounds of arrivals at the barrier of src/objects/MCBarrier.cpp. The transition MCBarrierWait of
-- src/transitions/barrier does not call `leave`, so a round consists of calls of `wait` alone.
use dmtcp_integration.Base.{
  ℕ, ◌+◌, ◌<◌, ◌≡◌, refl, sym, ◌∙◌, ap, true, false, List, [], ◌∷◌, arith, length, contains, insert,
  All,
}
use dmtcp_integration.Objects.Barrier.{Barrier, undefined, new, wait, would_block_if_waited_on}

-- The threads arrive one after the other.
pub wait_all : List ℕ → Barrier → Barrier
wait_all [] b = b
wait_all (t ∷ ts) b = wait_all ts (wait b t)

-- No thread of the second list is in the first, or twice in the second.
abbrev pub Fresh : List ℕ → List ℕ → Type 0
Fresh xs [] = Unit {0}
Fresh xs (t ∷ ts) = (contains xs t ≡ false) × Fresh (t ∷ xs) ts

-- A barrier in its first round, and one that the first round has filled.
abbrev filling : ℕ → ℕ → List ℕ → Barrier
filling sys n xs = record {
  system_identity = sys;
  wait_count = n;
  state = undefined;
  waiting_odd = xs;
  waiting_even = [];
  is_even = false;
}

abbrev filled : ℕ → ℕ → List ℕ → Barrier
filled sys n xs = record (filling sys n xs) { is_even = true }

module _ (sys n : ℕ) where
  wait-filling :
      (xs : List ℕ) (t : ℕ)
      → contains xs t ≡ false
      → length xs + 1 < n
      → wait (filling sys n xs) t ≡ filling sys n (t ∷ xs)
  unfolding wait insert contains
  wait-filling xs t new_thread room = ground arith

  wait-filled :
      (xs : List ℕ) (t : ℕ)
      → contains xs t ≡ false
      → length xs + 1 ≡ n
      → wait (filling sys n xs) t ≡ filled sys n (t ∷ xs)
  unfolding wait insert contains
  wait-filled xs t new_thread last = ground arith

  wait_all-filling :
      (ts xs : List ℕ)
      → Fresh xs ts
      → length xs + length ts < n
      → (ys : List ℕ) × (wait_all ts (filling sys n xs) ≡ filling sys n ys) × (length ys < n)
  unfolding wait_all
  wait_all-filling [] xs f room = (xs, refl, omega arith)
  wait_all-filling (t ∷ ts) xs f room =
      let (ys, e, small) = wait_all-filling ts (t ∷ xs) f.1 (omega arith) in
      (ys, ap (wait_all ts) (wait-filling xs t f.0 (omega arith)) ∙ e, small)

  wait_all-filled :
      (ts xs : List ℕ)
      → Fresh xs ts
      → 0 < length ts
      → length xs + length ts ≡ n
      → (ys : List ℕ) × (wait_all ts (filling sys n xs) ≡ filled sys n ys)
        × (length ys ≡ n)
        × ((t : ℕ) → contains ts t ≡ true → contains ys t ≡ true)
        × ((t : ℕ) → contains xs t ≡ true → contains ys t ≡ true)
  unfolding wait_all contains
  wait_all-filled [] xs f some_thread full = absurd (omega arith)
  wait_all-filled (t ∷ []) xs f some_thread full = (
    t ∷ xs,
    wait-filled xs t f.0 (omega arith),
    omega arith,
    λ u h. ground arith,
    λ u h. ground arith,
  )
  wait_all-filled (t ∷ (s ∷ ts)) xs f some_thread full =
      let (ys, e, size, new_ones, old_ones) =
        wait_all-filled (s ∷ ts) (t ∷ xs) f.1 (omega arith) (omega arith) in
      (
        ys,
        ap (wait_all (s ∷ ts)) (wait-filling xs t f.0 (omega arith)) ∙ e,
        size,
        λ u h. ground (arith, new_ones u, old_ones u),
        λ u h. ground (arith, old_ones u),
      )

-- While fewer than `n` distinct threads have arrived at a new barrier for `n` threads, every thread
-- that waits on it, or would, is blocked.
pub partial_round_blocks :
    (sys n : ℕ) (ts : List ℕ) (tid : ℕ)
    → Fresh [] ts
    → length ts < n
    → would_block_if_waited_on (wait_all ts (new sys n)) tid ≡ true
unfolding new would_block_if_waited_on contains
partial_round_blocks sys n ts tid f room =
    let (ys, e, small) = wait_all-filling sys n ts [] f (omega arith) in
    ap (λ b. would_block_if_waited_on b tid) e ∙ ground arith

-- Once `n` distinct threads have arrived at a new barrier for `n` threads, none of them is blocked.
pub full_round_passes :
    (sys n : ℕ) (ts : List ℕ) (tid : ℕ)
    → Fresh [] ts
    → 0 < n
    → length ts ≡ n
    → contains ts tid ≡ true
    → would_block_if_waited_on (wait_all ts (new sys n)) tid ≡ false
unfolding new would_block_if_waited_on contains
full_round_passes sys n ts tid f pos full member =
    let (ys, e, size, new_ones, old_ones) =
      wait_all-filled sys n ts [] f (omega arith) (omega arith) in
    ap (λ b. would_block_if_waited_on b tid) e ∙ ground (arith, new_ones tid member)

wait_again :
    (sys n : ℕ) (ys us : List ℕ)
    → All (λ u. contains ys u ≡ true) us
    → wait_all us (filled sys n ys) ≡ filled sys n ys
unfolding wait_all wait contains
wait_again sys n ys [] h = refl
wait_again sys n ys (u ∷ us) h = ap (wait_all us) (ground (arith, h.0)) ∙ wait_again sys n ys us h.1

All-contains :
    (ts ys us : List ℕ)
    → ((t : ℕ) → contains ts t ≡ true → contains ys t ≡ true)
    → All (λ u. contains ts u ≡ true) us
    → All (λ u. contains ys u ≡ true) us
All-contains ts ys [] sub h = tt
All-contains ts ys (u ∷ us) sub h = (sub u h.0, All-contains ts ys us sub h.1)

-- A barrier works once: after the round in which `n` distinct threads arrived at a new barrier for `n`
-- threads, any later arrivals of these threads leave the barrier as it is, and none of them is blocked,
-- however few of them have come back.
pub second_round_never_blocks :
    (sys n : ℕ) (ts us : List ℕ) (tid : ℕ)
    → Fresh [] ts
    → 0 < n
    → length ts ≡ n
    → All (λ u. contains ts u ≡ true) us
    → contains ts tid ≡ true
    → (wait_all us (wait_all ts (new sys n)) ≡ wait_all ts (new sys n))
      × (would_block_if_waited_on (wait_all us (wait_all ts (new sys n))) tid ≡ false)
unfolding new
second_round_never_blocks sys n ts us tid f pos full again member = (same, rw same passes)
  where
    passes : would_block_if_waited_on (wait_all ts (new sys n)) tid ≡ false
    passes = full_round_passes sys n ts tid f pos full member

    same : wait_all us (wait_all ts (new sys n)) ≡ wait_all ts (new sys n)
    same =
        let (ys, e, size, new_ones, old_ones) =
          wait_all-filled sys n ts [] f (omega arith) (omega arith) in
        ap (wait_all us) e ∙ wait_again sys n ys us (All-contains ts ys us new_ones again) ∙ sym e
