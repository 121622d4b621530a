-- ===== src/History/SortedStack/Laws.antt =====
-- Order in the stack of include/mcmini/misc/MCSortedStack.hpp.
use dmtcp_integration.Base.{
  ℕ, ◌≤◌, ◌<◌, ◌≡◌, refl, ◌⊎◌, inl, inr, none, some, [], ◌∷◌, arith, leb, if◌then◌else◌, ltb,
  Bool-cases,
}
use dmtcp_integration.History.SortedStack.{SortedStack, top, push, pop, pop_greater_than}

-- Every entry is at most the entry above it; the number bounds the top.
abbrev pub Below : ℕ → SortedStack → Type 0
Below n [] = Unit {0}
Below n (t ∷ s) = (t ≤ n) × Below t s

abbrev pub IsSorted : SortedStack → Type 0
IsSorted [] = Unit {0}
IsSorted (t ∷ s) = Below t s

pub Below-mono : {m n : ℕ} (s : SortedStack) → m ≤ n → Below m s → Below n s
Below-mono [] h b = tt
Below-mono (t ∷ s) h b = (omega arith, b.1)

-- A push onto a sorted stack is refused exactly if the index is below the top, and otherwise gives a
-- sorted stack with the index on top of the old one.
pub push-IsSorted :
    (s : SortedStack) (index : ℕ)
    → IsSorted s
    → ((push s index ≡ none) × (t : ℕ) × (top s ≡ some t) × (index < t))
      ⊎ ((push s index ≡ some (index ∷ s)) × IsSorted (index ∷ s))
unfolding push top
push-IsSorted [] index h = inr (refl, tt)
push-IsSorted (t ∷ s) index h = elim (Bool-cases (ltb index t)) [
  | inl less ↦ inl (ground arith, t, refl, ground arith)
  | inr more ↦ inr (ground arith, (ground arith, h))
]

pub pop-IsSorted : (s : SortedStack) → IsSorted s → IsSorted (pop s)
unfolding pop
pop-IsSorted [] h = tt
pop-IsSorted (t ∷ []) h = tt
pop-IsSorted (t ∷ (u ∷ s)) h = h.1

pub keep_le : ℕ → SortedStack → SortedStack
keep_le index [] = []
keep_le index (t ∷ s) = if leb t index then t ∷ keep_le index s else keep_le index s

keep_le-Below : (index n : ℕ) (s : SortedStack) → Below n s → n ≤ index → keep_le index s ≡ s
unfolding keep_le
keep_le-Below index n [] b h = refl
keep_le-Below index n (t ∷ s) b h = ground (arith, keep_le-Below index t s b.1)

pop_greater-Below :
    (index n : ℕ) (s : SortedStack) → Below n s → pop_greater_than s index ≡ keep_le index s
unfolding pop_greater_than keep_le
pop_greater-Below index n [] b = refl
pop_greater-Below index n (t ∷ s) b =
    ground (arith, pop_greater-Below index t s b.1, keep_le-Below index t s b.1)

-- On a sorted stack the loop of `popGreaterThan`, which stops at the first entry that is small enough,
-- takes off every entry above the index and no other: it is a filter.
pub pop_greater_than-eq-filter :
    (s : SortedStack) (index : ℕ) → IsSorted s → pop_greater_than s index ≡ keep_le index s
unfolding pop_greater_than keep_le
pop_greater_than-eq-filter [] index h = refl
pop_greater_than-eq-filter (t ∷ s) index h = pop_greater-Below index t (t ∷ s) (omega arith, h)

pop_greater_than-Below :
    (n index : ℕ) (s : SortedStack)
    → Below n s
    → Below n (pop_greater_than s index) × Below index (pop_greater_than s index)
unfolding pop_greater_than
pop_greater_than-Below n index [] b = (tt, tt)
pop_greater_than-Below n index (t ∷ s) b = elim (Bool-cases (ltb index t)) [
  | inl more ↦
      rw more (
        let (below, small) = pop_greater_than-Below t index s b.1 in
        (Below-mono _ b.0 below, small))
  | inr less ↦ rw less (b, (ground arith, b.1))
]
