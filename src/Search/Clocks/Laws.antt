-- ===== src/Search/Clocks/Laws.antt =====
-- What the maximum of clock vectors in `transitionStackMaxClockVector` of src/MCStack.cpp bounds.
use dmtcp_integration.Base.{
  ℕ, zero, suc, ◌≤◌, ◌≡◌, inl, inr, Bool, true, false, some, List, [], ◌∷◌, arith, if◌then◌else◌,
  Bool-cases, get_elem?, All,
}
use dmtcp_integration.History.ClockVector.{ClockVector, max_vector}
use dmtcp_integration.History.ClockVector.Laws.{value, IsMap, max_vector-IsMap, value-max_vector}
use dmtcp_integration.History.StackItem.{StackItem}
use dmtcp_integration.Search.Interface.{TransitionClass}
use dmtcp_integration.Search.Clocks.{max_clock_from}

-- The clock vector of every state maps no thread twice.
abbrev pub AreMaps : List StackItem → Type 0
AreMaps ss = All (λ item. IsMap item.clock_vector) ss

max_vector-right :
    (cv1 cv2 : ClockVector) (u : ℕ)
    → IsMap cv1
    → IsMap cv2
    → (value cv1 u ≤ value (max_vector cv1 cv2) u) × (value cv2 u ≤ value (max_vector cv1 cv2) u)
max_vector-right cv1 cv2 u m1 m2 =
    let (eq1, iff) = value-max_vector cv1 cv2 u m1 m2 in (omega (arith, eq1), omega (arith, eq1))

module _ {S T : Type 0} (c : TransitionClass S T) (t : T) where
  pub max_clock_from-IsMap :
      (ts : List T) (ss : List StackItem) (cv : ClockVector)
      → IsMap cv
      → IsMap (max_clock_from c ts ss t cv)
  unfolding max_clock_from
  max_clock_from-IsMap ts [] cv m = m
  max_clock_from-IsMap [] (s ∷ ss) cv m = m
  max_clock_from-IsMap (t' ∷ ts) (s ∷ ss) cv m =
      max_clock_from-IsMap ts ss _ (next (c.dependent t' t))
    where
      next : (b : Bool) → IsMap (if b then max_vector s.clock_vector cv else cv)
      next true = max_vector-IsMap s.clock_vector cv
      next false = m

  max_clock_from-increases :
      (ts : List T) (ss : List StackItem) (cv : ClockVector) (u : ℕ)
      → IsMap cv
      → AreMaps ss
      → value cv u ≤ value (max_clock_from c ts ss t cv) u
  unfolding max_clock_from
  max_clock_from-increases ts [] cv u m maps = omega arith
  max_clock_from-increases [] (s ∷ ss) cv u m maps = omega arith
  max_clock_from-increases (t' ∷ ts) (s ∷ ss) cv u m maps = elim (Bool-cases (c.dependent t' t)) [
    | inl dep ↦ rw dep (
        omega (
          arith,
          (max_vector-right s.clock_vector cv u maps.0 m).1,
          max_clock_from-increases ts ss (max_vector s.clock_vector cv) u
              (max_vector-IsMap s.clock_vector cv) maps.1,
        ))
    | inr indep ↦ rw indep (max_clock_from-increases ts ss cv u m maps.1)
  ]

  pub max_clock_from-bounds :
      (ts : List T) (ss : List StackItem) (cv : ClockVector) (i u : ℕ) (t_i : T) (item : StackItem)
      → IsMap cv
      → AreMaps ss
      → get_elem? ts i ≡ some t_i
      → get_elem? ss i ≡ some item
      → c.dependent t_i t ≡ true
      → value item.clock_vector u ≤ value (max_clock_from c ts ss t cv) u
  unfolding max_clock_from
  max_clock_from-bounds ts [] cv i u t_i item m maps h k dep = cc
  max_clock_from-bounds [] (s ∷ ss) cv i u t_i item m maps h k dep = cc
  max_clock_from-bounds (t' ∷ ts) (s ∷ ss) cv zero u t_i item m maps h k dep =
      let dep' : c.dependent t' t ≡ true = ground (arith, h) in
      rw dep' (
        ground (
          arith,
          k,
          (max_vector-right s.clock_vector cv u maps.0 m).0,
          max_clock_from-increases ts ss (max_vector s.clock_vector cv) u
              (max_vector-IsMap s.clock_vector cv) maps.1,
        ))
  max_clock_from-bounds (t' ∷ ts) (s ∷ ss) cv (suc i) u t_i item m maps h k dep =
      max_clock_from-bounds ts ss _ i u t_i item (next (c.dependent t' t)) maps.1 h k dep
    where
      next : (b : Bool) → IsMap (if b then max_vector s.clock_vector cv else cv)
      next true = max_vector-IsMap s.clock_vector cv
      next false = m
