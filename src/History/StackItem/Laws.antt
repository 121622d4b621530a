-- ===== src/History/StackItem/Laws.antt =====
-- The backtrack set and the done set of src/MCStackItem.cpp.
use dmtcp_integration.Base.{
  ℕ, ◌≤◌, ◌≡◌, ◌≢◌, refl, ◌⊎◌, inl, inr, true, false, not, ◌&&◌, ◌||◌, some, List, [], ◌∷◌, arith,
  ◌==◌, ltb, if◌then◌else◌, Bool-cases, contains, contains-insert, contains-erase,
}
use dmtcp_integration.History.StackItem.{
  StackItem, add_backtracking_thread_if_unsearched, mark_backtrack_thread_searched,
  has_threads_to_backtrack_on, smallest_from, pop_thread_to_backtrack_on,
}

-- No thread waits to be searched that has been searched.
abbrev pub IsDisjoint : StackItem → Type 0
IsDisjoint s =
    (tid : ℕ) → (contains s.done_set tid ≡ false) ⊎ (contains s.backtrack_set tid ≡ false)

-- Adding a thread and marking one as searched keep the two sets of an item disjoint.
pub updates-IsDisjoint :
    (s : StackItem) (tid : ℕ)
    → IsDisjoint s
    → IsDisjoint (add_backtracking_thread_if_unsearched s tid)
      × IsDisjoint (mark_backtrack_thread_searched s tid)
unfolding add_backtracking_thread_if_unsearched mark_backtrack_thread_searched
updates-IsDisjoint s tid d = (
  λ u. ground (arith, d u, contains-insert tid u s.backtrack_set),
  λ u. ground (arith, d u, contains-insert tid u s.done_set, contains-erase tid u s.backtrack_set),
)

smallest_from-le :
    (b : ℕ) (ts : List ℕ)
    → (smallest_from b ts ≤ b) × ((u : ℕ) → contains ts u ≡ true → smallest_from b ts ≤ u)
unfolding smallest_from contains
smallest_from-le b [] = (omega arith, λ u h. cc)
smallest_from-le b (t ∷ ts) =
    let next = if ltb t b then t else b in
    let (least, all) = smallest_from-le next ts in
    (ground (arith, least), λ u h. ground (arith, least, all u))

smallest_from-mem :
    (b : ℕ) (ts : List ℕ) → (smallest_from b ts ≡ b) ⊎ (contains ts (smallest_from b ts) ≡ true)
unfolding smallest_from contains
smallest_from-mem b [] = inl refl
smallest_from-mem b (t ∷ ts) = elim (Bool-cases (ltb t b)) [
  | inl less ↦ rw (less, smallest_from) (found t (smallest_from-mem t ts))
  | inr more ↦ rw (more, smallest_from) (kept (smallest_from-mem b ts))
]
  where
    found :
        (u : ℕ)
        → (smallest_from t ts ≡ t) ⊎ (contains ts (smallest_from t ts) ≡ true)
        → (smallest_from t ts ≡ b)
          ⊎ ((t == smallest_from t ts || contains ts (smallest_from t ts)) ≡ true)
    found u h = ground arith

    kept :
        (smallest_from b ts ≡ b) ⊎ (contains ts (smallest_from b ts) ≡ true)
        → (smallest_from b ts ≡ b)
          ⊎ ((t == smallest_from b ts || contains ts (smallest_from b ts)) ≡ true)
    kept h = ground arith

-- What the item is after a thread has been popped.
pub record Popped (s : StackItem) (tid : ℕ) (s' : StackItem) : Type 0 where
  pub member : contains s.backtrack_set tid ≡ true
  pub least : (u : ℕ) → (contains s.backtrack_set u ≡ false) ⊎ (tid ≤ u)
  pub done : (u : ℕ) → contains s'.done_set u ≡ (tid == u || contains s.done_set u)
  pub left : (u : ℕ) → contains s'.backtrack_set u ≡ (not (tid == u) && contains s.backtrack_set u)
  pub asleep : s'.sleep_set ≡ s.sleep_set

-- Whichever element the iteration starts with: if there is a thread to backtrack on, the pop gives the
-- smallest one, moves that thread alone from the backtrack set to the done set, and keeps the sleep set.
pub pop-Popped :
    (begin : List ℕ → ℕ)
    → ((xs : List ℕ) → xs ≢ [] → contains xs (begin xs) ≡ true)
    → (s : StackItem) → has_threads_to_backtrack_on s ≡ true
    → (tid : ℕ) × (s' : StackItem) × (pop_thread_to_backtrack_on begin s ≡ some (tid, s'))
      × Popped s tid s'
unfolding pop_thread_to_backtrack_on
pop-Popped begin member s some_thread = (
  tid,
  mark_backtrack_thread_searched s tid,
  rw some_thread,
  record {
    member = ground (arith, smallest_from-mem first s.backtrack_set, first_member);
    least = λ u. elim (Bool-cases (contains s.backtrack_set u)) [
      | inl h ↦ inr ((smallest_from-le first s.backtrack_set).1 u h)
      | inr h ↦ inl h
    ];
    done = λ u. contains-insert tid u s.done_set;
    left = λ u. contains-erase tid u s.backtrack_set;
    asleep = refl;
  },
)
  where
    first : ℕ
    first = begin s.backtrack_set

    tid : ℕ
    tid = smallest_from first s.backtrack_set

    first_member : contains s.backtrack_set first ≡ true
    first_member = member s.backtrack_set (λ e. ground arith)

-- A sequence of requests to backtrack on threads.
abbrev pub requests : List ℕ → StackItem → StackItem
requests [] s = s
requests (t ∷ ts) s = requests ts (add_backtracking_thread_if_unsearched s t)

-- A thread that is in the done set and not in the backtrack set, as it is after it has been popped, is
-- not put into the backtrack set by any sequence of requests.
pub searched_once :
    (ts : List ℕ) (s : StackItem) (tid : ℕ)
    → contains s.done_set tid ≡ true
    → contains s.backtrack_set tid ≡ false
    → contains (requests ts s).backtrack_set tid ≡ false
unfolding add_backtracking_thread_if_unsearched
searched_once [] s tid d b = b
searched_once (t ∷ ts) s tid d b =
    searched_once ts (add_backtracking_thread_if_unsearched s t) tid (ground arith)
      (ground (arith, contains-insert t tid s.backtrack_set))
