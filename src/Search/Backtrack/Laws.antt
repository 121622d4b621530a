-- ===== src/Search/Backtrack/Laws.antt =====
-- What src/MCStack.cpp adds to the backtrack set of a state.
use dmtcp_integration.Base.{
  ℕ, ◌≡◌, refl, ◌∙◌, ◌⊎◌, inl, inr, Bool, true, false, not, ◌||◌, List, [], ◌∷◌, arith, ◌==◌,
  if◌then◌else◌, Bool-cases, contains, contains-insert, ==_iff,
}
use dmtcp_integration.History.StackItem
use dmtcp_integration.History.StackItem.{StackItem}
use dmtcp_integration.Search.Backtrack.{add_all_awake}

-- A thread is, or has been, searched from the state.
abbrev pub covered : StackItem → ℕ → Bool
covered item q = contains item.backtrack_set q || contains item.done_set q

-- An item that differs from another in a backtrack set that has grown by some of the given threads that
-- are not asleep.
pub record Extends (enabled : List ℕ) (item item' : StackItem) : Type 0 where
  pub done : item'.done_set ≡ item.done_set
  pub asleep : item'.sleep_set ≡ item.sleep_set
  pub kept :
      (q : ℕ) → (contains item.backtrack_set q ≡ false) ⊎ (contains item'.backtrack_set q ≡ true)
  pub added :
      (q : ℕ)
      → (contains item'.backtrack_set q ≡ contains item.backtrack_set q)
        ⊎ ((contains enabled q ≡ true) × (StackItem.thread_is_in_sleep_set item q ≡ false))

pub Extends-trans :
    (qs : List ℕ) (a b d : StackItem) → Extends qs a b → Extends qs b d → Extends qs a d
unfolding StackItem.thread_is_in_sleep_set
Extends-trans qs a b d x y = record {
  done = y.done ∙ x.done;
  asleep = y.asleep ∙ x.asleep;
  kept = λ q. ground (arith, x.kept q, y.kept q);
  added = λ q. ground (arith, x.added q, y.added q, x.asleep);
}

-- One request for an enabled thread that is not asleep.
pub request-Extends :
    (enabled : List ℕ) (item : StackItem) (q : ℕ)
    → contains enabled q ≡ true
    → StackItem.thread_is_in_sleep_set item q ≡ false
    → Extends enabled item (StackItem.add_backtracking_thread_if_unsearched item q)
unfolding StackItem.add_backtracking_thread_if_unsearched
request-Extends enabled item q e w = record {
  done = ground arith;
  asleep = ground arith;
  kept = λ u. ground (arith, contains-insert q u item.backtrack_set);
  added = λ u. elim (Bool-cases (q == u)) [
    | inl same ↦ let same' : q ≡ u = (==_iff q u).0 same in inr (rw (← same') e, rw (← same') w)
    | inr differs ↦ inl (ground (arith, contains-insert q u item.backtrack_set))
  ];
}

pub covered-request :
    (item : StackItem) (q u : ℕ)
    → covered (StackItem.add_backtracking_thread_if_unsearched item q) u
      ≡ (q == u || covered item u)
unfolding StackItem.add_backtracking_thread_if_unsearched
covered-request item q u = elim (Bool-cases (q == u)) [
  | inl same ↦
      let same' : q ≡ u = (==_iff q u).0 same in
      rw (← same') (ground (arith, contains-insert q q item.backtrack_set))
  | inr differs ↦ ground (arith, contains-insert q u item.backtrack_set)
]

pub covered-Extends :
    (qs : List ℕ) (a b : StackItem) (q : ℕ)
    → Extends qs a b
    → covered a q ≡ true
    → covered b q ≡ true
covered-Extends qs a b q x h = ground (arith, x.kept q, x.done)

pub Extends-refl : (qs : List ℕ) (a : StackItem) → Extends qs a a
Extends-refl qs a = record {
  done = refl;
  asleep = refl;
  kept = λ q. elim (Bool-cases (contains a.backtrack_set q)) [ inl h ↦ inr h | inr h ↦ inl h ];
  added = λ q. inl refl;
}

-- One round of the loop over all enabled threads.
abbrev round : StackItem → ℕ → StackItem
round item q =
    if not (StackItem.thread_is_in_sleep_set item q)
    then StackItem.add_backtracking_thread_if_unsearched item q
    else item

round-Extends :
    (enabled : List ℕ) (item : StackItem) (q : ℕ)
    → contains enabled q ≡ true
    → Extends enabled item (round item q)
round-Extends enabled item q e = elim (Bool-cases (StackItem.thread_is_in_sleep_set item q)) [
  | inl sleeps ↦ rw sleeps (Extends-refl enabled item)
  | inr wakes ↦ rw wakes (request-Extends enabled item q e wakes)
]

round-covered :
    (item : StackItem) (q : ℕ)
    → StackItem.thread_is_in_sleep_set item q ≡ false
    → covered (round item q) q ≡ true
round-covered item q wakes = rw wakes (ground (arith, covered-request item q q))

pub add_all_awake-Extends :
    (enabled qs : List ℕ) (item : StackItem)
    → ((q : ℕ) → contains qs q ≡ true → contains enabled q ≡ true)
    → Extends enabled item (add_all_awake qs item)
unfolding add_all_awake contains
add_all_awake-Extends enabled [] item sub = Extends-refl enabled item
add_all_awake-Extends enabled (q ∷ qs) item sub =
    Extends-trans enabled item (round item q) (add_all_awake qs (round item q))
      (round-Extends enabled item q (sub q (ground arith)))
      (add_all_awake-Extends enabled qs (round item q) (λ u h. sub u (ground arith)))

pub add_all_awake-covered :
    (enabled qs : List ℕ) (item : StackItem) (q : ℕ)
    → ((u : ℕ) → contains qs u ≡ true → contains enabled u ≡ true)
    → contains qs q ≡ true
    → StackItem.thread_is_in_sleep_set item q ≡ false
    → covered (add_all_awake qs item) q ≡ true
unfolding add_all_awake contains StackItem.thread_is_in_sleep_set
add_all_awake-covered enabled [] item q sub m wakes = cc
add_all_awake-covered enabled (t ∷ qs) item q sub m wakes = elim (Bool-cases (t == q)) [
  | inl same ↦
      let same' : t ≡ q = (==_iff t q).0 same in
      covered-Extends enabled (round item t) (add_all_awake qs (round item t)) q later
        (rw same' (round-covered item q wakes))
  | inr differs ↦
      add_all_awake-covered enabled qs (round item t) q rest (ground arith)
        (ground (arith, (round-Extends enabled item t (sub t (ground arith))).asleep))
]
  where
    rest : (u : ℕ) → contains qs u ≡ true → contains enabled u ≡ true
    rest u h = sub u (ground arith)

    later : Extends enabled (round item t) (add_all_awake qs (round item t))
    later = add_all_awake-Extends enabled qs (round item t) rest
