-- ===== src/Search/Backtrack/Points.antt =====
-- The backtrack point that `dynamicallyUpdateBacktrackSetsHelper` of src/MCStack.cpp adds.
use dmtcp_integration.Base.{
  ℕ, ◌≡◌, ◌≢◌, refl, ◌⊎◌, inl, inr, Bool, true, false, not, ◌&&◌, some, List, [], ◌∷◌, arith, ◌==◌,
  if◌then◌else◌, Bool-cases, Option-cases, any, contains, insert, contains-insert, ==_iff, subst,
}
use dmtcp_integration.History.StackItem
use dmtcp_integration.History.StackItem.{StackItem}
use dmtcp_integration.Search.Interface.{TransitionClass}
use dmtcp_integration.Search.Stack.{Stack}
use dmtcp_integration.Search.Backtrack.{
  add_backtrack_point, in_e, collect_e, should_process, dynamically_update_backtrack_sets_helper,
}
use dmtcp_integration.Search.Backtrack.Laws.{
  covered, Extends, Extends-refl, request-Extends, covered-request, add_all_awake-Extends,
  add_all_awake-covered,
}

-- The documented behaviour of `*begin()` of a set: an element, if there is one.
abbrev pub PicksMember : (List ℕ → ℕ) → Type 0
PicksMember begin = (xs : List ℕ) → xs ≢ [] → contains xs (begin xs) ≡ true

any-covered :
    (item : StackItem) (e : List ℕ)
    → any (λ q. StackItem.is_backtracking_on_thread item q) e ≡ true
    → (q : ℕ) × (contains e q ≡ true) × (covered item q ≡ true)
unfolding StackItem.is_backtracking_on_thread contains
any-covered item [] h = cc
any-covered item (q ∷ e) h = elim (Bool-cases (contains item.backtrack_set q)) [
  | inl here ↦ (q, ground arith, ground arith)
  | inr there ↦ let (u, m, k) = any-covered item e (ground arith) in (u, ground arith, k)
]

-- With a set `E` of enabled threads that are awake, the item is extended, and some thread of `E` is
-- covered; if `E` is empty, every enabled thread that is awake is covered.
abbrev pub Point : List ℕ → List ℕ → StackItem → StackItem → Type 0
Point e enabled item item' =
    Extends enabled item item'
    × (((q : ℕ) × (contains e q ≡ true) × (covered item' q ≡ true))
        ⊎ ((e ≡ [])
            × ((q : ℕ)
                → contains enabled q ≡ true
                → StackItem.thread_is_in_sleep_set item q ≡ false
                → covered item' q ≡ true)))

add_backtrack_point-Point :
    (begin : List ℕ → ℕ) (e enabled : List ℕ) (item : StackItem)
    → PicksMember begin
    → ((q : ℕ)
        → contains e q ≡ true
        → (contains enabled q ≡ true) × (StackItem.thread_is_in_sleep_set item q ≡ false))
    → Point e enabled item (add_backtrack_point begin e enabled item)
unfolding add_backtrack_point
add_backtrack_point-Point begin [] enabled item picks sub = (
  add_all_awake-Extends enabled enabled item (λ q h. h),
  inr (refl, λ q m w. add_all_awake-covered enabled enabled item q (λ u h. h) m w),
)
add_backtrack_point-Point begin (t ∷ e) enabled item picks sub =
    elim (Bool-cases (any (λ q. StackItem.is_backtracking_on_thread item q) (t ∷ e))) [
      | inl already ↦ rw already (Extends-refl enabled item, inl (any-covered item (t ∷ e) already))
      | inr fresh ↦ rw fresh (
        request-Extends enabled item first member.0 member.1,
        inl (first, picked, ground (arith, covered-request item first first)),
      )
    ]
  where
    first : ℕ
    first = begin (t ∷ e)

    picked : contains (t ∷ e) first ≡ true
    picked = picks (t ∷ e) (λ h. cc)

    member : (contains enabled first ≡ true) × (StackItem.thread_is_in_sleep_set item first ≡ false)
    member = sub first picked

module _ {S T : Type 0} (c : TransitionClass S T) (s : Stack S T) (item : StackItem) (i p : ℕ) where
  -- What makes a thread an element of `E`.
  abbrev pub Candidate : ℕ → Type 0
  Candidate q = (in_e c s i p q ≡ some true) × (StackItem.thread_is_in_sleep_set item q ≡ false)

  -- The set `E` after a thread has been considered.
  abbrev next_e : List ℕ → ℕ → Bool → List ℕ
  next_e e q member =
      if member && not (StackItem.thread_is_in_sleep_set item q) then insert q e else e

  next_e_sound :
      (e : List ℕ) (q u : ℕ) (b : Bool)
      → in_e c s i p q ≡ some b
      → contains (next_e e q b) u ≡ true
      → (contains e u ≡ true) ⊎ ((q ≡ u) × Candidate u)
  next_e_sound e q u false found m = inl m
  next_e_sound e q u true found m = elim (Bool-cases (StackItem.thread_is_in_sleep_set item q)) [
    | inl sleeps ↦ inl (ground (arith, sleeps))
    | inr wakes ↦ elim (Bool-cases (q == u)) [
      | inl same ↦
          let same' : q ≡ u = (==_iff q u).0 same in
          inr (same', (rw (← same') found, rw (← same') wakes))
      | inr differs ↦ inl (ground (arith, contains-insert q u e))
    ]
  ]

  next_e_keeps :
      (e : List ℕ) (q u : ℕ) (b : Bool) → contains e u ≡ true → contains (next_e e q b) u ≡ true
  next_e_keeps e q u b h = ground (arith, contains-insert q u e)

  next_e_adds :
      (e : List ℕ) (q : ℕ) (b : Bool)
      → in_e c s i p q ≡ some b
      → Candidate q
      → contains (next_e e q b) q ≡ true
  next_e_adds e q b found (member, wakes) = ground (arith, contains-insert q q e)

  collect_e_sound :
      (qs e r : List ℕ) (u : ℕ)
      → collect_e c s item i p qs e ≡ some r
      → contains r u ≡ true
      → (contains e u ≡ true) ⊎ ((contains qs u ≡ true) × Candidate u)
  unfolding collect_e contains
  collect_e_sound [] e r u h m = inl (ground arith)
  collect_e_sound (q ∷ qs) e r u h m = elim (Option-cases (in_e c s i p q)) [
    | inl failed ↦ ground (arith, failed)
    | inr (b, found) ↦
        let h' : collect_e c s item i p qs (next_e e q b) ≡ some r = ground (arith, found) in
        elim (collect_e_sound qs (next_e e q b) r u h' m) [
          | inr (k, candidate) ↦ inr (ground arith, candidate)
          | inl old ↦ elim (next_e_sound e q u b found old) [
            | inl older ↦ inl older
            | inr (same, candidate) ↦ inr (ground (arith, (==_iff q u).1 same), candidate)
          ]
        ]
  ]

  collect_e_complete :
      (qs e r : List ℕ) (u : ℕ)
      → collect_e c s item i p qs e ≡ some r
      → (contains e u ≡ true) ⊎ ((contains qs u ≡ true) × Candidate u)
      → contains r u ≡ true
  unfolding collect_e contains
  collect_e_complete [] e r u h m = ground arith
  collect_e_complete (q ∷ qs) e r u h m = elim (Option-cases (in_e c s i p q)) [
    | inl failed ↦ ground (arith, failed)
    | inr (b, found) ↦
        let h' : collect_e c s item i p qs (next_e e q b) ≡ some r = ground (arith, found) in
        collect_e_complete qs (next_e e q b) r u h' (elim m [
          | inl old ↦ inl (next_e_keeps e q u b old)
          | inr (k, candidate) ↦ elim (Bool-cases (q == u)) [
            | inl same ↦
                let same' : q ≡ u = (==_iff q u).0 same in
                inl (
                  subst (λ v. contains (next_e e q b) v ≡ true) same'
                    (next_e_adds e q b found (rw same' candidate)))
            | inr differs ↦ inr (ground arith, candidate)
          ]
        ])
  ]

  -- Some enabled thread that is awake, and is the thread itself or one that races with it later, is
  -- covered; or there is none, and all enabled threads that are awake are covered.
  abbrev pub Served : StackItem → Type 0
  Served item' =
      Extends item.enabled_threads item item'
      × (((q : ℕ) × (contains item.enabled_threads q ≡ true)
            × Candidate q
            × (covered item' q ≡ true))
          ⊎ ((q : ℕ)
              → (contains item.enabled_threads q ≡ false)
                ⊎ (StackItem.thread_is_in_sleep_set item q ≡ true)
                ⊎ ((in_e c s i p q ≢ some true) × (covered item' q ≡ true))))

  point-Served :
      (begin : List ℕ → ℕ) (e : List ℕ)
      → PicksMember begin
      → collect_e c s item i p item.enabled_threads [] ≡ some e
      → Served (add_backtrack_point begin e item.enabled_threads item)
  unfolding contains
  point-Served begin e picks collected =
      let (extends, point) =
        add_backtrack_point-Point begin e item.enabled_threads item picks members in
      (
        extends,
        elim point [
          | inl (q, m, k) ↦ inl (q, (candidates q m).0, (candidates q m).1, k)
          | inr (empty, all_covered) ↦ inr (λ q.
              elim (Bool-cases (contains item.enabled_threads q)) [
                | inr out ↦ inl out
                | inl enabled ↦ elim (Bool-cases (StackItem.thread_is_in_sleep_set item q)) [
                  | inl sleeps ↦ inr (inl sleeps)
                  | inr wakes ↦ inr (
                      inr (
                        λ h. absent empty q (
                            collect_e_complete item.enabled_threads [] e q collected
                              (inr (enabled, (h, wakes)))),
                        all_covered q enabled wakes,
                      ))
                ]
              ])
        ],
      )
    where
      candidates :
          (q : ℕ) → contains e q ≡ true → (contains item.enabled_threads q ≡ true) × Candidate q
      candidates q m = elim (collect_e_sound item.enabled_threads [] e q collected m) [
        | inl old ↦ ground arith
        | inr found ↦ found
      ]

      members :
          (q : ℕ)
          → contains e q ≡ true
          → (contains item.enabled_threads q ≡ true)
            × (StackItem.thread_is_in_sleep_set item q ≡ false)
      members q m = ((candidates q m).0, (candidates q m).1.1)

      absent : e ≡ [] → (q : ℕ) → contains e q ≢ true
      absent empty q m = ground (arith, empty)

  -- What the helper has done where it has returned.
  pub returned-Served :
      (begin : List ℕ → ℕ) (s_i next : T) (processed : Bool) (item' : StackItem)
      → PicksMember begin
      → dynamically_update_backtrack_sets_helper c begin s s_i item next i p
        ≡ some (processed, item')
      → (should_process c s s_i next i p ≡ some processed)
        × (((processed ≡ false) × (item' ≡ item)) ⊎ ((processed ≡ true) × Served item'))
  unfolding dynamically_update_backtrack_sets_helper contains
  returned-Served begin s_i next processed item' picks h =
      elim (Option-cases (should_process c s s_i next i p)) [
        | inl failed ↦ ground (arith, failed)
        | inr (false, quiet) ↦ ground (arith, quiet)
        | inr (true, race) ↦ elim (Option-cases (collect_e c s item i p item.enabled_threads [])) [
          | inl failed ↦ ground (arith, failed)
          | inr (e, collected) ↦
              let yes : processed ≡ true = ground (arith, race, collected) in
              let same : add_backtrack_point begin e item.enabled_threads item ≡ item' =
                ground (arith, race, collected) in
              (rw yes race, inr (yes, subst Served same (point-Served begin e picks collected)))
        ]
      ]
