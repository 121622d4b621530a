-- ===== src/Transitions/Program/Laws.antt =====
-- Creating threads (src/MCStack.cpp).
use dmtcp_integration.Base.{
  ℕ, true, Option, none, some, ◌≡◌, refl, ap, subst, ◌∙◌, Option-cases, Bool-cases, arith, ◌+◌, ◌<◌,
  ◌≤◌, List, [], ◌∷◌, ◌++◌, length, ltb, set, ◌==◌, inl, inr,
}
use dmtcp_integration.Objects.Thread.{Thread, ThreadState}
use dmtcp_integration.Store
use dmtcp_integration.Store.{StorageObject, find, insert_pair, get_object_with_id}
use dmtcp_integration.Store.Laws.{
  find-insert_pair, find-insert_pair_known, find-insert_pair_other, get_object_with_id-append_end,
  get_object_with_id-append_left,
}
use dmtcp_integration.Transitions.Program.{
  Program, VisibleObject, of_thread, copy, register_new_object, get_thread_with_id,
  create_new_thread, add_new_thread, cast_thread, max_total_threads, initial_transition,
  set_next_transition_for_thread,
}
use dmtcp_integration.Transitions.{Transition}

-- The thread that `createNewThread` makes.
abbrev pub new_thread : Program → ℕ → ThreadState → Thread
new_thread p sys state = record { tid = p.next_thread_id; state = state; system_identity = sys }

abbrev in_store : Thread → StorageObject VisibleObject
in_store x = record { current = of_thread x; initial_state = of_thread x }

create_new_thread-result :
    (p q : Program) (sys tid : ℕ) (state : ThreadState)
    → create_new_thread p sys state ≡ some (tid, q)
    → (tid ≡ p.next_thread_id)
      × (q.next_thread_id ≡ p.next_thread_id + 1)
      × (q.next_transitions ≡ p.next_transitions)
      × (q.thread_id_map
          ≡ insert_pair p.next_thread_id (length p.object_storage.storage) p.thread_id_map)
      × (q.object_storage.storage
          ≡ p.object_storage.storage ++ in_store (new_thread p sys state) ∷ [])
unfolding create_new_thread register_new_object Store.register_new_object
    Store.map_system_address_to_shadow copy
create_new_thread-result p q sys tid state h = ground arith

find-insert_pair_kept :
    (m : List (ℕ × ℕ)) (k v j w : ℕ) → find m j ≡ some w → find (insert_pair k v m) j ≡ some w
find-insert_pair_kept m k v j w h = elim (Bool-cases (k == j)) [
  | inl e ↦
      subst (λ i. find (insert_pair i v m) j ≡ some w) (ground (arith, e))
        (find-insert_pair_known m j v w h)
  | inr e ↦ find-insert_pair_other m k v j e ∙ h
]

thread_found :
    (p : Program) (t id : ℕ) (x : Thread)
    → find p.thread_id_map t ≡ some id
    → get_object_with_id p.object_storage id ≡ some (of_thread x)
    → get_thread_with_id p t ≡ some x
unfolding get_thread_with_id
thread_found p t id x e f = rw (e, f) refl

cast_thread-of_thread : (v : VisibleObject) (x : Thread) → cast_thread v ≡ some x → v ≡ of_thread x
cast_thread-of_thread (of_thread y) x h = ground arith
cast_thread-of_thread _ x h = cc

thread_place :
    (p : Program) (t : ℕ) (x : Thread)
    → get_thread_with_id p t ≡ some x
    → (id : ℕ) × (find p.thread_id_map t ≡ some id)
      × (get_object_with_id p.object_storage id ≡ some (of_thread x))
unfolding get_thread_with_id
thread_place p t x h = elim (Option-cases (find p.thread_id_map t)) [
  | inl e ↦ absurd (ground arith)
  | inr (id, e) ↦ elim (Option-cases (get_object_with_id p.object_storage id)) [
    | inl f ↦ absurd (ground arith)
    | inr (v, f) ↦ (id, e, f ∙ ap some (cast_thread-of_thread v x (ground arith)))
  ]
]

-- Every thread with a number below the next is found, with that number, and no other is in the map.
pub record Inv (p : Program) : Type 0 where
  pub known :
      (t : ℕ)
      → t < p.next_thread_id
      → (x : Thread) × (get_thread_with_id p t ≡ some x) × (x.tid ≡ t)
  pub fresh : (t : ℕ) → p.next_thread_id ≤ t → find p.thread_id_map t ≡ none

-- A thread that the map does not have is found after its creation, with its number and state, and every
-- thread that was found is still found.
pub create_new_thread-lookup :
    (p q : Program) (sys tid : ℕ) (state : ThreadState)
    → find p.thread_id_map p.next_thread_id ≡ none
    → create_new_thread p sys state ≡ some (tid, q)
    → (get_thread_with_id q tid ≡ some (new_thread p sys state))
      × ((t : ℕ) (x : Thread) → get_thread_with_id p t ≡ some x → get_thread_with_id q t ≡ some x)
create_new_thread-lookup p q sys tid state f h =
    let (is, _, _, mapped, stored) = create_new_thread-result p q sys tid state h in
    let stored_as = in_store (new_thread p sys state) in
    (
      thread_found q tid (length p.object_storage.storage) (new_thread p sys state)
          (grind (
            arith,
            is,
            mapped,
            find-insert_pair p.thread_id_map p.next_thread_id (length p.object_storage.storage) f,
          ))
          (get_object_with_id-append_end p.object_storage q.object_storage stored_as stored),
      λ t x e.
          let (id, at, holds) = thread_place p t x e in
          thread_found q t id x
            (ap (λ m. find m t) mapped
              ∙ find-insert_pair_kept p.thread_id_map p.next_thread_id
                  (length p.object_storage.storage) t id at)
            (get_object_with_id-append_left p.object_storage q.object_storage stored_as id
              (of_thread x) stored holds),
    )

-- Creating a thread keeps the invariant: the threads with a number below the next are found.
pub create_new_thread-Inv :
    (p q : Program) (sys tid : ℕ) (state : ThreadState)
    → Inv p
    → create_new_thread p sys state ≡ some (tid, q)
    → Inv q
create_new_thread-Inv p q sys tid state v h =
    let (is, next, _, mapped, _) = create_new_thread-result p q sys tid state h in
    let (found, kept) =
      create_new_thread-lookup p q sys tid state (v.fresh p.next_thread_id (omega arith)) h in
    record {
      known = λ t less. elim (Bool-cases (t == p.next_thread_id)) [
        | inl e ↦ (new_thread p sys state, ground (arith, e, is, found), ground (arith, e))
        | inr e ↦
            let (x, at, numbered) = v.known t (ground (arith, e, next, less)) in
            (x, kept t x at, numbered)
      ];
      fresh = λ t more.
          ap (λ m. find m t) mapped
          ∙ find-insert_pair_other p.thread_id_map p.next_thread_id
              (length p.object_storage.storage) t (ground (arith, next, more))
          ∙ v.fresh t (omega (arith, next, more));
    }

small : (n : ℕ) → n < max_total_threads → ltb n max_total_threads ≡ true
small n h = ground (arith, h)

small_store : (n : ℕ) → n < 10000 → ltb n 10000 ≡ true
small_store n h = ground (arith, h)

create_new_thread-Returns :
    (p : Program) (sys : ℕ) (state : ThreadState)
    → length p.object_storage.storage < 10000
    → (q : Program) × (create_new_thread p sys state ≡ some (p.next_thread_id, q))
unfolding create_new_thread register_new_object Store.register_new_object
create_new_thread-Returns p sys state space =
    let fits = small_store (length p.object_storage.storage) space in
    elim (Option-cases (create_new_thread p sys state)) [
      | inl e ↦ absurd (ground (arith, fits, e))
      | inr ((tid, q), e) ↦
          let (is, _, _, _, _) = create_new_thread-result p q sys tid state e in
          (q, e ∙ ap (λ n. some (n, q)) is)
    ]

transitions-Inv :
    (q : Program) (ts : List (Option Transition)) → Inv q → Inv (record q { next_transitions = ts })
unfolding get_thread_with_id
transitions-Inv q ts v = record { known = v.known; fresh = v.fresh }

-- While there is room for another object and another thread, `addNewThread` returns the next number,
-- finds the new thread under it, and makes its start the thread's next transition.
pub add_new_thread-Returns :
    (p : Program) (sys : ℕ) (state : ThreadState)
    → Inv p
    → p.next_thread_id < max_total_threads
    → length p.object_storage.storage < 10000
    → (q : Program) × (add_new_thread p sys state ≡ some (p.next_thread_id, q))
      × (get_thread_with_id q p.next_thread_id ≡ some (new_thread p sys state))
      × (q.next_transitions
          ≡ set p.next_transitions p.next_thread_id (some (initial_transition p.next_thread_id)))
      × Inv q
unfolding add_new_thread set_next_transition_for_thread get_thread_with_id
add_new_thread-Returns p sys state v room space =
    let (q, e) = create_new_thread-Returns p sys state space in
    let (found, _) =
      create_new_thread-lookup p q sys p.next_thread_id state
        (v.fresh p.next_thread_id (omega arith)) e in
    let (_, _, same_transitions, _, _) =
      create_new_thread-result p q sys p.next_thread_id state e in
    (
      record q {
        next_transitions =
            set q.next_transitions p.next_thread_id (some (initial_transition p.next_thread_id));
      },
      rw (e, found, small p.next_thread_id room) refl,
      found,
      ap (λ ts. set ts p.next_thread_id (some (initial_transition p.next_thread_id)))
          same_transitions,
      transitions-Inv q
          (set q.next_transitions p.next_thread_id (some (initial_transition p.next_thread_id)))
          (create_new_thread-Inv p q sys p.next_thread_id state v e),
    )
