-- ===== src/Transitions/Handlers/Laws.antt =====
-- What the handlers of src/transitions guarantee of the transitions that they make.
use dmtcp_integration.Base.{
  ℕ, Bool, true, ◌||◌, some, ◌≡◌, ◌≢◌, refl, sym, ap, subst, ◌∙◌, ◌⊎◌, inl, inr, Option-cases,
  arith,
}
use dmtcp_integration.Objects.Mutex
use dmtcp_integration.Objects.Mutex.{Mutex, undefined, unlocked, locked, destroyed}
use dmtcp_integration.Store
use dmtcp_integration.Store.{get_object_with_id}
use dmtcp_integration.Store.Laws.{get_object_with_id-write_object, get_object_with_id-append_end}
use dmtcp_integration.Transitions.{mutex_lock, Operation, on_mutex, Transition}
use dmtcp_integration.Transitions.Program.{
  Program, VisibleObject, of_mutex, copy, register_visible_object_with_system_identity,
}
use dmtcp_integration.Transitions.Execution.{cast_mutex}
use dmtcp_integration.Transitions.Enabled.{enabled_in_state}
use dmtcp_integration.Transitions.Handlers.{
  Read, reads, reports, stops, crashes, ◌>>=◌, find_object, find_or_register, put, finish_reading,
}
use dmtcp_integration.Transitions.Handlers.Mutexes.{at, read_mutex_lock, unlock_undefined}

find_object-stored :
    (p : Program) (address id : ℕ) (v : VisibleObject)
    → find_object p address ≡ some (id, v)
    → get_object_with_id p.object_storage id ≡ some v
unfolding find_object
find_object-stored p address id v h = ground arith

registered-stored :
    (p q : Program) (address id : ℕ) (v : VisibleObject)
    → register_visible_object_with_system_identity p address v ≡ some (id, q)
    → get_object_with_id q.object_storage id ≡ some v
unfolding register_visible_object_with_system_identity Store.register_new_object
    Store.map_system_address_to_shadow
registered-stored p q address id v h = ground (
  arith,
  get_object_with_id-append_end p.object_storage q.object_storage
      (record { current = v; initial_state = copy v }),
)

-- The object that was found or registered is in the store under its id.
find_or_register-stored :
    (p q : Program) (address id : ℕ) (object v : VisibleObject)
    → find_or_register p address object ≡ reads (id, v, q)
    → get_object_with_id q.object_storage id ≡ some v
unfolding find_or_register
find_or_register-stored p q address id object v h = elim (Option-cases (find_object p address)) [
  | inr ((i, w), e) ↦ ground (arith, e, find_object-stored p address i w e)
  | inl e ↦ elim (Option-cases (register_visible_object_with_system_identity p address object)) [
    | inl f ↦ absurd (ground (arith, e, f))
    | inr ((i, r), f) ↦ ground (arith, e, f, registered-stored p r address i object f)
  ]
]

finish_reading-keeps :
    (p q : Program) (executor : ℕ) (o : Operation) (t : Transition)
    → finish_reading p executor o ≡ reads (t, q)
    → (q ≡ p) × (t.operation ≡ o)
unfolding finish_reading
finish_reading-keeps p q executor o t h = ground arith

module _ {A : Type 0} where
  Read-cases : (r : Read A) → ((a : A) × (r ≡ reads a)) ⊎ ((a : A) → r ≢ reads a)
  Read-cases (reads a) = inl (a, refl)
  Read-cases reports = inr (λ a h. ground arith)
  Read-cases stops = inr (λ a h. ground arith)
  Read-cases crashes = inr (λ a h. ground arith)

  bind-never :
      {B : Type 0} (r : Read A) (f : A → Read B)
      → ((a : A) → r ≢ reads a)
      → (b : B) → (r >>= f) ≢ reads b
  bind-never (reads a) f never b h = never a refl
  bind-never reports f never b h = ground arith
  bind-never stops f never b h = ground arith
  bind-never crashes f never b h = ground arith

lock_enabled :
    (q : Program) (t id address : ℕ) (m : Mutex)
    → get_object_with_id q.object_storage id ≡ some (of_mutex m)
    → enabled_in_state q t
        (on_mutex mutex_lock (record { object_id = id; system_identity = address }))
      ≡ some (Mutex.is_unlocked m)
unfolding enabled_in_state Mutex.can_acquire
lock_enabled q t id address m h = rw h refl

-- What stands before the transition in the handler of a locking.
read_mutex_lock-parts :
    (f : ℕ → Bool) (p q : Program) (executor address : ℕ) (t : Transition)
    → read_mutex_lock f p executor address ≡ reads (t, q)
    → (id : ℕ) × (m : Mutex) × (r : Program) × (get_object_with_id r.object_storage id
        ≡ some (of_mutex m))
      × ((Mutex.is_unlocked m || Mutex.is_locked m) ≡ true)
      × (finish_reading r executor (on_mutex mutex_lock (at id address)) ≡ reads (t, q))
unfolding read_mutex_lock put Store.write_object
read_mutex_lock-parts f p q executor address t h =
    let looked = find_or_register p address (of_mutex (Mutex.new address)) in
    elim (Read-cases looked) [
      | inr never ↦ absurd (bind-never looked _ never (t, q) h)
      | inl ((id, v, r), e) ↦ elim (Option-cases (cast_mutex v)) [
        | inl k ↦ absurd (ground (arith, e, k, h))
        | inr (m, k) ↦ (
          id,
          unlock_undefined m,
          put r id (of_mutex (unlock_undefined m)),
          get_object_with_id-write_object r.object_storage id v (of_mutex (unlock_undefined m))
              (find_or_register-stored p r address id (of_mutex (Mutex.new address)) v e),
          ground (arith, e, k, h),
          ground (arith, e, k, h),
        )
      ]
    ]

-- A locking that its handler has read refers to a mutex of the state that is locked or unlocked; its guard
-- is defined, and holds exactly if that mutex is unlocked.
pub read_mutex_lock-guarded :
    (f : ℕ → Bool) (p q : Program) (executor address : ℕ) (t : Transition)
    → read_mutex_lock f p executor address ≡ reads (t, q)
    → (id : ℕ) × (m : Mutex) × (t.operation
        ≡ on_mutex mutex_lock (record { object_id = id; system_identity = address }))
      × (get_object_with_id q.object_storage id ≡ some (of_mutex m))
      × ((Mutex.is_unlocked m || Mutex.is_locked m) ≡ true)
      × (enabled_in_state q t.thread t.operation ≡ some (Mutex.is_unlocked m))
read_mutex_lock-guarded f p q executor address t h =
    let (id, m, r, stored, usable, finished) = read_mutex_lock-parts f p q executor address t h in
    let (same_program, operation) =
      finish_reading-keeps r q executor (on_mutex mutex_lock (at id address)) t finished in
    let found =
      subst (λ x. get_object_with_id x.object_storage id ≡ some (of_mutex m)) (sym same_program)
        stored in
    (
      id,
      m,
      operation,
      found,
      usable,
      ap (λ o. enabled_in_state q t.thread o) operation
          ∙ lock_enabled q t.thread id address m found,
    )
