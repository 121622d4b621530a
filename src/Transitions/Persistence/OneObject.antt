-- ===== src/Transitions/Persistence/OneObject.antt =====
-- The guard of a transition after another, independent transition on the same object.
use dmtcp_integration.Base.{
  ℕ, true, false, ◌==◌, ◌<◌, List, [], ◌∷◌, ◌++◌, contains, some, ◌≡◌, refl, ap, arith,
}
use dmtcp_integration.Objects.Semaphore
use dmtcp_integration.Objects.Semaphore.{Semaphore}
use dmtcp_integration.Store.{get_object_with_id}
use dmtcp_integration.Transitions.{
  Ref, mutex_lock, sem_wait, barrier_wait, reader_lock, writer_lock, rww_reader_lock, writer1_lock,
  writer2_lock, Operation, on_mutex, on_semaphore, on_barrier, on_rwlock, on_rwwlock,
}
use dmtcp_integration.Transitions.Program.{Program, VisibleObject}
use dmtcp_integration.Transitions.Execution.{method}
use dmtcp_integration.Transitions.Enabled.{enabled_in_state}
use dmtcp_integration.Transitions.Meeting.{target_of, class_of, family}
use dmtcp_integration.Transitions.{
  MutexOperation, mutex_init, mutex_unlock, SemOperation, sem_init, sem_post, sem_enqueue, same,
  RwLockOperation, RwwLockOperation,
}
use dmtcp_integration.Transitions.Program.{of_semaphore, of_rwlock, of_rwwlock}
use dmtcp_integration.Transitions.Execution.{apply_to_semaphore}
use dmtcp_integration.Transitions.Execution.SameObject.{
  rwlock_operations_never_meet, rwwlock_operations_never_meet,
}
use dmtcp_integration.Transitions.Meeting.{
  Meeting, cast-fails, same_back, aligned, semaphore_guard_holds, rwlock_guard_holds,
  rwwlock_guard_holds,
}
use dmtcp_integration.Transitions.Relations.{operation_dependent_with}
use dmtcp_integration.Transitions.Mutexes
use dmtcp_integration.Transitions.Semaphores
use dmtcp_integration.Transitions.Barriers
use dmtcp_integration.Base.{◌+◌, ◌^◌, ◌%◌, subst, inl, inr, Bool-cases}

-- An operation that finds an object of another class, and is enabled, has no guard.
other_class-stays :
    (p q : Program) (u : ℕ) (o : Operation) (n : Ref) (v w : VisibleObject)
    → target_of o ≡ some n
    → get_object_with_id p.object_storage n.object_id ≡ some v
    → (class_of v == family o) ≡ false
    → enabled_in_state p u o ≡ some true
    → enabled_in_state q u o ≡ some true
unfolding enabled_in_state
other_class-stays p q u (on_mutex mutex_lock k) n v w h e d g = absurd (ground (arith, h, e, d, g))
other_class-stays p q u (on_semaphore sem_wait k) n v w h e d g =
    absurd (ground (arith, h, e, d, g))
other_class-stays p q u (on_barrier barrier_wait k c) n v w h e d g =
    absurd (ground (arith, h, e, d, g))
other_class-stays p q u (on_rwlock reader_lock k) n v w h e d g =
    absurd (ground (arith, h, e, d, g))
other_class-stays p q u (on_rwlock writer_lock k) n v w h e d g =
    absurd (ground (arith, h, e, d, g))
other_class-stays p q u (on_rwwlock rww_reader_lock k) n v w h e d g =
    absurd (ground (arith, h, e, d, g))
other_class-stays p q u (on_rwwlock writer1_lock k) n v w h e d g =
    absurd (ground (arith, h, e, d, g))
other_class-stays p q u (on_rwwlock writer2_lock k) n v w h e d g =
    absurd (ground (arith, h, e, d, g))
other_class-stays p q u (on_mutex _ k) n v w h e d g = refl
other_class-stays p q u (on_semaphore _ k) n v w h e d g = refl
other_class-stays p q u (on_barrier _ k c) n v w h e d g = refl
other_class-stays p q u (on_rwlock _ k) n v w h e d g = refl
other_class-stays p q u (on_rwwlock _ k) n v w h e d g = refl
other_class-stays p q u _ n v w h e d g = cc

-- The first sleeper stays the first when another thread goes to sleep.
front_stays :
    (q : List ℕ) (t u : ℕ)
    → (Semaphore.find_position q u == 0) ≡ true
    → contains q u ≡ true
    → (Semaphore.find_position (q ++ t ∷ []) u == 0) ≡ true
unfolding Semaphore.find_position contains
front_stays [] t u h k = ground arith
front_stays (x ∷ xs) t u h k = ground (arith, h)

-- The wait of a thread that can exit and is in the queue, after an operation that is independent of it.
wait_stays :
    (a : SemOperation) (m n : Ref) (t u : ℕ) (s : Semaphore)
    → same m n ≡ true
    → same n m ≡ true
    → Semaphores.dependent_with a m (on_semaphore sem_wait n) ≡ false
    → Semaphores.dependent_with sem_wait n (on_semaphore a m) ≡ false
    → Semaphore.thread_can_exit s u ≡ true
    → contains s.waiting_queue u ≡ true
    → s.count + 1 < 2 ^ 32
    → Semaphore.thread_can_exit (apply_to_semaphore a t s) u ≡ true
unfolding Semaphores.dependent_with Semaphores.wait_dependent_with Semaphore.thread_can_exit
    apply_to_semaphore Semaphore.enter_waiting_queue Semaphore.post
    Semaphore.thread_can_exit_based_on_sleep_position Semaphore.would_block_if_waited_on
wait_stays sem_init m n t u s k h d e g c b = ground arith
wait_stays sem_wait m n t u s k h d e g c b = ground arith
wait_stays sem_enqueue m n t u s k h d e g c b =
    ground (arith, front_stays s.waiting_queue t u (ground (arith, g)) c)
wait_stays sem_post m n t u s k h d e g c b =
    let same_count : (s.count + 1) % 2 ^ 32 ≡ s.count + 1 = omega (arith, b) in
    rw same_count (ground (arith, g))

-- The second of two operations that meet at an object, after the first.
mutex_stays :
    (p q : Program) (v w : VisibleObject) (t u : ℕ) (a b : MutexOperation) (k l : Ref)
    → Meeting p v t u (on_mutex a k) (on_mutex b l) k l
    → enabled_in_state q u (on_mutex b l) ≡ some true
unfolding enabled_in_state operation_dependent_with Mutexes.dependent_with
    Mutexes.init_dependent_with Mutexes.lock_dependent_with
mutex_stays p q v w t u a mutex_init k l h = refl
mutex_stays p q v w t u a mutex_unlock k l h = refl
mutex_stays p q v w t u mutex_init mutex_lock k l h =
    absurd (ground (arith, h.first_independent, h.same_object, same_back k l h.same_object))
mutex_stays p q v w t u mutex_lock mutex_lock k l h =
    absurd (ground (arith, h.first_independent, h.same_object, same_back k l h.same_object))
mutex_stays p q v w t u mutex_unlock mutex_lock k l h =
    absurd (ground (arith, h.second_independent, h.same_object, same_back k l h.same_object))

-- A waiter on a semaphore is in its queue.
abbrev pub WaiterQueued : Operation → ℕ → VisibleObject → Type 0
WaiterQueued (on_semaphore sem_wait l) u (of_semaphore x) = contains x.waiting_queue u ≡ true
WaiterQueued _ u _ = Unit

semaphore_stays :
    (p q : Program) (v w : VisibleObject) (t u : ℕ) (a b : SemOperation) (k l : Ref)
    → get_object_with_id q.object_storage l.object_id ≡ some w
    → Meeting p v t u (on_semaphore a k) (on_semaphore b l) k l
    → method (on_semaphore a k) t v ≡ some w
    → WaiterQueued (on_semaphore b l) u v
    → enabled_in_state q u (on_semaphore b l) ≡ some true
unfolding enabled_in_state operation_dependent_with method
semaphore_stays p q v w t u a sem_init k l f h r c = refl
semaphore_stays p q v w t u a sem_enqueue k l f h r c = refl
semaphore_stays p q v w t u a sem_post k l f h r c = refl
semaphore_stays p q (of_semaphore x) w t u a sem_wait k l f h r c =
    let exits = semaphore_guard_holds p u sem_wait l x h.second_found h.second_enabled in
    let stays =
      wait_stays a k l t u x h.same_object (same_back k l h.same_object) h.first_independent
        h.second_independent exits c (h.no_overflow x refl) in
    let is : of_semaphore (apply_to_semaphore a t x) ≡ w = ground (arith, r) in
    rw (f, ← is) (ap some stays)
semaphore_stays p q _ w t u a sem_wait k l f h r c = absurd (ground (arith, r))

rwlock_stays :
    (p q : Program) (v w : VisibleObject) (t u : ℕ) (a b : RwLockOperation) (k l : Ref)
    → Meeting p v t u (on_rwlock a k) (on_rwlock b l) k l
    → method (on_rwlock a k) t v ≡ some w
    → enabled_in_state q u (on_rwlock b l) ≡ some true
unfolding method operation_dependent_with
rwlock_stays p q (of_rwlock x) w t u a b k l h r = absurd (
    rwlock_operations_never_meet a b k l t u x h.threads_differ h.same_object
      (same_back k l h.same_object) h.first_independent h.second_independent
      (rwlock_guard_holds p t a k x h.first_found h.first_enabled)
      (rwlock_guard_holds p u b l x h.second_found h.second_enabled))
rwlock_stays p q _ w t u a b k l h r = absurd (ground (arith, r))

rwwlock_stays :
    (p q : Program) (v w : VisibleObject) (t u : ℕ) (a b : RwwLockOperation) (k l : Ref)
    → Meeting p v t u (on_rwwlock a k) (on_rwwlock b l) k l
    → method (on_rwwlock a k) t v ≡ some w
    → enabled_in_state q u (on_rwwlock b l) ≡ some true
unfolding method operation_dependent_with
rwwlock_stays p q (of_rwwlock x) w t u a b k l h r = absurd (
    rwwlock_operations_never_meet a b k l t u x h.threads_differ h.same_object
      (same_back k l h.same_object) h.first_independent h.second_independent
      (rwwlock_guard_holds p t a k x h.first_found h.first_enabled)
      (rwwlock_guard_holds p u b l x h.second_found h.second_enabled))
rwwlock_stays p q _ w t u a b k l h r = absurd (ground (arith, r))

stays_in_family :
    (p q : Program) (v w : VisibleObject) (t u : ℕ) (o1 o2 : Operation) (m n : Ref)
    → Meeting p v t u o1 o2 m n
    → get_object_with_id q.object_storage n.object_id ≡ some w
    → method o1 t v ≡ some w
    → WaiterQueued o2 u v
    → (family o1 == family o2) ≡ true
    → enabled_in_state q u o2 ≡ some true
unfolding operation_dependent_with Barriers.dependent_with
stays_in_family p q v w t u (on_mutex a k) (on_mutex b l) m n h f r c x =
    mutex_stays p q v w t u a b k l (aligned m n k l refl refl h)
stays_in_family p q v w t u (on_semaphore a k) (on_semaphore b l) m n h f r c x =
    let same_ref : n ≡ l = ground (arith, h.second_target) in
    semaphore_stays p q v w t u a b k l
      (subst (λ z. get_object_with_id q.object_storage z.object_id ≡ some w) same_ref f)
      (aligned m n k l refl refl h) r c
stays_in_family p q v w t u (on_barrier a k y) (on_barrier b l z) m n h f r c x =
    let g = aligned m n k l refl refl h in
    absurd (ground (arith, g.first_independent, g.same_object, same_back k l g.same_object))
stays_in_family p q v w t u (on_rwlock a k) (on_rwlock b l) m n h f r c x =
    rwlock_stays p q v w t u a b k l (aligned m n k l refl refl h) r
stays_in_family p q v w t u (on_rwwlock a k) (on_rwwlock b l) m n h f r c x =
    rwwlock_stays p q v w t u a b k l (aligned m n k l refl refl h) r
stays_in_family p q v w t u _ _ m n h f r c x =
    absurd (ground (arith, h.first_target, h.second_target))

-- The second operation stays enabled, of whatever families the two are.
pub Meeting-stays :
    (p q : Program) (v w : VisibleObject) (t u : ℕ) (o1 o2 : Operation) (m n : Ref)
    → Meeting p v t u o1 o2 m n
    → get_object_with_id q.object_storage n.object_id ≡ some w
    → method o1 t v ≡ some w
    → WaiterQueued o2 u v
    → enabled_in_state q u o2 ≡ some true
Meeting-stays p q v w t u o1 o2 m n h f r c = elim (Bool-cases (class_of v == family o1)) [
  | inr other ↦ absurd (cc (r, cast-fails o1 t v m h.first_target other))
  | inl own ↦ elim (Bool-cases (family o1 == family o2)) [
    | inl x ↦ stays_in_family p q v w t u o1 o2 m n h f r c x
    | inr x ↦
        other_class-stays p q u o2 n v w h.second_target h.second_found (ground (arith, own, x))
          h.second_enabled
  ]
]
