-- ===== src/Transitions/Persistence.antt =====
-- What is left of the guard of a transition when another transition, on the same object or on a different
-- one, has run.
pub mod OneObject
use dmtcp_integration.Base.{
  ℕ, true, false, ◌==◌, ◌<◌, List, [], ◌∷◌, ◌++◌, contains, some, ◌≡◌, ◌≢◌, refl, sym, ap, ◌∙◌,
  arith,
}
use dmtcp_integration.Objects.Semaphore
use dmtcp_integration.Objects.Semaphore.{Semaphore}
use dmtcp_integration.Store.{get_object_with_id}
use dmtcp_integration.Store.Laws.{get_object_with_id-write_other}
use dmtcp_integration.Transitions.{
  Ref, mutex_lock, sem_wait, barrier_wait, reader_lock, writer_lock, rww_reader_lock, writer1_lock,
  writer2_lock, Operation, on_mutex, on_semaphore, on_barrier, on_rwlock, on_rwwlock, Transition,
}
use dmtcp_integration.Transitions.Program.{Program, VisibleObject}
use dmtcp_integration.Transitions.Execution.{method, apply_to_state}
use dmtcp_integration.Transitions.Execution.Commute.{call_method-found}
use dmtcp_integration.Transitions.Enabled.{enabled_in_state}
use dmtcp_integration.Transitions.Meeting.{target_of, apply-target, class_of, family}
use dmtcp_integration.Transitions.{
  MutexOperation, mutex_init, mutex_unlock, SemOperation, sem_init, sem_post, sem_enqueue, same,
  RwLockOperation, RwwLockOperation,
}
use dmtcp_integration.Transitions.Program.{of_semaphore}
use dmtcp_integration.Transitions.Execution.{apply_operation}
use dmtcp_integration.Transitions.Execution.SameObject.{
  rwlock_operations_never_meet, rwwlock_operations_never_meet,
}
use dmtcp_integration.Transitions.Meeting.{
  Meeting, cast-fails, same_back, aligned, semaphore_guard_holds, rwlock_guard_holds,
  rwwlock_guard_holds,
}
use dmtcp_integration.Transitions.Relations.{operation_dependent_with}
use dmtcp_integration.Transitions.Mutexes
use dmtcp_integration.Transitions.Semaphores
use dmtcp_integration.Transitions.Barriers
use dmtcp_integration.Base.{◌+◌, ◌^◌, ◌%◌, subst, inl, inr, Bool-cases}
use dmtcp_integration.Transitions.Persistence.OneObject.{WaiterQueued, Meeting-stays}
use dmtcp_integration.Transitions.Execution.Commute.{with_object}
use dmtcp_integration.Store.Laws.{get_object_with_id-write_object}
use dmtcp_integration.Transitions.Relations.{dependent_transitions, dependent_with}
use dmtcp_integration.Transitions.Independence.{independent_parts}

enabled-reads :
    (p q : Program) (t : ℕ) (o : Operation) (n : Ref)
    → target_of o ≡ some n
    → get_object_with_id q.object_storage n.object_id
      ≡ get_object_with_id p.object_storage n.object_id
    → enabled_in_state q t o ≡ enabled_in_state p t o
unfolding enabled_in_state
enabled-reads p q t (on_mutex mutex_lock k) n h e = ground (arith, h, e)
enabled-reads p q t (on_semaphore sem_wait k) n h e = ground (arith, h, e)
enabled-reads p q t (on_barrier barrier_wait k c) n h e = ground (arith, h, e)
enabled-reads p q t (on_rwlock reader_lock k) n h e = ground (arith, h, e)
enabled-reads p q t (on_rwlock writer_lock k) n h e = ground (arith, h, e)
enabled-reads p q t (on_rwwlock rww_reader_lock k) n h e = ground (arith, h, e)
enabled-reads p q t (on_rwwlock writer1_lock k) n h e = ground (arith, h, e)
enabled-reads p q t (on_rwwlock writer2_lock k) n h e = ground (arith, h, e)
enabled-reads p q t (on_mutex _ k) n h e = refl
enabled-reads p q t (on_semaphore _ k) n h e = refl
enabled-reads p q t (on_barrier _ k c) n h e = refl
enabled-reads p q t (on_rwlock _ k) n h e = refl
enabled-reads p q t (on_rwwlock _ k) n h e = refl
enabled-reads p q t _ n h e = cc

-- Running an operation on one object neither enables nor disables an operation on a different object,
-- where both are operations on a mutex, a semaphore, a barrier or a lock.
pub enabled-persists :
    (p q : Program) (t u : Transition) (m n : Ref)
    → target_of t.operation ≡ some m
    → target_of u.operation ≡ some n
    → m.object_id ≢ n.object_id
    → apply_to_state p t ≡ some q
    → enabled_in_state q u.thread u.operation ≡ enabled_in_state p u.thread u.operation
unfolding apply_to_state
enabled-persists p q t u m n g h d a =
    let (v, w, _, _, is) =
      call_method-found p q m.object_id (method t.operation t.thread)
        (sym (apply-target p t.thread t.operation m g) ∙ a) in
    enabled-reads p q u.thread u.operation n h (
      ap (λ x. get_object_with_id x.object_storage n.object_id) is
      ∙ get_object_with_id-write_other p.object_storage m.object_id n.object_id w d)

-- Of two transitions of different threads, on one object each, that are independent and both enabled, the
-- second is still enabled after the first has run: an independent transition disables nothing. Each is an
-- operation on a mutex, a semaphore, a barrier or a lock. Objects with one id have one address; a semaphore
-- that both use has no count that a post makes overflow; and if the second is a waiting on a semaphore that
-- the first uses too, its thread is in the queue.
pub independent-stays_enabled :
    (p q : Program) (t1 t2 : Transition) (m n : Ref)
    → target_of t1.operation ≡ some m
    → target_of t2.operation ≡ some n
    → (m.object_id ≡ n.object_id → same m n ≡ true)
    → dependent_transitions t1 t2 ≡ false
    → enabled_in_state p t1.thread t1.operation ≡ some true
    → enabled_in_state p t2.thread t2.operation ≡ some true
    → ((x : Semaphore)
        → get_object_with_id p.object_storage m.object_id ≡ some (of_semaphore x)
        → x.count + 1 < 2 ^ 32)
    → ((v : VisibleObject)
        → get_object_with_id p.object_storage m.object_id ≡ some v
        → WaiterQueued t2.operation t2.thread v)
    → apply_to_state p t1 ≡ some q
    → enabled_in_state q t2.thread t2.operation ≡ some true
unfolding apply_to_state dependent_with
independent-stays_enabled p q t1 t2 m n g h coherent d e f count queued a =
    elim (Bool-cases (m.object_id == n.object_id)) [
      | inr differs ↦
          enabled-persists p q t1 t2 m n g h (λ same_id. ground (arith, differs, same_id)) a ∙ f
      | inl agree ↦
          let one : m.object_id ≡ n.object_id = ground (arith, agree) in
          let (differ, first, second) = independent_parts t1 t2 d in
          let (v, w, found, runs, is) =
            call_method-found p q m.object_id (method t1.operation t1.thread)
              (sym (apply-target p t1.thread t1.operation m g) ∙ a) in
          let written : get_object_with_id q.object_storage n.object_id ≡ some w =
            ap (λ x. get_object_with_id x.object_storage n.object_id) is
            ∙ ap (get_object_with_id (with_object p m.object_id w).object_storage) (sym one)
            ∙ get_object_with_id-write_object p.object_storage m.object_id v w found in
          let meets : Meeting p v t1.thread t2.thread t1.operation t2.operation m n = record {
            first_target = g;
            second_target = h;
            first_found = found;
            second_found = subst (λ k. get_object_with_id p.object_storage k ≡ some v) one found;
            threads_differ = differ;
            same_object = coherent one;
            first_independent = first;
            second_independent = second;
            first_enabled = e;
            second_enabled = f;
            no_overflow = λ x is'. count x (found ∙ ap some is');
          } in
          Meeting-stays p q v w t1.thread t2.thread t1.operation t2.operation m n meets written runs
            (queued v found)
    ]
