-- ===== src/Transitions/Execution.antt =====
-- src/transitions: when a transition is enabled, and what it does to the objects of the state.
pub mod Commute
pub mod SameObject
pub mod SemOrder
use dmtcp_integration.Base.{
  ℕ, Bool, true, false, not, ◌&&◌, ◌==◌, Option, none, some, assert, ◌>>=◌, ◌>>◌, if◌then◌else◌,
}
use dmtcp_integration.Objects.Thread
use dmtcp_integration.Objects.Thread.{Thread}
use dmtcp_integration.Objects.Mutex
use dmtcp_integration.Objects.Mutex.{Mutex}
use dmtcp_integration.Objects.Semaphore
use dmtcp_integration.Objects.Semaphore.{Semaphore}
use dmtcp_integration.Objects.Barrier
use dmtcp_integration.Objects.Barrier.{Barrier}
use dmtcp_integration.Objects.RwLock
use dmtcp_integration.Objects.RwLock.{RwLock}
use dmtcp_integration.Objects.RwwLock
use dmtcp_integration.Objects.RwwLock.{RwwLock}
use dmtcp_integration.Cond.Variable
use dmtcp_integration.Cond.Variable.{CondVar}
use dmtcp_integration.Store
use dmtcp_integration.Transitions.{
  Ref, MutexOperation, mutex_init, mutex_lock, mutex_unlock, ThreadOperation, thread_create,
  thread_finish, thread_join, thread_start, SemOperation, sem_init, sem_enqueue, sem_wait, sem_post,
  BarrierOperation, barrier_init, barrier_enqueue, barrier_wait, RwLockOperation, rwlock_init,
  reader_enqueue, reader_lock, writer_enqueue, writer_lock, rwlock_unlock, RwwLockOperation,
  rwwlock_init, rww_reader_enqueue, rww_reader_lock, writer1_enqueue, writer1_lock, writer2_enqueue,
  writer2_lock, rwwlock_unlock, CondOperation, cond_init, cond_signal, cond_broadcast, cond_enqueue,
  cond_wait, Operation, on_mutex, on_thread, on_semaphore, on_barrier, on_rwlock, on_rwwlock,
  on_cond, on_global, exit_process, abort_process, Transition,
}
use dmtcp_integration.Transitions.Program.{
  Program, VisibleObject, of_thread, of_mutex, of_semaphore, of_barrier, of_rwlock, of_rwwlock,
  of_cond, cast_thread, get_thread_with_id, call_method,
}

-- The pointers to objects of the other classes, `none` for an object of another class.
abbrev pub cast_mutex : VisibleObject → Option Mutex
cast_mutex (of_mutex m) = some m
cast_mutex _ = none

abbrev pub cast_semaphore : VisibleObject → Option Semaphore
cast_semaphore (of_semaphore s) = some s
cast_semaphore _ = none

abbrev pub cast_barrier : VisibleObject → Option Barrier
cast_barrier (of_barrier b) = some b
cast_barrier _ = none

abbrev pub cast_rwlock : VisibleObject → Option RwLock
cast_rwlock (of_rwlock l) = some l
cast_rwlock _ = none

abbrev pub cast_rwwlock : VisibleObject → Option RwwLock
cast_rwwlock (of_rwwlock l) = some l
cast_rwwlock _ = none

abbrev pub cast_cond : VisibleObject → Option CondVar
cast_cond (of_cond c) = some c
cast_cond _ = none

-- `applyToState` of the classes that change one object, as the method that they call on it.
unfoldable pub apply_to_mutex : MutexOperation → ℕ → Mutex → Mutex
apply_to_mutex mutex_init thread m = Mutex.init m
apply_to_mutex mutex_lock thread m = Mutex.lock m thread
apply_to_mutex mutex_unlock thread m = Mutex.unlock m

unfoldable pub apply_to_semaphore : SemOperation → ℕ → Semaphore → Semaphore
apply_to_semaphore sem_init thread s = Semaphore.init s
apply_to_semaphore sem_enqueue thread s = Semaphore.enter_waiting_queue s thread
apply_to_semaphore sem_wait thread s = Semaphore.leave_waiting_queue (Semaphore.wait s) thread
apply_to_semaphore sem_post thread s = Semaphore.post s

unfoldable pub apply_to_barrier : BarrierOperation → ℕ → Barrier → Barrier
apply_to_barrier barrier_init thread b = Barrier.init b
apply_to_barrier barrier_enqueue thread b = Barrier.wait b thread
apply_to_barrier barrier_wait thread b = b

unfoldable pub apply_to_rwlock : RwLockOperation → ℕ → RwLock → Option RwLock
apply_to_rwlock rwlock_init thread l = some (RwLock.init l)
apply_to_rwlock reader_enqueue thread l = some (RwLock.enqueue_as_reader l thread)
apply_to_rwlock reader_lock thread l = RwLock.reader_lock l thread
apply_to_rwlock writer_enqueue thread l = some (RwLock.enqueue_as_writer l thread)
apply_to_rwlock writer_lock thread l = RwLock.writer_lock l thread
apply_to_rwlock rwlock_unlock thread l = RwLock.unlock l thread

unfoldable pub apply_to_rwwlock : RwwLockOperation → ℕ → RwwLock → Option RwwLock
apply_to_rwwlock rwwlock_init thread l = some (RwwLock.init l)
apply_to_rwwlock rww_reader_enqueue thread l = some (RwwLock.enqueue_as_reader l thread)
apply_to_rwwlock rww_reader_lock thread l = RwwLock.reader_lock l thread
apply_to_rwwlock writer1_enqueue thread l = some (RwwLock.enqueue_as_writer1 l thread)
apply_to_rwwlock writer1_lock thread l = RwwLock.writer1_lock l thread
apply_to_rwwlock writer2_enqueue thread l = some (RwwLock.enqueue_as_writer2 l thread)
apply_to_rwwlock writer2_lock thread l = RwwLock.writer2_lock l thread
apply_to_rwwlock rwwlock_unlock thread l = RwwLock.unlock l thread

unfoldable pub apply_to_thread : Program → ℕ → (Thread → Thread) → Option Program
unfolding call_method
apply_to_thread p tid f = do
  id ← Store.find p.thread_id_map tid
  call_method p id (λ v. cast_thread v >>= λ t. some (of_thread (f t)))

unfoldable pub apply_thread_operation : Program → ℕ → ThreadOperation → Option Program
unfolding apply_to_thread get_thread_with_id
apply_thread_operation p thread (thread_create target) = apply_to_thread p target Thread.spawn
apply_thread_operation p thread thread_finish = apply_to_thread p thread Thread.die
apply_thread_operation p thread (thread_join target) = do
  t ← get_thread_with_id p target
  assert (Thread.is_dead t)
  some p
apply_thread_operation p thread thread_start = apply_to_thread p thread Thread.spawn

-- `MCCondEnqueue::applyToState`
unfoldable pub apply_cond_enqueue : Program → ℕ → Ref → Ref → Option Program
unfolding call_method
apply_cond_enqueue p thread m c = do
  q ← call_method p c.object_id (λ v. cast_cond v >>= λ d.
      some (of_cond (record (Variable.add_waiter d thread) { mutex = some m.object_id })))
  call_method q m.object_id (λ v. cast_mutex v >>= λ n. some (of_mutex (Mutex.unlock n)))

-- The variable without its mutex once nobody waits.
unfoldable pub release_mutex : CondVar → CondVar
release_mutex c = if not (Variable.has_waiters c) then record c { mutex = none } else c

-- `MCCondWait::applyToState`
unfoldable pub apply_cond_wait : Program → ℕ → Ref → Option Program
unfolding call_method release_mutex
apply_cond_wait p thread c = do
  v ← Store.get_object_with_id p.object_storage c.object_id
  d ← cast_cond v
  m ← d.mutex
  q ← call_method p m (λ w. cast_mutex w >>= λ n. some (of_mutex (Mutex.lock n thread)))
  call_method q c.object_id (λ w. cast_cond w >>= λ e.
      Variable.remove_waiter e thread >>= λ g. some (of_cond (release_mutex g)))

unfoldable pub apply_cond_operation : Program → ℕ → CondOperation → Ref → Option Program
unfolding call_method apply_cond_enqueue apply_cond_wait
apply_cond_operation p thread cond_init c =
    call_method p c.object_id (λ v. cast_cond v >>= λ d. some (of_cond (Variable.initialize d)))
apply_cond_operation p thread cond_signal c =
    call_method p c.object_id
      (λ v. cast_cond v >>= λ d. some (of_cond (Variable.send_signal_message d)))
apply_cond_operation p thread cond_broadcast c =
    call_method p c.object_id
      (λ v. cast_cond v >>= λ d. some (of_cond (Variable.send_broadcast_message d)))
apply_cond_operation p thread (cond_enqueue m) c = apply_cond_enqueue p thread m c
apply_cond_operation p thread (cond_wait m) c = apply_cond_wait p thread c

-- What a method call does to the object that the operation names, for the operations with one object.
unfoldable pub method : Operation → ℕ → VisibleObject → Option VisibleObject
unfolding apply_to_mutex apply_to_semaphore apply_to_barrier apply_to_rwlock apply_to_rwwlock
method (on_mutex o m) thread v = cast_mutex v >>= λ n. some (of_mutex (apply_to_mutex o thread n))
method (on_semaphore o s) thread v =
    cast_semaphore v >>= λ n. some (of_semaphore (apply_to_semaphore o thread n))
method (on_barrier o b c) thread v =
    cast_barrier v >>= λ n. some (of_barrier (apply_to_barrier o thread n))
method (on_rwlock o l) thread v =
    cast_rwlock v >>= λ n. apply_to_rwlock o thread n >>= λ k. some (of_rwlock k)
method (on_rwwlock o l) thread v =
    cast_rwwlock v >>= λ n. apply_to_rwwlock o thread n >>= λ k. some (of_rwwlock k)
method _ thread v = some v

-- The virtual `applyToState`. It is empty for the accesses of global variables and the end of the process.
unfoldable pub apply_operation : Program → ℕ → Operation → Option Program
unfolding method call_method apply_thread_operation apply_cond_operation
apply_operation p thread (on_mutex o m) = call_method p m.object_id (method (on_mutex o m) thread)
apply_operation p thread (on_thread o) = apply_thread_operation p thread o
apply_operation p thread (on_semaphore o s) =
    call_method p s.object_id (method (on_semaphore o s) thread)
apply_operation p thread (on_barrier o b c) =
    call_method p b.object_id (method (on_barrier o b c) thread)
apply_operation p thread (on_rwlock o l) = call_method p l.object_id (method (on_rwlock o l) thread)
apply_operation p thread (on_rwwlock o l) =
    call_method p l.object_id (method (on_rwwlock o l) thread)
apply_operation p thread (on_cond o c) = apply_cond_operation p thread o c
apply_operation p thread (on_global o v) = some p
apply_operation p thread exit_process = some p
apply_operation p thread abort_process = some p

unfoldable pub apply_to_state : Program → Transition → Option Program
unfolding apply_operation
apply_to_state p t = apply_operation p t.thread t.operation
