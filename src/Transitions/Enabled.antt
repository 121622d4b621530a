-- ===== src/Transitions/Enabled.antt =====
-- src/transitions: when a transition is enabled, and the other answers that the search asks of it.
pub mod Laws
pub mod Locks
use dmtcp_integration.Base.{
  ℕ, Bool, true, false, not, ◌&&◌, ◌==◌, Option, none, some, assert, ◌>>=◌, ◌>>◌, if◌then◌else◌,
}
use dmtcp_integration.Objects.Thread
use dmtcp_integration.Objects.Mutex
use dmtcp_integration.Objects.Semaphore
use dmtcp_integration.Objects.Barrier
use dmtcp_integration.Objects.RwLock
use dmtcp_integration.Objects.RwwLock
use dmtcp_integration.Cond.Variable
use dmtcp_integration.Store
use dmtcp_integration.Transitions.{
  Ref, mutex_init, mutex_lock, mutex_unlock, ThreadOperation, thread_create, thread_finish,
  thread_join, thread_start, sem_wait, BarrierOperation, barrier_wait, reader_lock, writer_lock,
  rww_reader_lock, writer1_lock, writer2_lock, cond_wait, Operation, on_mutex, on_thread,
  on_semaphore, on_barrier, on_rwlock, on_rwwlock, on_cond, exit_process, abort_process, Transition,
}
use dmtcp_integration.Transitions.Program.{Program, VisibleObject, of_thread, get_thread_with_id}
use dmtcp_integration.Transitions.Execution.{
  cast_mutex, cast_semaphore, cast_barrier, cast_rwlock, cast_rwwlock, cast_cond,
}

-- `TID_MAIN_THREAD`
abbrev pub tid_main_thread : ℕ
tid_main_thread = 0

-- The right side of the conjunction in `MCCondWait::enabledInState`, given the left side.
unfoldable pub mutex_can_be_acquired : Bool → Program → ℕ → Option ℕ → Option Bool
mutex_can_be_acquired false p thread mutex = some false
mutex_can_be_acquired true p thread mutex = do
  m ← mutex
  w ← Store.get_object_with_id p.object_storage m
  n ← cast_mutex w
  some (Mutex.can_acquire n thread)

-- `MCCondWait::enabledInState`. The mutex is read only if the waiter can exit; `none` is a null pointer.
unfoldable pub cond_wait_enabled : Program → ℕ → Ref → Option Bool
unfolding mutex_can_be_acquired
cond_wait_enabled p thread c = do
  v ← Store.get_object_with_id p.object_storage c.object_id
  d ← cast_cond v
  mutex_can_be_acquired (Variable.waiter_can_exit d thread) p thread d.mutex

-- The virtual `enabledInState`, which is true by default; `none` is undefined behaviour.
unfoldable pub enabled_in_state : Program → ℕ → Operation → Option Bool
unfolding get_thread_with_id cond_wait_enabled
enabled_in_state p thread (on_mutex mutex_lock m) = do
  v ← Store.get_object_with_id p.object_storage m.object_id
  n ← cast_mutex v
  some (Mutex.can_acquire n thread)
enabled_in_state p thread (on_thread thread_finish) = some (not (thread == tid_main_thread))
enabled_in_state p thread (on_thread (thread_join target)) = do
  t ← get_thread_with_id p target
  some (Thread.is_dead t)
enabled_in_state p thread (on_semaphore sem_wait s) = do
  v ← Store.get_object_with_id p.object_storage s.object_id
  n ← cast_semaphore v
  some (Semaphore.thread_can_exit n thread)
enabled_in_state p thread (on_barrier barrier_wait b c) = do
  v ← Store.get_object_with_id p.object_storage b.object_id
  n ← cast_barrier v
  some (not (Barrier.would_block_if_waited_on n thread))
enabled_in_state p thread (on_rwlock reader_lock l) = do
  v ← Store.get_object_with_id p.object_storage l.object_id
  n ← cast_rwlock v
  RwLock.can_acquire_as_reader n thread
enabled_in_state p thread (on_rwlock writer_lock l) = do
  v ← Store.get_object_with_id p.object_storage l.object_id
  n ← cast_rwlock v
  RwLock.can_acquire_as_writer n thread
enabled_in_state p thread (on_rwwlock rww_reader_lock l) = do
  v ← Store.get_object_with_id p.object_storage l.object_id
  n ← cast_rwwlock v
  RwwLock.can_acquire_as_reader n thread
enabled_in_state p thread (on_rwwlock writer1_lock l) = do
  v ← Store.get_object_with_id p.object_storage l.object_id
  n ← cast_rwwlock v
  RwwLock.can_acquire_as_writer1 n thread
enabled_in_state p thread (on_rwwlock writer2_lock l) = do
  v ← Store.get_object_with_id p.object_storage l.object_id
  n ← cast_rwwlock v
  RwwLock.can_acquire_as_writer2 n thread
enabled_in_state p thread (on_cond (cond_wait m) c) = cond_wait_enabled p thread c
enabled_in_state p thread exit_process = some false
enabled_in_state p thread _ = some true

-- `transitionEnabledInState`: the thread first, through `threadIsEnabled`.
unfoldable pub transition_enabled_in_state : Program → Transition → Option Bool
unfolding get_thread_with_id enabled_in_state
transition_enabled_in_state p t = do
  thread ← get_thread_with_id p t.thread
  if Thread.enabled thread then enabled_in_state p t.thread t.operation else some false

-- The virtual `ensuresDeadlockIsImpossible`, which is false by default.
unfoldable pub ensures_deadlock_is_impossible : Transition → Bool
ensures_deadlock_is_impossible t = elim t.operation [
  | on_thread thread_finish ↦ t.thread == tid_main_thread
  | exit_process ↦ true
  | abort_process ↦ true
  | _ ↦ false
]

-- The virtual `countsAgainstThreadExecutionDepth`, which is true by default.
unfoldable pub counts_against_thread_execution_depth : Transition → Bool
counts_against_thread_execution_depth t = elim t.operation [
  | on_thread thread_finish ↦ false
  | on_thread thread_start ↦ false
  | exit_process ↦ false
  | abort_process ↦ false
  | _ ↦ true
]
