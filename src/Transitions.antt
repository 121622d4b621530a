-- ===== src/Transitions.antt =====
-- include/mcmini/transitions: the classes of transitions, as one data type with a constructor for each
-- family of operations on a kind of object.
--
-- A transition stands for the copy that `staticCopy` makes. Of an object it keeps the id in the store and
-- the address that `operator==` compares; of a barrier also the copy, which `coenabledWith` reads. The
-- operations that read or change live objects take them from the store by their ids, which is what the
-- pointers of a transition in the state lead to.
pub mod Program
pub mod Mutexes
pub mod Threads
pub mod Semaphores
pub mod Barriers
pub mod RwLocks
pub mod RwwLocks
pub mod Conds
pub mod Globals
pub mod Relations
pub mod Execution
pub mod Enabled
pub mod Undo
pub mod Meeting
pub mod Independence
pub mod Persistence
pub mod Handlers
pub mod Class
pub mod Samples
mod Tests
use dmtcp_integration.Base.{ℕ, Bool, true, false, not, Option, none, some, ◌==◌}
use dmtcp_integration.Objects.Barrier.{Barrier}

-- A pointer to a visible object: its id, and what its `operator==` compares.
pub record Ref : Type 0 where
  pub object_id : ℕ
  pub system_identity : ℕ

pub data MutexOperation : Type 0 where
  mutex_init mutex_lock mutex_unlock : MutexOperation

-- Threads are named by their tids.
pub data ThreadOperation : Type 0 where
  thread_create : ℕ → ThreadOperation
  thread_finish : ThreadOperation
  thread_join : ℕ → ThreadOperation
  thread_start : ThreadOperation

pub data SemOperation : Type 0 where
  sem_init sem_enqueue sem_wait sem_post : SemOperation

pub data BarrierOperation : Type 0 where
  barrier_init barrier_enqueue barrier_wait : BarrierOperation

pub data RwLockOperation : Type 0 where
  rwlock_init reader_enqueue reader_lock writer_enqueue writer_lock rwlock_unlock : RwLockOperation

pub data RwwLockOperation : Type 0 where
  rwwlock_init rww_reader_enqueue rww_reader_lock writer1_enqueue writer1_lock writer2_enqueue
        writer2_lock rwwlock_unlock :
      RwwLockOperation

-- An enqueueing names the mutex that it releases, a waiting the mutex of the copied condition variable.
pub data CondOperation : Type 0 where
  cond_init cond_signal cond_broadcast : CondOperation
  cond_enqueue : Ref → CondOperation
  cond_wait : Ref → CondOperation

pub data GlobalOperation : Type 0 where
  global_read global_write : GlobalOperation

pub data Operation : Type 0 where
  on_mutex : MutexOperation → Ref → Operation
  on_thread : ThreadOperation → Operation
  on_semaphore : SemOperation → Ref → Operation
  on_barrier : BarrierOperation → Ref → Barrier → Operation
  on_rwlock : RwLockOperation → Ref → Operation
  on_rwwlock : RwwLockOperation → Ref → Operation
  on_cond : CondOperation → Ref → Operation
  on_global : GlobalOperation → Ref → Operation
  exit_process abort_process : Operation

-- `MCTransition`: the thread that runs the operation, by its tid.
pub record Transition : Type 0 where
  pub thread : ℕ
  pub operation : Operation

-- `operator==` of two objects of one class
abbrev pub same : Ref → Ref → Bool
same a b = a.system_identity == b.system_identity

-- The result of a `dynamic_cast`, tested: is it an operation on the same object?
abbrev pub is_on : Option Ref → Ref → Bool
is_on none a = false
is_on (some b) a = same b a

-- The result of a `dynamic_cast`, tested: is it no operation on the same object?
abbrev pub is_not_on : Option Ref → Ref → Bool
is_not_on none a = true
is_not_on (some b) a = not (same b a)
