-- ===== src/Transitions/Program.antt =====
-- The part of MCStack (include/mcmini/MCStack.h, src/MCStack.cpp) that transitions act on: the visible
-- objects in the object store, and the threads of the target.
pub mod Laws
use dmtcp_integration.Base.{
  ℕ, zero, suc, ◌==◌, ◌+◌, Option, none, some, List, [], ◌∷◌, ltb, set, assert, ◌>>=◌, ◌>>◌,
}
use dmtcp_integration.Objects.Thread
use dmtcp_integration.Objects.Thread.{Thread, ThreadState, alive}
use dmtcp_integration.Objects.Mutex.{Mutex}
use dmtcp_integration.Objects.Semaphore.{Semaphore}
use dmtcp_integration.Objects.Barrier
use dmtcp_integration.Objects.Barrier.{Barrier}
use dmtcp_integration.Objects.RwLock.{RwLock}
use dmtcp_integration.Objects.RwwLock.{RwwLock}
use dmtcp_integration.Cond.Variable.{CondVar}
use dmtcp_integration.Store
use dmtcp_integration.Store.{ObjectStore}
use dmtcp_integration.Transitions.{Operation, on_thread, thread_start, Transition}

-- `MCVisibleObject` and the classes derived from it
pub data VisibleObject : Type 0 where
  of_thread : Thread → VisibleObject
  of_mutex : Mutex → VisibleObject
  of_semaphore : Semaphore → VisibleObject
  of_barrier : Barrier → VisibleObject
  of_rwlock : RwLock → VisibleObject
  of_rwwlock : RwwLock → VisibleObject
  of_cond : CondVar → VisibleObject
  of_global : ℕ → VisibleObject

-- The virtual `copy()`: all classes but the barrier copy every member that the model has.
unfoldable pub copy : VisibleObject → VisibleObject
copy (of_barrier b) = of_barrier (Barrier.copy b)
copy v = v

-- The virtual `getSystemId()`
unfoldable pub get_system_id : VisibleObject → ℕ
get_system_id (of_thread t) = t.system_identity
get_system_id (of_mutex m) = m.system_identity
get_system_id (of_semaphore s) = s.sem
get_system_id (of_barrier b) = b.system_identity
get_system_id (of_rwlock l) = l.system_identity
get_system_id (of_rwwlock l) = l.system_identity
get_system_id (of_cond c) = c.cond
get_system_id (of_global addr) = addr

-- `MAX_TOTAL_THREADS_IN_PROGRAM`
abbrev pub max_total_threads : ℕ
max_total_threads = 20

-- `objectStorage`, `threadIdMap`, `nextThreadId` and `nextTransitions`, where null is `none`.
pub record Program : Type 0 where
  pub object_storage : ObjectStore VisibleObject
  pub thread_id_map : List (ℕ × ℕ)
  pub next_thread_id : ℕ
  pub next_transitions : List (Option Transition)

unfoldable pub register_new_object : Program → VisibleObject → Option (ℕ × Program)
unfolding copy get_system_id
register_new_object p v = do
  (id, store) ← Store.register_new_object copy p.object_storage v
  some (
    id,
    record p { object_storage = Store.map_system_address_to_shadow store (get_system_id v) id },
  )

unfoldable pub register_visible_object_with_system_identity :
    Program → ℕ → VisibleObject → Option (ℕ × Program)
unfolding copy
register_visible_object_with_system_identity p address v = do
  (id, store) ← Store.register_new_object copy p.object_storage v
  some (id, record p { object_storage = Store.map_system_address_to_shadow store address id })

-- `static_pointer_cast<MCThread>`; a cast of an object of another class is undefined.
abbrev pub cast_thread : VisibleObject → Option Thread
cast_thread (of_thread t) = some t
cast_thread _ = none

-- `none` is a thread that the map has not, or a store without the object.
unfoldable pub get_thread_with_id : Program → ℕ → Option Thread
get_thread_with_id p tid = do
  id ← Store.find p.thread_id_map tid
  v ← Store.get_object_with_id p.object_storage id
  cast_thread v

-- The array has a place for every thread; above it, the write is undefined.
unfoldable pub set_next_transition_for_thread : Program → ℕ → Transition → Option Program
set_next_transition_for_thread p tid t = do
  assert (ltb tid max_total_threads)
  some (record p { next_transitions = set p.next_transitions tid (some t) })

-- `createNewThread(shadow)`, for a shadow with the given identity and state. `insert` keeps an entry that
-- the map has.
unfoldable pub create_new_thread : Program → ℕ → ThreadState → Option (ℕ × Program)
unfolding register_new_object
create_new_thread p sys state = do
  (id, q) ←
      register_new_object (record p { next_thread_id = p.next_thread_id + 1 })
        (of_thread (record { tid = p.next_thread_id; state = state; system_identity = sys }))
  some (
    p.next_thread_id,
    record q { thread_id_map = Store.insert_pair p.next_thread_id id q.thread_id_map },
  )

-- `createInitialTransitionForThread`
unfoldable pub initial_transition : ℕ → Transition
initial_transition tid = record { thread = tid; operation = on_thread thread_start }

unfoldable pub add_new_thread : Program → ℕ → ThreadState → Option (ℕ × Program)
unfolding create_new_thread get_thread_with_id initial_transition set_next_transition_for_thread
add_new_thread p sys state = do
  (new_thread, q) ← create_new_thread p sys state
  thread ← get_thread_with_id q new_thread
  r ← set_next_transition_for_thread q new_thread (initial_transition thread.tid)
  some (new_thread, r)

-- `createMainThread`
unfoldable pub create_main_thread : Program → ℕ → Option (ℕ × Program)
unfolding create_new_thread
create_main_thread p self = do
  (tid, q) ← create_new_thread p self alive
  assert (tid == 0)
  some (tid, q)

-- The array of the next transitions after `restoreInitialTrace` has cleared it.
abbrev pub no_transitions : ℕ → List (Option Transition)
no_transitions zero = []
no_transitions (suc n) = none ∷ no_transitions n

-- `restoreInitialTrace`, of these members; the map from threads to objects is not cleared.
unfoldable pub restore_initial_trace : Program → ℕ → Option Program
unfolding create_main_thread get_thread_with_id initial_transition set_next_transition_for_thread
restore_initial_trace p self = do
  (tid, q) ←
      create_main_thread
        (record p {
          next_thread_id = 0;
          object_storage = Store.new;
          next_transitions = no_transitions max_total_threads;
        })
        self
  main_thread ← get_thread_with_id q 0
  r ← set_next_transition_for_thread q 0 (initial_transition main_thread.tid)
  some (record r { next_thread_id = 1 })

-- A call of a method of the object with the given id; `none` where there is no such object, or where the
-- method's own assertion fails.
unfoldable pub call_method : Program → ℕ → (VisibleObject → Option VisibleObject) → Option Program
call_method p id method = do
  v ← Store.get_object_with_id p.object_storage id
  w ← method v
  some (record p { object_storage = Store.write_object p.object_storage id w })
