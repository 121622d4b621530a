-- ===== src/Transitions/Tests.antt =====
-- A program with two threads and some objects, and the theorems on transitions applied to it.
use dmtcp_integration.Base.{
  subst, contains, ℕ, zero, suc, Bool, true, false, none, some, ◌≡◌, refl, [], ◌∷◌, ◌++◌, ◌||◌, set,
  ◌<◌, ◌+◌, ◌^◌, arith, ◌>>=◌,
}
use dmtcp_integration.Objects.Thread.{Thread, embryo}
use dmtcp_integration.Objects.Mutex
use dmtcp_integration.Objects.Mutex.{Mutex, locked}
use dmtcp_integration.Objects.Semaphore
use dmtcp_integration.Objects.Semaphore.{Semaphore, initialized}
use dmtcp_integration.Objects.Barrier
use dmtcp_integration.Objects.Barrier.{Barrier}
use dmtcp_integration.Objects.RwwLock
use dmtcp_integration.Objects.RwwLock.{RwwLock, no_preference}
use dmtcp_integration.Store
use dmtcp_integration.Store.{ObjectStore, StorageObject}
use dmtcp_integration.Store.Laws.{register_new_object-lookup}
use dmtcp_integration.Transitions.{
  on_mutex, mutex_init, mutex_lock, mutex_unlock, on_cond, cond_wait, on_semaphore, sem_wait,
  sem_post, on_barrier, barrier_wait, on_global, global_read, global_write, Transition,
}
use dmtcp_integration.Transitions.Semaphores
use dmtcp_integration.Transitions.Program.{
  Program, VisibleObject, of_mutex, of_semaphore, of_rwwlock, copy, get_thread_with_id,
  add_new_thread, initial_transition,
}
use dmtcp_integration.Transitions.Program.Laws.{Inv, new_thread, add_new_thread-Returns}
use dmtcp_integration.Transitions.Independence.{independent_commute}
use dmtcp_integration.Transitions.Persistence.{independent-stays_enabled}
use dmtcp_integration.Transitions.Persistence.OneObject.{WaiterQueued}
use dmtcp_integration.Transitions.Relations.Laws.{relations_comm}
use dmtcp_integration.Transitions.Enabled.Laws.{post_enables_wait}
use dmtcp_integration.Transitions.Undo.Laws.{unapply-apply, on_that_mutex}
use dmtcp_integration.Transitions.Class.Copies.{static_copy-never_coenabled}
use dmtcp_integration.Transitions.Conds.Laws.{wait_dependence_is_inverted}
use dmtcp_integration.Transitions.Handlers.Laws.{read_mutex_lock-guarded}
use dmtcp_integration.Transitions.Execution.{apply_to_state}
use dmtcp_integration.Transitions.Undo.{unapply_to_state}
use dmtcp_integration.Transitions.Relations.{
  dependent_transitions, coenabled_transitions, transitions_in_data_race,
}
use dmtcp_integration.Transitions.Enabled.{enabled_in_state}
use dmtcp_integration.Transitions.Handlers
use dmtcp_integration.Transitions.Handlers.{Read, reads, reports, find_object}
use dmtcp_integration.Transitions.Handlers.Mutexes.{read_mutex_lock}
use dmtcp_integration.Transitions.Class.{static_copy}
use dmtcp_integration.Transitions.Samples.{
  registered, main_thread, worker, held_mutex, empty_semaphore, full_semaphore, queued_lock, sample,
  ref_to,
}

abbrev main_waits : Transition
main_waits = record { thread = 0; operation = on_semaphore sem_wait (ref_to 4 300) }

abbrev worker_posts : Transition
worker_posts = record { thread = 1; operation = on_semaphore sem_post (ref_to 4 300) }

are_independent : dependent_transitions main_waits worker_posts ≡ false
unfolding dependent_transitions Semaphores.dependent_with
are_independent = refl

wait_is_enabled : enabled_in_state sample 0 (on_semaphore sem_wait (ref_to 4 300)) ≡ some true
unfolding enabled_in_state Store.get_object_with_id Semaphore.thread_can_exit
    Semaphore.find_position
wait_is_enabled = refl

post_is_enabled : enabled_in_state sample 1 (on_semaphore sem_post (ref_to 4 300)) ≡ some true
unfolding enabled_in_state
post_is_enabled = refl

small_count :
    (x : Semaphore)
    → Store.get_object_with_id sample.object_storage 4 ≡ some (of_semaphore x)
    → x.count + 1 < 2 ^ 32
unfolding Store.get_object_with_id
small_count x h = ground (arith, h)

-- The main thread's waiting and the worker's post at one semaphore may be exchanged.
independent_commute_example :
    (apply_to_state sample main_waits >>= λ q. apply_to_state q worker_posts)
    ≡ (apply_to_state sample worker_posts >>= λ q. apply_to_state q main_waits)
independent_commute_example =
    independent_commute sample main_waits worker_posts (ref_to 4 300) (ref_to 4 300) refl refl
      (λ _. refl) are_independent wait_is_enabled post_is_enabled small_count

abbrev full_after_post : Program
full_after_post = record sample {
  object_storage =
      Store.write_object sample.object_storage 4 (of_semaphore (Semaphore.post full_semaphore));
}

worker_has_posted : apply_to_state sample worker_posts ≡ some full_after_post
unfolding apply_to_state Store.get_object_with_id
worker_has_posted = refl

main_is_queued :
    (v : VisibleObject)
    → Store.get_object_with_id sample.object_storage 4 ≡ some v
    → WaiterQueued (on_semaphore sem_wait (ref_to 4 300)) 0 v
unfolding Store.get_object_with_id contains
main_is_queued v h =
    let is : of_semaphore full_semaphore ≡ v = ground (arith, h) in
    subst (WaiterQueued (on_semaphore sem_wait (ref_to 4 300)) 0) is refl

post_then_wait : dependent_transitions worker_posts main_waits ≡ false
unfolding dependent_transitions Semaphores.dependent_with
post_then_wait = refl

-- The worker's post leaves the main thread's waiting at the same semaphore enabled.
independent-stays_enabled_example :
    enabled_in_state full_after_post 0 (on_semaphore sem_wait (ref_to 4 300)) ≡ some true
independent-stays_enabled_example =
    independent-stays_enabled sample full_after_post worker_posts main_waits (ref_to 4 300)
      (ref_to 4 300) refl refl (λ _. refl) post_then_wait post_is_enabled wait_is_enabled
      small_count main_is_queued worker_has_posted

abbrev after_post : Program
after_post = record sample {
  object_storage =
      Store.write_object sample.object_storage 3 (of_semaphore (Semaphore.post empty_semaphore));
}

abbrev main_reads : Transition
main_reads = record { thread = 0; operation = on_global global_read (ref_to 6 500) }

abbrev worker_writes : Transition
worker_writes = record { thread = 1; operation = on_global global_write (ref_to 6 500) }

relations_comm_example :
    (dependent_transitions main_reads worker_writes
      ≡ dependent_transitions worker_writes main_reads)
    × (coenabled_transitions main_reads worker_writes
        ≡ coenabled_transitions worker_writes main_reads)
    × (transitions_in_data_race main_reads worker_writes
        ≡ transitions_in_data_race worker_writes main_reads)
    × (transitions_in_data_race main_reads worker_writes ≡ true
        → dependent_transitions main_reads worker_writes ≡ true)
relations_comm_example = relations_comm main_reads worker_writes

abbrev read_locked : RwwLock
read_locked = record queued_lock { active_readers = 0 ∷ []; reader_queue = []; acquire_queue = [] }

abbrev while_reading : Program
while_reading = record sample {
  object_storage = Store.write_object sample.object_storage 5 (of_rwwlock read_locked);
}

semaphore_at_three :
    Store.get_object_with_id sample.object_storage 3 ≡ some (of_semaphore empty_semaphore)
unfolding Store.get_object_with_id
semaphore_at_three = refl

worker_is_first : Semaphore.thread_can_exit_based_on_sleep_position empty_semaphore 1 ≡ true
unfolding Semaphore.thread_can_exit_based_on_sleep_position Semaphore.find_position
worker_is_first = refl

abbrev main_posts : Transition
main_posts = record { thread = 0; operation = on_semaphore sem_post (ref_to 3 200) }

main_has_posted : apply_to_state sample main_posts ≡ some after_post
unfolding apply_to_state Store.get_object_with_id
main_has_posted = refl

-- The worker waits at a semaphore with the count 0, to which the main thread posts.
post_enables_wait_example :
    (dependent_transitions
        (record { thread = 1; operation = on_semaphore sem_wait (ref_to 3 200) })
        main_posts
      ≡ false)
    × (enabled_in_state sample 1 (on_semaphore sem_wait (ref_to 3 200)) ≡ some false)
    × (enabled_in_state after_post 1 (on_semaphore sem_wait (ref_to 3 200)) ≡ some true)
post_enables_wait_example =
    post_enables_wait sample after_post 1 0 (ref_to 3 200) empty_semaphore refl semaphore_at_three
      refl worker_is_first main_has_posted

mutex_at_two : Store.get_object_with_id sample.object_storage 2 ≡ some (of_mutex held_mutex)
unfolding Store.get_object_with_id
mutex_at_two = refl

abbrev main_unlocks : Transition
main_unlocks = record { thread = 0; operation = on_mutex mutex_unlock (ref_to 2 100) }

-- An unlocking is undone.
unapply-apply_example :
    (apply_to_state sample main_unlocks >>= λ q. unapply_to_state q main_unlocks) ≡ some sample
unapply-apply_example =
    unapply-apply sample main_unlocks
      (on_that_mutex mutex_unlock (ref_to 2 100) held_mutex mutex_at_two refl)

threads : (t : ℕ) → t < 2 → (x : Thread) × (get_thread_with_id sample t ≡ some x) × (x.tid ≡ t)
unfolding get_thread_with_id Store.get_object_with_id Store.find
threads zero less = (main_thread, refl, refl)
threads (suc zero) less = (worker, refl, refl)
threads (suc (suc t)) less = absurd (omega arith)

sample-Inv : Inv sample
unfolding get_thread_with_id Store.get_object_with_id Store.find
sample-Inv = record { known = threads; fresh = λ t more. ground (arith, more) }

-- A third thread.
add_new_thread-Returns_example :
    (q : Program) × (add_new_thread sample 12 embryo ≡ some (2, q))
    × (get_thread_with_id q 2 ≡ some (new_thread sample 12 embryo))
    × (q.next_transitions ≡ set sample.next_transitions 2 (some (initial_transition 2)))
    × Inv q
add_new_thread-Returns_example =
    add_new_thread-Returns sample 12 embryo sample-Inv (omega arith) (omega arith)

abbrev with_seven : ObjectStore VisibleObject
with_seven = record sample.object_storage {
  storage = sample.object_storage.storage ++ registered (of_mutex (Mutex.new 600)) ∷ [];
}

no_such_address : Store.find sample.object_storage.system_visible_object_map 600 ≡ none
unfolding Store.find
no_such_address = refl

registers :
    Store.register_new_object copy sample.object_storage (of_mutex (Mutex.new 600))
    ≡ some (6, with_seven)
unfolding Store.register_new_object copy
registers = refl

-- A new mutex.
register_new_object-lookup_example :
    (Store.get_object_with_system_address (Store.map_system_address_to_shadow with_seven 600 6) 600
      ≡ some (of_mutex (Mutex.new 600)))
    × ((i : ℕ) (w : VisibleObject)
        → Store.get_object_with_id sample.object_storage i ≡ some w
        → Store.get_object_with_id (Store.map_system_address_to_shadow with_seven 600 6) i ≡ some w)
register_new_object-lookup_example =
    register_new_object-lookup copy sample.object_storage with_seven (of_mutex (Mutex.new 600)) 600
      6 no_such_address registers

abbrev two_at_barrier : Barrier
two_at_barrier = record {
  system_identity = 700;
  wait_count = 2;
  state = Barrier.initialized;
  waiting_odd = 0 ∷ 1 ∷ [];
  waiting_even = [];
  is_even = true;
}

abbrev leaves_barrier : Transition
leaves_barrier = record {
  thread = 0;
  operation = on_barrier barrier_wait (ref_to 7 700) two_at_barrier;
}

-- A waiting that the full barrier lets pass.
static_copy-never_coenabled_example :
    coenabled_transitions (static_copy leaves_barrier) worker_posts ≡ false
static_copy-never_coenabled_example =
    static_copy-never_coenabled leaves_barrier worker_posts (ref_to 7 700) two_at_barrier refl
      (omega arith)

abbrev lock_of_worker : Transition
lock_of_worker = record { thread = 1; operation = on_mutex mutex_lock (ref_to 2 100) }

abbrev unchecked : ℕ → Bool
unchecked address = false

reads_lock : read_mutex_lock unchecked sample 1 100 ≡ reads (lock_of_worker, sample)
unfolding read_mutex_lock Store.find Store.get_object_with_id Mutex.is_unlocked Mutex.is_locked
    Mutex.is_destroyed Handlers.put Store.write_object
reads_lock = refl

-- The worker asks for the mutex that is held.
read_mutex_lock-guarded_example :
    (id : ℕ) × (m : Mutex) × (lock_of_worker.operation
      ≡ on_mutex mutex_lock (record { object_id = id; system_identity = 100 }))
    × (Store.get_object_with_id sample.object_storage id ≡ some (of_mutex m))
    × ((Mutex.is_unlocked m || Mutex.is_locked m) ≡ true)
    × (enabled_in_state sample 1 lock_of_worker.operation ≡ some (Mutex.is_unlocked m))
read_mutex_lock-guarded_example =
    read_mutex_lock-guarded unchecked sample sample 1 100 lock_of_worker reads_lock

-- The worker waits with the mutex 100, and the main thread unlocks it or initialises the mutex 600.
wait_dependence_is_inverted_example :
    (dependent_transitions
        (record { thread = 1; operation = on_cond (cond_wait (ref_to 2 100)) (ref_to 8 900) })
        (record { thread = 0; operation = on_mutex mutex_unlock (ref_to 2 100) })
      ≡ false)
    × (dependent_transitions
          (record { thread = 1; operation = on_cond (cond_wait (ref_to 2 100)) (ref_to 8 900) })
          (record { thread = 0; operation = on_mutex mutex_init (ref_to 6 600) })
        ≡ true)
wait_dependence_is_inverted_example =
    wait_dependence_is_inverted 1 0 (ref_to 8 900) (ref_to 2 100) (ref_to 6 600) refl
