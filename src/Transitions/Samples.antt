-- ===== src/Transitions/Samples.antt =====
-- A program with two threads, two semaphores, a mutex and a lock, on which the transitions are tried.
use dmtcp_integration.Base.{ℕ, none, [], ◌∷◌}
use dmtcp_integration.Objects.Thread.{Thread, alive}
use dmtcp_integration.Objects.Mutex.{Mutex, locked}
use dmtcp_integration.Objects.Semaphore.{Semaphore, initialized}
use dmtcp_integration.Objects.RwwLock
use dmtcp_integration.Objects.RwwLock.{RwwLock, no_preference}
use dmtcp_integration.Store.{StorageObject}
use dmtcp_integration.Transitions.{Ref}
use dmtcp_integration.Transitions.Program.{
  Program, VisibleObject, of_thread, of_mutex, of_semaphore, of_rwwlock, no_transitions,
}

abbrev pub registered : VisibleObject → StorageObject VisibleObject
registered v = record { current = v; initial_state = v }

abbrev pub main_thread : Thread
main_thread = record { tid = 0; state = alive; system_identity = 10 }

abbrev pub worker : Thread
worker = record { tid = 1; state = alive; system_identity = 11 }

abbrev pub held_mutex : Mutex
held_mutex = record { system_identity = 100; state = locked }

-- The worker waits at the semaphore 200, the main thread at 300.
abbrev pub empty_semaphore : Semaphore
empty_semaphore = record {
  sem = 200;
  count = 0;
  state = initialized;
  waiting_queue = 1 ∷ [];
  spurious_wakeup_count = 0;
}

abbrev pub full_semaphore : Semaphore
full_semaphore = record {
  sem = 300;
  count = 1;
  state = initialized;
  waiting_queue = 0 ∷ [];
  spurious_wakeup_count = 0;
}

-- The main thread waits to read.
abbrev pub queued_lock : RwwLock
queued_lock = record {
  system_identity = 400;
  state = RwwLock.unlocked;
  active_writer1 = none;
  active_writer2 = none;
  active_readers = [];
  reader_queue = 0 ∷ [];
  writer1_queue = [];
  writer2_queue = [];
  acquire_queue = 0 ∷ [];
  type = no_preference;
}

abbrev pub sample : Program
sample = record {
  object_storage = record {
    storage =
        registered (of_thread main_thread)
        ∷ registered (of_thread worker)
        ∷ registered (of_mutex held_mutex)
        ∷ registered (of_semaphore empty_semaphore)
        ∷ registered (of_semaphore full_semaphore)
        ∷ registered (of_rwwlock queued_lock)
        ∷ [];
    system_visible_object_map = (10, 0) ∷ (11, 1) ∷ (100, 2) ∷ (200, 3) ∷ (300, 4) ∷ (400, 5) ∷ [];
  };
  thread_id_map = (0, 0) ∷ (1, 1) ∷ [];
  next_thread_id = 2;
  next_transitions = no_transitions 20;
}

abbrev pub ref_to : ℕ → ℕ → Ref
ref_to id address = record { object_id = id; system_identity = address }
