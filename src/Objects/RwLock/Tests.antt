-- ===== src/Objects/RwLock/Tests.antt =====
-- Runs of the lock of src/objects/MCRWLock.cpp on small inputs.
use dmtcp_integration.Base.{ℕ, List, ◌≡◌, refl, true, false, some, [], ◌∷◌}
use dmtcp_integration.Objects.RwLock.{
  RwLock, no_preference, new, enqueue_as_reader, enqueue_as_writer, can_acquire_as_reader,
  reader_lock, is_unlocked,
}
use dmtcp_integration.Objects.RwLock.Exclusion.{
  Reach, here, next, Inv, Reach-Inv, reader_enqueues, reader_locks,
}
use dmtcp_integration.Objects.RwLock.Fairness.{
  Role, reader, writer, Refines, Serves, can_acquire, lock, free_lock-Serves_first,
}
use dmtcp_integration.Objects.Fifo.{tids, of_role}

abbrev one_reader : RwLock
one_reader = enqueue_as_reader (new 7 no_preference) 1

abbrev two_wait : RwLock
two_wait = enqueue_as_writer one_reader 2

abbrev held : RwLock
held = record one_reader { active_readers = 1 ∷ []; reader_queue = []; acquire_queue = [] }

one_reader-locks : reader_lock one_reader 1 ≡ some held
unfolding reader_lock enqueue_as_reader new
one_reader-locks = refl

held-Reach : Reach (new 7 no_preference) held
unfolding reader_lock can_acquire_as_reader enqueue_as_reader new
held-Reach = next (next here (reader_enqueues 1 refl)) (reader_locks 1 refl refl)

Reach-Inv_example : Inv held
Reach-Inv_example = Reach-Inv 7 no_preference held-Reach

two_wait-free : is_unlocked two_wait ≡ true
unfolding is_unlocked enqueue_as_writer enqueue_as_reader new
two_wait-free = refl

abbrev waiting : List (Role × ℕ)
waiting = (writer, 2) ∷ []

two_wait-Refines : Refines two_wait ((reader, 1) ∷ waiting)
unfolding enqueue_as_writer enqueue_as_reader new tids of_role
two_wait-Refines = record { all = refl; readers = refl; writers = refl }

free_lock-Serves_first_example :
    (can_acquire reader two_wait 1 ≡ some true)
    × Serves reader 1 (lock reader two_wait 1) ((reader, 1) ∷ waiting)
    × (can_acquire writer two_wait 2 ≡ some false)
unfolding enqueue_as_writer enqueue_as_reader new
free_lock-Serves_first_example =
    free_lock-Serves_first two_wait reader writer 1 2 waiting two_wait-Refines refl two_wait-free
      refl
