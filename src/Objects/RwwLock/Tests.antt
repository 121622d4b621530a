-- ===== src/Objects/RwwLock/Tests.antt =====
-- Runs of the lock of src/objects/MCRWWLock.cpp on small inputs.
use dmtcp_integration.Base.{ℕ, refl, List, [], ◌∷◌}
use dmtcp_integration.Objects.Fifo.{tids, role_of, of_role}
use dmtcp_integration.Objects.RwwLock.{
  RwwLock, no_preference, new, enqueue_as_writer1, enqueue_as_writer2, can_acquire_as_writer1,
}
use dmtcp_integration.Objects.RwwLock.Exclusion.{
  Reach, here, next, Inv, Reach-IsExclusive, writer1_enqueues,
}
use dmtcp_integration.Objects.RwwLock.Fairness.{
  Role, writer1, writer2, Refines, Serves, can_acquire, lock, lock-Serves,
}

abbrev one_writer : RwwLock
one_writer = enqueue_as_writer1 (new 7 no_preference) 1

abbrev two_wait : RwwLock
two_wait = enqueue_as_writer2 one_writer 2

abbrev two_roles : List (Role × ℕ)
two_roles = (writer1, 1) ∷ (writer2, 2) ∷ []

two_wait-Refines : Refines two_wait two_roles
unfolding enqueue_as_writer1 enqueue_as_writer2 new tids of_role
two_wait-Refines = record { all = refl; readers = refl; writers1 = refl; writers2 = refl }

one_writer-Reach : Reach (new 7 no_preference) one_writer
one_writer-Reach = next here (writer1_enqueues 1 refl)

Reach-IsExclusive_example : Inv one_writer
Reach-IsExclusive_example = Reach-IsExclusive 7 no_preference one_writer-Reach

lock-Serves_example : Serves writer1 1 (lock writer1 two_wait 1) two_roles
unfolding enqueue_as_writer1 enqueue_as_writer2 new role_of can_acquire can_acquire_as_writer1
lock-Serves_example = lock-Serves writer1 two_wait two_roles 1 two_wait-Refines refl refl refl
