-- ===== src/Transitions/Relations.antt =====
-- src/MCTransition.cpp: the relations of dependence, co-enabledness and racing that the search asks for.
pub mod Laws
use dmtcp_integration.Base.{
  ℕ, Bool, true, false, not, ◌&&◌, ◌||◌, ◌==◌, Option, none, some, if◌then◌else◌,
}
use dmtcp_integration.Transitions.{
  Operation, on_mutex, on_thread, on_semaphore, on_barrier, on_rwlock, on_rwwlock, on_cond,
  on_global, exit_process, abort_process, Transition,
}
use dmtcp_integration.Transitions.Mutexes
use dmtcp_integration.Transitions.Threads
use dmtcp_integration.Transitions.Threads.{
  as_thread_create, as_thread_join, does_create_thread, joins_on_thread,
}
use dmtcp_integration.Transitions.Semaphores
use dmtcp_integration.Transitions.Barriers
use dmtcp_integration.Transitions.RwLocks
use dmtcp_integration.Transitions.RwwLocks
use dmtcp_integration.Transitions.Conds
use dmtcp_integration.Transitions.Globals

-- The virtual `dependentWith`, of an operation run by `thread`.
unfoldable pub operation_dependent_with : Operation → ℕ → Transition → Bool
operation_dependent_with (on_mutex o m) thread t = Mutexes.dependent_with o m t.operation
operation_dependent_with (on_thread o) thread t = Threads.dependent_with o thread t
operation_dependent_with (on_semaphore o s) thread t = Semaphores.dependent_with o s t.operation
operation_dependent_with (on_barrier o b c) thread t = Barriers.dependent_with b t.operation
operation_dependent_with (on_rwlock o l) thread t = RwLocks.dependent_with o l t.operation
operation_dependent_with (on_rwwlock o l) thread t = RwwLocks.dependent_with o l t.operation
operation_dependent_with (on_cond o c) thread t = Conds.dependent_with o c thread t
operation_dependent_with (on_global o v) thread t = Globals.dependent_with o v t.operation
operation_dependent_with exit_process thread t = false
operation_dependent_with abort_process thread t = false

unfoldable pub dependent_with : Transition → Transition → Bool
unfolding operation_dependent_with
dependent_with t1 t2 = operation_dependent_with t1.operation t1.thread t2

-- The virtual `coenabledWith`, which is true by default. A waiting on a barrier asks the barrier that the
-- transition has; for a next transition the source asks the object in the store through the pointer, and
-- the answer here is that of the barrier when the transition was made.
unfoldable pub operation_coenabled_with : Operation → ℕ → Transition → Bool
operation_coenabled_with (on_mutex o m) thread t = Mutexes.coenabled_with o m t.operation
operation_coenabled_with (on_thread o) thread t = Threads.coenabled_with o thread t
operation_coenabled_with (on_semaphore o s) thread t = true
operation_coenabled_with (on_barrier o b c) thread t = Barriers.coenabled_with o c thread
operation_coenabled_with (on_rwlock o l) thread t = RwLocks.coenabled_with o l t.operation
operation_coenabled_with (on_rwwlock o l) thread t = RwwLocks.coenabled_with o l t.operation
operation_coenabled_with (on_cond o c) thread t = Conds.coenabled_with o c thread t
operation_coenabled_with (on_global o v) thread t = true
operation_coenabled_with exit_process thread t = true
operation_coenabled_with abort_process thread t = true

unfoldable pub coenabled_with : Transition → Transition → Bool
unfolding operation_coenabled_with
coenabled_with t1 t2 = operation_coenabled_with t1.operation t1.thread t2

-- The virtual `isRacingWith`, which is false by default.
unfoldable pub is_racing_with : Transition → Transition → Bool
is_racing_with t1 t2 = elim t1.operation [
  | on_global o v ↦ Globals.is_racing_with o v t2.operation
  | _ ↦ false
]

-- The casts to MCThreadJoin, which the casts to MCThreadCreate precede.
unfoldable pub joins_dependent : Transition → Transition → Bool
unfolding joins_on_thread
joins_dependent t1 t2 = elim (as_thread_join t1.operation) [
  | some target ↦ joins_on_thread target t2.thread
  | none ↦ elim (as_thread_join t2.operation) [
    | some target ↦ joins_on_thread target t1.thread
    | none ↦ false
  ]
]

unfoldable pub transitions_dependent_common : Transition → Transition → Bool
unfolding does_create_thread joins_dependent
transitions_dependent_common t1 t2 =
    if t1.thread == t2.thread then true else elim (as_thread_create t1.operation) [
      | some target ↦ does_create_thread target t2.thread
      | none ↦ elim (as_thread_create t2.operation) [
        | some target ↦ does_create_thread target t1.thread
        | none ↦ joins_dependent t1 t2
      ]
    ]

unfoldable pub joins_coenabled : Transition → Transition → Bool
unfolding joins_on_thread
joins_coenabled t1 t2 = elim (as_thread_join t1.operation) [
  | some target ↦ not (joins_on_thread target t2.thread)
  | none ↦ elim (as_thread_join t2.operation) [
    | some target ↦ not (joins_on_thread target t1.thread)
    | none ↦ true
  ]
]

unfoldable pub transitions_coenabled_common : Transition → Transition → Bool
unfolding does_create_thread joins_coenabled
transitions_coenabled_common t1 t2 =
    if t1.thread == t2.thread then false else elim (as_thread_create t1.operation) [
      | some target ↦ not (does_create_thread target t2.thread)
      | none ↦ elim (as_thread_create t2.operation) [
        | some target ↦ not (does_create_thread target t1.thread)
        | none ↦ joins_coenabled t1 t2
      ]
    ]

unfoldable pub dependent_transitions : Transition → Transition → Bool
unfolding transitions_dependent_common dependent_with
dependent_transitions t1 t2 =
    transitions_dependent_common t1 t2 || (dependent_with t1 t2 || dependent_with t2 t1)

unfoldable pub coenabled_transitions : Transition → Transition → Bool
unfolding transitions_coenabled_common coenabled_with
coenabled_transitions t1 t2 =
    transitions_coenabled_common t1 t2 && (coenabled_with t1 t2 && coenabled_with t2 t1)

unfoldable pub transitions_in_data_race : Transition → Transition → Bool
unfolding is_racing_with
transitions_in_data_race t1 t2 = is_racing_with t1 t2 || is_racing_with t2 t1
