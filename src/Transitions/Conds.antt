-- ===== src/Transitions/Conds.antt =====
-- src/transitions/cond: which transitions the operations on a condition variable are dependent and co-enabled
-- with.
pub mod Laws
use dmtcp_integration.Base.{
  ℕ, Bool, true, false, not, ◌&&◌, ◌||◌, ◌==◌, Option, none, some, if◌then◌else◌,
}
use dmtcp_integration.Transitions.{
  Ref, MutexOperation, mutex_lock, mutex_unlock, CondOperation, cond_init, cond_signal,
  cond_broadcast, cond_enqueue, cond_wait, Operation, on_mutex, on_cond, Transition, same, is_on,
  is_not_on,
}
use dmtcp_integration.Transitions.Mutexes

-- `dynamic_cast<const MCCondTransition *>`
abbrev pub as_cond_transition : Operation → Option Ref
as_cond_transition (on_cond o c) = some c
as_cond_transition _ = none

abbrev pub as_cond_enqueue : Operation → Option Ref
as_cond_enqueue (on_cond (cond_enqueue m) c) = some c
as_cond_enqueue _ = none

abbrev pub as_cond_wait : Operation → Option Ref
as_cond_wait (on_cond (cond_wait m) c) = some c
as_cond_wait _ = none

-- `MCTransition::coenabledTransitions` of two operations on mutexes: none of them creates a thread or
-- joins on one.
unfoldable pub coenabled_mutex_transitions :
    ℕ → MutexOperation → Ref → ℕ → MutexOperation → Ref → Bool
unfolding Mutexes.coenabled_with
coenabled_mutex_transitions t1 o1 m1 t2 o2 m2 =
    not (t1 == t2)
    && (Mutexes.coenabled_with o1 m1 (on_mutex o2 m2)
        && Mutexes.coenabled_with o2 m2 (on_mutex o1 m1))

-- `MCTransition::dependentTransitions` of two operations on mutexes
unfoldable pub dependent_mutex_transitions :
    ℕ → MutexOperation → Ref → ℕ → MutexOperation → Ref → Bool
unfolding Mutexes.dependent_with
dependent_mutex_transitions t1 o1 m1 t2 o2 m2 =
    t1 == t2
    || (Mutexes.dependent_with o1 m1 (on_mutex o2 m2)
        || Mutexes.dependent_with o2 m2 (on_mutex o1 m1))

-- `dependentWith` of MCCondInit, MCCondSignal and MCCondBroadcast
unfoldable pub any_dependent_with : Ref → Operation → Bool
any_dependent_with c other = is_on (as_cond_transition other) c

-- What an enqueueing makes of an operation on a mutex.
unfoldable pub enqueue_dependent_with_mutex : ℕ → Ref → ℕ → Operation → Bool
unfolding dependent_mutex_transitions
enqueue_dependent_with_mutex thread m other_thread (on_mutex o n) =
    dependent_mutex_transitions thread mutex_unlock m other_thread o n
enqueue_dependent_with_mutex thread m other_thread _ = false

unfoldable pub enqueue_dependent_with : ℕ → Ref → Ref → Transition → Bool
unfolding any_dependent_with enqueue_dependent_with_mutex
enqueue_dependent_with thread m c t = elim (as_cond_transition t.operation) [
  | some d ↦ any_dependent_with c t.operation
  | none ↦ enqueue_dependent_with_mutex thread m t.thread t.operation
]

-- The source asks whether the two are co-enabled.
unfoldable pub wait_dependent_with_mutex : ℕ → Ref → ℕ → Operation → Bool
unfolding coenabled_mutex_transitions
wait_dependent_with_mutex thread m other_thread (on_mutex o n) =
    coenabled_mutex_transitions thread mutex_lock m other_thread o n
wait_dependent_with_mutex thread m other_thread _ = false

unfoldable pub wait_dependent_with : ℕ → Ref → Ref → Transition → Bool
unfolding any_dependent_with wait_dependent_with_mutex
wait_dependent_with thread m c t = elim (as_cond_transition t.operation) [
  | some d ↦ any_dependent_with c t.operation
  | none ↦ wait_dependent_with_mutex thread m t.thread t.operation
]

unfoldable pub dependent_with : CondOperation → Ref → ℕ → Transition → Bool
unfolding any_dependent_with enqueue_dependent_with wait_dependent_with
dependent_with cond_init c thread t = any_dependent_with c t.operation
dependent_with cond_signal c thread t = any_dependent_with c t.operation
dependent_with cond_broadcast c thread t = any_dependent_with c t.operation
dependent_with (cond_enqueue m) c thread t = enqueue_dependent_with thread m c t
dependent_with (cond_wait m) c thread t = wait_dependent_with thread m c t

-- `coenabledTransitions` of an operation on the mutex `m` and the other transition, if that is an
-- operation on a mutex.
unfoldable pub coenabled_with_mutex : ℕ → MutexOperation → Ref → ℕ → Operation → Bool
unfolding coenabled_mutex_transitions
coenabled_with_mutex thread p m other_thread (on_mutex o n) =
    coenabled_mutex_transitions thread p m other_thread o n
coenabled_with_mutex thread p m other_thread _ = true

unfoldable pub enqueue_coenabled_with : ℕ → Ref → Ref → Transition → Bool
unfolding coenabled_with_mutex
enqueue_coenabled_with thread m c t = elim (as_cond_enqueue t.operation) [
  | some d ↦ not (same d c)
  | none ↦ coenabled_with_mutex thread mutex_unlock m t.thread t.operation
]

unfoldable pub wait_coenabled_with : ℕ → Ref → Ref → Transition → Bool
unfolding coenabled_with_mutex
wait_coenabled_with thread m c t = elim (as_cond_wait t.operation) [
  | some d ↦ not (same d c)
  | none ↦ coenabled_with_mutex thread mutex_lock m t.thread t.operation
]

unfoldable pub coenabled_with : CondOperation → Ref → ℕ → Transition → Bool
unfolding enqueue_coenabled_with wait_coenabled_with
coenabled_with cond_init c thread t = true
coenabled_with cond_signal c thread t = true
coenabled_with cond_broadcast c thread t = true
coenabled_with (cond_enqueue m) c thread t = enqueue_coenabled_with thread m c t
coenabled_with (cond_wait m) c thread t = wait_coenabled_with thread m c t
