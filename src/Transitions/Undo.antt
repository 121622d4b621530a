-- ===== src/Transitions/Undo.antt =====
-- src/transitions: which transitions can be undone, and how (`isReversibleInState`, `unapplyToState`).
pub mod Laws
use dmtcp_integration.Base.{ℕ, Bool, true, false, Option, none, some, ◌>>=◌}
use dmtcp_integration.Objects.Thread
use dmtcp_integration.Objects.Mutex
use dmtcp_integration.Objects.Mutex.{Mutex}
use dmtcp_integration.Transitions.{
  MutexOperation, mutex_init, mutex_lock, mutex_unlock, ThreadOperation, thread_create,
  thread_finish, thread_join, thread_start, Operation, on_mutex, on_thread, Transition,
}
use dmtcp_integration.Transitions.Program.{Program, of_mutex, call_method}
use dmtcp_integration.Transitions.Execution.{cast_mutex, apply_to_thread}

-- The virtual `isReversibleInState`, which is false by default.
unfoldable pub is_reversible_in_state : Operation → Bool
is_reversible_in_state (on_mutex mutex_init m) = true
is_reversible_in_state (on_mutex mutex_lock m) = false
is_reversible_in_state (on_mutex mutex_unlock m) = true
is_reversible_in_state (on_thread (thread_create target)) = false
is_reversible_in_state (on_thread thread_finish) = true
is_reversible_in_state (on_thread (thread_join target)) = true
is_reversible_in_state (on_thread thread_start) = false
is_reversible_in_state _ = false

unfoldable pub unapply_to_mutex : MutexOperation → ℕ → Mutex → Mutex
unapply_to_mutex mutex_init thread m = Mutex.deinit m
unapply_to_mutex mutex_lock thread m = Mutex.unlock m
unapply_to_mutex mutex_unlock thread m = Mutex.lock m thread

unfoldable pub unapply_thread_operation : Program → ℕ → ThreadOperation → Option Program
unfolding apply_to_thread
unapply_thread_operation p thread (thread_create target) = apply_to_thread p target Thread.despawn
unapply_thread_operation p thread thread_finish = apply_to_thread p thread Thread.spawn
unapply_thread_operation p thread (thread_join target) = some p
unapply_thread_operation p thread thread_start = apply_to_thread p thread Thread.despawn

-- The virtual `unapplyToState`, which throws by default.
unfoldable pub unapply_operation : Program → ℕ → Operation → Option Program
unfolding unapply_to_mutex unapply_thread_operation call_method
unapply_operation p thread (on_mutex o m) =
    call_method p m.object_id
      (λ v. cast_mutex v >>= λ n. some (of_mutex (unapply_to_mutex o thread n)))
unapply_operation p thread (on_thread o) = unapply_thread_operation p thread o
unapply_operation p thread _ = none

unfoldable pub unapply_to_state : Program → Transition → Option Program
unfolding unapply_operation
unapply_to_state p t = unapply_operation p t.thread t.operation
