-- ===== src/Transitions/Handlers/Mutexes.antt =====
-- src/transitions/mutex: the handlers of the operations on a mutex.
use dmtcp_integration.Base.{ℕ, Bool, true, false, not, ◌||◌, if◌then◌else◌}
use dmtcp_integration.Objects.Mutex
use dmtcp_integration.Objects.Mutex.{Mutex, MutexState, undefined, unlocked, locked, destroyed}
use dmtcp_integration.Transitions.{Ref, mutex_init, mutex_lock, mutex_unlock, on_mutex, Transition}
use dmtcp_integration.Transitions.Program.{Program, of_mutex}
use dmtcp_integration.Transitions.Execution.{cast_mutex}
use dmtcp_integration.Transitions.Handlers.{
  Read, ◌>>=◌, ◌>>◌, report_on_fail, stop_on_fail, assert, or_crash, or_report, find_object,
  find_or_register, put, finish_reading,
}

abbrev pub at : ℕ → ℕ → Ref
at id address = record { object_id = id; system_identity = address }

unfoldable pub read_mutex_init : Program → ℕ → ℕ → Read (Transition × Program)
unfolding find_or_register finish_reading
read_mutex_init p executor address = do
  (id, v, q) ← find_or_register p address (of_mutex (Mutex.new address))
  finish_reading q executor (on_mutex mutex_init (at id address))

abbrev pub is_undefined : MutexState → Bool
is_undefined undefined = true
is_undefined _ = false

-- The initialisation of a mutex that the target initialised statically.
unfoldable pub unlock_undefined : Mutex → Mutex
unlock_undefined m = if is_undefined m.state then record m { state = unlocked } else m

-- `is_initializer` is the comparison of the target's memory at the address with
-- PTHREAD_MUTEX_INITIALIZER, which the handler makes for an undefined mutex.
unfoldable pub read_mutex_lock : (ℕ → Bool) → Program → ℕ → ℕ → Read (Transition × Program)
unfolding find_or_register unlock_undefined finish_reading
read_mutex_lock is_initializer p executor address = do
  (id, v, q) ← find_or_register p address (of_mutex (Mutex.new address))
  m ← or_crash (cast_mutex v)
  stop_on_fail (not (is_undefined m.state) || is_initializer address)
  let n = unlock_undefined m
  assert (Mutex.is_unlocked n || Mutex.is_locked n)
  report_on_fail (not (Mutex.is_destroyed n))
  finish_reading (put q id (of_mutex n)) executor (on_mutex mutex_lock (at id address))

unfoldable pub read_mutex_unlock : Program → ℕ → ℕ → Read (Transition × Program)
unfolding find_object finish_reading
read_mutex_unlock p executor address = do
  (id, v) ← or_report (find_object p address)
  m ← or_crash (cast_mutex v)
  report_on_fail (not (Mutex.is_unlocked m))
  report_on_fail (not (Mutex.is_destroyed m))
  finish_reading p executor (on_mutex mutex_unlock (at id address))
