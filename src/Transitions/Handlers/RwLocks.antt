-- ===== src/Transitions/Handlers/RwLocks.antt =====
-- src/transitions/rwlock: the handlers of the operations on a reader-writer lock.
use dmtcp_integration.Base.{ℕ, Bool, true, false, not, ◌||◌, if◌then◌else◌}
use dmtcp_integration.Objects.RwLock
use dmtcp_integration.Objects.RwLock.{
  RwLock, State, undefined, unlocked, reader_owned, writer_owned, destroyed, no_preference,
}
use dmtcp_integration.Transitions.{
  RwLockOperation, rwlock_init, reader_enqueue, reader_lock, writer_enqueue, writer_lock,
  rwlock_unlock, on_rwlock, Transition,
}
use dmtcp_integration.Transitions.Program.{Program, of_rwlock}
use dmtcp_integration.Transitions.Execution.{cast_rwlock}
use dmtcp_integration.Transitions.Handlers.{
  Read, ◌>>=◌, ◌>>◌, report_on_fail, stop_on_fail, assert, or_crash, or_report, find_object,
  find_or_register, put, finish_reading,
}
use dmtcp_integration.Transitions.Handlers.Mutexes.{at}

abbrev pub is_undefined : State → Bool
is_undefined undefined = true
is_undefined _ = false

abbrev pub is_state_unlocked : State → Bool
is_state_unlocked unlocked = true
is_state_unlocked _ = false

-- The handler makes the state of the lock `unlocked`, whatever it was.
unfoldable pub read_rwlock_init : Program → ℕ → ℕ → Read (Transition × Program)
unfolding find_or_register put finish_reading
read_rwlock_init p executor address = do
  (id, v, q) ← find_or_register p address (of_rwlock (RwLock.new address no_preference))
  l ← or_crash (cast_rwlock v)
  finish_reading (put q id (of_rwlock (record l { state = unlocked }))) executor
      (on_rwlock rwlock_init (at id address))

-- The steps that the handlers of the two enqueueings share: the lock must have been registered.
unfoldable pub read_enqueue : RwLockOperation → Program → ℕ → ℕ → Read (Transition × Program)
unfolding find_object finish_reading
read_enqueue o p executor address = do
  (id, v) ← or_report (find_object p address)
  l ← or_crash (cast_rwlock v)
  report_on_fail (not (RwLock.is_destroyed l))
  finish_reading p executor (on_rwlock o (at id address))

unfoldable pub read_reader_enqueue : Program → ℕ → ℕ → Read (Transition × Program)
unfolding read_enqueue
read_reader_enqueue p executor address = read_enqueue reader_enqueue p executor address

unfoldable pub read_writer_enqueue : Program → ℕ → ℕ → Read (Transition × Program)
unfolding read_enqueue
read_writer_enqueue p executor address = read_enqueue writer_enqueue p executor address

unfoldable pub unlock_undefined : RwLock → RwLock
unlock_undefined l = if is_undefined l.state then record l { state = unlocked } else l

-- The steps that the handlers of the two lockings share. `is_initializer` is the comparison of the
-- target's memory with PTHREAD_RWLOCK_INITIALIZER.
unfoldable pub read_lock :
    RwLockOperation → (ℕ → Bool) → Program → ℕ → ℕ → Read (Transition × Program)
unfolding find_or_register unlock_undefined put finish_reading
read_lock o is_initializer p executor address = do
  (id, v, q) ← find_or_register p address (of_rwlock (RwLock.new address no_preference))
  l ← or_crash (cast_rwlock v)
  stop_on_fail (not (is_undefined l.state) || is_initializer address)
  let m = unlock_undefined l
  assert (is_state_unlocked m.state)
  report_on_fail (not (RwLock.is_destroyed m))
  finish_reading (put q id (of_rwlock m)) executor (on_rwlock o (at id address))

unfoldable pub read_reader_lock : (ℕ → Bool) → Program → ℕ → ℕ → Read (Transition × Program)
unfolding read_lock
read_reader_lock is_initializer p executor address =
    read_lock reader_lock is_initializer p executor address

unfoldable pub read_writer_lock : (ℕ → Bool) → Program → ℕ → ℕ → Read (Transition × Program)
unfolding read_lock
read_writer_lock is_initializer p executor address =
    read_lock writer_lock is_initializer p executor address

unfoldable pub read_rwlock_unlock : Program → ℕ → ℕ → Read (Transition × Program)
unfolding find_object finish_reading
read_rwlock_unlock p executor address = do
  (id, v) ← or_report (find_object p address)
  l ← or_crash (cast_rwlock v)
  report_on_fail (not (RwLock.is_unlocked l))
  report_on_fail (not (RwLock.is_destroyed l))
  finish_reading p executor (on_rwlock rwlock_unlock (at id address))
