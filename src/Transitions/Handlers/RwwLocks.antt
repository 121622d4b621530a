-- ===== src/Transitions/Handlers/RwwLocks.antt =====
-- src/transitions/rwwlock: the handlers of the operations on a lock with two kinds of writers.
use dmtcp_integration.Base.{ℕ, not}
use dmtcp_integration.Objects.RwwLock
use dmtcp_integration.Objects.RwwLock.{RwwLock, no_preference}
use dmtcp_integration.Transitions.{
  RwwLockOperation, rwwlock_init, rww_reader_enqueue, rww_reader_lock, writer1_enqueue,
  writer1_lock, writer2_enqueue, writer2_lock, rwwlock_unlock, on_rwwlock, Transition,
}
use dmtcp_integration.Transitions.Program.{Program, of_rwwlock}
use dmtcp_integration.Transitions.Execution.{cast_rwwlock}
use dmtcp_integration.Transitions.Handlers.{
  Read, ◌>>=◌, ◌>>◌, report_on_fail, or_crash, or_report, find_object, find_or_register,
  finish_reading,
}
use dmtcp_integration.Transitions.Handlers.Mutexes.{at}

unfoldable pub read_rwwlock_init : Program → ℕ → ℕ → Read (Transition × Program)
unfolding find_or_register finish_reading
read_rwwlock_init p executor address = do
  (id, v, q) ← find_or_register p address (of_rwwlock (RwwLock.new address no_preference))
  finish_reading q executor (on_rwwlock rwwlock_init (at id address))

-- The steps that the handlers of the enqueueings and the lockings share: the lock must have been
-- registered, and not been destroyed.
unfoldable pub read_existing : RwwLockOperation → Program → ℕ → ℕ → Read (Transition × Program)
unfolding find_object finish_reading
read_existing o p executor address = do
  (id, v) ← or_report (find_object p address)
  l ← or_crash (cast_rwwlock v)
  report_on_fail (not (RwwLock.is_destroyed l))
  finish_reading p executor (on_rwwlock o (at id address))

unfoldable pub read_reader_enqueue : Program → ℕ → ℕ → Read (Transition × Program)
unfolding read_existing
read_reader_enqueue p executor address = read_existing rww_reader_enqueue p executor address

unfoldable pub read_reader_lock : Program → ℕ → ℕ → Read (Transition × Program)
unfolding read_existing
read_reader_lock p executor address = read_existing rww_reader_lock p executor address

unfoldable pub read_writer1_enqueue : Program → ℕ → ℕ → Read (Transition × Program)
unfolding read_existing
read_writer1_enqueue p executor address = read_existing writer1_enqueue p executor address

unfoldable pub read_writer1_lock : Program → ℕ → ℕ → Read (Transition × Program)
unfolding read_existing
read_writer1_lock p executor address = read_existing writer1_lock p executor address

unfoldable pub read_writer2_enqueue : Program → ℕ → ℕ → Read (Transition × Program)
unfolding read_existing
read_writer2_enqueue p executor address = read_existing writer2_enqueue p executor address

unfoldable pub read_writer2_lock : Program → ℕ → ℕ → Read (Transition × Program)
unfolding read_existing
read_writer2_lock p executor address = read_existing writer2_lock p executor address

unfoldable pub read_rwwlock_unlock : Program → ℕ → ℕ → Read (Transition × Program)
unfolding find_object finish_reading
read_rwwlock_unlock p executor address = do
  (id, v) ← or_report (find_object p address)
  l ← or_crash (cast_rwwlock v)
  report_on_fail (not (RwwLock.is_unlocked l))
  report_on_fail (not (RwwLock.is_destroyed l))
  finish_reading p executor (on_rwwlock rwwlock_unlock (at id address))
