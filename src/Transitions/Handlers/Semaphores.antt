-- ===== src/Transitions/Handlers/Semaphores.antt =====
-- src/transitions/semaphore: the handlers of the operations on a semaphore.
use dmtcp_integration.Base.{ℕ, not}
use dmtcp_integration.Objects.Semaphore
use dmtcp_integration.Objects.Semaphore.{Semaphore}
use dmtcp_integration.Transitions.{
  SemOperation, sem_init, sem_enqueue, sem_wait, sem_post, on_semaphore, Transition,
}
use dmtcp_integration.Transitions.Program.{Program, of_semaphore}
use dmtcp_integration.Transitions.Execution.{cast_semaphore}
use dmtcp_integration.Transitions.Handlers.{
  Read, ◌>>=◌, ◌>>◌, report_on_fail, or_crash, or_report, find_object, find_or_register,
  finish_reading,
}
use dmtcp_integration.Transitions.Handlers.Mutexes.{at}

-- The shared memory has the count as well.
unfoldable pub read_sem_init : Program → ℕ → ℕ → ℕ → Read (Transition × Program)
unfolding find_or_register finish_reading
read_sem_init p executor address count = do
  (id, v, q) ← find_or_register p address (of_semaphore (Semaphore.new address count))
  finish_reading q executor (on_semaphore sem_init (at id address))

-- The steps that the handlers of the other three operations share.
unfoldable pub read_existing : SemOperation → Program → ℕ → ℕ → Read (Transition × Program)
unfolding find_object finish_reading
read_existing o p executor address = do
  (id, v) ← or_report (find_object p address)
  s ← or_crash (cast_semaphore v)
  report_on_fail (not (Semaphore.is_destroyed s))
  finish_reading p executor (on_semaphore o (at id address))

unfoldable pub read_sem_post : Program → ℕ → ℕ → Read (Transition × Program)
unfolding read_existing
read_sem_post p executor address = read_existing sem_post p executor address

unfoldable pub read_sem_enqueue : Program → ℕ → ℕ → Read (Transition × Program)
unfolding read_existing
read_sem_enqueue p executor address = read_existing sem_enqueue p executor address

unfoldable pub read_sem_wait : Program → ℕ → ℕ → Read (Transition × Program)
unfolding read_existing
read_sem_wait p executor address = read_existing sem_wait p executor address
