-- ===== src/Transitions/Handlers/Barriers.antt =====
-- src/transitions/barrier: the handlers of the operations on a barrier.
use dmtcp_integration.Base.{ℕ, not, if◌then◌else◌}
use dmtcp_integration.Objects.Barrier
use dmtcp_integration.Objects.Barrier.{Barrier}
use dmtcp_integration.Transitions.{
  barrier_init, barrier_enqueue, barrier_wait, on_barrier, Transition,
}
use dmtcp_integration.Transitions.Program.{Program, of_barrier}
use dmtcp_integration.Transitions.Execution.{cast_barrier}
use dmtcp_integration.Transitions.Handlers.{
  Read, ◌>>=◌, or_crash, or_report, find_object, find_or_register, put, finish_reading,
}
use dmtcp_integration.Transitions.Handlers.Mutexes.{at}

-- The shared memory has the number of threads to wait for as well.
unfoldable pub read_barrier_init : Program → ℕ → ℕ → ℕ → Read (Transition × Program)
unfolding find_or_register finish_reading
read_barrier_init p executor address count = do
  (id, v, q) ← find_or_register p address (of_barrier (Barrier.new address count))
  b ← or_crash (cast_barrier v)
  finish_reading q executor (on_barrier barrier_init (at id address) b)

unfoldable pub read_barrier_enqueue : Program → ℕ → ℕ → Read (Transition × Program)
unfolding find_object finish_reading
read_barrier_enqueue p executor address = do
  (id, v) ← or_report (find_object p address)
  b ← or_crash (cast_barrier v)
  finish_reading p executor (on_barrier barrier_enqueue (at id address) b)

-- The handler itself lets a thread wait that does not wait yet; a missing barrier is an assertion.
unfoldable pub read_barrier_wait : Program → ℕ → ℕ → Read (Transition × Program)
unfolding find_object finish_reading
read_barrier_wait p executor address = do
  (id, v) ← or_crash (find_object p address)
  b ← or_crash (cast_barrier v)
  let c = if not (Barrier.is_waiting_on_barrier b executor) then Barrier.wait b executor else b
  finish_reading (put p id (of_barrier c)) executor (on_barrier barrier_wait (at id address) c)
