-- ===== src/Transitions/Handlers/Globals.antt =====
-- src/transitions/misc: the handlers of the accesses of global variables, and of the end of the process.
use dmtcp_integration.Base.{ℕ}
use dmtcp_integration.Transitions.{
  global_read, global_write, on_global, exit_process, abort_process, Transition,
}
use dmtcp_integration.Transitions.Program.{Program, of_global}
use dmtcp_integration.Transitions.Handlers.{Read, ◌>>=◌, find_or_register, finish_reading}
use dmtcp_integration.Transitions.Handlers.Mutexes.{at}

unfoldable pub read_global_read : Program → ℕ → ℕ → Read (Transition × Program)
unfolding find_or_register finish_reading
read_global_read p executor address = do
  (id, v, q) ← find_or_register p address (of_global address)
  finish_reading q executor (on_global global_read (at id address))

-- The new value is kept for printing only.
unfoldable pub read_global_write : Program → ℕ → ℕ → Read (Transition × Program)
unfolding find_or_register finish_reading
read_global_write p executor address = do
  (id, v, q) ← find_or_register p address (of_global address)
  finish_reading q executor (on_global global_write (at id address))

unfoldable pub read_exit_transition : Program → ℕ → Read (Transition × Program)
unfolding finish_reading
read_exit_transition p executor = finish_reading p executor exit_process

unfoldable pub read_abort_transition : Program → ℕ → Read (Transition × Program)
unfolding finish_reading
read_abort_transition p executor = finish_reading p executor abort_process
