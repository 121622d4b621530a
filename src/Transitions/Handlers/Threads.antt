-- ===== src/Transitions/Handlers/Threads.antt =====
-- src/transitions/threads: the handlers of the operations on threads.
use dmtcp_integration.Base.{ℕ, none, some}
use dmtcp_integration.Objects.Thread.{embryo}
use dmtcp_integration.Transitions.{thread_create, thread_finish, thread_join, on_thread, Transition}
use dmtcp_integration.Transitions.Program.{Program, cast_thread, get_thread_with_id, add_new_thread}
use dmtcp_integration.Transitions.Handlers.{
  Read, reads, ◌>>=◌, or_crash, find_object, finish_reading,
}

-- The number of the thread with the given `pthread_t`, which is a new one if there is none.
unfoldable pub find_or_add_thread : Program → ℕ → Read (ℕ × Program)
unfolding find_object add_new_thread
find_or_add_thread p sys = elim (find_object p sys) [
  | some (id, v) ↦ (do thread ← or_crash (cast_thread v); reads (thread.tid, p))
  | none ↦ or_crash (add_new_thread p sys embryo)
]

unfoldable pub read_thread_create : Program → ℕ → ℕ → Read (Transition × Program)
unfolding find_or_add_thread get_thread_with_id finish_reading
read_thread_create p executor sys = do
  (new_thread_id, q) ← find_or_add_thread p sys
  new_thread ← or_crash (get_thread_with_id q new_thread_id)
  finish_reading q executor (on_thread (thread_create new_thread.tid))

unfoldable pub read_thread_join : Program → ℕ → ℕ → Read (Transition × Program)
unfolding find_or_add_thread get_thread_with_id finish_reading
read_thread_join p executor sys = do
  (new_thread_id, q) ← find_or_add_thread p sys
  join_thread ← or_crash (get_thread_with_id q new_thread_id)
  finish_reading q executor (on_thread (thread_join join_thread.tid))

unfoldable pub read_thread_finish : Program → ℕ → Read (Transition × Program)
unfolding finish_reading
read_thread_finish p executor = finish_reading p executor (on_thread thread_finish)
