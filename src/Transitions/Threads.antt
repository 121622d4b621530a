-- ===== src/Transitions/Threads.antt =====
-- src/transitions/threads: which transitions the operations on threads are dependent and co-enabled with.
use dmtcp_integration.Base.{ℕ, Bool, true, false, ◌||◌, ◌==◌, Option, none, some, if◌then◌else◌}
use dmtcp_integration.Transitions.{
  ThreadOperation, thread_create, thread_finish, thread_join, thread_start, Operation, on_thread,
  Transition,
}

-- `dynamic_cast<const MCThreadCreate *>`, and the created thread
abbrev pub as_thread_create : Operation → Option ℕ
as_thread_create (on_thread (thread_create target)) = some target
as_thread_create _ = none

-- `dynamic_cast<const MCThreadJoin *>`, and the thread that is joined on
abbrev pub as_thread_join : Operation → Option ℕ
as_thread_join (on_thread (thread_join target)) = some target
as_thread_join _ = none

-- `doesCreateThread`
unfoldable pub does_create_thread : ℕ → ℕ → Bool
does_create_thread target tid = target == tid

-- `joinsOnThread`
unfoldable pub joins_on_thread : ℕ → ℕ → Bool
joins_on_thread target tid = target == tid

unfoldable pub create_coenabled_with : ℕ → ℕ → Transition → Bool
create_coenabled_with thread target t =
    if thread == t.thread || target == t.thread then false else true

unfoldable pub create_dependent_with : ℕ → ℕ → Transition → Bool
create_dependent_with thread target t =
    if thread == t.thread || target == t.thread then true else false

unfoldable pub join_coenabled_with : ℕ → ℕ → Transition → Bool
join_coenabled_with thread target t =
    if thread == t.thread || target == t.thread then false else true

unfoldable pub join_dependent_with : ℕ → ℕ → Transition → Bool
join_dependent_with thread target t =
    if thread == t.thread || target == t.thread then true else false

unfoldable pub finish_coenabled_with : ℕ → Transition → Bool
finish_coenabled_with thread t = if thread == t.thread then false else true

unfoldable pub finish_dependent_with : ℕ → Transition → Bool
finish_dependent_with thread t = if thread == t.thread then true else false

unfoldable pub start_coenabled_with : ℕ → Transition → Bool
start_coenabled_with thread t = if thread == t.thread then false else true

unfoldable pub start_dependent_with : ℕ → Transition → Bool
start_dependent_with thread t = thread == t.thread

unfoldable pub dependent_with : ThreadOperation → ℕ → Transition → Bool
unfolding create_dependent_with join_dependent_with finish_dependent_with start_dependent_with
dependent_with (thread_create target) thread t = create_dependent_with thread target t
dependent_with thread_finish thread t = finish_dependent_with thread t
dependent_with (thread_join target) thread t = join_dependent_with thread target t
dependent_with thread_start thread t = start_dependent_with thread t

unfoldable pub coenabled_with : ThreadOperation → ℕ → Transition → Bool
unfolding create_coenabled_with join_coenabled_with finish_coenabled_with start_coenabled_with
coenabled_with (thread_create target) thread t = create_coenabled_with thread target t
coenabled_with thread_finish thread t = finish_coenabled_with thread t
coenabled_with (thread_join target) thread t = join_coenabled_with thread target t
coenabled_with thread_start thread t = start_coenabled_with thread t
