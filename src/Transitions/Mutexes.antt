-- ===== src/Transitions/Mutexes.antt =====
-- src/transitions/mutex: which operations the operations on a mutex are dependent and co-enabled with.
use dmtcp_integration.Base.{Bool, true, false, ◌||◌, Option, none, some}
use dmtcp_integration.Transitions.{
  Ref, MutexOperation, mutex_init, mutex_lock, mutex_unlock, Operation, on_mutex, is_on, is_not_on,
}

-- `dynamic_cast<const MCMutexTransition *>`
abbrev pub as_mutex_transition : Operation → Option Ref
as_mutex_transition (on_mutex o m) = some m
as_mutex_transition _ = none

abbrev pub as_mutex_lock : Operation → Option Ref
as_mutex_lock (on_mutex mutex_lock m) = some m
as_mutex_lock _ = none

abbrev pub as_mutex_unlock : Operation → Option Ref
as_mutex_unlock (on_mutex mutex_unlock m) = some m
as_mutex_unlock _ = none

unfoldable pub init_dependent_with : Ref → Operation → Bool
init_dependent_with m other = is_on (as_mutex_transition other) m

unfoldable pub lock_coenabled_with : Ref → Operation → Bool
lock_coenabled_with m other = is_not_on (as_mutex_unlock other) m

-- The two casts exclude each other, so that the early returns are a disjunction.
unfoldable pub lock_dependent_with : Ref → Operation → Bool
lock_dependent_with m other = is_on (as_mutex_lock other) m || is_on (as_mutex_unlock other) m

unfoldable pub dependent_with : MutexOperation → Ref → Operation → Bool
unfolding init_dependent_with lock_dependent_with
dependent_with mutex_init m other = init_dependent_with m other
dependent_with mutex_lock m other = lock_dependent_with m other
dependent_with mutex_unlock m other = false

unfoldable pub coenabled_with : MutexOperation → Ref → Operation → Bool
unfolding lock_coenabled_with
coenabled_with mutex_init m other = true
coenabled_with mutex_lock m other = lock_coenabled_with m other
coenabled_with mutex_unlock m other = true
