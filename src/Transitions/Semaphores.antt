-- ===== src/Transitions/Semaphores.antt =====
-- src/transitions/semaphore: which operations the operations on a semaphore are dependent with.
use dmtcp_integration.Base.{Bool, false, ◌||◌, Option, none, some}
use dmtcp_integration.Transitions.{
  Ref, SemOperation, sem_init, sem_enqueue, sem_wait, sem_post, Operation, on_semaphore, is_on,
}

abbrev pub as_sem_init : Operation → Option Ref
as_sem_init (on_semaphore sem_init s) = some s
as_sem_init _ = none

abbrev pub as_sem_enqueue : Operation → Option Ref
as_sem_enqueue (on_semaphore sem_enqueue s) = some s
as_sem_enqueue _ = none

abbrev pub as_sem_wait : Operation → Option Ref
as_sem_wait (on_semaphore sem_wait s) = some s
as_sem_wait _ = none

unfoldable pub enqueue_dependent_with : Ref → Operation → Bool
enqueue_dependent_with s other = is_on (as_sem_init other) s || is_on (as_sem_enqueue other) s

unfoldable pub wait_dependent_with : Ref → Operation → Bool
wait_dependent_with s other = is_on (as_sem_init other) s || is_on (as_sem_wait other) s

unfoldable pub post_dependent_with : Ref → Operation → Bool
post_dependent_with s other = is_on (as_sem_init other) s

-- `coenabledWith` is true for all four.
unfoldable pub dependent_with : SemOperation → Ref → Operation → Bool
unfolding enqueue_dependent_with wait_dependent_with post_dependent_with
dependent_with sem_init s other = false
dependent_with sem_enqueue s other = enqueue_dependent_with s other
dependent_with sem_wait s other = wait_dependent_with s other
dependent_with sem_post s other = post_dependent_with s other
