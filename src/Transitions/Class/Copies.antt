-- ===== src/Transitions/Class/Copies.antt =====
-- What `staticCopy` of src/transitions keeps of a transition.
use dmtcp_integration.Base.{ℕ, true, false, ◌≡◌, ◌<◌, arith, contains}
use dmtcp_integration.Objects.Barrier
use dmtcp_integration.Objects.Barrier.{Barrier, would_block_if_waited_on}
use dmtcp_integration.Transitions.{Ref, barrier_wait, on_barrier, Transition}
use dmtcp_integration.Transitions.Barriers
use dmtcp_integration.Transitions.Relations.{
  coenabled_transitions, coenabled_with, operation_coenabled_with,
}
use dmtcp_integration.Transitions.Class.{static_copy}

copied_barrier_blocks :
    (c : Barrier) (t : ℕ) → 0 < c.wait_count → would_block_if_waited_on (Barrier.copy c) t ≡ true
unfolding contains would_block_if_waited_on Barrier.copy Barrier.is_waiting_on_barrier
    Barrier.waiting_set_for_parity
copied_barrier_blocks c t h = ground (arith, h)

-- The static copy of a waiting on a barrier for at least one thread is co-enabled with no transition at
-- all, whatever the barrier's state was: the copied barrier has no waiting threads.
pub static_copy-never_coenabled :
    (t u : Transition) (b : Ref) (c : Barrier)
    → t.operation ≡ on_barrier barrier_wait b c
    → 0 < c.wait_count
    → coenabled_transitions (static_copy t) u ≡ false
unfolding coenabled_transitions coenabled_with operation_coenabled_with static_copy
    Barriers.coenabled_with Barriers.wait_coenabled_with
static_copy-never_coenabled t u b c e h = ground (arith, e, copied_barrier_blocks c t.thread h)
