-- ===== src/Transitions/Barriers.antt =====
-- src/transitions/barrier: which transitions the operations on a barrier are dependent and co-enabled with.
use dmtcp_integration.Base.{ℕ, Bool, true, not, Option, none, some}
use dmtcp_integration.Objects.Barrier.{Barrier, would_block_if_waited_on}
use dmtcp_integration.Transitions.{
  Ref, BarrierOperation, barrier_init, barrier_enqueue, barrier_wait, Operation, on_barrier, is_on,
}

-- `dynamic_cast<const MCBarrierTransition *>`
abbrev pub as_barrier_transition : Operation → Option Ref
as_barrier_transition (on_barrier o b c) = some b
as_barrier_transition _ = none

-- The same in the three classes.
unfoldable pub dependent_with : Ref → Operation → Bool
dependent_with b other = is_on (as_barrier_transition other) b

-- Of the barrier that the transition holds, whatever the other transition is.
unfoldable pub wait_coenabled_with : Barrier → ℕ → Bool
wait_coenabled_with b thread = not (would_block_if_waited_on b thread)

unfoldable pub coenabled_with : BarrierOperation → Barrier → ℕ → Bool
unfolding wait_coenabled_with
coenabled_with barrier_init b thread = true
coenabled_with barrier_enqueue b thread = true
coenabled_with barrier_wait b thread = wait_coenabled_with b thread
