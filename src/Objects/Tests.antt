-- ===== src/Objects/Tests.antt =====
-- Runs of the semaphore and the barrier on small inputs.
use dmtcp_integration.Base.{◌+◌, ◌≡◌, refl, true, false, [], ◌∷◌, arith, contains}
use dmtcp_integration.Objects.Semaphore
use dmtcp_integration.Objects.Semaphore.{Semaphore}
use dmtcp_integration.Objects.Semaphore.Laws.{
  start, posts, enters, exits, exit_wait, count_conserved,
}
use dmtcp_integration.Objects.Barrier
use dmtcp_integration.Objects.Barrier.{would_block_if_waited_on}
use dmtcp_integration.Objects.Barrier.Rounds.{
  wait_all, full_round_passes, second_round_never_blocks,
}

abbrev one_entered : Semaphore
one_entered = Semaphore.enter_waiting_queue (Semaphore.post (Semaphore.new 9 0)) 4

one_entered-exits : Semaphore.thread_can_exit one_entered 4 ≡ true
unfolding Semaphore.thread_can_exit Semaphore.new Semaphore.post Semaphore.enter_waiting_queue
    Semaphore.find_position
one_entered-exits = refl

count_conserved_example : (exit_wait one_entered 4).count + 1 ≡ (Semaphore.new 9 0).count + 1
unfolding Semaphore.new
count_conserved_example =
    count_conserved {s = Semaphore.new 9 0} {t = exit_wait one_entered 4} {p = 1} {w = 1}
      (omega arith) (exits 4 one_entered-exits (enters 4 (posts start)))

full_round_passes_example :
    would_block_if_waited_on (wait_all (1 ∷ 2 ∷ []) (Barrier.new 5 2)) 1 ≡ false
unfolding contains
full_round_passes_example =
    full_round_passes 5 2 (1 ∷ 2 ∷ []) 1 (refl, (refl, tt)) (omega arith) refl refl

second_round_never_blocks_example :
    (wait_all (1 ∷ []) (wait_all (1 ∷ 2 ∷ []) (Barrier.new 5 2))
      ≡ wait_all (1 ∷ 2 ∷ []) (Barrier.new 5 2))
    × (would_block_if_waited_on (wait_all (1 ∷ []) (wait_all (1 ∷ 2 ∷ []) (Barrier.new 5 2))) 1
        ≡ false)
unfolding contains
second_round_never_blocks_example =
    second_round_never_blocks 5 2 (1 ∷ 2 ∷ []) (1 ∷ []) 1 (refl, (refl, tt)) (omega arith) refl
      (refl, tt) refl
