-- ===== src/Objects/Semaphore/Laws.antt =====
-- The semaphore of src/objects/MCSemaphore.cpp as a count and a queue that is served in its order.
use dmtcp_integration.Base.{
  ℕ, suc, ◌+◌, ◌-◌, ◌^◌, ◌<◌, ◌≡◌, refl, ◌↔◌, true, List, ◌∷◌, arith, erase_first,
}
use dmtcp_integration.Objects.Semaphore.{
  Semaphore, find_position, thread_can_exit, leave_waiting_queue, enter_waiting_queue, post, wait,
}

-- What `MCSemWait::applyToState` of src/transitions/semaphore/MCSemWait.cpp does to the semaphore.
unfoldable pub exit_wait : Semaphore → ℕ → Semaphore
exit_wait s tid = leave_waiting_queue (wait s) tid

-- The guard of sem_wait: with threads in the queue, a thread can leave it exactly if the count is
-- positive and the thread is the first of the queue.
pub thread_can_exit_iff :
    (s : Semaphore) (first : ℕ) (rest : List ℕ) (tid : ℕ)
    → s.waiting_queue ≡ first ∷ rest
    → (thread_can_exit s tid ≡ true) ↔ ((0 < s.count) × (first ≡ tid))
unfolding thread_can_exit find_position
thread_can_exit_iff s first rest tid e = (λ h. ground arith, λ h. ground arith)

-- A thread that waits in the queue and can leave it is its first; leaving takes it alone off the queue,
-- takes one off the count, and takes one off the spurious wakeups, if any are left.
pub exit_wait-eq :
    (s : Semaphore) (first : ℕ) (rest : List ℕ) (tid : ℕ)
    → s.waiting_queue ≡ first ∷ rest
    → thread_can_exit s tid ≡ true
    → exit_wait s tid ≡ record s {
      waiting_queue = rest;
      count = s.count - 1;
      spurious_wakeup_count = s.spurious_wakeup_count - 1;
    }
unfolding exit_wait wait leave_waiting_queue thread_can_exit find_position erase_first
exit_wait-eq s first rest tid e g = ground arith

-- Sequences of the operations of src/transitions/semaphore after which a number of posts and a number of
-- guarded waits have been made.
pub data Run (s : Semaphore) : ℕ → ℕ → Semaphore → Type 0 where
  start : Run s 0 0 s
  posts : {p w : ℕ} {t : Semaphore} → Run s p w t → Run s (suc p) w (post t)
  enters : {p w : ℕ} {t : Semaphore} (tid : ℕ) → Run s p w t → Run s p w (enter_waiting_queue t tid)
  exits :
      {p w : ℕ} {t : Semaphore} (tid : ℕ)
      → thread_can_exit t tid ≡ true
      → Run s p w t
      → Run s p (suc w) (exit_wait t tid)

count-exit_wait :
    (t : Semaphore) (tid : ℕ) → thread_can_exit t tid ≡ true → (exit_wait t tid).count + 1 ≡ t.count
unfolding exit_wait wait leave_waiting_queue thread_can_exit
count-exit_wait t tid g = ground arith

count-enter : (t : Semaphore) (tid : ℕ) → (enter_waiting_queue t tid).count ≡ t.count
unfolding enter_waiting_queue
count-enter t tid = refl

count-post : (t : Semaphore) → t.count + 1 < 2 ^ 32 → (post t).count ≡ t.count + 1
unfolding post
count-post t h = omega arith

-- No signal is lost or invented: as long as the posts cannot wrap the 32-bit count, the count and the
-- waits that have ended add up to the initial count and the posts.
pub count_conserved :
    {s t : Semaphore} {p w : ℕ} → s.count + p < 2 ^ 32 → Run s p w t → t.count + w ≡ s.count + p
count_conserved h start = omega arith
count_conserved h (posts {t = t} r) =
    let before = count_conserved (omega arith) r in omega (arith, before, count-post t)
count_conserved h (enters {t = t} tid r) = omega (arith, count_conserved h r, count-enter t tid)
count_conserved h (exits {t = t} tid g r) =
    omega (arith, count_conserved h r, count-exit_wait t tid g)
