-- ===== src/Transitions/Execution/SemOrder.antt =====
-- Operations on one semaphore that the relations of src/MCTransition.cpp hold independent.
use dmtcp_integration.Base.{
  ℕ, Bool, true, false, ◌≡◌, refl, sym, ap, ◌∙◌, ◌==◌, arith, ◌<◌, ◌+◌, ◌-◌, ◌^◌, List, [], ◌∷◌,
  ◌++◌, erase_first,
}
use dmtcp_integration.Objects.Semaphore
use dmtcp_integration.Objects.Semaphore.{Semaphore}
use dmtcp_integration.Transitions.{
  Ref, SemOperation, sem_init, sem_enqueue, sem_wait, sem_post, on_semaphore, same,
}
use dmtcp_integration.Transitions.Semaphores
use dmtcp_integration.Transitions.Execution.{apply_to_semaphore}

-- Since spurious wakeups are preferred, leaving the queue uses one up wherever the thread slept.
consume_spurious_wakeup-count :
    (s : Semaphore) (t : ℕ)
    → Semaphore.consume_spurious_wakeup s t
      ≡ record s { spurious_wakeup_count = s.spurious_wakeup_count - 1 }
unfolding Semaphore.consume_spurious_wakeup Semaphore.thread_can_exit_with_spurious_wakeup
consume_spurious_wakeup-count s t = ground arith

-- A thread at the first place of the queue leaves it as if the thread behind had come later.
erase_first-behind :
    (q : List ℕ) (t u : ℕ)
    → (t == u) ≡ false
    → (Semaphore.find_position q t == 0) ≡ true
    → erase_first t (q ++ u ∷ []) ≡ erase_first t q ++ u ∷ []
unfolding Semaphore.find_position erase_first
erase_first-behind [] t u d h = ground arith
erase_first-behind (x ∷ q) t u d h = ground arith

leave-result :
    (s : Semaphore) (t : ℕ)
    → Semaphore.leave_waiting_queue s t ≡ record s {
      waiting_queue = erase_first t s.waiting_queue;
      spurious_wakeup_count = s.spurious_wakeup_count - 1;
    }
unfolding Semaphore.leave_waiting_queue
leave-result s t =
    consume_spurious_wakeup-count (record s { waiting_queue = erase_first t s.waiting_queue }) t

wait-result : (s : Semaphore) → 0 < s.count → Semaphore.wait s ≡ record s { count = s.count - 1 }
unfolding Semaphore.wait
wait-result s h = ground arith

post-result :
    (s : Semaphore) → s.count + 1 < 2 ^ 32 → Semaphore.post s ≡ record s { count = s.count + 1 }
unfolding Semaphore.post
post-result s h = ap (λ c. record s { count = c }) (omega (arith, h))

-- Taking from a semaphore that has something, and leaving its queue.
take-result :
    (s : Semaphore) (t : ℕ)
    → 0 < s.count
    → Semaphore.leave_waiting_queue (Semaphore.wait s) t ≡ record s {
      count = s.count - 1;
      waiting_queue = erase_first t s.waiting_queue;
      spurious_wakeup_count = s.spurious_wakeup_count - 1;
    }
take-result s t h =
    ap (λ r. Semaphore.leave_waiting_queue r t) (wait-result s h)
    ∙ leave-result (record s { count = s.count - 1 }) t

enabled-positive : (s : Semaphore) (t : ℕ) → Semaphore.thread_can_exit s t ≡ true → 0 < s.count
unfolding Semaphore.thread_can_exit Semaphore.would_block_if_waited_on
enabled-positive s t h = ground arith

enabled-first :
    (s : Semaphore) (t : ℕ)
    → Semaphore.thread_can_exit s t ≡ true
    → (Semaphore.find_position s.waiting_queue t == 0) ≡ true
unfolding Semaphore.thread_can_exit Semaphore.thread_can_exit_based_on_sleep_position
enabled-first s t h = ground arith

-- A post and the wait of a thread that can exit may be exchanged, unless the count overflows.
pub post-wait :
    (s : Semaphore) (t : ℕ)
    → Semaphore.thread_can_exit s t ≡ true
    → s.count + 1 < 2 ^ 32
    → Semaphore.post (Semaphore.leave_waiting_queue (Semaphore.wait s) t)
      ≡ Semaphore.leave_waiting_queue (Semaphore.wait (Semaphore.post s)) t
post-wait s t h b =
    let positive = enabled-positive s t h in
    let taken = record s {
      count = s.count - 1;
      waiting_queue = erase_first t s.waiting_queue;
      spurious_wakeup_count = s.spurious_wakeup_count - 1;
    } in
    ap Semaphore.post (take-result s t positive)
    ∙ post-result taken (omega arith)
    ∙ ap (λ c. record taken { count = c }) (omega arith)
    ∙ sym (take-result (record s { count = s.count + 1 }) t (omega arith))
    ∙ sym (ap (λ r. Semaphore.leave_waiting_queue (Semaphore.wait r) t) (post-result s b))

-- The enqueueing of a thread and the wait of another that can exit may be exchanged.
pub enqueue-wait :
    (s : Semaphore) (t u : ℕ)
    → (t == u) ≡ false
    → Semaphore.thread_can_exit s t ≡ true
    → Semaphore.enter_waiting_queue (Semaphore.leave_waiting_queue (Semaphore.wait s) t) u
      ≡ Semaphore.leave_waiting_queue (Semaphore.wait (Semaphore.enter_waiting_queue s u)) t
unfolding Semaphore.enter_waiting_queue
enqueue-wait s t u d h =
    let positive = enabled-positive s t h in
    ap (λ r. Semaphore.enter_waiting_queue r u) (take-result s t positive)
    ∙ ap
        (λ q. record s {
          count = s.count - 1;
          waiting_queue = q;
          spurious_wakeup_count = s.spurious_wakeup_count - 1;
        })
        (sym (erase_first-behind s.waiting_queue t u d (enabled-first s t h)))
    ∙ sym (take-result (Semaphore.enter_waiting_queue s u) t positive)

-- What the guards of the two operations say of the semaphore.
abbrev pub sem_guard : SemOperation → ℕ → Semaphore → Bool
sem_guard sem_wait t s = Semaphore.thread_can_exit s t
sem_guard _ t s = true

pub semaphore_operations_commute :
    (a b : SemOperation) (m n : Ref) (t u : ℕ) (s : Semaphore)
    → (t == u) ≡ false
    → (u == t) ≡ false
    → same m n ≡ true
    → same n m ≡ true
    → Semaphores.dependent_with a m (on_semaphore b n) ≡ false
    → Semaphores.dependent_with b n (on_semaphore a m) ≡ false
    → sem_guard a t s ≡ true
    → sem_guard b u s ≡ true
    → s.count + 1 < 2 ^ 32
    → apply_to_semaphore b u (apply_to_semaphore a t s)
      ≡ apply_to_semaphore a t (apply_to_semaphore b u s)
unfolding Semaphores.dependent_with Semaphores.enqueue_dependent_with Semaphores.wait_dependent_with
    Semaphores.post_dependent_with apply_to_semaphore Semaphore.enter_waiting_queue Semaphore.post
semaphore_operations_commute sem_init sem_init m n t u s c k h g d e x y b = refl
semaphore_operations_commute sem_post sem_post m n t u s c k h g d e x y b = refl
semaphore_operations_commute sem_post sem_enqueue m n t u s c k h g d e x y b = refl
semaphore_operations_commute sem_enqueue sem_post m n t u s c k h g d e x y b = refl
semaphore_operations_commute sem_wait sem_post m n t u s c k h g d e x y b = post-wait s t x b
semaphore_operations_commute sem_post sem_wait m n t u s c k h g d e x y b = sym (post-wait s u y b)
semaphore_operations_commute sem_wait sem_enqueue m n t u s c k h g d e x y b =
    enqueue-wait s t u c x
semaphore_operations_commute sem_enqueue sem_wait m n t u s c k h g d e x y b =
    sym (enqueue-wait s u t k y)
semaphore_operations_commute sem_init _ m n t u s c k h g d e x y b = ground arith
semaphore_operations_commute _ sem_init m n t u s c k h g d e x y b = ground arith
semaphore_operations_commute sem_wait sem_wait m n t u s c k h g d e x y b = ground arith
semaphore_operations_commute sem_enqueue sem_enqueue m n t u s c k h g d e x y b = ground arith
