-- ===== src/Transitions/Enabled/Laws.antt =====
-- What a post to a semaphore does to the guard of a wait, and what src/MCTransition.cpp says of the two.
use dmtcp_integration.Base.{ℕ, true, false, some, ◌≡◌, refl, sym, ap, subst, ◌∙◌, ◌==◌, arith}
use dmtcp_integration.Objects.Semaphore
use dmtcp_integration.Objects.Semaphore.{Semaphore}
use dmtcp_integration.Transitions.{Ref, on_semaphore, sem_wait, sem_post}
use dmtcp_integration.Transitions.Semaphores
use dmtcp_integration.Store.{get_object_with_id}
use dmtcp_integration.Transitions.Program.{Program, of_semaphore}
use dmtcp_integration.Transitions.Enabled.{enabled_in_state}
use dmtcp_integration.Transitions.Execution.{
  apply_to_state, apply_operation, method, apply_to_semaphore,
}
use dmtcp_integration.Store.Laws.{get_object_with_id-write_object}
use dmtcp_integration.Transitions.Execution.Commute.{call_method-some}
use dmtcp_integration.Transitions.Relations.{
  dependent_transitions, transitions_dependent_common, joins_dependent, dependent_with,
  operation_dependent_with,
}

wait_enabled :
    (p : Program) (t : ℕ) (r : Ref) (s : Semaphore)
    → get_object_with_id p.object_storage r.object_id ≡ some (of_semaphore s)
    → enabled_in_state p t (on_semaphore sem_wait r) ≡ some (Semaphore.thread_can_exit s t)
unfolding enabled_in_state
wait_enabled p t r s e = rw e refl

blocked_at_zero : (s : Semaphore) (t : ℕ) → s.count ≡ 0 → Semaphore.thread_can_exit s t ≡ false
unfolding Semaphore.thread_can_exit Semaphore.would_block_if_waited_on
blocked_at_zero s t c = ground (arith, c)

freed_by_post :
    (s : Semaphore) (t : ℕ)
    → s.count ≡ 0
    → Semaphore.thread_can_exit_based_on_sleep_position s t ≡ true
    → Semaphore.thread_can_exit (Semaphore.post s) t ≡ true
unfolding Semaphore.thread_can_exit Semaphore.would_block_if_waited_on Semaphore.post
    Semaphore.thread_can_exit_based_on_sleep_position
freed_by_post s t c front = rw c front

some-injective : {p q : Program} → some p ≡ some q → p ≡ q
some-injective h = cc

posted :
    (p q : Program) (u : ℕ) (r : Ref) (s : Semaphore)
    → get_object_with_id p.object_storage r.object_id ≡ some (of_semaphore s)
    → apply_to_state p (record { thread = u; operation = on_semaphore sem_post r }) ≡ some q
    → get_object_with_id q.object_storage r.object_id ≡ some (of_semaphore (Semaphore.post s))
unfolding apply_to_state apply_operation method apply_to_semaphore
posted p q u r s e a =
    let written = of_semaphore (Semaphore.post s) in
    let made =
      call_method-some p r.object_id (method (on_semaphore sem_post r) u) (of_semaphore s) written e
        refl in
    subst (λ x. get_object_with_id x.object_storage r.object_id ≡ some written)
      (some-injective (sym made ∙ a))
      (get_object_with_id-write_object p.object_storage r.object_id (of_semaphore s) written e)

post_wait_independent :
    (t u : ℕ) (r : Ref)
    → (t == u) ≡ false
    → dependent_transitions
        (record { thread = t; operation = on_semaphore sem_wait r })
        (record { thread = u; operation = on_semaphore sem_post r })
      ≡ false
unfolding dependent_transitions transitions_dependent_common joins_dependent dependent_with
    operation_dependent_with Semaphores.dependent_with Semaphores.wait_dependent_with
    Semaphores.post_dependent_with
post_wait_independent t u r d = ground arith

-- A post and a wait of different threads are never dependent, yet the post enables the wait: a thread at
-- the front of the queue of a semaphore with the count 0 cannot exit before the post, and can after it.
pub post_enables_wait :
    (p q : Program) (t u : ℕ) (r : Ref) (s : Semaphore)
    → (t == u) ≡ false
    → get_object_with_id p.object_storage r.object_id ≡ some (of_semaphore s)
    → s.count ≡ 0
    → Semaphore.thread_can_exit_based_on_sleep_position s t ≡ true
    → apply_to_state p (record { thread = u; operation = on_semaphore sem_post r }) ≡ some q
    → (dependent_transitions
          (record { thread = t; operation = on_semaphore sem_wait r })
          (record { thread = u; operation = on_semaphore sem_post r })
        ≡ false)
      × (enabled_in_state p t (on_semaphore sem_wait r) ≡ some false)
      × (enabled_in_state q t (on_semaphore sem_wait r) ≡ some true)
post_enables_wait p q t u r s d e c front a = (
  post_wait_independent t u r d,
  wait_enabled p t r s e ∙ ap some (blocked_at_zero s t c),
  wait_enabled q t r (Semaphore.post s) (posted p q u r s e a)
      ∙ ap some (freed_by_post s t c front),
)
