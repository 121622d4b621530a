-- ===== src/Transitions/Independence.antt =====
-- The soundness of `MCTransition::dependentTransitions` for the operations on one object: independent
-- transitions may be exchanged.
use dmtcp_integration.Base.{
  ℕ, true, false, Option, none, some, ◌≡◌, refl, sym, ap, subst, ◌∙◌, inl, inr, Bool-cases, ◌==◌,
  Option-cases, ◌>>=◌, arith, ◌<◌, ◌+◌, ◌^◌,
}
use dmtcp_integration.Objects.Semaphore.{Semaphore}
use dmtcp_integration.Store.{get_object_with_id}
use dmtcp_integration.Transitions.{Ref, Operation, Transition, same}
use dmtcp_integration.Transitions.Program.{Program, VisibleObject, of_semaphore, call_method}
use dmtcp_integration.Transitions.Execution.{method, apply_operation, apply_to_state}
use dmtcp_integration.Transitions.Execution.Commute.{call_method-call_method, call_method_comm}
use dmtcp_integration.Transitions.Enabled.{enabled_in_state}
use dmtcp_integration.Transitions.Relations.{
  dependent_transitions, dependent_with, transitions_dependent_common,
}
use dmtcp_integration.Transitions.Meeting.{target_of, apply-target, methods_commute}

equal_ids : (i j : ℕ) → (i == j) ≡ true → i ≡ j
equal_ids i j h = ground arith

bind_cong :
    (o : Option Program) (f g : Program → Option Program)
    → ((q : Program) → f q ≡ g q)
    → (o >>= f) ≡ (o >>= g)
bind_cong none f g h = refl
bind_cong (some q) f g h = h q

call_method_cong :
    (p : Program) (i : ℕ) (f g : VisibleObject → Option VisibleObject)
    → ((v : VisibleObject) → get_object_with_id p.object_storage i ≡ some v → f v ≡ g v)
    → call_method p i f ≡ call_method p i g
unfolding call_method
call_method_cong p i f g h = elim (Option-cases (get_object_with_id p.object_storage i)) [
  | inl e ↦ rw e refl
  | inr (v, e) ↦ rw (e, h v e) refl
]

-- Two operations on one object in turn, as two calls.
as_calls :
    (p : Program) (t u : ℕ) (o1 o2 : Operation) (m n : Ref)
    → target_of o1 ≡ some m
    → target_of o2 ≡ some n
    → (apply_operation p t o1 >>= λ q. apply_operation q u o2)
      ≡ (call_method p m.object_id (method o1 t) >>= λ q. call_method q n.object_id (method o2 u))
as_calls p t u o1 o2 m n g h = rw (apply-target p t o1 m g) (
    bind_cong (call_method p m.object_id (method o1 t)) (λ q. apply_operation q u o2)
      (λ q. call_method q n.object_id (method o2 u)) (λ q. apply-target q u o2 n h))

pub independent_parts :
    (t1 t2 : Transition)
    → dependent_transitions t1 t2 ≡ false
    → ((t1.thread == t2.thread) ≡ false)
      × (dependent_with t1 t2 ≡ false)
      × (dependent_with t2 t1 ≡ false)
unfolding dependent_transitions transitions_dependent_common
independent_parts t1 t2 d = ground arith

-- Two transitions of different threads on one object each are independent only if they may be
-- exchanged: where both operations are enabled, running the first and then the second has the same
-- outcome as running the second and then the first. Objects with one id have one address; and a
-- semaphore that both use has no count that a post makes overflow.
pub independent_commute :
    (p : Program) (t1 t2 : Transition) (m n : Ref)
    → target_of t1.operation ≡ some m
    → target_of t2.operation ≡ some n
    → (m.object_id ≡ n.object_id → same m n ≡ true)
    → dependent_transitions t1 t2 ≡ false
    → enabled_in_state p t1.thread t1.operation ≡ some true
    → enabled_in_state p t2.thread t2.operation ≡ some true
    → ((x : Semaphore)
        → get_object_with_id p.object_storage m.object_id ≡ some (of_semaphore x)
        → x.count + 1 < 2 ^ 32)
    → (apply_to_state p t1 >>= λ q. apply_to_state q t2)
      ≡ (apply_to_state p t2 >>= λ q. apply_to_state q t1)
unfolding apply_to_state dependent_with
independent_commute p t1 t2 m n g h coherent d e f count =
    let (differ, first, second) = independent_parts t1 t2 d in
    let i = m.object_id in
    let j = n.object_id in
    let f1 = method t1.operation t1.thread in
    let f2 = method t2.operation t2.thread in
    as_calls p t1.thread t2.thread t1.operation t2.operation m n g h
    ∙ elim (Bool-cases (i == j)) [
      | inr differs ↦ call_method_comm p i j f1 f2 (λ same_id. ground (arith, differs, same_id))
      | inl agree ↦
          let one = equal_ids i j agree in
          subst
            (λ k.
              (call_method p i f1 >>= λ q. call_method q k f2)
              ≡ (call_method p k f2 >>= λ q. call_method q i f1))
            one
            (call_method-call_method p i f1 f2
              ∙ call_method_cong p i (λ v. f1 v >>= f2) (λ v. f2 v >>= f1)
                  (λ v found.
                    methods_commute p v t1.thread t2.thread t1.operation t2.operation m n (record {
                      first_target = g;
                      second_target = h;
                      first_found = found;
                      second_found =
                          subst (λ k. get_object_with_id p.object_storage k ≡ some v) one found;
                      threads_differ = differ;
                      same_object = coherent one;
                      first_independent = first;
                      second_independent = second;
                      first_enabled = e;
                      second_enabled = f;
                      no_overflow = λ x is. count x (found ∙ ap some is);
                    }))
              ∙ sym (call_method-call_method p i f2 f1))
    ]
    ∙ sym (as_calls p t2.thread t1.thread t2.operation t1.operation n m h g)
