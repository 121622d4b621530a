-- ===== src/Transitions/Meeting.antt =====
-- Two operations on one object: when the calls that `MCTransition::applyToState` makes for them commute.
use dmtcp_integration.Base.{
  ℕ, true, false, Option, none, some, ◌≡◌, refl, sym, ap, subst, ◌∙◌, inl, inr, Bool-cases, ◌==◌,
  ==_comm, Option-cases, ◌>>=◌, arith, ◌<◌, ◌+◌, ◌^◌,
}
use dmtcp_integration.Objects.Semaphore.{Semaphore}
use dmtcp_integration.Objects.RwLock.{RwLock}
use dmtcp_integration.Objects.RwwLock.{RwwLock}
use dmtcp_integration.Store.{get_object_with_id}
use dmtcp_integration.Transitions.{
  Ref, MutexOperation, SemOperation, sem_wait, RwLockOperation, reader_lock, writer_lock,
  RwwLockOperation, rww_reader_lock, writer1_lock, writer2_lock, Operation, on_mutex, on_semaphore,
  on_barrier, on_rwlock, on_rwwlock, same,
}
use dmtcp_integration.Transitions.Program.{
  Program, VisibleObject, of_mutex, of_semaphore, of_barrier, of_rwlock, of_rwwlock, call_method,
}
use dmtcp_integration.Transitions.Execution.{method, apply_operation}
use dmtcp_integration.Transitions.Execution.SameObject.{
  mutex_operations_commute, rwlock_guard, rwlock_operations_never_meet, rwwlock_guard,
  rwwlock_operations_never_meet,
}
use dmtcp_integration.Transitions.Execution.SemOrder.{sem_guard, semaphore_operations_commute}
use dmtcp_integration.Transitions.Enabled.{enabled_in_state}
use dmtcp_integration.Transitions.Barriers
use dmtcp_integration.Transitions.Relations.{operation_dependent_with}

-- The object of an operation that reads and changes one object, apart from the threads.
abbrev pub target_of : Operation → Option Ref
target_of (on_mutex o m) = some m
target_of (on_semaphore o s) = some s
target_of (on_barrier o b c) = some b
target_of (on_rwlock o l) = some l
target_of (on_rwwlock o l) = some l
target_of _ = none

abbrev pub family : Operation → ℕ
family (on_mutex o m) = 0
family (on_semaphore o s) = 1
family (on_barrier o b c) = 2
family (on_rwlock o l) = 3
family (on_rwwlock o l) = 4
family _ = 5

pub apply-target :
    (p : Program) (thread : ℕ) (o : Operation) (r : Ref)
    → target_of o ≡ some r
    → apply_operation p thread o ≡ call_method p r.object_id (method o thread)
unfolding apply_operation
apply-target p thread (on_mutex o m) r h = ground arith
apply-target p thread (on_semaphore o s) r h = ground arith
apply-target p thread (on_barrier o b c) r h = ground arith
apply-target p thread (on_rwlock o l) r h = ground arith
apply-target p thread (on_rwwlock o l) r h = ground arith
apply-target p thread _ r h = cc

abbrev pub class_of : VisibleObject → ℕ
class_of (of_mutex x) = 0
class_of (of_semaphore x) = 1
class_of (of_barrier x) = 2
class_of (of_rwlock x) = 3
class_of (of_rwwlock x) = 4
class_of _ = 6

pub cast-fails :
    (o : Operation) (t : ℕ) (v : VisibleObject) (r : Ref)
    → target_of o ≡ some r
    → (class_of v == family o) ≡ false
    → method o t v ≡ none
unfolding method
cast-fails (on_mutex a m) t v r h d = ground arith
cast-fails (on_semaphore a m) t v r h d = ground arith
cast-fails (on_barrier a m x) t v r h d = ground arith
cast-fails (on_rwlock a m) t v r h d = ground arith
cast-fails (on_rwwlock a m) t v r h d = ground arith
cast-fails _ t v r h d = cc

class_kept :
    (o : Operation) (t : ℕ) (v w : VisibleObject) → method o t v ≡ some w → class_of w ≡ class_of v
unfolding method
class_kept (on_mutex a m) t v w h = ground arith
class_kept (on_semaphore a m) t v w h = ground arith
class_kept (on_barrier a m x) t v w h = ground arith
class_kept (on_rwlock a m) t v w h = ground arith
class_kept (on_rwwlock a m) t v w h = ground arith
class_kept _ t v w h = ground arith

-- Operations of different families find no common object: one of the casts fails.
cross :
    (o1 o2 : Operation) (t u : ℕ) (v : VisibleObject) (r s : Ref)
    → target_of o1 ≡ some r
    → target_of o2 ≡ some s
    → (family o1 == family o2) ≡ false
    → (method o1 t v >>= method o2 u) ≡ none
cross o1 o2 t u v r s h k d = elim (Option-cases (method o1 t v)) [
  | inl e ↦ rw e refl
  | inr (w, e) ↦ rw e (
      cast-fails o2 u w s k (elim (Bool-cases (class_of v == family o1)) [
        | inl f ↦ ground (arith, class_kept o1 t v w e)
        | inr f ↦ absurd (ground (arith, cast-fails o1 t v r h f))
      ]))
]

-- The guard of an operation on a semaphore or a lock, of the object that the state has.
pub semaphore_guard_holds :
    (p : Program) (t : ℕ) (o : SemOperation) (m : Ref) (x : Semaphore)
    → get_object_with_id p.object_storage m.object_id ≡ some (of_semaphore x)
    → enabled_in_state p t (on_semaphore o m) ≡ some true
    → sem_guard o t x ≡ true
unfolding enabled_in_state
semaphore_guard_holds p t sem_wait m x e h = ground arith
semaphore_guard_holds p t _ m x e h = refl

pub rwlock_guard_holds :
    (p : Program) (t : ℕ) (o : RwLockOperation) (m : Ref) (x : RwLock)
    → get_object_with_id p.object_storage m.object_id ≡ some (of_rwlock x)
    → enabled_in_state p t (on_rwlock o m) ≡ some true
    → rwlock_guard o t x ≡ some true
unfolding enabled_in_state
rwlock_guard_holds p t reader_lock m x e h = ground arith
rwlock_guard_holds p t writer_lock m x e h = ground arith
rwlock_guard_holds p t _ m x e h = refl

pub rwwlock_guard_holds :
    (p : Program) (t : ℕ) (o : RwwLockOperation) (m : Ref) (x : RwwLock)
    → get_object_with_id p.object_storage m.object_id ≡ some (of_rwwlock x)
    → enabled_in_state p t (on_rwwlock o m) ≡ some true
    → rwwlock_guard o t x ≡ some true
unfolding enabled_in_state
rwwlock_guard_holds p t rww_reader_lock m x e h = ground arith
rwwlock_guard_holds p t writer1_lock m x e h = ground arith
rwwlock_guard_holds p t writer2_lock m x e h = ground arith
rwwlock_guard_holds p t _ m x e h = refl

-- Two operations of different threads that are independent both ways, on the object `v` of a state.
pub record Meeting (p : Program) (v : VisibleObject) (t u : ℕ) (o1 o2 : Operation) (m n : Ref)
    : Type 0 where
  pub first_target : target_of o1 ≡ some m
  pub second_target : target_of o2 ≡ some n
  pub first_found : get_object_with_id p.object_storage m.object_id ≡ some v
  pub second_found : get_object_with_id p.object_storage n.object_id ≡ some v
  pub threads_differ : (t == u) ≡ false
  pub same_object : same m n ≡ true
  pub first_independent :
      operation_dependent_with o1 t (record { thread = u; operation = o2 }) ≡ false
  pub second_independent :
      operation_dependent_with o2 u (record { thread = t; operation = o1 }) ≡ false
  pub first_enabled : enabled_in_state p t o1 ≡ some true
  pub second_enabled : enabled_in_state p u o2 ≡ some true
  pub no_overflow : (x : Semaphore) → v ≡ of_semaphore x → x.count + 1 < 2 ^ 32

pub same_back : (m n : Ref) → same m n ≡ true → same n m ≡ true
same_back m n h = ==_comm n.system_identity m.system_identity ∙ h

some-injective : {m n : Ref} → some m ≡ some n → n ≡ m
some-injective h = cc

on_one_mutex :
    (p : Program) (v : VisibleObject) (t u : ℕ) (a b : MutexOperation) (k l : Ref)
    → Meeting p v t u (on_mutex a k) (on_mutex b l) k l
    → (method (on_mutex a k) t v >>= method (on_mutex b l) u)
      ≡ (method (on_mutex b l) u v >>= method (on_mutex a k) t)
unfolding method operation_dependent_with
on_one_mutex p (of_mutex x) t u a b k l h =
    ap (λ y. some (of_mutex y))
      (mutex_operations_commute a b k l t u x h.same_object (same_back k l h.same_object)
        h.first_independent h.second_independent)
on_one_mutex p _ t u a b k l h = refl

on_one_semaphore :
    (p : Program) (v : VisibleObject) (t u : ℕ) (a b : SemOperation) (k l : Ref)
    → Meeting p v t u (on_semaphore a k) (on_semaphore b l) k l
    → (method (on_semaphore a k) t v >>= method (on_semaphore b l) u)
      ≡ (method (on_semaphore b l) u v >>= method (on_semaphore a k) t)
unfolding method operation_dependent_with
on_one_semaphore p (of_semaphore x) t u a b k l h =
    ap (λ y. some (of_semaphore y))
      (semaphore_operations_commute a b k l t u x h.threads_differ (==_comm u t ∙ h.threads_differ)
        h.same_object (same_back k l h.same_object) h.first_independent h.second_independent
        (semaphore_guard_holds p t a k x h.first_found h.first_enabled)
        (semaphore_guard_holds p u b l x h.second_found h.second_enabled) (h.no_overflow x refl))
on_one_semaphore p _ t u a b k l h = refl

on_one_rwlock :
    (p : Program) (v : VisibleObject) (t u : ℕ) (a b : RwLockOperation) (k l : Ref)
    → Meeting p v t u (on_rwlock a k) (on_rwlock b l) k l
    → (method (on_rwlock a k) t v >>= method (on_rwlock b l) u)
      ≡ (method (on_rwlock b l) u v >>= method (on_rwlock a k) t)
unfolding method operation_dependent_with
on_one_rwlock p (of_rwlock x) t u a b k l h = absurd (
    rwlock_operations_never_meet a b k l t u x h.threads_differ h.same_object
      (same_back k l h.same_object) h.first_independent h.second_independent
      (rwlock_guard_holds p t a k x h.first_found h.first_enabled)
      (rwlock_guard_holds p u b l x h.second_found h.second_enabled))
on_one_rwlock p _ t u a b k l h = refl

on_one_rwwlock :
    (p : Program) (v : VisibleObject) (t u : ℕ) (a b : RwwLockOperation) (k l : Ref)
    → Meeting p v t u (on_rwwlock a k) (on_rwwlock b l) k l
    → (method (on_rwwlock a k) t v >>= method (on_rwwlock b l) u)
      ≡ (method (on_rwwlock b l) u v >>= method (on_rwwlock a k) t)
unfolding method operation_dependent_with
on_one_rwwlock p (of_rwwlock x) t u a b k l h = absurd (
    rwwlock_operations_never_meet a b k l t u x h.threads_differ h.same_object
      (same_back k l h.same_object) h.first_independent h.second_independent
      (rwwlock_guard_holds p t a k x h.first_found h.first_enabled)
      (rwwlock_guard_holds p u b l x h.second_found h.second_enabled))
on_one_rwwlock p _ t u a b k l h = refl

pub aligned :
    {p : Program} {v : VisibleObject} {t u : ℕ} {o1 o2 : Operation} (m n k l : Ref)
    → target_of o1 ≡ some k
    → target_of o2 ≡ some l
    → Meeting p v t u o1 o2 m n
    → Meeting p v t u o1 o2 k l
aligned {p} {v} {t} {u} {o1} {o2} m n k l e f h =
    subst (λ x. Meeting p v t u o1 o2 x l) (some-injective (sym e ∙ h.first_target))
      (subst (λ y. Meeting p v t u o1 o2 m y) (some-injective (sym f ∙ h.second_target)) h)

methods_commute_in_family :
    (p : Program) (v : VisibleObject) (t u : ℕ) (o1 o2 : Operation) (m n : Ref)
    → Meeting p v t u o1 o2 m n
    → (family o1 == family o2) ≡ true
    → (method o1 t v >>= method o2 u) ≡ (method o2 u v >>= method o1 t)
unfolding operation_dependent_with Barriers.dependent_with
methods_commute_in_family p v t u (on_mutex a k) (on_mutex b l) m n h f =
    on_one_mutex p v t u a b k l (aligned m n k l refl refl h)
methods_commute_in_family p v t u (on_semaphore a k) (on_semaphore b l) m n h f =
    on_one_semaphore p v t u a b k l (aligned m n k l refl refl h)
methods_commute_in_family p v t u (on_barrier a k x) (on_barrier b l y) m n h f =
    let g = aligned m n k l refl refl h in
    absurd (ground (arith, g.first_independent, g.same_object, same_back k l g.same_object))
methods_commute_in_family p v t u (on_rwlock a k) (on_rwlock b l) m n h f =
    on_one_rwlock p v t u a b k l (aligned m n k l refl refl h)
methods_commute_in_family p v t u (on_rwwlock a k) (on_rwwlock b l) m n h f =
    on_one_rwwlock p v t u a b k l (aligned m n k l refl refl h)
methods_commute_in_family p v t u _ _ m n h f = ground (arith, h.first_target, h.second_target)

pub methods_commute :
    (p : Program) (v : VisibleObject) (t u : ℕ) (o1 o2 : Operation) (m n : Ref)
    → Meeting p v t u o1 o2 m n
    → (method o1 t v >>= method o2 u) ≡ (method o2 u v >>= method o1 t)
methods_commute p v t u o1 o2 m n h = elim (Bool-cases (family o1 == family o2)) [
  | inl f ↦ methods_commute_in_family p v t u o1 o2 m n h f
  | inr f ↦
      cross o1 o2 t u v m n h.first_target h.second_target f
      ∙ sym (
          cross o2 o1 u t v n m h.second_target h.first_target
            (==_comm (family o2) (family o1) ∙ f))
]
