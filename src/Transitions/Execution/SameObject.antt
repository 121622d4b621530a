-- ===== src/Transitions/Execution/SameObject.antt =====
-- Operations on one object that the relations of src/MCTransition.cpp hold independent.
use dmtcp_integration.Base.{ℕ, Bool, true, false, Option, some, ◌≡◌, refl, ◌==◌, arith}
use dmtcp_integration.Objects.Mutex.{Mutex}
use dmtcp_integration.Objects.RwLock
use dmtcp_integration.Objects.RwLock.{RwLock}
use dmtcp_integration.Objects.RwwLock
use dmtcp_integration.Objects.RwwLock.{RwwLock}
use dmtcp_integration.Transitions.{
  Ref, MutexOperation, mutex_init, mutex_lock, mutex_unlock, RwLockOperation, rwlock_init,
  reader_enqueue, reader_lock, writer_enqueue, writer_lock, rwlock_unlock, RwwLockOperation,
  rwwlock_init, rww_reader_enqueue, rww_reader_lock, writer1_enqueue, writer1_lock, writer2_enqueue,
  writer2_lock, rwwlock_unlock, on_mutex, on_rwlock, on_rwwlock, same,
}
use dmtcp_integration.Transitions.Mutexes
use dmtcp_integration.Transitions.RwLocks
use dmtcp_integration.Transitions.RwwLocks
use dmtcp_integration.Transitions.Execution.{apply_to_mutex}

pub mutex_operations_commute :
    (a b : MutexOperation) (m n : Ref) (t u : ℕ) (x : Mutex)
    → same m n ≡ true
    → same n m ≡ true
    → Mutexes.dependent_with a m (on_mutex b n) ≡ false
    → Mutexes.dependent_with b n (on_mutex a m) ≡ false
    → apply_to_mutex b u (apply_to_mutex a t x) ≡ apply_to_mutex a t (apply_to_mutex b u x)
unfolding Mutexes.dependent_with Mutexes.init_dependent_with Mutexes.lock_dependent_with
    apply_to_mutex
mutex_operations_commute mutex_unlock mutex_unlock m n t u x h k d e = refl
mutex_operations_commute mutex_init b m n t u x h k d e = ground arith
mutex_operations_commute mutex_lock mutex_init m n t u x h k d e = ground arith
mutex_operations_commute mutex_lock mutex_lock m n t u x h k d e = ground arith
mutex_operations_commute mutex_lock mutex_unlock m n t u x h k d e = ground arith
mutex_operations_commute mutex_unlock mutex_init m n t u x h k d e = ground arith
mutex_operations_commute mutex_unlock mutex_lock m n t u x h k d e = ground arith

-- At most one thread may take a reader's lock at a time: the one at the front.
one_reader :
    (l : RwLock) (t u : ℕ)
    → RwLock.can_acquire_as_reader l t ≡ some true
    → RwLock.can_acquire_as_reader l u ≡ some true
    → t ≡ u
unfolding RwLock.can_acquire_as_reader
one_reader l t u h k = ground arith

abbrev pub rwlock_guard : RwLockOperation → ℕ → RwLock → Option Bool
rwlock_guard reader_lock t l = RwLock.can_acquire_as_reader l t
rwlock_guard writer_lock t l = RwLock.can_acquire_as_writer l t
rwlock_guard _ t l = some true

pub rwlock_operations_never_meet :
    (a b : RwLockOperation) (m n : Ref) (t u : ℕ) (l : RwLock)
    → (t == u) ≡ false
    → same m n ≡ true
    → same n m ≡ true
    → RwLocks.dependent_with a m (on_rwlock b n) ≡ false
    → RwLocks.dependent_with b n (on_rwlock a m) ≡ false
    → rwlock_guard a t l ≡ some true
    → rwlock_guard b u l ≡ some true
    → ⊥
unfolding RwLocks.dependent_with RwLocks.any_dependent_with RwLocks.reader_lock_dependent_with
rwlock_operations_never_meet reader_lock reader_lock m n t u l c h k d e x y =
    ground (arith, one_reader l t u x y)
rwlock_operations_never_meet reader_lock rwlock_init m n t u l c h k d e x y = ground arith
rwlock_operations_never_meet reader_lock reader_enqueue m n t u l c h k d e x y = ground arith
rwlock_operations_never_meet reader_lock writer_enqueue m n t u l c h k d e x y = ground arith
rwlock_operations_never_meet reader_lock writer_lock m n t u l c h k d e x y = ground arith
rwlock_operations_never_meet reader_lock rwlock_unlock m n t u l c h k d e x y = ground arith
rwlock_operations_never_meet rwlock_init b m n t u l c h k d e x y = ground arith
rwlock_operations_never_meet reader_enqueue b m n t u l c h k d e x y = ground arith
rwlock_operations_never_meet writer_enqueue b m n t u l c h k d e x y = ground arith
rwlock_operations_never_meet writer_lock b m n t u l c h k d e x y = ground arith
rwlock_operations_never_meet rwlock_unlock b m n t u l c h k d e x y = ground arith

one_rww_reader :
    (l : RwwLock) (t u : ℕ)
    → RwwLock.can_acquire_as_reader l t ≡ some true
    → RwwLock.can_acquire_as_reader l u ≡ some true
    → t ≡ u
unfolding RwwLock.can_acquire_as_reader
one_rww_reader l t u h k = ground arith

abbrev pub rwwlock_guard : RwwLockOperation → ℕ → RwwLock → Option Bool
rwwlock_guard rww_reader_lock t l = RwwLock.can_acquire_as_reader l t
rwwlock_guard writer1_lock t l = RwwLock.can_acquire_as_writer1 l t
rwwlock_guard writer2_lock t l = RwwLock.can_acquire_as_writer2 l t
rwwlock_guard _ t l = some true

pub rwwlock_operations_never_meet :
    (a b : RwwLockOperation) (m n : Ref) (t u : ℕ) (l : RwwLock)
    → (t == u) ≡ false
    → same m n ≡ true
    → same n m ≡ true
    → RwwLocks.dependent_with a m (on_rwwlock b n) ≡ false
    → RwwLocks.dependent_with b n (on_rwwlock a m) ≡ false
    → rwwlock_guard a t l ≡ some true
    → rwwlock_guard b u l ≡ some true
    → ⊥
unfolding RwwLocks.dependent_with RwwLocks.any_dependent_with RwwLocks.reader_lock_dependent_with
rwwlock_operations_never_meet rww_reader_lock rww_reader_lock m n t u l c h k d e x y =
    ground (arith, one_rww_reader l t u x y)
rwwlock_operations_never_meet _ rwwlock_init m n t u l c h k d e x y = ground arith
rwwlock_operations_never_meet _ rww_reader_enqueue m n t u l c h k d e x y = ground arith
rwwlock_operations_never_meet _ writer1_enqueue m n t u l c h k d e x y = ground arith
rwwlock_operations_never_meet _ writer1_lock m n t u l c h k d e x y = ground arith
rwwlock_operations_never_meet _ writer2_enqueue m n t u l c h k d e x y = ground arith
rwwlock_operations_never_meet _ writer2_lock m n t u l c h k d e x y = ground arith
rwwlock_operations_never_meet _ rwwlock_unlock m n t u l c h k d e x y = ground arith
rwwlock_operations_never_meet _ rww_reader_lock m n t u l c h k d e x y = ground arith
