-- ===== src/Transitions/RwLocks.antt =====
-- src/transitions/rwlock: which operations the operations on a reader-writer lock are dependent and
-- co-enabled with.
use dmtcp_integration.Base.{Bool, true, false, ◌&&◌, Option, none, some}
use dmtcp_integration.Transitions.{
  Ref, RwLockOperation, rwlock_init, reader_enqueue, reader_lock, writer_enqueue, writer_lock,
  rwlock_unlock, Operation, on_rwlock, is_on, is_not_on,
}

-- `dynamic_cast<const MCRWLockTransition *>`
abbrev pub as_rwlock_transition : Operation → Option Ref
as_rwlock_transition (on_rwlock o l) = some l
as_rwlock_transition _ = none

abbrev pub as_reader_lock : Operation → Option Ref
as_reader_lock (on_rwlock reader_lock l) = some l
as_reader_lock _ = none

abbrev pub as_writer_lock : Operation → Option Ref
as_writer_lock (on_rwlock writer_lock l) = some l
as_writer_lock _ = none

-- `dependentWith` of five of the six classes
unfoldable pub any_dependent_with : Ref → Operation → Bool
any_dependent_with l other = is_on (as_rwlock_transition other) l

unfoldable pub reader_lock_dependent_with : Ref → Operation → Bool
unfolding any_dependent_with
reader_lock_dependent_with l other = elim (as_reader_lock other) [
  | some m ↦ false
  | none ↦ any_dependent_with l other
]

unfoldable pub dependent_with : RwLockOperation → Ref → Operation → Bool
unfolding any_dependent_with reader_lock_dependent_with
dependent_with rwlock_init l other = any_dependent_with l other
dependent_with reader_enqueue l other = any_dependent_with l other
dependent_with reader_lock l other = reader_lock_dependent_with l other
dependent_with writer_enqueue l other = any_dependent_with l other
dependent_with writer_lock l other = any_dependent_with l other
dependent_with rwlock_unlock l other = any_dependent_with l other

-- A reader's locking returns true, like the operations of no interest here.
unfoldable pub reader_lock_coenabled_with : Ref → Operation → Bool
reader_lock_coenabled_with l other = is_not_on (as_writer_lock other) l

-- The casts exclude each other, so that the early returns are a conjunction.
unfoldable pub writer_lock_coenabled_with : Ref → Operation → Bool
writer_lock_coenabled_with l other =
    is_not_on (as_reader_lock other) l && is_not_on (as_writer_lock other) l

unfoldable pub coenabled_with : RwLockOperation → Ref → Operation → Bool
unfolding reader_lock_coenabled_with writer_lock_coenabled_with
coenabled_with rwlock_init l other = true
coenabled_with reader_enqueue l other = true
coenabled_with reader_lock l other = reader_lock_coenabled_with l other
coenabled_with writer_enqueue l other = true
coenabled_with writer_lock l other = writer_lock_coenabled_with l other
coenabled_with rwlock_unlock l other = true
