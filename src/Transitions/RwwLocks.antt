-- ===== src/Transitions/RwwLocks.antt =====
-- src/transitions/rwwlock: which operations the operations on a lock with two kinds of writers are dependent
-- and co-enabled with.
use dmtcp_integration.Base.{Bool, true, false, ◌&&◌, Option, none, some}
use dmtcp_integration.Transitions.{
  Ref, RwwLockOperation, rwwlock_init, rww_reader_enqueue, rww_reader_lock, writer1_enqueue,
  writer1_lock, writer2_enqueue, writer2_lock, rwwlock_unlock, Operation, on_rwwlock, is_on,
  is_not_on,
}

-- `dynamic_cast<const MCRWWLockTransition *>`
abbrev pub as_rwwlock_transition : Operation → Option Ref
as_rwwlock_transition (on_rwwlock o l) = some l
as_rwwlock_transition _ = none

abbrev pub as_reader_lock : Operation → Option Ref
as_reader_lock (on_rwwlock rww_reader_lock l) = some l
as_reader_lock _ = none

abbrev pub as_writer1_lock : Operation → Option Ref
as_writer1_lock (on_rwwlock writer1_lock l) = some l
as_writer1_lock _ = none

abbrev pub as_writer2_lock : Operation → Option Ref
as_writer2_lock (on_rwwlock writer2_lock l) = some l
as_writer2_lock _ = none

-- `dependentWith` of seven of the eight classes
unfoldable pub any_dependent_with : Ref → Operation → Bool
any_dependent_with l other = is_on (as_rwwlock_transition other) l

unfoldable pub reader_lock_dependent_with : Ref → Operation → Bool
unfolding any_dependent_with
reader_lock_dependent_with l other = elim (as_reader_lock other) [
  | some m ↦ false
  | none ↦ any_dependent_with l other
]

unfoldable pub dependent_with : RwwLockOperation → Ref → Operation → Bool
unfolding any_dependent_with reader_lock_dependent_with
dependent_with rwwlock_init l other = any_dependent_with l other
dependent_with rww_reader_enqueue l other = any_dependent_with l other
dependent_with rww_reader_lock l other = reader_lock_dependent_with l other
dependent_with writer1_enqueue l other = any_dependent_with l other
dependent_with writer1_lock l other = any_dependent_with l other
dependent_with writer2_enqueue l other = any_dependent_with l other
dependent_with writer2_lock l other = any_dependent_with l other
dependent_with rwwlock_unlock l other = any_dependent_with l other

unfoldable pub reader_lock_coenabled_with : Ref → Operation → Bool
reader_lock_coenabled_with l other =
    is_not_on (as_writer1_lock other) l && is_not_on (as_writer2_lock other) l

unfoldable pub writer1_lock_coenabled_with : Ref → Operation → Bool
writer1_lock_coenabled_with l other =
    is_not_on (as_reader_lock other) l
    && (is_not_on (as_writer1_lock other) l && is_not_on (as_writer2_lock other) l)

-- The source casts to MCRWWLockWriter2Lock twice, and never to MCRWWLockWriter1Lock.
unfoldable pub writer2_lock_coenabled_with : Ref → Operation → Bool
writer2_lock_coenabled_with l other =
    is_not_on (as_reader_lock other) l
    && (is_not_on (as_writer2_lock other) l && is_not_on (as_writer2_lock other) l)

unfoldable pub coenabled_with : RwwLockOperation → Ref → Operation → Bool
unfolding reader_lock_coenabled_with writer1_lock_coenabled_with writer2_lock_coenabled_with
coenabled_with rwwlock_init l other = true
coenabled_with rww_reader_enqueue l other = true
coenabled_with rww_reader_lock l other = reader_lock_coenabled_with l other
coenabled_with writer1_enqueue l other = true
coenabled_with writer1_lock l other = writer1_lock_coenabled_with l other
coenabled_with writer2_enqueue l other = true
coenabled_with writer2_lock l other = writer2_lock_coenabled_with l other
coenabled_with rwwlock_unlock l other = true
