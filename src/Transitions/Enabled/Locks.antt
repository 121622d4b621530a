-- ===== src/Transitions/Enabled/Locks.antt =====
-- What `coenabledTransitions` of src/MCTransition.cpp says of the operations on a lock with two kinds of
-- writers, and which of them are enabled after a locking.
use dmtcp_integration.Base.{Bool, true, false}
use dmtcp_integration.Objects.RwwLock
use dmtcp_integration.Objects.RwwLock.{RwwLock}
use dmtcp_integration.Transitions.{RwwLockOperation, rww_reader_lock, writer1_lock, writer2_lock}
use dmtcp_integration.Transitions.RwwLocks
use dmtcp_integration.Transitions.Program.{Program}

-- The pairs of lockings that exclude each other: all but two readers'.
abbrev pub rww_exclusive : RwwLockOperation → RwwLockOperation → Bool
rww_exclusive rww_reader_lock writer1_lock = true
rww_exclusive rww_reader_lock writer2_lock = true
rww_exclusive writer1_lock rww_reader_lock = true
rww_exclusive writer1_lock writer1_lock = true
rww_exclusive writer1_lock writer2_lock = true
rww_exclusive writer2_lock rww_reader_lock = true
rww_exclusive writer2_lock writer1_lock = true
rww_exclusive writer2_lock writer2_lock = true
rww_exclusive _ _ = false
