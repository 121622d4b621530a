-- ===== src/Objects/RwLock/Exclusion.antt =====
-- Steps of the lock of src/objects/MCRWLock.cpp under its own guards: who may hold it together.
use dmtcp_integration.Base.{
  ℕ, ◌+◌, ◌≡◌, refl, subst, ◌⊎◌, inl, true, none, some, [], ◌∷◌, arith, length, length-append,
}
use dmtcp_integration.Objects.RwLock.{
  RwLock, Preference, new, can_acquire_as_reader, can_acquire_as_writer, reader_lock, writer_lock,
  enqueue_as_reader, enqueue_as_writer, unlock, init,
}

-- What the transitions of src/transitions/rwlock do to a lock: an enqueueing is always enabled, a
-- locking only if its guard holds.
pub data Step (l m : RwLock) : Type 0 where
  initializes : init l ≡ m → Step l m
  reader_enqueues : (tid : ℕ) → enqueue_as_reader l tid ≡ m → Step l m
  writer_enqueues : (tid : ℕ) → enqueue_as_writer l tid ≡ m → Step l m
  reader_locks :
      (tid : ℕ) → can_acquire_as_reader l tid ≡ some true → reader_lock l tid ≡ some m → Step l m
  writer_locks :
      (tid : ℕ) → can_acquire_as_writer l tid ≡ some true → writer_lock l tid ≡ some m → Step l m
  unlocks : (tid : ℕ) → unlock l tid ≡ some m → Step l m

pub data Reach (l : RwLock) : RwLock → Type 0 where
  here : Reach l l
  next : {m n : RwLock} → Reach l m → Step m n → Reach l n

-- A writer excludes readers, and the queue of all waiting threads is as long as the other two.
pub record Inv (l : RwLock) : Type 0 where
  pub exclusive : (l.active_writer ≡ none) ⊎ (l.active_readers ≡ [])
  pub counted : length l.acquire_queue ≡ length l.reader_queue + length l.writer_queue

reader_enqueues-Inv : (l : RwLock) (tid : ℕ) → Inv l → Inv (enqueue_as_reader l tid)
unfolding enqueue_as_reader
reader_enqueues-Inv l tid v = record {
  exclusive = v.exclusive;
  counted = omega (
    arith,
    v.counted,
    length-append l.acquire_queue (tid ∷ []),
    length-append l.reader_queue (tid ∷ []),
  );
}

writer_enqueues-Inv : (l : RwLock) (tid : ℕ) → Inv l → Inv (enqueue_as_writer l tid)
unfolding enqueue_as_writer
writer_enqueues-Inv l tid v = record {
  exclusive = v.exclusive;
  counted = omega (
    arith,
    v.counted,
    length-append l.acquire_queue (tid ∷ []),
    length-append l.writer_queue (tid ∷ []),
  );
}

reader_locks-Inv :
    (l m : RwLock) (tid : ℕ)
    → can_acquire_as_reader l tid ≡ some true
    → reader_lock l tid ≡ some m
    → Inv l
    → Inv m
unfolding can_acquire_as_reader reader_lock
reader_locks-Inv l m tid g e v = ground arith

writer_locks-Inv :
    (l m : RwLock) (tid : ℕ)
    → can_acquire_as_writer l tid ≡ some true
    → writer_lock l tid ≡ some m
    → Inv l
    → Inv m
unfolding can_acquire_as_writer writer_lock
writer_locks-Inv l m tid g e v = ground arith

unlocks-Inv : (l m : RwLock) (tid : ℕ) → unlock l tid ≡ some m → Inv l → Inv m
unfolding unlock
unlocks-Inv l m tid e v = ground arith

initializes-Inv : (l : RwLock) → Inv l → Inv (init l)
unfolding init
initializes-Inv l v = record { exclusive = v.exclusive; counted = v.counted }

Step-Inv : {l m : RwLock} → Step l m → Inv l → Inv m
Step-Inv {l} (initializes e) v = subst Inv e (initializes-Inv l v)
Step-Inv {l} (reader_enqueues tid e) v = subst Inv e (reader_enqueues-Inv l tid v)
Step-Inv {l} (writer_enqueues tid e) v = subst Inv e (writer_enqueues-Inv l tid v)
Step-Inv {l} {m} (reader_locks tid g e) v = reader_locks-Inv l m tid g e v
Step-Inv {l} {m} (writer_locks tid g e) v = writer_locks-Inv l m tid g e v
Step-Inv {l} {m} (unlocks tid e) v = unlocks-Inv l m tid e v

-- From a new lock of any preference, every sequence of guarded operations leads to a lock that a
-- writer and a reader do not hold together, with as many threads in the queue of all waiting threads
-- as in the readers' and the writers' queues together.
pub Reach-Inv : (sys : ℕ) (pref : Preference) {l : RwLock} → Reach (new sys pref) l → Inv l
unfolding new
Reach-Inv sys pref here = record { exclusive = inl refl; counted = refl }
Reach-Inv sys pref (next r s) = Step-Inv s (Reach-Inv sys pref r)
