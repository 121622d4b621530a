-- ===== src/Objects/RwwLock/Exclusion.antt =====
-- Steps of the lock of src/objects/MCRWWLock.cpp under its own guards: who may hold it together.
use dmtcp_integration.Base.{
  ℕ, ◌+◌, ◌≡◌, refl, subst, ◌⊎◌, inl, true, none, some, [], arith, length, length-append,
}
use dmtcp_integration.Objects.RwwLock.{
  RwwLock, Preference, new, can_acquire_as_reader, can_acquire_as_writer1, can_acquire_as_writer2,
  reader_lock, writer1_lock, writer2_lock, enqueue_as_reader, enqueue_as_writer1,
  enqueue_as_writer2, unlock, init,
}

-- What the transitions of src/transitions/rwwlock do to a lock.
pub data Step (l m : RwwLock) : Type 0 where
  initializes : init l ≡ m → Step l m
  reader_enqueues : (tid : ℕ) → enqueue_as_reader l tid ≡ m → Step l m
  writer1_enqueues : (tid : ℕ) → enqueue_as_writer1 l tid ≡ m → Step l m
  writer2_enqueues : (tid : ℕ) → enqueue_as_writer2 l tid ≡ m → Step l m
  reader_locks :
      (tid : ℕ) → can_acquire_as_reader l tid ≡ some true → reader_lock l tid ≡ some m → Step l m
  writer1_locks :
      (tid : ℕ) → can_acquire_as_writer1 l tid ≡ some true → writer1_lock l tid ≡ some m → Step l m
  writer2_locks :
      (tid : ℕ) → can_acquire_as_writer2 l tid ≡ some true → writer2_lock l tid ≡ some m → Step l m
  unlocks : (tid : ℕ) → unlock l tid ≡ some m → Step l m

pub data Reach (l : RwwLock) : RwwLock → Type 0 where
  here : Reach l l
  next : {m n : RwwLock} → Reach l m → Step m n → Reach l n

-- At most one of the two writers and the readers holds the lock, and the queue of all waiting threads
-- is as long as the other three together.
pub record Inv (l : RwwLock) : Type 0 where
  pub writers : (l.active_writer1 ≡ none) ⊎ (l.active_writer2 ≡ none)
  pub writer1_readers : (l.active_writer1 ≡ none) ⊎ (l.active_readers ≡ [])
  pub writer2_readers : (l.active_writer2 ≡ none) ⊎ (l.active_readers ≡ [])
  pub counted :
      length l.acquire_queue
      ≡ length l.reader_queue + length l.writer1_queue + length l.writer2_queue

enqueues-Inv :
    (l : RwwLock) (tid : ℕ)
    → Inv l
    → Inv (enqueue_as_reader l tid)
      × Inv (enqueue_as_writer1 l tid)
      × Inv (enqueue_as_writer2 l tid)
unfolding enqueue_as_reader enqueue_as_writer1 enqueue_as_writer2
enqueues-Inv l tid v = (
  record {
    writers = v.writers;
    writer1_readers = v.writer1_readers;
    writer2_readers = v.writer2_readers;
    counted = omega (arith, v.counted, length-append {0});
  },
  record {
    writers = v.writers;
    writer1_readers = v.writer1_readers;
    writer2_readers = v.writer2_readers;
    counted = omega (arith, v.counted, length-append {0});
  },
  record {
    writers = v.writers;
    writer1_readers = v.writer1_readers;
    writer2_readers = v.writer2_readers;
    counted = omega (arith, v.counted, length-append {0});
  },
)

module _ (l m : RwwLock) (tid : ℕ) (v : Inv l) where
  reader_locks-Inv : can_acquire_as_reader l tid ≡ some true → reader_lock l tid ≡ some m → Inv m
  unfolding can_acquire_as_reader reader_lock
  reader_locks-Inv g e = ground (arith, v)

  writer1_locks-Inv : can_acquire_as_writer1 l tid ≡ some true → writer1_lock l tid ≡ some m → Inv m
  unfolding can_acquire_as_writer1 writer1_lock
  writer1_locks-Inv g e = ground (arith, v)

  writer2_locks-Inv : can_acquire_as_writer2 l tid ≡ some true → writer2_lock l tid ≡ some m → Inv m
  unfolding can_acquire_as_writer2 writer2_lock
  writer2_locks-Inv g e = ground (arith, v)

  unlocks-Inv : unlock l tid ≡ some m → Inv m
  unfolding unlock
  unlocks-Inv e = ground (arith, v)

initializes-Inv : (l : RwwLock) → Inv l → Inv (init l)
unfolding init
initializes-Inv l v = record {
  writers = v.writers;
  writer1_readers = v.writer1_readers;
  writer2_readers = v.writer2_readers;
  counted = v.counted;
}

Step-Inv : {l m : RwwLock} → Step l m → Inv l → Inv m
Step-Inv {l} (initializes e) v = subst Inv e (initializes-Inv l v)
Step-Inv {l} (reader_enqueues tid e) v = subst Inv e (enqueues-Inv l tid v).0
Step-Inv {l} (writer1_enqueues tid e) v = subst Inv e (enqueues-Inv l tid v).1
Step-Inv {l} (writer2_enqueues tid e) v = subst Inv e (enqueues-Inv l tid v).2
Step-Inv {l} {m} (reader_locks tid g e) v = reader_locks-Inv l m tid v g e
Step-Inv {l} {m} (writer1_locks tid g e) v = writer1_locks-Inv l m tid v g e
Step-Inv {l} {m} (writer2_locks tid g e) v = writer2_locks-Inv l m tid v g e
Step-Inv {l} {m} (unlocks tid e) v = unlocks-Inv l m tid v e

-- From a new lock of any preference, every sequence of guarded operations leads to a lock that at most
-- one of a first-kind writer, a second-kind writer and the readers hold, with as many threads in the
-- queue of all waiting threads as in the three other queues together.
pub Reach-IsExclusive : (sys : ℕ) (pref : Preference) {l : RwwLock} → Reach (new sys pref) l → Inv l
unfolding new
Reach-IsExclusive sys pref here = record {
  writers = inl refl;
  writer1_readers = inl refl;
  writer2_readers = inl refl;
  counted = refl;
}
Reach-IsExclusive sys pref (next r s) = Step-Inv s (Reach-IsExclusive sys pref r)
