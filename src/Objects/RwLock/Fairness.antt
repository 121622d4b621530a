-- ===== src/Objects/RwLock/Fairness.antt =====
-- The lock of src/objects/MCRWLock.cpp with no preference serves one queue in its order, and a free
-- lock of any preference serves somebody.
use dmtcp_integration.Base.{
  ℕ, ◌≡◌, refl, ap, ◌∙◌, ◌==◌, ◌⊎◌, inl, inr, Bool, true, false, Option, some, List, [], ◌∷◌, ◌++◌,
  arith, ◌≢◌, List-cases,
}
use dmtcp_integration.Objects.RwLock.Exclusion.{Inv}
use dmtcp_integration.Objects.Fifo.{tids, role_of, of_role, tids-snoc, of_role-snoc}
use dmtcp_integration.Objects.RwLock.{
  RwLock, Preference, writer_preferred, reader_preferred, no_preference, can_acquire_as_reader,
  can_acquire_as_writer, reader_lock, writer_lock, enqueue_as_reader, enqueue_as_writer,
  is_unlocked,
}

pub data Role : Type 0 where
  reader writer : Role

abbrev pub is_reader : Role → Bool
is_reader reader = true
is_reader writer = false

abbrev pub is_writer : Role → Bool
is_writer reader = false
is_writer writer = true

-- The three queues of a lock are views of one queue of threads with their roles.
pub record Refines (l : RwLock) (q : List (Role × ℕ)) : Type 0 where
  pub all : l.acquire_queue ≡ tids q
  pub readers : l.reader_queue ≡ of_role is_reader q
  pub writers : l.writer_queue ≡ of_role is_writer q

-- An enqueueing of a reader appends the thread, as a reader, to the one queue.
pub enqueue_as_reader-Refines :
    (l : RwLock) (q : List (Role × ℕ)) (tid : ℕ)
    → Refines l q
    → Refines (enqueue_as_reader l tid) (q ++ (reader, tid) ∷ [])
unfolding enqueue_as_reader
enqueue_as_reader-Refines l q tid v = record {
  all = ground (arith, tids-snoc q reader tid, v.all);
  readers = ground (arith, of_role-snoc is_reader q reader tid, v.readers);
  writers = ground (arith, of_role-snoc is_writer q reader tid, v.writers);
}

-- An enqueueing of a writer appends the thread, as a writer, to the one queue.
pub enqueue_as_writer-Refines :
    (l : RwLock) (q : List (Role × ℕ)) (tid : ℕ)
    → Refines l q
    → Refines (enqueue_as_writer l tid) (q ++ (writer, tid) ∷ [])
unfolding enqueue_as_writer
enqueue_as_writer-Refines l q tid v = record {
  all = ground (arith, tids-snoc q writer tid, v.all);
  readers = ground (arith, of_role-snoc is_reader q writer tid, v.readers);
  writers = ground (arith, of_role-snoc is_writer q writer tid, v.writers);
}

-- What a locking does to the one queue: its first entry leaves, and every assertion held.
abbrev pub Serves : Role → ℕ → Option RwLock → List (Role × ℕ) → Type 0
Serves r tid result q =
    (m : RwLock) × (rest : List (Role × ℕ)) × (q ≡ (r, tid) ∷ rest)
    × (result ≡ some m)
    × Refines m rest

-- With no preference, a thread that waits as a reader, and whose guard holds, is the first of the one
-- queue: its locking passes every assertion, and leaves a lock that refines the rest of the queue.
pub reader_lock-Serves :
    (l : RwLock) (q : List (Role × ℕ)) (tid : ℕ)
    → Refines l q
    → l.type ≡ no_preference
    → role_of q tid ≡ some reader
    → can_acquire_as_reader l tid ≡ some true
    → Serves reader tid (reader_lock l tid) q
unfolding can_acquire_as_reader reader_lock role_of tids of_role
reader_lock-Serves l [] tid v t w g = absurd (ground arith)
reader_lock-Serves l ((reader, u) ∷ q) tid v t w g = (
  record l {
    active_readers = l.active_readers ++ tid ∷ [];
    reader_queue = of_role is_reader q;
    acquire_queue = tids q;
  },
  q,
  ground arith,
  ground arith,
  record { all = refl; readers = refl; writers = v.writers },
)
reader_lock-Serves l ((writer, u) ∷ q) tid v t w g = absurd (ground arith)

-- With no preference, a thread that waits as a writer, and whose guard holds, is the first of the one
-- queue: its locking passes every assertion, and leaves a lock that refines the rest of the queue.
pub writer_lock-Serves :
    (l : RwLock) (q : List (Role × ℕ)) (tid : ℕ)
    → Refines l q
    → l.type ≡ no_preference
    → role_of q tid ≡ some writer
    → can_acquire_as_writer l tid ≡ some true
    → Serves writer tid (writer_lock l tid) q
unfolding can_acquire_as_writer writer_lock role_of tids of_role
writer_lock-Serves l [] tid v t w g = absurd (ground arith)
writer_lock-Serves l ((writer, u) ∷ q) tid v t w g = (
  record l { active_writer = some tid; writer_queue = of_role is_writer q; acquire_queue = tids q },
  q,
  ground arith,
  ground arith,
  record { all = refl; readers = v.readers; writers = refl },
)
writer_lock-Serves l ((reader, u) ∷ q) tid v t w g = absurd (ground arith)

abbrev pub Somebody : RwLock → Type 0
Somebody l =
    (tid : ℕ) × ((can_acquire_as_reader l tid ≡ some true)
      ⊎ (can_acquire_as_writer l tid ≡ some true))

-- The first reader or writer of a free lock, by the preference of the lock.
serves_by_preference :
    (l : RwLock) (pref : Preference)
    → Inv l
    → l.type ≡ pref
    → is_unlocked l ≡ true
    → l.acquire_queue ≢ []
    → Somebody l
unfolding can_acquire_as_reader can_acquire_as_writer is_unlocked
serves_by_preference l writer_preferred v t free waits = elim (List-cases l.writer_queue) [
  | inr (w, ws, e) ↦ (w, inr (ground arith))
  | inl e ↦ elim (List-cases l.reader_queue) [
    | inr (r, rs, f) ↦ (r, inl (ground arith))
    | inl f ↦ absurd (ground (arith, v.counted))
  ]
]
serves_by_preference l reader_preferred v t free waits = elim (List-cases l.reader_queue) [
  | inr (r, rs, e) ↦ (r, inl (ground arith))
  | inl e ↦ elim (List-cases l.writer_queue) [
    | inr (w, ws, f) ↦ (w, inr (ground arith))
    | inl f ↦ absurd (ground (arith, v.counted))
  ]
]
serves_by_preference l no_preference v t free waits = elim (List-cases l.acquire_queue) [
  | inr (a, rest, e) ↦ (a, inl (ground arith))
  | inl e ↦ absurd (waits e)
]

-- No stall: in a lock of any preference that is well formed, free, and has a thread in the queue of all
-- waiting threads, the guard of a reader or of a writer holds for some thread.
pub free_lock_serves :
    (l : RwLock) → Inv l → is_unlocked l ≡ true → l.acquire_queue ≢ [] → Somebody l
free_lock_serves l v free waits = serves_by_preference l l.type v refl free waits

-- The guard and the locking of a thread in a role.
abbrev pub can_acquire : Role → RwLock → ℕ → Option Bool
can_acquire reader l tid = can_acquire_as_reader l tid
can_acquire writer l tid = can_acquire_as_writer l tid

abbrev pub lock : Role → RwLock → ℕ → Option RwLock
lock reader l tid = reader_lock l tid
lock writer l tid = writer_lock l tid

first_may_lock :
    (r : Role) (l : RwLock) (q : List (Role × ℕ)) (tid : ℕ)
    → Refines l ((r, tid) ∷ q)
    → l.type ≡ no_preference
    → is_unlocked l ≡ true
    → can_acquire r l tid ≡ some true
unfolding can_acquire_as_reader can_acquire_as_writer is_unlocked tids
first_may_lock reader l q tid v t free = ground (arith, v.all, t, free)
first_may_lock writer l q tid v t free = ground (arith, v.all, t, free)

first_is_served :
    (r : Role) (l : RwLock) (q : List (Role × ℕ)) (tid : ℕ)
    → Refines l ((r, tid) ∷ q)
    → l.type ≡ no_preference
    → can_acquire r l tid ≡ some true
    → Serves r tid (lock r l tid) ((r, tid) ∷ q)
unfolding role_of
first_is_served reader l q tid v t g =
    reader_lock-Serves l ((reader, tid) ∷ q) tid v t (ground arith) g
first_is_served writer l q tid v t g =
    writer_lock-Serves l ((writer, tid) ∷ q) tid v t (ground arith) g

others_wait :
    (r s : Role) (l : RwLock) (q : List (Role × ℕ)) (tid u : ℕ)
    → Refines l ((r, tid) ∷ q)
    → l.type ≡ no_preference
    → is_unlocked l ≡ true
    → can_acquire s l u ≡ some (tid == u)
unfolding can_acquire_as_reader can_acquire_as_writer is_unlocked tids
others_wait r reader l q tid u v t free = ground (arith, v.all, t, free)
others_wait r writer l q tid u v t free = ground (arith, v.all, t, free)

-- No stall: with no preference, a free lock whose queues are views of one queue that is not empty lets the
-- first thread of that queue in, in the role in which it waits. Its guard holds, its locking passes every
-- assertion, and leaves a lock that refines the rest of the queue; and the guard of another thread does
-- not hold, in any role.
pub free_lock-Serves_first :
    (l : RwLock) (r s : Role) (tid u : ℕ) (q : List (Role × ℕ))
    → Refines l ((r, tid) ∷ q)
    → l.type ≡ no_preference
    → is_unlocked l ≡ true
    → (tid == u) ≡ false
    → (can_acquire r l tid ≡ some true)
      × Serves r tid (lock r l tid) ((r, tid) ∷ q)
      × (can_acquire s l u ≡ some false)
free_lock-Serves_first l r s tid u q v t free differs =
    let may = first_may_lock r l q tid v t free in
    (may, first_is_served r l q tid v t may, others_wait r s l q tid u v t free ∙ ap some differs)
