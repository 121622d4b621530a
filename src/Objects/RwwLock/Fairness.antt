-- ===== src/Objects/RwwLock/Fairness.antt =====
-- The lock of src/objects/MCRWWLock.cpp with no preference serves one queue in its order, and a free
-- lock of any preference serves somebody.
use dmtcp_integration.Base.{
  ℕ, ◌≡◌, ◌≢◌, refl, sym, subst, inl, inr, Bool, true, false, Option, some, List, [], ◌∷◌, ◌++◌,
  arith, List-cases,
}
use dmtcp_integration.Objects.Fifo.{tids, role_of, of_role, tids-snoc, of_role-snoc}
use dmtcp_integration.Objects.RwwLock.{
  RwwLock, Preference, writer1_preferred, writer2_preferred, reader_preferred, no_preference,
  can_acquire_as_reader, can_acquire_as_writer1, can_acquire_as_writer2, reader_lock, writer1_lock,
  writer2_lock, enqueue_as_reader, enqueue_as_writer1, enqueue_as_writer2, is_unlocked,
}
use dmtcp_integration.Objects.RwwLock.Exclusion.{Inv}

pub data Role : Type 0 where
  reader writer1 writer2 : Role

abbrev pub is_reader : Role → Bool
is_reader reader = true
is_reader _ = false

abbrev pub is_writer1 : Role → Bool
is_writer1 writer1 = true
is_writer1 _ = false

abbrev pub is_writer2 : Role → Bool
is_writer2 writer2 = true
is_writer2 _ = false

-- The operation of a role.
unfoldable pub can_acquire : Role → RwwLock → ℕ → Option Bool
can_acquire reader = can_acquire_as_reader
can_acquire writer1 = can_acquire_as_writer1
can_acquire writer2 = can_acquire_as_writer2

unfoldable pub lock : Role → RwwLock → ℕ → Option RwwLock
lock reader = reader_lock
lock writer1 = writer1_lock
lock writer2 = writer2_lock

unfoldable pub enqueue : Role → RwwLock → ℕ → RwwLock
enqueue reader = enqueue_as_reader
enqueue writer1 = enqueue_as_writer1
enqueue writer2 = enqueue_as_writer2

-- The four queues of a lock are views of one queue of threads with their roles.
pub record Refines (l : RwwLock) (q : List (Role × ℕ)) : Type 0 where
  pub all : l.acquire_queue ≡ tids q
  pub readers : l.reader_queue ≡ of_role is_reader q
  pub writers1 : l.writer1_queue ≡ of_role is_writer1 q
  pub writers2 : l.writer2_queue ≡ of_role is_writer2 q

-- An enqueueing in any role appends the thread, in that role, to the one queue.
pub enqueue-Refines :
    (r : Role) (l : RwwLock) (q : List (Role × ℕ)) (tid : ℕ)
    → Refines l q
    → Refines (enqueue r l tid) (q ++ (r, tid) ∷ [])
unfolding enqueue enqueue_as_reader enqueue_as_writer1 enqueue_as_writer2
enqueue-Refines reader l q tid v = record {
  all = ground (arith, tids-snoc q reader tid);
  readers = ground (arith, of_role-snoc is_reader q reader tid);
  writers1 = ground (arith, of_role-snoc is_writer1 q reader tid);
  writers2 = ground (arith, of_role-snoc is_writer2 q reader tid);
}
enqueue-Refines writer1 l q tid v = record {
  all = ground (arith, tids-snoc q writer1 tid);
  readers = ground (arith, of_role-snoc is_reader q writer1 tid);
  writers1 = ground (arith, of_role-snoc is_writer1 q writer1 tid);
  writers2 = ground (arith, of_role-snoc is_writer2 q writer1 tid);
}
enqueue-Refines writer2 l q tid v = record {
  all = ground (arith, tids-snoc q writer2 tid);
  readers = ground (arith, of_role-snoc is_reader q writer2 tid);
  writers1 = ground (arith, of_role-snoc is_writer1 q writer2 tid);
  writers2 = ground (arith, of_role-snoc is_writer2 q writer2 tid);
}

-- What a locking does to the one queue: its first entry leaves, and every assertion held.
abbrev pub Serves : Role → ℕ → Option RwwLock → List (Role × ℕ) → Type 0
Serves r tid result q =
    (m : RwwLock) × (rest : List (Role × ℕ)) × (q ≡ (r, tid) ∷ rest)
    × (result ≡ some m)
    × Refines m rest

served : Role → RwwLock → ℕ → List (Role × ℕ) → RwwLock
served reader l tid q = record l {
  active_readers = l.active_readers ++ tid ∷ [];
  reader_queue = of_role is_reader q;
  acquire_queue = tids q;
}
served writer1 l tid q = record l {
  active_writer1 = some tid;
  writer1_queue = of_role is_writer1 q;
  acquire_queue = tids q;
}
served writer2 l tid q = record l {
  active_writer2 = some tid;
  writer2_queue = of_role is_writer2 q;
  acquire_queue = tids q;
}

-- The first of the one queue is served in its role.
first-Serves :
    (r : Role) (l : RwwLock) (q : List (Role × ℕ)) (tid : ℕ)
    → Refines l ((r, tid) ∷ q)
    → l.type ≡ no_preference
    → can_acquire r l tid ≡ some true
    → Serves r tid (lock r l tid) ((r, tid) ∷ q)
unfolding served lock can_acquire can_acquire_as_reader can_acquire_as_writer1
    can_acquire_as_writer2 reader_lock writer1_lock writer2_lock tids of_role
first-Serves reader l q tid v t g = (
  served reader l tid q,
  q,
  refl,
  ground arith,
  record { all = refl; readers = refl; writers1 = v.writers1; writers2 = v.writers2 },
)
first-Serves writer1 l q tid v t g = (
  served writer1 l tid q,
  q,
  refl,
  ground arith,
  record { all = refl; readers = v.readers; writers1 = refl; writers2 = v.writers2 },
)
first-Serves writer2 l q tid v t g = (
  served writer2 l tid q,
  q,
  refl,
  ground arith,
  record { all = refl; readers = v.readers; writers1 = v.writers1; writers2 = refl },
)

-- With no preference a guard that holds names the first thread of the queue of all.
front-eq :
    (r : Role) (l : RwwLock) (s : Role) (u : ℕ) (q : List (Role × ℕ)) (tid : ℕ)
    → Refines l ((s, u) ∷ q)
    → l.type ≡ no_preference
    → can_acquire r l tid ≡ some true
    → u ≡ tid
unfolding can_acquire can_acquire_as_reader can_acquire_as_writer1 can_acquire_as_writer2 tids
front-eq reader l s u q tid v t g = ground arith
front-eq writer1 l s u q tid v t g = ground arith
front-eq writer2 l s u q tid v t g = ground arith

-- With no preference, a thread that waits in some role, and whose guard in that role holds, is the first
-- of the one queue: its locking passes every assertion, and leaves a lock that refines the rest.
pub lock-Serves :
    (r : Role) (l : RwwLock) (q : List (Role × ℕ)) (tid : ℕ)
    → Refines l q
    → l.type ≡ no_preference
    → role_of q tid ≡ some r
    → can_acquire r l tid ≡ some true
    → Serves r tid (lock r l tid) q
unfolding role_of
lock-Serves r l [] tid v t w g = cc
lock-Serves r l ((s, u) ∷ q) tid v t w g =
    subst (λ (p : Role × ℕ). Refines l (p ∷ q) → Serves r tid (lock r l tid) (p ∷ q)) (sym same)
      (λ first. first-Serves r l q tid first t g) v
  where
    found : u ≡ tid
    found = front-eq r l s u q tid v t g

    role : s ≡ r
    role = ground (arith, found)

    same : ◌≡◌ {A = Role × ℕ} (s, u) (r, tid)
    same i = (role i, found i)

-- The guard of some role holds for some thread.
abbrev pub Somebody : RwwLock → Type 0
Somebody l = (r : Role) × (tid : ℕ) × (can_acquire r l tid ≡ some true)

module _ (l : RwwLock) (v : Inv l) (free : is_unlocked l ≡ true)
    (waits : l.acquire_queue ≢ []) where
  -- The first reader or writer of a free lock, by the preference of the lock.
  serves_by_preference : (pref : Preference) → l.type ≡ pref → Somebody l
  unfolding can_acquire can_acquire_as_reader can_acquire_as_writer1 can_acquire_as_writer2
      is_unlocked
  serves_by_preference writer1_preferred t = elim (List-cases l.writer1_queue) [
    | inr (w, ws, e) ↦ (writer1, w, ground (arith, free))
    | inl e ↦ elim (List-cases l.reader_queue) [
      | inr (r, rs, f) ↦ (reader, r, ground (arith, free))
      | inl f ↦ elim (List-cases l.writer2_queue) [
        | inr (w, ws, g) ↦ (writer2, w, ground (arith, free))
        | inl g ↦ absurd (ground (arith, v.counted, waits))
      ]
    ]
  ]
  serves_by_preference writer2_preferred t = elim (List-cases l.writer2_queue) [
    | inr (w, ws, e) ↦ (writer2, w, ground (arith, free))
    | inl e ↦ elim (List-cases l.reader_queue) [
      | inr (r, rs, f) ↦ (reader, r, ground (arith, free))
      | inl f ↦ elim (List-cases l.writer1_queue) [
        | inr (w, ws, g) ↦ (writer1, w, ground (arith, free))
        | inl g ↦ absurd (ground (arith, v.counted, waits))
      ]
    ]
  ]
  serves_by_preference reader_preferred t = elim (List-cases l.reader_queue) [
    | inr (r, rs, e) ↦ (reader, r, ground (arith, free))
    | inl e ↦ elim (List-cases l.writer1_queue) [
      | inr (w, ws, f) ↦ (writer1, w, ground (arith, free))
      | inl f ↦ elim (List-cases l.writer2_queue) [
        | inr (w, ws, g) ↦ (writer2, w, ground (arith, free))
        | inl g ↦ absurd (ground (arith, v.counted, waits))
      ]
    ]
  ]
  serves_by_preference no_preference t = elim (List-cases l.acquire_queue) [
    | inr (a, rest, e) ↦ (reader, a, ground (arith, free))
    | inl e ↦ absurd (waits e)
  ]

-- No stall: in a lock of any preference that is well formed, free, and has a thread in the queue of all
-- waiting threads, the guard of some role holds for some thread.
pub free_lock-Somebody :
    (l : RwwLock) → Inv l → is_unlocked l ≡ true → l.acquire_queue ≢ [] → Somebody l
free_lock-Somebody l v free waits = serves_by_preference l v free waits l.type refl
