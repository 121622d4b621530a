-- ===== src/Objects/RwLock.antt =====
-- src/objects/MCRWLock.cpp and include/mcmini/objects/MCRWLock.h: the model of a pthread_rwlock_t.
pub mod Exclusion
pub mod Fairness
pub mod Tests
use dmtcp_integration.Base.{
  ℕ, ◌≡◌, Bool, true, false, not, ◌&&◌, Option, none, some, List, [], ◌∷◌, ◌++◌, ◌==◌,
  if◌then◌else◌, is_empty, contains, erase_first, assert, ◌>>=◌, ◌>>◌,
}

pub data State : Type 0 where
  undefined unlocked reader_owned writer_owned destroyed : State

pub data Preference : Type 0 where
  writer_preferred reader_preferred no_preference : Preference

pub record RwLock : Type 0 where
  pub system_identity : ℕ
  pub state : State
  pub active_writer : Option ℕ
  pub active_readers : List ℕ
  pub reader_queue : List ℕ
  pub writer_queue : List ℕ
  pub acquire_queue : List ℕ
  pub type : Preference

-- A lock as `MCRWLock(shadow, type)` makes it.
unfoldable pub new : ℕ → Preference → RwLock
new sys pref = record {
  system_identity = sys;
  state = undefined;
  active_writer = none;
  active_readers = [];
  reader_queue = [];
  writer_queue = [];
  acquire_queue = [];
  type = pref;
}

-- `std::queue::front`, undefined on the empty queue.
abbrev pub front : List ℕ → Option ℕ
front [] = none
front (t ∷ q) = some t

-- `std::queue::pop`, undefined on the empty queue.
abbrev pub pop : List ℕ → Option (List ℕ)
pop [] = none
pop (t ∷ q) = some q

abbrev pub has_value : Option ℕ → Bool
has_value none = false
has_value (some t) = true

abbrev pub unwrapped_is : Option ℕ → ℕ → Bool
unwrapped_is none tid = false
unwrapped_is (some t) tid = t == tid

-- `front() == tid`
abbrev pub front_is : List ℕ → ℕ → Option Bool
front_is q tid = do t ← front q; some (t == tid)

abbrev prefers_writers : Preference → Bool
prefers_writers writer_preferred = true
prefers_writers _ = false

abbrev prefers_readers : Preference → Bool
prefers_readers reader_preferred = true
prefers_readers _ = false

abbrev has_no_preference : Preference → Bool
has_no_preference no_preference = true
has_no_preference _ = false

unfoldable pub has_enqueued_writers : RwLock → Bool
has_enqueued_writers l = not (is_empty l.writer_queue)

unfoldable pub has_enqueued_readers : RwLock → Bool
has_enqueued_readers l = not (is_empty l.reader_queue)

unfoldable pub is_reader_locked : RwLock → Bool
is_reader_locked l = not (is_empty l.active_readers)

unfoldable pub is_writer_locked : RwLock → Bool
is_writer_locked l = has_value l.active_writer

unfoldable pub is_unlocked : RwLock → Bool
unfolding is_writer_locked is_reader_locked
is_unlocked l = not (is_writer_locked l) && not (is_reader_locked l)

-- `a && front() == tid`: the front is read only if the left side holds.
abbrev pub and_front : Bool → List ℕ → ℕ → Option Bool
and_front false q tid = some false
and_front true q tid = front_is q tid

unfoldable pub can_acquire_as_reader : RwLock → ℕ → Option Bool
unfolding has_enqueued_writers is_writer_locked
can_acquire_as_reader l tid =
    if prefers_writers l.type && has_enqueued_writers l
    then some false
    else (if has_no_preference l.type
        then and_front (not (is_writer_locked l)) l.acquire_queue tid
        else and_front (not (is_writer_locked l)) l.reader_queue tid)

unfoldable pub can_acquire_as_writer : RwLock → ℕ → Option Bool
unfolding has_enqueued_readers is_unlocked
can_acquire_as_writer l tid =
    if prefers_readers l.type && has_enqueued_readers l
    then some false
    else (if has_no_preference l.type
        then and_front (is_unlocked l) l.acquire_queue tid
        else and_front (is_unlocked l) l.writer_queue tid)

unfoldable pub is_destroyed : RwLock → Bool
is_destroyed l = elim l.state [ destroyed ↦ true | _ ↦ false ]

unfoldable pub reader_lock : RwLock → ℕ → Option RwLock
reader_lock l tid = do
  assert (not (is_empty l.reader_queue))
  assert (not (is_empty l.acquire_queue))
  first ← front l.reader_queue
  assert (first == tid)
  readers ← pop l.reader_queue
  waiting ← pop l.acquire_queue
  some (record l {
    active_readers = l.active_readers ++ tid ∷ [];
    reader_queue = readers;
    acquire_queue = waiting;
  })

unfoldable pub writer_lock : RwLock → ℕ → Option RwLock
writer_lock l tid = do
  assert (not (has_value l.active_writer))
  assert (not (is_empty l.writer_queue))
  first ← front l.writer_queue
  assert (first == tid)
  writers ← pop l.writer_queue
  waiting ← pop l.acquire_queue
  some (record l { writer_queue = writers; acquire_queue = waiting; active_writer = some tid })

unfoldable pub enqueue_as_reader : RwLock → ℕ → RwLock
enqueue_as_reader l tid = record l {
  reader_queue = l.reader_queue ++ tid ∷ [];
  acquire_queue = l.acquire_queue ++ tid ∷ [];
}

unfoldable pub enqueue_as_writer : RwLock → ℕ → RwLock
enqueue_as_writer l tid = record l {
  writer_queue = l.writer_queue ++ tid ∷ [];
  acquire_queue = l.acquire_queue ++ tid ∷ [];
}

-- The branch without a writer and without readers is `MC_FATAL()`.
unfoldable pub unlock : RwLock → ℕ → Option RwLock
unlock l tid =
    if has_value l.active_writer
    then (do assert (unwrapped_is l.active_writer tid); some (record l { active_writer = none }))
    else (if not (is_empty l.active_readers)
        then (do
          assert (contains l.active_readers tid)
          some (record l { active_readers = erase_first tid l.active_readers }))
        else none)

unfoldable pub init : RwLock → RwLock
init l = record l { state = unlocked }

unfoldable pub deinit : RwLock → RwLock
deinit l = record l { state = destroyed }
