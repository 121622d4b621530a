-- ===== src/Objects/RwwLock.antt =====
-- src/objects/MCRWWLock.cpp and include/mcmini/objects/MCRWWLock.h: the model of a lock with readers and
-- two kinds of writers.
pub mod Exclusion
pub mod Fairness
pub mod Tests
use dmtcp_integration.Base.{
  ℕ, Bool, true, false, not, ◌&&◌, ◌||◌, Option, none, some, List, [], ◌∷◌, ◌++◌, ◌==◌,
  if◌then◌else◌, is_empty, contains, erase_first, assert, ◌>>=◌, ◌>>◌,
}
use dmtcp_integration.Objects.RwLock.{front, pop, has_value, unwrapped_is, and_front}

pub data State : Type 0 where
  undefined unlocked reader_owned writer1_owned writer2_owned destroyed : State

pub data Preference : Type 0 where
  writer1_preferred writer2_preferred reader_preferred no_preference : Preference

pub record RwwLock : Type 0 where
  pub system_identity : ℕ
  pub state : State
  pub active_writer1 : Option ℕ
  pub active_writer2 : Option ℕ
  pub active_readers : List ℕ
  pub reader_queue : List ℕ
  pub writer1_queue : List ℕ
  pub writer2_queue : List ℕ
  pub acquire_queue : List ℕ
  pub type : Preference

-- A lock as `MCRWWLock(shadow, type)` makes it.
unfoldable pub new : ℕ → Preference → RwwLock
new sys pref = record {
  system_identity = sys;
  state = undefined;
  active_writer1 = none;
  active_writer2 = none;
  active_readers = [];
  reader_queue = [];
  writer1_queue = [];
  writer2_queue = [];
  acquire_queue = [];
  type = pref;
}

abbrev prefers_writer1 : Preference → Bool
prefers_writer1 writer1_preferred = true
prefers_writer1 _ = false

abbrev prefers_writer2 : Preference → Bool
prefers_writer2 writer2_preferred = true
prefers_writer2 _ = false

abbrev prefers_readers : Preference → Bool
prefers_readers reader_preferred = true
prefers_readers _ = false

abbrev has_no_preference : Preference → Bool
has_no_preference no_preference = true
has_no_preference _ = false

unfoldable pub has_enqueued_type1_writers : RwwLock → Bool
has_enqueued_type1_writers l = not (is_empty l.writer1_queue)

unfoldable pub has_enqueued_type2_writers : RwwLock → Bool
has_enqueued_type2_writers l = not (is_empty l.writer2_queue)

unfoldable pub has_enqueued_readers : RwwLock → Bool
has_enqueued_readers l = not (is_empty l.reader_queue)

unfoldable pub is_reader_locked : RwwLock → Bool
is_reader_locked l = not (is_empty l.active_readers)

unfoldable pub is_writer1_locked : RwwLock → Bool
is_writer1_locked l = has_value l.active_writer1

unfoldable pub is_writer2_locked : RwwLock → Bool
is_writer2_locked l = has_value l.active_writer2

unfoldable pub is_writer_locked : RwwLock → Bool
unfolding is_writer1_locked is_writer2_locked
is_writer_locked l = is_writer1_locked l || is_writer2_locked l

unfoldable pub is_unlocked : RwwLock → Bool
unfolding is_writer_locked is_reader_locked
is_unlocked l = not (is_writer_locked l) && not (is_reader_locked l)

unfoldable pub can_acquire_as_reader : RwwLock → ℕ → Option Bool
unfolding has_enqueued_type1_writers has_enqueued_type2_writers is_writer_locked
can_acquire_as_reader l tid =
    if prefers_writer1 l.type && has_enqueued_type1_writers l
    then some false
    else (if prefers_writer2 l.type && has_enqueued_type2_writers l
        then some false
        else (if has_no_preference l.type
            then and_front (not (is_writer_locked l)) l.acquire_queue tid
            else and_front (not (is_writer_locked l)) l.reader_queue tid))

unfoldable pub can_acquire_as_writer1 : RwwLock → ℕ → Option Bool
unfolding has_enqueued_type2_writers has_enqueued_readers is_unlocked
can_acquire_as_writer1 l tid =
    if prefers_writer2 l.type && has_enqueued_type2_writers l
    then some false
    else (if prefers_readers l.type && has_enqueued_readers l
        then some false
        else (if has_no_preference l.type
            then and_front (is_unlocked l) l.acquire_queue tid
            else and_front (is_unlocked l) l.writer1_queue tid))

unfoldable pub can_acquire_as_writer2 : RwwLock → ℕ → Option Bool
unfolding has_enqueued_type1_writers has_enqueued_readers is_unlocked
can_acquire_as_writer2 l tid =
    if prefers_writer1 l.type && has_enqueued_type1_writers l
    then some false
    else (if prefers_readers l.type && has_enqueued_readers l
        then some false
        else (if has_no_preference l.type
            then and_front (is_unlocked l) l.acquire_queue tid
            else and_front (is_unlocked l) l.writer2_queue tid))

unfoldable pub is_destroyed : RwwLock → Bool
is_destroyed l = elim l.state [ destroyed ↦ true | _ ↦ false ]

unfoldable pub reader_lock : RwwLock → ℕ → Option RwwLock
reader_lock l tid = do
  assert (not (is_empty l.reader_queue))
  assert (not (is_empty l.acquire_queue))
  first ← front l.reader_queue
  assert (first == tid)
  readers ← pop l.reader_queue
  waiting ← pop l.acquire_queue
  some (record l {
    active_readers = l.active_readers ++ tid ∷ [];
    reader_queue = readers;
    acquire_queue = waiting;
  })

unfoldable pub writer1_lock : RwwLock → ℕ → Option RwwLock
writer1_lock l tid = do
  assert (not (has_value l.active_writer1))
  assert (not (is_empty l.writer1_queue))
  first ← front l.writer1_queue
  assert (first == tid)
  writers ← pop l.writer1_queue
  waiting ← pop l.acquire_queue
  some (record l { writer1_queue = writers; acquire_queue = waiting; active_writer1 = some tid })

unfoldable pub writer2_lock : RwwLock → ℕ → Option RwwLock
writer2_lock l tid = do
  assert (not (has_value l.active_writer2))
  assert (not (is_empty l.writer2_queue))
  first ← front l.writer2_queue
  assert (first == tid)
  writers ← pop l.writer2_queue
  waiting ← pop l.acquire_queue
  some (record l { writer2_queue = writers; acquire_queue = waiting; active_writer2 = some tid })

unfoldable pub enqueue_as_reader : RwwLock → ℕ → RwwLock
enqueue_as_reader l tid = record l {
  reader_queue = l.reader_queue ++ tid ∷ [];
  acquire_queue = l.acquire_queue ++ tid ∷ [];
}

unfoldable pub enqueue_as_writer1 : RwwLock → ℕ → RwwLock
enqueue_as_writer1 l tid = record l {
  writer1_queue = l.writer1_queue ++ tid ∷ [];
  acquire_queue = l.acquire_queue ++ tid ∷ [];
}

unfoldable pub enqueue_as_writer2 : RwwLock → ℕ → RwwLock
enqueue_as_writer2 l tid = record l {
  writer2_queue = l.writer2_queue ++ tid ∷ [];
  acquire_queue = l.acquire_queue ++ tid ∷ [];
}

-- The branch without a writer and without readers is `MC_FATAL()`.
unfoldable pub unlock : RwwLock → ℕ → Option RwwLock
unfolding is_writer1_locked is_writer2_locked
unlock l tid =
    if is_writer1_locked l
    then (do assert (unwrapped_is l.active_writer1 tid); some (record l { active_writer1 = none }))
    else (if is_writer2_locked l
        then (do
          assert (unwrapped_is l.active_writer2 tid)
          some (record l { active_writer2 = none }))
        else (if not (is_empty l.active_readers)
            then (do
              assert (contains l.active_readers tid)
              some (record l { active_readers = erase_first tid l.active_readers }))
            else none))

unfoldable pub init : RwwLock → RwwLock
init l = record l { state = unlocked }

unfoldable pub deinit : RwwLock → RwwLock
deinit l = record l { state = destroyed }
