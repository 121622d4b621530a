-- ===== src/Objects/Semaphore.antt =====
-- src/objects/MCSemaphore.cpp and include/mcmini/objects/MCSemaphore.h: the model of a sem_t.
pub mod Laws
use dmtcp_integration.Base.{
  ℕ, zero, suc, ◌+◌, ◌-◌, ◌%◌, ◌^◌, Bool, true, false, not, ◌&&◌, List, [], ◌∷◌, ◌++◌, ◌==◌, ltb,
  leb, if◌then◌else◌, erase_first,
}

pub data SemState : Type 0 where
  undefined initialized destroyed : SemState

-- `count` and `spurious_wakeup_count` are of type `unsigned int`.
pub record Semaphore : Type 0 where
  pub sem : ℕ
  pub count : ℕ
  pub state : SemState
  pub waiting_queue : List ℕ
  pub spurious_wakeup_count : ℕ

-- `MCSemaphore(MCSemaphoreShadow(sem, count))`
unfoldable pub new : ℕ → ℕ → Semaphore
new sem count = record {
  sem = sem;
  count = count;
  state = undefined;
  waiting_queue = [];
  spurious_wakeup_count = 0;
}

-- The constant member `preferSpuriousWakeupsWhenPossible`.
abbrev pub prefer_spurious_wakeups_when_possible : Bool
prefer_spurious_wakeups_when_possible = true

-- `std::find(begin, end, tid) - begin`, which is the length where `tid` does not occur.
unfoldable pub find_position : List ℕ → ℕ → ℕ
find_position [] tid = 0
find_position (t ∷ q) tid = if t == tid then 0 else suc (find_position q tid)

unfoldable pub would_block_if_waited_on : Semaphore → Bool
would_block_if_waited_on s = leb s.count 0

unfoldable pub thread_can_exit_with_spurious_wakeup : Semaphore → Bool
thread_can_exit_with_spurious_wakeup s = ltb 0 s.spurious_wakeup_count

unfoldable pub thread_can_exit_based_on_sleep_position : Semaphore → ℕ → Bool
thread_can_exit_based_on_sleep_position s tid = find_position s.waiting_queue tid == 0

unfoldable pub thread_can_exit : Semaphore → ℕ → Bool
unfolding would_block_if_waited_on thread_can_exit_based_on_sleep_position
thread_can_exit s tid =
    not (would_block_if_waited_on s) && thread_can_exit_based_on_sleep_position s tid

-- The second half of `leaveWaitingQueue`.
unfoldable pub consume_spurious_wakeup : Semaphore → ℕ → Semaphore
unfolding thread_can_exit_with_spurious_wakeup thread_can_exit_based_on_sleep_position
consume_spurious_wakeup s tid =
    if thread_can_exit_with_spurious_wakeup s
    then (if thread_can_exit_based_on_sleep_position s tid
        then (if prefer_spurious_wakeups_when_possible
            then record s { spurious_wakeup_count = s.spurious_wakeup_count - 1 }
            else s)
        else record s { spurious_wakeup_count = s.spurious_wakeup_count - 1 })
    else s

unfoldable pub leave_waiting_queue : Semaphore → ℕ → Semaphore
unfolding consume_spurious_wakeup
leave_waiting_queue s tid =
    consume_spurious_wakeup (record s { waiting_queue = erase_first tid s.waiting_queue }) tid

unfoldable pub enter_waiting_queue : Semaphore → ℕ → Semaphore
enter_waiting_queue s tid = record s { waiting_queue = s.waiting_queue ++ tid ∷ [] }

unfoldable pub deinit : Semaphore → Semaphore
deinit s = record s { state = undefined }

unfoldable pub init : Semaphore → Semaphore
init s = record s { state = initialized }

unfoldable pub post : Semaphore → Semaphore
post s = record s { count = (s.count + 1) % 2 ^ 32 }

unfoldable pub wait : Semaphore → Semaphore
wait s = if ltb 0 s.count then record s { count = s.count - 1 } else s

-- `operator==`
unfoldable pub same : Semaphore → Semaphore → Bool
same s t = s.sem == t.sem

unfoldable pub is_destroyed : Semaphore → Bool
is_destroyed s = elim s.state [ destroyed ↦ true | _ ↦ false ]
