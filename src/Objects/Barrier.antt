-- ===== src/Objects/Barrier.antt =====
-- src/objects/MCBarrier.cpp and include/mcmini/objects/MCBarrier.h: the model of a pthread_barrier_t.
pub mod Rounds
use dmtcp_integration.Base.{
  ℕ, Bool, true, false, not, ◌||◌, List, [], ◌==◌, ltb, if◌then◌else◌, length, contains, insert,
  erase,
}

pub data BarrierState : Type 0 where
  undefined initialized destroyed : BarrierState

pub record Barrier : Type 0 where
  pub system_identity : ℕ
  pub wait_count : ℕ
  pub state : BarrierState
  pub waiting_odd : List ℕ
  pub waiting_even : List ℕ
  pub is_even : Bool

-- `MCBarrier(MCBarrierShadow(systemIdentity, waitCount))`
unfoldable pub new : ℕ → ℕ → Barrier
new sys count = record {
  system_identity = sys;
  wait_count = count;
  state = undefined;
  waiting_odd = [];
  waiting_even = [];
  is_even = false;
}

-- The copy constructor takes the identity, the shadow and the count over; the two sets of waiting
-- threads and the parity are those of a new barrier.
unfoldable pub copy : Barrier → Barrier
copy b = record b { waiting_odd = []; waiting_even = []; is_even = false }

unfoldable pub deinit : Barrier → Barrier
deinit b = record b { state = undefined }

unfoldable pub init : Barrier → Barrier
init b = record b { state = initialized }

unfoldable pub is_waiting_on_barrier : Barrier → ℕ → Bool
is_waiting_on_barrier b tid = contains b.waiting_even tid || contains b.waiting_odd tid

unfoldable pub waiting_set_for_parity : Barrier → List ℕ
waiting_set_for_parity b = if b.is_even then b.waiting_even else b.waiting_odd

unfoldable pub insert_for_parity : Barrier → ℕ → Barrier
insert_for_parity b tid =
    if b.is_even
    then record b { waiting_even = insert tid b.waiting_even }
    else record b { waiting_odd = insert tid b.waiting_odd }

-- The last arrival swaps the parities for the threads that come later.
unfoldable pub swap_if_full : Barrier → Barrier
unfolding waiting_set_for_parity
swap_if_full b =
    if length (waiting_set_for_parity b) == b.wait_count
    then record b { is_even = not b.is_even }
    else b

unfoldable pub wait : Barrier → ℕ → Barrier
unfolding is_waiting_on_barrier insert_for_parity swap_if_full
wait b tid = if is_waiting_on_barrier b tid then b else swap_if_full (insert_for_parity b tid)

unfoldable pub leave : Barrier → ℕ → Barrier
leave b tid = record b {
  waiting_odd = erase tid b.waiting_odd;
  waiting_even = erase tid b.waiting_even;
}

-- `operator==`
unfoldable pub same : Barrier → Barrier → Bool
same b c = b.system_identity == c.system_identity

unfoldable pub has_even_parity : Barrier → ℕ → Bool
has_even_parity b tid = if contains b.waiting_even tid then true else false

abbrev pub same_parity : Bool → Bool → Bool
same_parity true b = b
same_parity false b = not b

unfoldable pub would_block_if_waited_on : Barrier → ℕ → Bool
unfolding is_waiting_on_barrier has_even_parity waiting_set_for_parity
would_block_if_waited_on b tid =
    if is_waiting_on_barrier b tid
    then (if same_parity (has_even_parity b tid) b.is_even
        then ltb (length (waiting_set_for_parity b)) b.wait_count
        else false)
    else ltb (length (waiting_set_for_parity b)) b.wait_count
