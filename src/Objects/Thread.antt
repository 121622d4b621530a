-- ===== src/Objects/Thread.antt =====
-- src/objects/MCThread.cpp and include/mcmini/objects/MCThread.h: the state of a thread of the target.
use dmtcp_integration.Base.{ℕ, Bool, true, false, ◌||◌}

pub data ThreadState : Type 0 where
  embryo alive sleeping dead : ThreadState

-- The shadow's `arg` and `startRoutine` are pointers that the model never reads.
pub record Thread : Type 0 where
  pub tid : ℕ
  pub state : ThreadState
  pub system_identity : ℕ

-- `MCThreadShadow(arg, startRoutine, systemIdentity)`
unfoldable pub new : ℕ → ℕ → Thread
new tid sys = record { tid = tid; state = embryo; system_identity = sys }

abbrev is_state_alive : ThreadState → Bool
is_state_alive alive = true
is_state_alive _ = false

abbrev is_state_sleeping : ThreadState → Bool
is_state_sleeping sleeping = true
is_state_sleeping _ = false

abbrev is_state_dead : ThreadState → Bool
is_state_dead dead = true
is_state_dead _ = false

unfoldable pub enabled : Thread → Bool
enabled t = is_state_alive t.state

unfoldable pub awaken : Thread → Thread
awaken t = record t { state = alive }

unfoldable pub die : Thread → Thread
die t = record t { state = dead }

unfoldable pub sleep : Thread → Thread
sleep t = record t { state = sleeping }

unfoldable pub spawn : Thread → Thread
spawn t = record t { state = alive }

unfoldable pub despawn : Thread → Thread
despawn t = record t { state = embryo }

unfoldable pub regenerate : Thread → Thread
regenerate t = record t { state = alive }

unfoldable pub is_alive : Thread → Bool
is_alive t = is_state_alive t.state || is_state_sleeping t.state

unfoldable pub is_dead : Thread → Bool
is_dead t = is_state_dead t.state
