-- ===== src/Objects/Mutex.antt =====
-- src/objects/MCMutex.cpp and include/mcmini/objects/MCMutex.h: the model of a pthread_mutex_t.
use dmtcp_integration.Base.{ℕ, Bool, true, false, ◌==◌}

pub data MutexState : Type 0 where
  undefined unlocked locked destroyed : MutexState

pub record Mutex : Type 0 where
  pub system_identity : ℕ
  pub state : MutexState

-- `MCMutex(MCMutexShadow(systemIdentity))`
unfoldable pub new : ℕ → Mutex
new sys = record { system_identity = sys; state = undefined }

-- `operator==`
unfoldable pub same : Mutex → Mutex → Bool
same m n = m.system_identity == n.system_identity

unfoldable pub is_locked : Mutex → Bool
is_locked m = elim m.state [ locked ↦ true | _ ↦ false ]

unfoldable pub is_unlocked : Mutex → Bool
is_unlocked m = elim m.state [ unlocked ↦ true | _ ↦ false ]

unfoldable pub is_destroyed : Mutex → Bool
is_destroyed m = elim m.state [ destroyed ↦ true | _ ↦ false ]

-- The model keeps no owner.
unfoldable pub lock : Mutex → ℕ → Mutex
lock m new_owner = record m { state = locked }

unfoldable pub unlock : Mutex → Mutex
unlock m = record m { state = unlocked }

unfoldable pub init : Mutex → Mutex
init m = record m { state = unlocked }

unfoldable pub deinit : Mutex → Mutex
deinit m = record m { state = undefined }

unfoldable pub can_acquire : Mutex → ℕ → Bool
unfolding is_unlocked
can_acquire m thread = is_unlocked m
