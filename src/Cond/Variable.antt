-- ===== src/Cond/Variable.antt =====
-- src/objects/MCConditionVariable.cpp and include/mcmini/objects/MCConditionVariable.h.
use dmtcp_integration.Base.{
  ℕ, ◌-◌, Bool, true, false, ◌||◌, Option, none, some, ◌==◌, ltb, if◌then◌else◌, ◌>>=◌,
}
use dmtcp_integration.Cond.SingleGroupPolicy
use dmtcp_integration.Cond.Policy
use dmtcp_integration.Cond.Policy.{Policy}

pub data CondState : Type 0 where
  undefined initialized destroyed : CondState

-- `mutex` is the id of the visible object that the shared pointer refers to, if it is not null.
pub record CondVar : Type 0 where
  pub cond : ℕ
  pub state : CondState
  pub num_remaining_spurious_wakeups : ℕ
  pub policy : Policy
  pub mutex : Option ℕ

-- A condition variable as the handlers of src/transitions/cond make it.
unfoldable pub new : ℕ → CondVar
new cond = record {
  cond = cond;
  state = undefined;
  num_remaining_spurious_wakeups = 0;
  policy = Policy.arbitrary SingleGroupPolicy.new;
  mutex = none;
}

-- `operator==`
unfoldable pub same : CondVar → CondVar → Bool
same c d = c.cond == d.cond

unfoldable pub is_initialized : CondVar → Bool
is_initialized c = elim c.state [ undefined ↦ false | initialized ↦ true | destroyed ↦ false ]

unfoldable pub is_destroyed : CondVar → Bool
is_destroyed c = elim c.state [ destroyed ↦ true | _ ↦ false ]

unfoldable pub initialize : CondVar → CondVar
initialize c = record c { state = initialized }

unfoldable pub add_waiter : CondVar → ℕ → CondVar
add_waiter c tid = record c { policy = Policy.add_waiter c.policy tid }

unfoldable pub has_waiters : CondVar → Bool
has_waiters c = Policy.has_waiters c.policy

unfoldable pub remove_waiter : CondVar → ℕ → Option CondVar
remove_waiter c tid = do
  p ← Policy.wake_thread c.policy tid
  some (record c {
    policy = p;
    num_remaining_spurious_wakeups =
        if ltb 0 c.num_remaining_spurious_wakeups
        then c.num_remaining_spurious_wakeups - 1
        else c.num_remaining_spurious_wakeups;
  })

unfoldable pub waiter_can_exit : CondVar → ℕ → Bool
waiter_can_exit c tid =
    ltb 0 c.num_remaining_spurious_wakeups || Policy.thread_can_exit c.policy tid

unfoldable pub send_signal_message : CondVar → CondVar
send_signal_message c = record c { policy = Policy.receive_signal_message c.policy }

unfoldable pub send_broadcast_message : CondVar → CondVar
send_broadcast_message c = record c { policy = Policy.receive_broadcast_message c.policy }

unfoldable pub destroy : CondVar → CondVar
destroy c = record c { state = destroyed }
