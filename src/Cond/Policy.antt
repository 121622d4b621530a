-- ===== src/Cond/Policy.antt =====
-- include/mcmini/misc/cond/MCConditionVariablePolicy.hpp: the virtual operations of a policy, by class.
use dmtcp_integration.Base.{ℕ, Bool, Option, some, ◌>>=◌}
use dmtcp_integration.Cond.DefaultPolicy
use dmtcp_integration.Cond.SingleGroupPolicy
use dmtcp_integration.Cond.SingleGroupPolicy.{SingleGroupPolicy, WakeOrder}
use dmtcp_integration.Cond.GlibcPolicy
use dmtcp_integration.Cond.GlibcPolicy.{GlibcPolicy}

pub data Policy : Type 0 where
  arbitrary : SingleGroupPolicy → Policy
  ordered : WakeOrder → SingleGroupPolicy → Policy
  glibc : GlibcPolicy → Policy

unfoldable pub receive_broadcast_message : Policy → Policy
receive_broadcast_message (arbitrary p) = arbitrary (SingleGroupPolicy.receive_broadcast_message p)
receive_broadcast_message (ordered o p) = ordered o (SingleGroupPolicy.receive_broadcast_message p)
receive_broadcast_message (glibc p) = glibc (GlibcPolicy.receive_broadcast_message p)

unfoldable pub receive_signal_message : Policy → Policy
receive_signal_message (arbitrary p) = arbitrary (SingleGroupPolicy.receive_signal_arbitrary p)
receive_signal_message (ordered o p) = ordered o (SingleGroupPolicy.receive_signal_ordered o p)
receive_signal_message (glibc p) = glibc (GlibcPolicy.receive_signal_message p)

unfoldable pub add_waiter : Policy → ℕ → Policy
add_waiter (arbitrary p) tid = arbitrary (SingleGroupPolicy.add_waiter p tid)
add_waiter (ordered o p) tid = ordered o (SingleGroupPolicy.add_waiter p tid)
add_waiter (glibc p) tid = glibc (GlibcPolicy.add_waiter p tid)

unfoldable pub has_waiters : Policy → Bool
has_waiters (arbitrary p) = SingleGroupPolicy.has_waiters p
has_waiters (ordered o p) = SingleGroupPolicy.has_waiters p
has_waiters (glibc p) = GlibcPolicy.has_waiters p

unfoldable pub thread_can_exit : Policy → ℕ → Bool
thread_can_exit (arbitrary p) tid = DefaultPolicy.thread_can_exit p.base tid
thread_can_exit (ordered o p) tid = DefaultPolicy.thread_can_exit p.base tid
thread_can_exit (glibc p) tid = DefaultPolicy.thread_can_exit p.base tid

unfoldable pub wake_thread : Policy → ℕ → Option Policy
wake_thread (arbitrary p) tid = do q ← SingleGroupPolicy.wake_thread p tid; some (arbitrary q)
wake_thread (ordered o p) tid = do q ← SingleGroupPolicy.wake_thread p tid; some (ordered o q)
wake_thread (glibc p) tid = do q ← GlibcPolicy.wake_thread p tid; some (glibc q)
