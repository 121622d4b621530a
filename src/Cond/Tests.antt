-- ===== src/Cond/Tests.antt =====
-- Signals, broadcasts and waits of condition variables on small inputs.
use dmtcp_integration.Base.{◌≤◌, ◌≡◌, refl, none, some, [], ◌∷◌, contains, erase, erase_first}
use dmtcp_integration.Cond.WakeGroup
use dmtcp_integration.Cond.DefaultPolicy
use dmtcp_integration.Cond.DefaultPolicy.{DefaultPolicy}
use dmtcp_integration.Cond.DefaultPolicy.Laws.{Wakes, wake_thread-Wakes}
use dmtcp_integration.Cond.SingleGroupPolicy
use dmtcp_integration.Cond.SingleGroupPolicy.{SingleGroupPolicy}
use dmtcp_integration.Cond.SingleGroupPolicy.Laws.{wakes-le-signals, start, adds, signals, wakes}
use dmtcp_integration.Cond.GlibcPolicy
use dmtcp_integration.Cond.GlibcPolicy.{GlibcPolicy}
use dmtcp_integration.Cond.GlibcPolicy.Laws.{last_waking, begins, gets_signal}

-- One signal reached threads 1 and 2, the next one thread 2 alone.
abbrev two_signals : DefaultPolicy
two_signals = record { broadcast_eligible_threads = []; wake_groups = (1 ∷ 2 ∷ []) ∷ (2 ∷ []) ∷ [] }

wake_thread-Wakes_example : Wakes two_signals 2 (DefaultPolicy.wake_thread two_signals 2)
wake_thread-Wakes_example = wake_thread-Wakes two_signals 2

abbrev woken : SingleGroupPolicy
woken = SingleGroupPolicy.new

one_woken :
    SingleGroupPolicy.wake_thread
      (SingleGroupPolicy.receive_signal_arbitrary
        (SingleGroupPolicy.add_waiter SingleGroupPolicy.new 1))
      1
    ≡ some woken
unfolding SingleGroupPolicy.wake_thread SingleGroupPolicy.receive_signal_arbitrary
    SingleGroupPolicy.add_waiter DefaultPolicy.wake_thread DefaultPolicy.consume_signal
    DefaultPolicy.remove_candidate WakeGroup.contains contains erase erase_first
one_woken = refl

wakes-le-signals_example : 1 ≤ 1
wakes-le-signals_example =
    wakes-le-signals {s = 1} {w = 1} {p = woken} (wakes 1 one_woken (signals (adds 1 start)))

-- Thread 1 has been signalled and is in the first group.
abbrev signalled : GlibcPolicy
signalled = record {
  base = record { broadcast_eligible_threads = []; wake_groups = (1 ∷ []) ∷ [] };
  group1 = 1 ∷ [];
  group2 = [];
}

-- Thread 1 has been woken, and is in the first group as before.
abbrev one_out : GlibcPolicy
one_out = record signalled { base = record { broadcast_eligible_threads = []; wake_groups = [] } }

signalled-wakes : GlibcPolicy.wake_thread signalled 1 ≡ some one_out
unfolding GlibcPolicy.wake_thread DefaultPolicy.wake_thread DefaultPolicy.consume_signal
    DefaultPolicy.remove_candidate WakeGroup.contains contains erase erase_first
signalled-wakes = refl

-- Then thread 2 waits, and another signal is sent.
abbrev after_signal : GlibcPolicy
after_signal = GlibcPolicy.receive_signal_message (GlibcPolicy.add_waiter one_out 2)

last_waking_example : GlibcPolicy.wake_thread after_signal 2 ≡ none
last_waking_example =
    last_waking signalled one_out {q = after_signal} 1 2 2 signalled-wakes (gets_signal begins)
