-- ===== src/Cond/SingleGroupPolicy/Laws.antt =====
-- Signals and broadcasts to the threads that wait on a condition variable, under the arbitrary policy
-- of src/misc/cond.
use dmtcp_integration.Base.{
  ℕ, suc, ◌+◌, ◌≤◌, ◌≡◌, refl, inl, inr, Bool, false, ◌||◌, some, [], ◌∷◌, arith, length,
  length-append, contains, contains-insert_all, List-cases,
}
use dmtcp_integration.Cond.WakeGroup
use dmtcp_integration.Cond.DefaultPolicy
use dmtcp_integration.Cond.DefaultPolicy.{DefaultPolicy}
use dmtcp_integration.Cond.DefaultPolicy.Laws.{
  in_groups-append, wake_thread-Wakes, broadcast-eligible,
}
use dmtcp_integration.Cond.SingleGroupPolicy.{
  SingleGroupPolicy, new, receive_broadcast_message, receive_signal_arbitrary, wake_thread,
  add_waiter, has_waiters,
}

abbrev pub can_exit : SingleGroupPolicy → ℕ → Bool
can_exit p tid = DefaultPolicy.thread_can_exit p.base tid

-- A signal under the arbitrary policy lets exactly the waiting threads exit, beside those that could.
pub can_exit-signal :
    (p : SingleGroupPolicy) (tid : ℕ)
    → can_exit (receive_signal_arbitrary p) tid ≡ (can_exit p tid || contains p.wait_queue tid)
unfolding receive_signal_arbitrary DefaultPolicy.thread_can_exit contains WakeGroup.contains
can_exit-signal p tid = elim (List-cases p.wait_queue) [
  | inl e ↦ ground arith
  | inr (t, q, e) ↦ ground (arith, in_groups-append p.wake_groups (p.wait_queue ∷ []) tid)
]

-- A broadcast lets exactly the waiting threads exit, beside those that could, and leaves no thread in
-- the queue and no signal behind.
pub can_exit-broadcast :
    (p : SingleGroupPolicy) (tid : ℕ)
    → (can_exit (receive_broadcast_message p) tid ≡ (contains p.wait_queue tid || can_exit p tid))
      × (has_waiters (receive_broadcast_message p) ≡ false)
      × ((receive_broadcast_message p).wake_groups ≡ [])
unfolding receive_broadcast_message DefaultPolicy.thread_can_exit has_waiters
can_exit-broadcast p tid = (
  ground (
    arith,
    contains-insert_all p.wait_queue
        (DefaultPolicy.receive_broadcast_message p.base).broadcast_eligible_threads tid,
    broadcast-eligible p.base tid,
  ),
  refl,
  refl,
)

-- Operations on a new condition variable without a broadcast, with a number of signals and of wakings.
pub data Run : ℕ → ℕ → SingleGroupPolicy → Type 0 where
  start : Run 0 0 new
  adds : {s w : ℕ} {p : SingleGroupPolicy} (tid : ℕ) → Run s w p → Run s w (add_waiter p tid)
  signals :
      {s w : ℕ} {p : SingleGroupPolicy} → Run s w p → Run (suc s) w (receive_signal_arbitrary p)
  wakes :
      {s w : ℕ} {p p' : SingleGroupPolicy} (tid : ℕ)
      → wake_thread p tid ≡ some p'
      → Run s w p
      → Run s (suc w) p'

record Paid (s w : ℕ) (p : SingleGroupPolicy) : Type 0 where
  none_eligible : (u : ℕ) → contains p.broadcast_eligible_threads u ≡ false
  groups : length p.wake_groups + w ≤ s

signals-Paid :
    (s w : ℕ) (p : SingleGroupPolicy) → Paid s w p → Paid (suc s) w (receive_signal_arbitrary p)
unfolding receive_signal_arbitrary
signals-Paid s w p v = record {
  none_eligible = λ u. ground (arith, v.none_eligible u);
  groups = ground (arith, v.groups, length-append p.wake_groups (p.wait_queue ∷ []));
}

wakes-Paid :
    (s w : ℕ) (p p' : SingleGroupPolicy) (tid : ℕ)
    → wake_thread p tid ≡ some p'
    → Paid s w p
    → Paid s (suc w) p'
unfolding wake_thread
wakes-Paid s w p p' tid e v = elim (wake_thread-Wakes p.base tid) [
  | inl (no_exit, f) ↦ absurd (ground (arith, e, f))
  | inr (b, may_exit, f, woken) ↦ record {
    none_eligible = λ u. ground (arith, e, f, woken.eligible u, v.none_eligible u);
    groups = ground (arith, e, f, woken.used, v.none_eligible tid, v.groups);
  }
]

Run-Paid : {s w : ℕ} {p : SingleGroupPolicy} → Run s w p → Paid s w p
unfolding add_waiter contains
Run-Paid start = record { none_eligible = λ u. refl; groups = omega arith }
Run-Paid (adds tid r) =
    let v = Run-Paid r in record { none_eligible = v.none_eligible; groups = v.groups }
Run-Paid (signals {s} {w} {p} r) = signals-Paid s w p (Run-Paid r)
Run-Paid (wakes {s} {w} {p} {p'} tid e r) = wakes-Paid s w p p' tid e (Run-Paid r)

-- One signal wakes at most one thread: on a new condition variable that gets no broadcast, whatever
-- threads wait and however the choices are made, no more threads are woken than signals were sent.
pub wakes-le-signals : {s w : ℕ} {p : SingleGroupPolicy} → Run s w p → w ≤ s
wakes-le-signals r = let v = Run-Paid r in omega (arith, v.groups)
