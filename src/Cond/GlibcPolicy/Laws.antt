-- ===== src/Cond/GlibcPolicy/Laws.antt =====
-- The waking of src/misc/cond/MCConditionVariableGLibcPolicy.cpp, whose searches are empty.
use dmtcp_integration.Base.{
  ℕ, ◌≡◌, ◌≢◌, none, some, [], ◌∙◌, ◌∷◌, ◌++◌, inl, inr, List, List-cases, arith, sym,
}
use dmtcp_integration.Cond.GlibcPolicy.{
  GlibcPolicy, wake_thread, receive_broadcast_message, receive_signal_message, add_waiter,
}

-- A woken thread never leaves the first group: a waking that does not fail keeps both groups as they
-- were, so that the first one still has the thread.
pub woken_stays :
    (p p' : GlibcPolicy) (tid : ℕ)
    → wake_thread p tid ≡ some p'
    → (p'.group1 ≡ p.group1) × (p'.group2 ≡ p.group2)
unfolding wake_thread
woken_stays p p' tid e = ground arith

-- A waking fails, whichever thread is woken, if some thread is in the second group.
pub wake_thread_second_group :
    (p : GlibcPolicy) (tid : ℕ) → p.group2 ≢ [] → wake_thread p tid ≡ none
unfolding wake_thread
wake_thread_second_group p tid h = ground (arith, h)

-- A waking after a broadcast is undefined, whichever thread the broadcast made eligible.
pub wake_thread-broadcast :
    (p : GlibcPolicy) (tid : ℕ) → wake_thread (receive_broadcast_message p) tid ≡ none
unfolding wake_thread receive_broadcast_message
wake_thread-broadcast p tid = ground arith

-- What threads do to a condition variable between two broadcasts.
pub data Runs (p : GlibcPolicy) : GlibcPolicy → Type 0 where
  begins : Runs p p
  joins : {q : GlibcPolicy} (tid : ℕ) → Runs p q → Runs p (add_waiter q tid)
  gets_signal : {q : GlibcPolicy} → Runs p q → Runs p (receive_signal_message q)
  wakes_up : {q r : GlibcPolicy} (tid : ℕ) → wake_thread q tid ≡ some r → Runs p q → Runs p r

-- Both groups have a thread.
abbrev IsStuck : GlibcPolicy → Type 0
IsStuck p = (p.group1 ≢ []) × (p.group2 ≢ [])

append-nonempty : (xs : List ℕ) (x : ℕ) → (xs ++ x ∷ []) ≢ []
append-nonempty [] x e = cc
append-nonempty (y ∷ ys) x e = cc

receive_signal_message-groups :
    (p : GlibcPolicy)
    → p.group1 ≢ []
    → ((receive_signal_message p).group1 ≡ p.group1)
      × ((receive_signal_message p).group2 ≡ p.group2)
unfolding receive_signal_message
receive_signal_message-groups p h = elim (List-cases p.group1) [
  | inl e ↦ absurd (h e)
  | inr (x, xs, e) ↦ ground (arith, e)
]

Runs-IsStuck : {p q : GlibcPolicy} → IsStuck p → Runs p q → IsStuck q
unfolding add_waiter
Runs-IsStuck stuck begins = stuck
Runs-IsStuck stuck (joins {q = q} tid run) =
    ((Runs-IsStuck stuck run).0, append-nonempty q.group2 tid)
Runs-IsStuck stuck (gets_signal {q = q} run) =
    let (one, two) = Runs-IsStuck stuck run in
    let (same1, same2) = receive_signal_message-groups q one in
    (λ e. one (sym same1 ∙ e), λ e. two (sym same2 ∙ e))
Runs-IsStuck stuck (wakes_up {q = q} tid e run) =
    absurd (cc (e, wake_thread_second_group q tid (Runs-IsStuck stuck run).1))

-- Once both groups have a thread, no waking of any thread succeeds, however threads are added and signals
-- are sent, until a broadcast.
stuck_until_broadcast :
    {p q : GlibcPolicy} (tid : ℕ) → IsStuck p → Runs p q → wake_thread q tid ≡ none
stuck_until_broadcast {p} {q} tid stuck run =
    wake_thread_second_group q tid (Runs-IsStuck stuck run).1

-- A waking leaves its thread in the first group, so that a thread which is added then makes both groups
-- non-empty.
wake_thread-IsStuck :
    (p r : GlibcPolicy) (t u : ℕ) → wake_thread p t ≡ some r → IsStuck (add_waiter r u)
unfolding wake_thread add_waiter
wake_thread-IsStuck p r t u e =
    let (same1, _) = woken_stays p r t e in
    (λ empty. ground (arith, e, same1, empty), append-nonempty r.group2 u)

-- Under the glibc policy a variable stalls for good: once a waking has succeeded and then another thread
-- is added, then however threads are added and signals are sent, no waking of any thread succeeds, until
-- a broadcast.
pub last_waking :
    (p r : GlibcPolicy) {q : GlibcPolicy} (t u v : ℕ)
    → wake_thread p t ≡ some r
    → Runs (add_waiter r u) q
    → wake_thread q v ≡ none
last_waking p r {q} t u v e run = stuck_until_broadcast v (wake_thread-IsStuck p r t u e) run
