-- ===== src/Cond/DefaultPolicy/Laws.antt =====
-- Waking and broadcasting in src/misc/cond/MCConditionVariableDefaultPolicy.cpp.
use dmtcp_integration.Base.{
  ℕ, suc, ◌+◌, ◌≡◌, refl, ◌⊎◌, inl, inr, Bool, true, false, not, ◌&&◌, ◌||◌, Option, none, some,
  List, [], ◌∷◌, ◌++◌, arith, ◌==◌, if◌then◌else◌, Bool-cases, length, any, contains,
  contains-erase, erase, insert_all, contains-insert_all,
}
use dmtcp_integration.Cond.WakeGroup
use dmtcp_integration.Cond.WakeGroup.{WakeGroup}
use dmtcp_integration.Cond.DefaultPolicy.{
  DefaultPolicy, collect, receive_broadcast_message, thread_can_exit, consume_signal,
  remove_candidate, wake_thread,
}

-- Some group has the thread.
abbrev pub in_groups : List WakeGroup → ℕ → Bool
in_groups wgs tid = any (λ wg. WakeGroup.contains wg tid) wgs

pub in_groups-append :
    (wgs vgs : List WakeGroup) (tid : ℕ)
    → in_groups (wgs ++ vgs) tid ≡ (in_groups wgs tid || in_groups vgs tid)
in_groups-append [] vgs tid = refl
in_groups-append (wg ∷ wgs) vgs tid = ground (arith, in_groups-append wgs vgs tid)

in_groups-remove_candidate :
    (wgs : List WakeGroup) (tid u : ℕ)
    → in_groups (remove_candidate wgs tid) u ≡ (not (tid == u) && in_groups wgs u)
unfolding remove_candidate WakeGroup.contains WakeGroup.remove_candidate_thread
in_groups-remove_candidate [] tid u = ground arith
in_groups-remove_candidate (wg ∷ wgs) tid u =
    ground (arith, contains-erase tid u wg, in_groups-remove_candidate wgs tid u)

length-remove_candidate :
    (wgs : List WakeGroup) (tid : ℕ) → length (remove_candidate wgs tid) ≡ length wgs
unfolding remove_candidate
length-remove_candidate [] tid = refl
length-remove_candidate (wg ∷ wgs) tid = omega (arith, length-remove_candidate wgs tid)

-- The search for a signal finds one exactly if some group has the thread, and takes one group off.
abbrev Consumes : List WakeGroup → ℕ → Option (List WakeGroup) → Type 0
Consumes wgs tid result =
    ((in_groups wgs tid ≡ false) × (result ≡ none))
    ⊎ ((rest : List WakeGroup) × (in_groups wgs tid ≡ true)
        × (result ≡ some rest)
        × (suc (length rest) ≡ length wgs)
        × ((u : ℕ) → in_groups rest u ≡ true → in_groups wgs u ≡ true))

consume_signal-Consumes :
    (wgs : List WakeGroup) (tid : ℕ) → Consumes wgs tid (consume_signal wgs tid)
unfolding consume_signal
consume_signal-Consumes [] tid = inl (refl, refl)
consume_signal-Consumes (wg ∷ wgs) tid = elim (Bool-cases (WakeGroup.contains wg tid)) [
  | inl here ↦ inr (wgs, ground arith, ground arith, refl, λ u h. ground arith)
  | inr there ↦ elim (consume_signal-Consumes wgs tid) [
    | inl (absent, e) ↦ inl (ground arith, ground arith)
    | inr (rest, found, e, size, sub) ↦
        inr (
          wg ∷ rest,
          ground arith,
          ground arith,
          ground (arith, size),
          λ u h. ground (arith, sub u),
        )
  ]
]

-- What waking a thread does: nothing is left that lets it exit, nobody else may exit who could not
-- before, and one wake group is used up unless the thread was eligible by a broadcast.
pub record Woken (p : DefaultPolicy) (tid : ℕ) (p' : DefaultPolicy) : Type 0 where
  pub out : thread_can_exit p' tid ≡ false
  pub others : (u : ℕ) → (thread_can_exit p' u ≡ false) ⊎ (thread_can_exit p u ≡ true)
  pub used :
      length p'.wake_groups + (if contains p.broadcast_eligible_threads tid then 0 else 1)
      ≡ length p.wake_groups
  pub eligible :
      (u : ℕ)
      → contains p'.broadcast_eligible_threads u
        ≡ (not (tid == u) && contains p.broadcast_eligible_threads u)

abbrev pub Wakes : DefaultPolicy → ℕ → Option DefaultPolicy → Type 0
Wakes p tid result =
    ((thread_can_exit p tid ≡ false) × (result ≡ none))
    ⊎ ((p' : DefaultPolicy) × (thread_can_exit p tid ≡ true) × (result ≡ some p') × Woken p tid p')

module _ (p : DefaultPolicy) (tid : ℕ) where
  broadcast-Woken :
      contains p.broadcast_eligible_threads tid ≡ true
      → Woken p tid (record {
        broadcast_eligible_threads = erase tid p.broadcast_eligible_threads;
        wake_groups = remove_candidate p.wake_groups tid;
      })
  unfolding thread_can_exit
  broadcast-Woken h = record {
    out = ground (
      arith,
      contains-erase tid tid p.broadcast_eligible_threads,
      in_groups-remove_candidate p.wake_groups tid tid,
    );
    others = λ u. ground (
      arith,
      contains-erase tid u p.broadcast_eligible_threads,
      in_groups-remove_candidate p.wake_groups tid u,
    );
    used = ground (arith, length-remove_candidate p.wake_groups tid);
    eligible = λ u. contains-erase tid u p.broadcast_eligible_threads;
  }

  signal-Woken :
      (rest : List WakeGroup)
      → contains p.broadcast_eligible_threads tid ≡ false
      → suc (length rest) ≡ length p.wake_groups
      → ((u : ℕ) → in_groups rest u ≡ true → in_groups p.wake_groups u ≡ true)
      → Woken p tid (record p { wake_groups = remove_candidate rest tid })
  unfolding thread_can_exit
  signal-Woken rest h size sub = record {
    out = ground (arith, in_groups-remove_candidate rest tid tid);
    others = λ u. elim (Bool-cases (in_groups rest u)) [
      | inl h ↦ ground (arith, in_groups-remove_candidate rest tid u, sub u h)
      | inr h ↦ ground (arith, in_groups-remove_candidate rest tid u, h)
    ];
    used = ground (arith, length-remove_candidate rest tid, size);
    eligible = λ u. ground (arith, h);
  }

-- Waking a thread passes its assertion exactly if the thread can exit. Then the thread cannot exit any
-- more, no other thread gains the right to exit, and one wake group is used up unless the thread was
-- eligible by a broadcast, in which case it alone ceases to be eligible.
pub wake_thread-Wakes : (p : DefaultPolicy) (tid : ℕ) → Wakes p tid (wake_thread p tid)
unfolding wake_thread thread_can_exit
wake_thread-Wakes p tid = elim (Bool-cases (contains p.broadcast_eligible_threads tid)) [
  | inl b ↦ inr (_, ground arith, rw b refl, broadcast-Woken p tid b)
  | inr b ↦ elim (consume_signal-Consumes p.wake_groups tid) [
    | inl (absent, e) ↦ inl (ground arith, ground arith)
    | inr (rest, found, e, size, sub) ↦
        inr (_, ground arith, rw (b, e) refl, signal-Woken p tid rest b size sub)
  ]
]

contains-collect :
    (wgs : List WakeGroup) (eligible : List ℕ) (tid : ℕ)
    → contains (collect wgs eligible) tid ≡ (in_groups wgs tid || contains eligible tid)
unfolding collect WakeGroup.contains
contains-collect [] eligible tid = refl
contains-collect (wg ∷ wgs) eligible tid =
    ground (
      arith,
      contains-collect wgs (insert_all wg eligible) tid,
      contains-insert_all wg eligible tid,
    )

-- A broadcast makes eligible whoever some wake group had.
pub broadcast-eligible :
    (p : DefaultPolicy) (tid : ℕ)
    → contains (receive_broadcast_message p).broadcast_eligible_threads tid ≡ thread_can_exit p tid
unfolding receive_broadcast_message thread_can_exit
broadcast-eligible p tid =
    ground (arith, contains-collect p.wake_groups p.broadcast_eligible_threads tid)
