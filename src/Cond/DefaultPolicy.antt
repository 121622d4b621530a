-- ===== src/Cond/DefaultPolicy.antt =====
-- src/misc/cond/MCConditionVariableDefaultPolicy.cpp: who may leave a condition variable.
pub mod Laws
use dmtcp_integration.Base.{
  ℕ, Bool, true, false, not, ◌||◌, Option, none, some, List, [], ◌∷◌, map, if◌then◌else◌, is_empty,
  contains, insert_all, erase, any, ◌>>=◌,
}
use dmtcp_integration.Cond.WakeGroup
use dmtcp_integration.Cond.WakeGroup.{WakeGroup}

pub record DefaultPolicy : Type 0 where
  pub broadcast_eligible_threads : List ℕ
  pub wake_groups : List WakeGroup

abbrev pub new : DefaultPolicy
new = record { broadcast_eligible_threads = []; wake_groups = [] }

-- The two nested loops of `receive_broadcast_message`.
unfoldable pub collect : List WakeGroup → List ℕ → List ℕ
collect [] eligible = eligible
collect (wg ∷ wgs) eligible = collect wgs (insert_all wg eligible)

unfoldable pub receive_broadcast_message : DefaultPolicy → DefaultPolicy
unfolding collect
receive_broadcast_message p = record {
  broadcast_eligible_threads = collect p.wake_groups p.broadcast_eligible_threads;
  wake_groups = [];
}

unfoldable pub has_waiters : DefaultPolicy → Bool
has_waiters p = not (is_empty p.broadcast_eligible_threads) || not (is_empty p.wake_groups)

unfoldable pub thread_can_exit : DefaultPolicy → ℕ → Bool
thread_can_exit p tid =
    if contains p.broadcast_eligible_threads tid
    then true
    else any (λ wg. WakeGroup.contains wg tid) p.wake_groups

-- `find_if` with the assertion that it finds a group, and `erase` of that group.
unfoldable pub consume_signal : List WakeGroup → ℕ → Option (List WakeGroup)
consume_signal [] tid = none
consume_signal (wg ∷ wgs) tid =
    if WakeGroup.contains wg tid
    then some wgs
    else (do rest ← consume_signal wgs tid; some (wg ∷ rest))

-- The last loop of `wake_thread`.
unfoldable pub remove_candidate : List WakeGroup → ℕ → List WakeGroup
remove_candidate wgs tid = map (λ wg. WakeGroup.remove_candidate_thread wg tid) wgs

unfoldable pub wake_thread : DefaultPolicy → ℕ → Option DefaultPolicy
unfolding consume_signal remove_candidate
wake_thread p tid =
    if contains p.broadcast_eligible_threads tid
    then some (record {
      broadcast_eligible_threads = erase tid p.broadcast_eligible_threads;
      wake_groups = remove_candidate p.wake_groups tid;
    })
    else (do
      groups ← consume_signal p.wake_groups tid
      some (record p { wake_groups = remove_candidate groups tid }))
