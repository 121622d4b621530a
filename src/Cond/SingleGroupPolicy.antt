-- ===== src/Cond/SingleGroupPolicy.antt =====
-- src/misc/cond/MCConditionVariableSingleGroupPolicy.cpp, MCConditionVariableArbitraryPolicy.cpp and
-- MCConditionVariableOrderedPolicy.cpp: policies with one queue of waiting threads.
pub mod Laws
use dmtcp_integration.Base.{
  ℕ, Bool, not, Option, none, some, List, [], ◌∷◌, ◌++◌, if◌then◌else◌, is_empty, erase_first,
  insert_all, ◌>>=◌,
}
use dmtcp_integration.Cond.DefaultPolicy
use dmtcp_integration.Cond.DefaultPolicy.{DefaultPolicy}

pub record SingleGroupPolicy : Type 0 where
  pub base : DefaultPolicy
  pub open base use *
  pub wait_queue : List ℕ

abbrev pub new : SingleGroupPolicy
new = record { base = DefaultPolicy.new; wait_queue = [] }

unfoldable pub receive_broadcast_message : SingleGroupPolicy → SingleGroupPolicy
unfolding DefaultPolicy.receive_broadcast_message
receive_broadcast_message p =
    let b = DefaultPolicy.receive_broadcast_message p.base in
    record {
      base = record b {
        broadcast_eligible_threads = insert_all p.wait_queue b.broadcast_eligible_threads;
      };
      wait_queue = [];
    }

unfoldable pub wake_thread : SingleGroupPolicy → ℕ → Option SingleGroupPolicy
wake_thread p tid = do
  b ← DefaultPolicy.wake_thread p.base tid
  some (record { base = b; wait_queue = erase_first tid p.wait_queue })

unfoldable pub add_waiter : SingleGroupPolicy → ℕ → SingleGroupPolicy
add_waiter p tid = record p { wait_queue = p.wait_queue ++ tid ∷ [] }

unfoldable pub has_waiters : SingleGroupPolicy → Bool
has_waiters p = not (is_empty p.wait_queue)

-- Adds one wake group at the end.
abbrev pub push_group : SingleGroupPolicy → List ℕ → SingleGroupPolicy
push_group p wg = record p { base = record (p.base) { wake_groups = p.wake_groups ++ wg ∷ [] } }

-- `receive_signal_message` of the arbitrary policy.
unfoldable pub receive_signal_arbitrary : SingleGroupPolicy → SingleGroupPolicy
receive_signal_arbitrary p = if not (is_empty p.wait_queue) then push_group p p.wait_queue else p

pub data WakeOrder : Type 0 where
  fifo lifo : WakeOrder

-- The last element of a list that is not empty, and the list without it.
unfoldable pub split_back : ℕ → List ℕ → ℕ × List ℕ
split_back t [] = (t, [])
split_back t (u ∷ q) = let (back, rest) = split_back u q in (back, t ∷ rest)

-- `receive_signal_message` of the ordered policy, by the queue.
unfoldable pub signal_from : WakeOrder → SingleGroupPolicy → List ℕ → SingleGroupPolicy
unfolding split_back
signal_from order p [] = p
signal_from fifo p (t ∷ q) = push_group (record p { wait_queue = q }) (t ∷ [])
signal_from lifo p (t ∷ q) =
    let (back, rest) = split_back t q in push_group (record p { wait_queue = rest }) (back ∷ [])

unfoldable pub receive_signal_ordered : WakeOrder → SingleGroupPolicy → SingleGroupPolicy
unfolding signal_from
receive_signal_ordered order p = signal_from order p p.wait_queue
