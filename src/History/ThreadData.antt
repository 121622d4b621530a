-- ===== src/History/ThreadData.antt =====
-- src/MCThreadData.cpp and include/mcmini/MCThreadData.hpp: what the model checker keeps of one thread.
pub mod Laws
use dmtcp_integration.Base.{
  ℕ, ◌+◌, ◌-◌, ◌%◌, ◌^◌, Bool, Option, none, some, [], leb, not, assert, ◌>>=◌, ◌>>◌, true,
}
use dmtcp_integration.History.SortedStack
use dmtcp_integration.History.SortedStack.{SortedStack}
use dmtcp_integration.History.ClockVector.{ClockVector, new_empty_clock_vector}

-- `execution_depth` is a `uint32_t`.
pub record ThreadData : Type 0 where
  pub execution_depth : ℕ
  pub execution_points : SortedStack
  pub clock_vector : ClockVector

abbrev pub new : ThreadData
new = record { execution_depth = 0; execution_points = []; clock_vector = new_empty_clock_vector }

unfoldable pub increment_execution_depth : ThreadData → ThreadData
increment_execution_depth d = record d { execution_depth = (d.execution_depth + 1) % 2 ^ 32 }

unfoldable pub decrement_execution_depth_if_necessary : ThreadData → ThreadData
decrement_execution_depth_if_necessary d = record d {
  execution_depth = (d.execution_depth + 2 ^ 32 - 1) % 2 ^ 32;
}

unfoldable pub reset_execution_data : ThreadData → ThreadData
reset_execution_data d = record d { execution_depth = 0; execution_points = [] }

unfoldable pub set_clock_vector : ThreadData → ClockVector → ThreadData
set_clock_vector d cv = record d { clock_vector = cv }

abbrev or_zero : Option ℕ → ℕ
or_zero none = 0
or_zero (some t) = t

unfoldable pub get_latest_execution_point : ThreadData → ℕ
unfolding SortedStack.top
get_latest_execution_point d = or_zero (SortedStack.top d.execution_points)

-- The assertion of `pushNewLatestExecutionPoint` on the top of the stack, if there is one.
abbrev top_at_most : Option ℕ → ℕ → Bool
top_at_most none depth = true
top_at_most (some t) depth = leb t depth

unfoldable pub push_new_latest_execution_point : ThreadData → ℕ → Option ThreadData
unfolding SortedStack.top SortedStack.push
push_new_latest_execution_point d depth = do
  assert (top_at_most (SortedStack.top d.execution_points) depth)
  points ← SortedStack.push d.execution_points depth
  some (record d { execution_points = points })

unfoldable pub pop_latest_execution_point : ThreadData → ThreadData
unfolding SortedStack.pop
pop_latest_execution_point d = record d { execution_points = SortedStack.pop d.execution_points }

unfoldable pub pop_execution_points_greater_than : ThreadData → ℕ → ThreadData
pop_execution_points_greater_than d index = record d {
  execution_points = SortedStack.pop_greater_than d.execution_points index;
}
