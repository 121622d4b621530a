-- ===== src/History/ThreadData/Laws.antt =====
-- The execution points of src/MCThreadData.cpp.
use dmtcp_integration.Base.{ℕ, ◌≡◌, some, List, [], ◌∷◌, arith}
use dmtcp_integration.History.SortedStack.Laws.{Below}
use dmtcp_integration.History.ThreadData.{ThreadData, push_new_latest_execution_point}

-- An execution point that is not below the latest is pushed, without an assertion that fires.
pub push-point :
    (d : ThreadData) (depth : ℕ) (points : List ℕ)
    → d.execution_points ≡ points
    → Below depth points
    → push_new_latest_execution_point d depth
      ≡ some (record d { execution_points = depth ∷ d.execution_points })
unfolding push_new_latest_execution_point
push-point d depth [] e b = ground arith
push-point d depth (t ∷ points) e b = ground arith
