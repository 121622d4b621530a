-- ===== src/History/SortedStack.antt =====
-- include/mcmini/misc/MCSortedStack.hpp: a stack of indices that never fall towards the top. The first
-- entry of the list is the top.
pub mod Laws
use dmtcp_integration.Base.{
  ℕ, Bool, not, ◌&&◌, Option, none, some, List, [], ◌∷◌, ltb, if◌then◌else◌, is_empty,
}

abbrev pub SortedStack : Type 0
SortedStack = List ℕ

-- `top` of an empty `std::stack` is undefined.
unfoldable pub top : SortedStack → Option ℕ
top [] = none
top (t ∷ s) = some t

-- `none` is the exception `std::invalid_argument`.
unfoldable pub push : SortedStack → ℕ → Option SortedStack
push [] index = some (index ∷ [])
push (t ∷ s) index = if ltb index t then none else some (index ∷ (t ∷ s))

unfoldable pub pop : SortedStack → SortedStack
pop [] = []
pop (t ∷ s) = s

unfoldable pub pop_greater_than : SortedStack → ℕ → SortedStack
pop_greater_than [] index = []
pop_greater_than (t ∷ s) index = if ltb index t then pop_greater_than s index else t ∷ s

unfoldable pub empty : SortedStack → Bool
empty s = is_empty s
