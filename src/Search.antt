-- ===== src/Search.antt =====
-- The search of src/MCStack.cpp: the stacks of transitions and states, clock vectors, backtracking.
pub mod Tests
pub mod Interface
pub mod Stack
pub mod Clocks
pub mod Backtrack
pub mod Schedule
pub mod Growth
pub mod Replay
