-- ===== src/History.antt =====
-- The records that the model checker keeps of a trace: src/MCClockVector.cpp, src/MCThreadData.cpp,
-- src/MCStackItem.cpp and include/mcmini/misc/MCSortedStack.hpp.
pub mod Tests
pub mod SortedStack
pub mod ClockVector
pub mod ThreadData
pub mod StackItem
