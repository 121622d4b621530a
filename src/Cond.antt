-- ===== src/Cond.antt =====
-- Condition variables: src/misc/cond and src/objects/MCConditionVariable.cpp.
pub mod Tests
pub mod WakeGroup
pub mod DefaultPolicy
pub mod SingleGroupPolicy
pub mod GlibcPolicy
pub mod Policy
pub mod Variable
