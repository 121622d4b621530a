-- ===== src/Cond/WakeGroup.antt =====
-- src/misc/cond/MCWakeGroup.cpp: the threads of which one signal wakes one.
use dmtcp_integration.Base.{ℕ, Bool, List, erase}
use dmtcp_integration.Base

abbrev pub WakeGroup : Type 0
WakeGroup = List ℕ

unfoldable pub contains : WakeGroup → ℕ → Bool
contains wg tid = Base.contains wg tid

unfoldable pub remove_candidate_thread : WakeGroup → ℕ → WakeGroup
remove_candidate_thread wg tid = erase tid wg
