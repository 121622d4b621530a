-- ===== src/Transitions/Globals.antt =====
-- src/transitions/misc: accesses of global variables, and the end of the process.
use dmtcp_integration.Base.{Bool, Option, none, some}
use dmtcp_integration.Transitions.{
  Ref, GlobalOperation, global_read, global_write, Operation, on_global, is_on,
}

-- `dynamic_cast<const MCGlobalVariableTransition *>`
abbrev pub as_global_variable_transition : Operation → Option Ref
as_global_variable_transition (on_global o v) = some v
as_global_variable_transition _ = none

abbrev pub as_global_variable_write : Operation → Option Ref
as_global_variable_write (on_global global_write v) = some v
as_global_variable_write _ = none

unfoldable pub read_dependent_with : Ref → Operation → Bool
read_dependent_with v other = is_on (as_global_variable_write other) v

unfoldable pub read_is_racing_with : Ref → Operation → Bool
read_is_racing_with v other = is_on (as_global_variable_write other) v

unfoldable pub write_dependent_with : Ref → Operation → Bool
write_dependent_with v other = is_on (as_global_variable_transition other) v

unfoldable pub write_is_racing_with : Ref → Operation → Bool
write_is_racing_with v other = is_on (as_global_variable_transition other) v

-- `coenabledWith` is true for both.
unfoldable pub dependent_with : GlobalOperation → Ref → Operation → Bool
unfolding read_dependent_with write_dependent_with
dependent_with global_read v other = read_dependent_with v other
dependent_with global_write v other = write_dependent_with v other

unfoldable pub is_racing_with : GlobalOperation → Ref → Operation → Bool
unfolding read_is_racing_with write_is_racing_with
is_racing_with global_read v other = read_is_racing_with v other
is_racing_with global_write v other = write_is_racing_with v other
