-- ===== src/Transitions/Handlers.antt =====
-- The handlers `MCRead...` of src/transitions, which make the next transition of a thread from what the
-- thread has written to the shared memory: the address of an object, and the thread's number.
pub mod Mutexes
pub mod Threads
pub mod Semaphores
pub mod Barriers
pub mod RwLocks
pub mod RwwLocks
pub mod Conds
pub mod Globals
pub mod Laws
use dmtcp_integration.Base.{ℕ, Bool, true, false, Option, none, some}
use dmtcp_integration.Store
use dmtcp_integration.Transitions.{Operation, Transition}
use dmtcp_integration.Transitions.Program.{
  Program, VisibleObject, get_thread_with_id, register_visible_object_with_system_identity,
}

-- How a handler ends: with a result, with a report of undefined behaviour of the target
-- (`mc_report_undefined_behavior`), with the end of the model checking (`mc_stop_model_checking`), or with
-- an assertion, an abort, or undefined behaviour of the handler itself.
pub data Read (A : Type 0) : Type 0 where
  reads : A → Read A
  reports : Read A
  stops : Read A
  crashes : Read A

infixl 5 ◌>>=◌ ◌>>◌
abbrev pub ◌>>=◌ : {A B : Type 0} → Read A → (A → Read B) → Read B
reads a >>= f = f a
reports >>= f = reports
stops >>= f = stops
crashes >>= f = crashes

abbrev pub ◌>>◌ : {B : Type 0} → Read (Unit {0}) → Read B → Read B
reads a >> r = r
reports >> r = reports
stops >> r = stops
crashes >> r = crashes

-- `MC_REPORT_UNDEFINED_BEHAVIOR_ON_FAIL`
abbrev pub report_on_fail : Bool → Read (Unit {0})
report_on_fail true = reads tt
report_on_fail false = reports

-- `mc_stop_model_checking` unless the test holds
abbrev pub stop_on_fail : Bool → Read (Unit {0})
stop_on_fail true = reads tt
stop_on_fail false = stops

-- `assert`
abbrev pub assert : Bool → Read (Unit {0})
assert true = reads tt
assert false = crashes

abbrev pub or_crash : {A : Type 0} → Option A → Read A
or_crash none = crashes
or_crash (some a) = reads a

-- The test of a pointer to an object for null, with a report.
abbrev pub or_report : {A : Type 0} → Option A → Read A
or_report none = reports
or_report (some a) = reads a

-- `getVisibleObjectWithSystemIdentity`, with the object's id
unfoldable pub find_object : Program → ℕ → Option (ℕ × VisibleObject)
find_object p address = elim (Store.find p.object_storage.system_visible_object_map address) [
  | none ↦ none
  | some id ↦ elim (Store.get_object_with_id p.object_storage id) [
    | none ↦ none
    | some v ↦ some (id, v)
  ]
]

-- The object at an address, which is registered as the given new object if there is none.
unfoldable pub find_or_register : Program → ℕ → VisibleObject → Read (ℕ × VisibleObject × Program)
unfolding find_object register_visible_object_with_system_identity
find_or_register p address object = elim (find_object p address) [
  | some (id, v) ↦ reads (id, v, p)
  | none ↦ do
    (id, q) ← or_crash (register_visible_object_with_system_identity p address object)
    reads (id, object, q)
]

-- A write through the pointer to the object.
unfoldable pub put : Program → ℕ → VisibleObject → Program
put p id v = record p { object_storage = Store.write_object p.object_storage id v }

-- The transition of the thread that ran.
unfoldable pub finish_reading : Program → ℕ → Operation → Read (Transition × Program)
unfolding get_thread_with_id
finish_reading p executor o = do
  thread ← or_crash (get_thread_with_id p executor)
  reads (record { thread = thread.tid; operation = o }, p)
