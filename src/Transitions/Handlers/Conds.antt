-- ===== src/Transitions/Handlers/Conds.antt =====
-- src/transitions/cond: the handlers of the operations on a condition variable. The shared memory has the
-- address of the variable, and for a waiting that of the mutex.
use dmtcp_integration.Base.{ℕ, Bool, true, false, not, ◌||◌, Option, none, some, if◌then◌else◌}
use dmtcp_integration.Objects.Mutex
use dmtcp_integration.Objects.Mutex.{Mutex}
use dmtcp_integration.Cond.Variable
use dmtcp_integration.Cond.Variable.{CondVar, CondState, undefined, initialized, destroyed}
use dmtcp_integration.Store
use dmtcp_integration.Transitions.{
  cond_init, cond_signal, cond_broadcast, cond_enqueue, cond_wait, on_cond, Transition,
}
use dmtcp_integration.Transitions.Program.{Program, VisibleObject, of_cond}
use dmtcp_integration.Transitions.Execution.{cast_cond, cast_mutex}
use dmtcp_integration.Transitions.Handlers.{
  Read, reads, ◌>>=◌, ◌>>◌, report_on_fail, stop_on_fail, assert, or_crash, or_report, find_object,
  find_or_register, put, finish_reading,
}
use dmtcp_integration.Transitions.Handlers.Mutexes.{at}

abbrev pub is_undefined : CondState → Bool
is_undefined undefined = true
is_undefined _ = false

-- The state of a variable that was not found becomes `initialized`.
unfoldable pub initialize_new : Option (ℕ × VisibleObject) → CondVar → CondVar
initialize_new none c = record c { state = initialized }
initialize_new (some found) c = c

-- A variable that was found is not touched; a new one becomes initialized.
unfoldable pub read_cond_init : Program → ℕ → ℕ → Read (Transition × Program)
unfolding find_object find_or_register initialize_new put finish_reading
read_cond_init p executor address = do
  (id, v, q) ← find_or_register p address (of_cond (Variable.new address))
  c ← or_crash (cast_cond v)
  let d = initialize_new (find_object p address) c
  assert (Variable.is_initialized d)
  finish_reading (put q id (of_cond d)) executor (on_cond cond_init (at id address))

unfoldable pub initialize_undefined : CondVar → CondVar
initialize_undefined c = if is_undefined c.state then record c { state = initialized } else c

-- The variable at the address, initialized if it was undefined. `is_initializer` is the comparison of
-- the target's memory with PTHREAD_COND_INITIALIZER.
unfoldable pub find_initialized : (ℕ → Bool) → Program → ℕ → Read (ℕ × CondVar × Program)
unfolding find_or_register initialize_undefined put
find_initialized is_initializer p address = do
  (id, v, q) ← find_or_register p address (of_cond (Variable.new address))
  c ← or_crash (cast_cond v)
  stop_on_fail (not (is_undefined c.state) || is_initializer address)
  reads (id, initialize_undefined c, put q id (of_cond (initialize_undefined c)))

unfoldable pub read_cond_signal : (ℕ → Bool) → Program → ℕ → ℕ → Read (Transition × Program)
unfolding find_initialized finish_reading
read_cond_signal is_initializer p executor address = do
  (id, c, q) ← find_initialized is_initializer p address
  assert (Variable.is_initialized c)
  report_on_fail (not (Variable.is_destroyed c))
  finish_reading q executor (on_cond cond_signal (at id address))

unfoldable pub read_cond_broadcast : (ℕ → Bool) → Program → ℕ → ℕ → Read (Transition × Program)
unfolding find_initialized finish_reading
read_cond_broadcast is_initializer p executor address = do
  (id, c, q) ← find_initialized is_initializer p address
  assert (Variable.is_initialized c || Variable.is_destroyed c)
  report_on_fail (not (Variable.is_destroyed c))
  finish_reading q executor (on_cond cond_broadcast (at id address))

-- Is the mutex of the variable, if it has one, the given mutex?
unfoldable pub has_same_mutex : Program → CondVar → Mutex → Read Bool
has_same_mutex p c m = elim c.mutex [
  | none ↦ reads true
  | some id ↦ do
    v ← or_crash (Store.get_object_with_id p.object_storage id)
    n ← or_crash (cast_mutex v)
    reads (Mutex.same n m)
]

-- The mutex is looked up before the variable is registered, and tested after it.
unfoldable pub read_cond_enqueue : (ℕ → Bool) → Program → ℕ → ℕ → ℕ → Read (Transition × Program)
unfolding find_object find_initialized has_same_mutex put finish_reading
read_cond_enqueue is_initializer p executor address mutex_address = do
  (id, c, q) ← find_initialized is_initializer p address
  (mutex_id, w) ← or_crash (find_object p mutex_address)
  m ← or_crash (cast_mutex w)
  assert (Variable.is_initialized c || Variable.is_destroyed c)
  report_on_fail (Mutex.is_locked m)
  report_on_fail (not (Variable.is_destroyed c))
  agrees ← has_same_mutex q c m
  report_on_fail agrees
  finish_reading (put q id (of_cond (record c { mutex = some mutex_id }))) executor
      (on_cond (cond_enqueue (at mutex_id mutex_address)) (at id address))

-- The transition reads the mutex of the variable later; for a null pointer the model ends here.
unfoldable pub read_cond_wait : Program → ℕ → ℕ → ℕ → Read (Transition × Program)
unfolding find_object has_same_mutex finish_reading
read_cond_wait p executor address mutex_address = do
  (id, v) ← or_report (find_object p address)
  c ← or_crash (cast_cond v)
  (mutex_id, w) ← or_report (find_object p mutex_address)
  m ← or_crash (cast_mutex w)
  report_on_fail (not (Variable.is_destroyed c))
  agrees ← has_same_mutex p c m
  report_on_fail agrees
  held ← or_crash c.mutex
  u ← or_crash (Store.get_object_with_id p.object_storage held)
  n ← or_crash (cast_mutex u)
  finish_reading p executor (on_cond (cond_wait (at held n.system_identity)) (at id address))
