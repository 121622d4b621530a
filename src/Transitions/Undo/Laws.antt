-- ===== src/Transitions/Undo/Laws.antt =====
-- Undoing a transition (src/transitions) restores the state in which it ran.
use dmtcp_integration.Base.{ℕ, true, Option, some, ◌≡◌, refl, sym, ap, ◌∙◌, ◌>>=◌}
use dmtcp_integration.Objects.Thread
use dmtcp_integration.Objects.Thread.{Thread, alive}
use dmtcp_integration.Objects.Mutex
use dmtcp_integration.Objects.Mutex.{Mutex, MutexState, undefined, locked, unlocked, destroyed}
use dmtcp_integration.Store
use dmtcp_integration.Store.{get_object_with_id}
use dmtcp_integration.Store.Laws.{write_object-read}
use dmtcp_integration.Transitions.{
  Ref, MutexOperation, mutex_init, mutex_lock, mutex_unlock, thread_finish, thread_join, Operation,
  on_mutex, on_thread, Transition,
}
use dmtcp_integration.Transitions.Program.{
  Program, VisibleObject, of_mutex, of_thread, call_method, cast_thread, get_thread_with_id,
}
use dmtcp_integration.Transitions.Execution.{
  cast_mutex, apply_to_thread, apply_to_state, apply_operation, apply_thread_operation, method,
  apply_to_mutex,
}
use dmtcp_integration.Transitions.Execution.Commute.{call_method-some, call_method-call_method}
use dmtcp_integration.Transitions.Undo.{
  unapply_to_state, unapply_operation, unapply_thread_operation, unapply_to_mutex,
}

-- Two calls of which the second undoes the first leave the program as it was.
call_method-undo :
    (p : Program) (i : ℕ) (f g : VisibleObject → Option VisibleObject) (v : VisibleObject)
    → get_object_with_id p.object_storage i ≡ some v
    → (f v >>= g) ≡ some v
    → (call_method p i f >>= λ q. call_method q i g) ≡ some p
call_method-undo p i f g v e h =
    call_method-call_method p i f g
    ∙ call_method-some p i (λ w. f w >>= g) v v e h
    ∙ ap (λ st. some (record p { object_storage = st })) (write_object-read p.object_storage i v e)

-- The state of a mutex in which an operation that can be undone runs: the initialisation is the first,
-- and what is unlocked is locked.
abbrev pub state_before : MutexOperation → MutexState
state_before mutex_init = undefined
state_before mutex_lock = unlocked
state_before mutex_unlock = locked

undo_mutex :
    (o : MutexOperation) (t : ℕ) (m : Mutex)
    → m.state ≡ state_before o
    → unapply_to_mutex o t (apply_to_mutex o t m) ≡ m
unfolding unapply_to_mutex apply_to_mutex Mutex.init Mutex.deinit Mutex.lock Mutex.unlock
undo_mutex mutex_init t m h = ap (λ s. record m { state = s }) (sym h)
undo_mutex mutex_lock t m h = ap (λ s. record m { state = s }) (sym h)
undo_mutex mutex_unlock t m h = ap (λ s. record m { state = s }) (sym h)

-- A call on the object of a thread.
abbrev pub thread_method : (Thread → Thread) → VisibleObject → Option VisibleObject
thread_method f v = cast_thread v >>= λ t. some (of_thread (f t))

thread_calls :
    (p : Program) (t id : ℕ) (x : Thread) (f g : Thread → Thread)
    → Store.find p.thread_id_map t ≡ some id
    → get_object_with_id p.object_storage id ≡ some (of_thread x)
    → (apply_to_thread p t f >>= λ q. apply_to_thread q t g)
      ≡ (call_method p id (thread_method f) >>= λ q. call_method q id (thread_method g))
unfolding apply_to_thread
thread_calls p t id x f g e h =
    rw (e, call_method-some p id (thread_method f) (of_thread x) (of_thread (f x)) h refl)
      (rw e refl)

alive_again : (x : Thread) → x.state ≡ alive → Thread.spawn (Thread.die x) ≡ x
unfolding Thread.spawn Thread.die
alive_again x h = ap (λ s. record x { state = s }) (sym h)

-- Where an operation that can be undone runs. A mutex is undefined before its initialisation, unlocked
-- before a locking and locked before an unlocking; a thread that ends is alive; a thread that is joined
-- on is dead.
pub data Undoable (p : Program) (t : ℕ) : Operation → Type 0 where
  on_that_mutex :
      (o : MutexOperation) (r : Ref) (m : Mutex)
      → get_object_with_id p.object_storage r.object_id ≡ some (of_mutex m)
      → m.state ≡ state_before o
      → Undoable p t (on_mutex o r)
  ends_alive :
      (id : ℕ) (x : Thread)
      → Store.find p.thread_id_map t ≡ some id
      → get_object_with_id p.object_storage id ≡ some (of_thread x)
      → x.state ≡ alive
      → Undoable p t (on_thread thread_finish)
  joins_dead :
      (target : ℕ) (x : Thread)
      → get_thread_with_id p target ≡ some x
      → Thread.is_dead x ≡ true
      → Undoable p t (on_thread (thread_join target))

undo :
    (p : Program) (t : ℕ) (o : Operation)
    → Undoable p t o
    → (apply_operation p t o >>= λ q. unapply_operation q t o) ≡ some p
unfolding apply_operation unapply_operation method apply_thread_operation unapply_thread_operation
undo p t _ (on_that_mutex o r m e h) =
    call_method-undo p r.object_id
      (λ v. cast_mutex v >>= λ n. some (of_mutex (apply_to_mutex o t n)))
      (λ v. cast_mutex v >>= λ n. some (of_mutex (unapply_to_mutex o t n))) (of_mutex m) e
      (ap (λ n. some (of_mutex n)) (undo_mutex o t m h))
undo p t _ (ends_alive id x e f h) =
    thread_calls p t id x Thread.die Thread.spawn e f
    ∙ call_method-undo p id (thread_method Thread.die) (thread_method Thread.spawn) (of_thread x) f
        (ap (λ y. some (of_thread y)) (alive_again x h))
undo p t _ (joins_dead target x e h) = rw (e, h) refl

-- A transition on a mutex, the end of a thread and a join are undone by `unapplyToState`: applying and
-- then unapplying it restores the whole state, where a mutex was undefined before its initialisation,
-- unlocked before a locking and locked before an unlocking, the thread that ends was alive, and the
-- thread that is joined on is dead.
pub unapply-apply :
    (p : Program) (t : Transition)
    → Undoable p t.thread t.operation
    → (apply_to_state p t >>= λ q. unapply_to_state q t) ≡ some p
unfolding apply_to_state unapply_to_state
unapply-apply p t u = undo p t.thread t.operation u
