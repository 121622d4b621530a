-- ===== src/Lib.antt =====
-- McMini: a model checker for programs with POSIX threads, which explores the schedules of a target by
-- dynamic partial-order reduction (DPOR). This library models its core in src and include/mcmini.
--
-- The parts and how they interact. The target's threads stop at every visible operation, which the
-- scheduler represents by a transition (include/mcmini/MCTransition.h) on visible objects
-- (src/objects). MCStack (src/MCStack.cpp) keeps the trace: a stack of the transitions that ran and a
-- stack of items (src/MCStackItem.cpp), one for each state, with the sets of threads to search from it;
-- data of each thread (src/MCThreadData.cpp); and clock vectors (src/MCClockVector.cpp) for the
-- happens-before relation. A transition is chosen, grows both stacks, and changes the objects; then the
-- backtrack sets of earlier states are updated, and the deepest state with a pending thread is next.
--
-- Which file models which part:
--   Base              shared tests, the Option monad for operations that can end the process, lists and
--                     sets by native numbers
--   Objects/RwLock    src/objects/MCRWLock.cpp        Objects/RwwLock    src/objects/MCRWWLock.cpp
--   Objects/Semaphore src/objects/MCSemaphore.cpp     Objects/Barrier    src/objects/MCBarrier.cpp
--   Objects/Mutex     src/objects/MCMutex.cpp         Objects/Thread     src/objects/MCThread.cpp
--   Objects/Fifo      the specification of the waiting threads of the two locks
--   History/SortedStack  include/mcmini/misc/MCSortedStack.hpp
--   History/ClockVector, History/ThreadData, History/StackItem  the files of src named above
--   Cond/WakeGroup, Cond/DefaultPolicy, Cond/SingleGroupPolicy, Cond/GlibcPolicy, Cond/Policy
--                     the policies of src/misc/cond; SingleGroupPolicy has the arbitrary and the ordered
--                     policy, and Policy is the dispatch of the virtual calls
--   Cond/Variable     src/objects/MCConditionVariable.cpp
--   Search            src/MCStack.cpp: Stack is the state and its accessors, Clocks the happens-before
--                     relation, Backtrack the update of backtrack sets, Schedule the questions about
--                     threads and branch points, Growth what running a transition does, Replay the return
--                     to an earlier state. Interface is what the search asks of a transition, for any
--                     class of transitions.
--   Store             include/mcmini/MCObjectStore.h
--   Transitions       include/mcmini/MCTransition.h and src/transitions. A transition is a thread and an
--                     operation, one constructor for each class of src/transitions. Mutexes, Threads,
--                     Semaphores, Barriers, RwLocks, RwwLocks, Conds and Globals have what each class says
--                     of dependence, co-enabledness and data races; Relations the questions of
--                     src/MCTransition.cpp on two transitions; Execution their effects (applyToState),
--                     Enabled their guards (enabledInState), Undo their reverses (unapplyToState), Handlers
--                     and its children the functions MCRead... that make a transition from what a thread
--                     wrote to shared memory; Class fills the parameter Search/Interface of the search
--   Scheduler         the search of one branch in src/mcmini_private.cpp: the loop that runs the target and
--                     its model in step, what follows it, and the restart of the target's process in the
--                     current state; Scheduler/Explore is the choice of the branches
--   Transitions/Program  the part of src/MCStack.cpp that keeps the objects, the map of threads and the
--                     creation of threads
-- A function keeps its C++ name in lower case (growStateStackRunningTransition is
-- grow_state_stack_running_transition) and its order of steps; a loop has a helper of its own.
--
-- Conventions. An operation that can fail returns an Option: `none` is an assertion, an abort, an
-- exception, or undefined behaviour such as the front of an empty queue or a null pointer. A
-- std::unordered_set is a list without an order that matters; where the source takes `*begin()` of a set,
-- the choice is a parameter `begin`. A std::unordered_map is an association list. The arrays of MCStack
-- are lists that end at the top; their fixed capacities, and what stands above the top, are not modelled.
-- Execution depths and the semaphore's count are 32-bit numbers with their wrap-around; thread numbers and
-- indices are natural numbers. Loops over an index are structural recursions on the number of rounds left, so no fuel is
-- needed. What the environment variable for a trace asks for is an argument of the two functions that
-- read it.
--
-- A transition of the source has pointers to objects of the store. Here it has the identity of each object
-- and its address in the target (a Ref): a read through the pointer is a lookup of the identity, and a test
-- of two objects for equality compares what the source compares, their addresses. The one exception is the
-- barrier of a waiting that has not run: co-enabledness asks the barrier as it was when the transition was
-- made. A handler gives a result
-- that says whether it reads a transition, reports undefined behaviour, stops at an assertion or crashes; the
-- comparison of the target's bytes with a static initializer, which process_vm_readv serves, is a parameter.
--
-- A process that runs the target is the list of the threads that the scheduler has run in it; what the target
-- then writes to shared memory is a parameter, and so is the trace that the environment asks for. The loop of a branch counts down the transitions that are left
-- up to MAX_TOTAL_TRANSITIONS_IN_PROGRAM, where the source stops, so it needs no fuel either; the loop over
-- the branches, which has no such limit, is a relation, for as many branches as are explored.
--
-- Not modelled: the reset of the two stacks in restoreInitialTrace, and the parser of traces, in
-- src/MCStack.cpp; the child's side of a fork, and the restart that a debugger asks for, in
-- src/mcmini_private.cpp; the bytes of the shared memory between scheduler and target; the wrappers of
-- pthread functions in src/export; the launcher and signal handlers; printing.
pub mod Base
pub mod Objects
pub mod History
pub mod Cond
pub mod Search
pub mod Scheduler
pub mod Store
pub mod Transitions
