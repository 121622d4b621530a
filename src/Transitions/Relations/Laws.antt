-- ===== src/Transitions/Relations/Laws.antt =====
-- Laws of the relations of src/MCTransition.cpp: the order of the two transitions does not matter.
use dmtcp_integration.Base.{
  ℕ, true, false, not, ◌||◌, ◌==◌, some, ◌≡◌, inl, inr, Bool-cases, Option-cases, ==_comm, arith,
}
use dmtcp_integration.Transitions.{Operation, thread_create, thread_join, on_thread, Transition}
use dmtcp_integration.Transitions.Threads.{
  as_thread_create, as_thread_join, does_create_thread, joins_on_thread, create_coenabled_with,
  join_coenabled_with, create_dependent_with, join_dependent_with,
}
use dmtcp_integration.Transitions.Threads
use dmtcp_integration.Transitions.Globals
use dmtcp_integration.Transitions.Relations.{
  operation_coenabled_with, operation_dependent_with, coenabled_with, dependent_with,
  transitions_coenabled_common, transitions_dependent_common, joins_coenabled, joins_dependent,
  coenabled_transitions, dependent_transitions, transitions_in_data_race, is_racing_with,
}

create-coenabled :
    (o : Operation) (thread target : ℕ) (t : Transition)
    → as_thread_create o ≡ some target
    → operation_coenabled_with o thread t ≡ not (thread == t.thread || target == t.thread)
unfolding operation_coenabled_with Threads.coenabled_with create_coenabled_with
create-coenabled (on_thread (thread_create a)) thread target t h = ground arith
create-coenabled _ thread target t h = cc

join-coenabled :
    (o : Operation) (thread target : ℕ) (t : Transition)
    → as_thread_join o ≡ some target
    → operation_coenabled_with o thread t ≡ not (thread == t.thread || target == t.thread)
unfolding operation_coenabled_with Threads.coenabled_with join_coenabled_with
join-coenabled (on_thread (thread_join a)) thread target t h = ground arith
join-coenabled _ thread target t h = cc

create-dependent :
    (o : Operation) (thread target : ℕ) (t : Transition)
    → as_thread_create o ≡ some target
    → operation_dependent_with o thread t ≡ (thread == t.thread || target == t.thread)
unfolding operation_dependent_with Threads.dependent_with create_dependent_with
create-dependent (on_thread (thread_create a)) thread target t h = ground arith
create-dependent _ thread target t h = cc

join-dependent :
    (o : Operation) (thread target : ℕ) (t : Transition)
    → as_thread_join o ≡ some target
    → operation_dependent_with o thread t ≡ (thread == t.thread || target == t.thread)
unfolding operation_dependent_with Threads.dependent_with join_dependent_with
join-dependent (on_thread (thread_join a)) thread target t h = ground arith
join-dependent _ thread target t h = cc

coenabled_distinct :
    (t1 t2 : Transition)
    → (t1.thread == t2.thread) ≡ false
    → coenabled_transitions t1 t2 ≡ coenabled_transitions t2 t1
unfolding coenabled_transitions transitions_coenabled_common coenabled_with does_create_thread
    joins_coenabled joins_on_thread
coenabled_distinct t1 t2 d =
    let back = ==_comm t1.thread t2.thread in
    elim (Option-cases (as_thread_create t1.operation)) [
      | inr (a, h) ↦ elim (Option-cases (as_thread_create t2.operation)) [
        | inr (b, k) ↦ ground (
          arith,
          create-coenabled t1.operation t1.thread a t2 h,
          create-coenabled t2.operation t2.thread b t1 k,
        )
        | inl k ↦ ground (arith, create-coenabled t1.operation t1.thread a t2 h)
      ]
      | inl h ↦ elim (Option-cases (as_thread_create t2.operation)) [
        | inr (b, k) ↦ ground (arith, create-coenabled t2.operation t2.thread b t1 k)
        | inl k ↦ elim (Option-cases (as_thread_join t1.operation)) [
          | inr (a, m) ↦ elim (Option-cases (as_thread_join t2.operation)) [
            | inr (b, n) ↦ ground (
              arith,
              join-coenabled t1.operation t1.thread a t2 m,
              join-coenabled t2.operation t2.thread b t1 n,
            )
            | inl n ↦ ground (arith, join-coenabled t1.operation t1.thread a t2 m)
          ]
          | inl m ↦ ground arith
        ]
      ]
    ]

-- Whether two transitions are co-enabled does not depend on the order in which they are given, although
-- `transitionsCoenabledCommon` returns at the first cast that succeeds.
pub coenabled_transitions_comm :
    (t1 t2 : Transition) → coenabled_transitions t1 t2 ≡ coenabled_transitions t2 t1
unfolding coenabled_transitions transitions_coenabled_common
coenabled_transitions_comm t1 t2 = elim (Bool-cases (t1.thread == t2.thread)) [
  | inl e ↦ ground (arith, ==_comm t1.thread t2.thread)
  | inr d ↦ coenabled_distinct t1 t2 d
]

dependent_distinct :
    (t1 t2 : Transition)
    → (t1.thread == t2.thread) ≡ false
    → dependent_transitions t1 t2 ≡ dependent_transitions t2 t1
unfolding dependent_transitions transitions_dependent_common dependent_with does_create_thread
    joins_dependent joins_on_thread
dependent_distinct t1 t2 d =
    let back = ==_comm t1.thread t2.thread in
    elim (Option-cases (as_thread_create t1.operation)) [
      | inr (a, h) ↦ elim (Option-cases (as_thread_create t2.operation)) [
        | inr (b, k) ↦ ground (
          arith,
          create-dependent t1.operation t1.thread a t2 h,
          create-dependent t2.operation t2.thread b t1 k,
        )
        | inl k ↦ ground (arith, create-dependent t1.operation t1.thread a t2 h)
      ]
      | inl h ↦ elim (Option-cases (as_thread_create t2.operation)) [
        | inr (b, k) ↦ ground (arith, create-dependent t2.operation t2.thread b t1 k)
        | inl k ↦ elim (Option-cases (as_thread_join t1.operation)) [
          | inr (a, m) ↦ elim (Option-cases (as_thread_join t2.operation)) [
            | inr (b, n) ↦ ground (
              arith,
              join-dependent t1.operation t1.thread a t2 m,
              join-dependent t2.operation t2.thread b t1 n,
            )
            | inl n ↦ ground (arith, join-dependent t1.operation t1.thread a t2 m)
          ]
          | inl m ↦ ground arith
        ]
      ]
    ]

-- Whether two transitions are dependent does not depend on the order in which they are given.
pub dependent_transitions_comm :
    (t1 t2 : Transition) → dependent_transitions t1 t2 ≡ dependent_transitions t2 t1
unfolding dependent_transitions transitions_dependent_common
dependent_transitions_comm t1 t2 = elim (Bool-cases (t1.thread == t2.thread)) [
  | inl e ↦ ground (arith, ==_comm t1.thread t2.thread)
  | inr d ↦ dependent_distinct t1 t2 d
]

racing-dependent : (t1 t2 : Transition) → is_racing_with t1 t2 ≡ true → dependent_with t1 t2 ≡ true
unfolding is_racing_with dependent_with operation_dependent_with Globals.is_racing_with
    Globals.dependent_with Globals.read_dependent_with Globals.write_dependent_with
    Globals.read_is_racing_with Globals.write_is_racing_with
racing-dependent t1 t2 h = ground arith

-- Two transitions in a data race are dependent.
pub transitions_in_data_race-dependent :
    (t1 t2 : Transition)
    → transitions_in_data_race t1 t2 ≡ true
    → dependent_transitions t1 t2 ≡ true
unfolding transitions_in_data_race dependent_transitions
transitions_in_data_race-dependent t1 t2 h =
    ground (arith, racing-dependent t1 t2, racing-dependent t2 t1)

data_race_comm :
    (t1 t2 : Transition) → transitions_in_data_race t1 t2 ≡ transitions_in_data_race t2 t1
unfolding transitions_in_data_race
data_race_comm t1 t2 = ground arith

-- The three relations that the search asks for do not depend on the order in which the transitions are
-- given, although the two `...Common` functions return at the first cast that succeeds; and transitions in
-- a data race are dependent.
pub relations_comm :
    (t1 t2 : Transition)
    → (dependent_transitions t1 t2 ≡ dependent_transitions t2 t1)
      × (coenabled_transitions t1 t2 ≡ coenabled_transitions t2 t1)
      × (transitions_in_data_race t1 t2 ≡ transitions_in_data_race t2 t1)
      × (transitions_in_data_race t1 t2 ≡ true → dependent_transitions t1 t2 ≡ true)
relations_comm t1 t2 = (
  dependent_transitions_comm t1 t2,
  coenabled_transitions_comm t1 t2,
  data_race_comm t1 t2,
  transitions_in_data_race-dependent t1 t2,
)
