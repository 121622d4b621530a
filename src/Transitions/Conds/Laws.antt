-- ===== src/Transitions/Conds/Laws.antt =====
-- What a waiting on a condition variable (src/transitions/cond/MCCondWait.cpp) is dependent with.
use dmtcp_integration.Base.{ℕ, true, false, ◌≡◌, ◌==◌, arith}
use dmtcp_integration.Transitions.{
  Ref, MutexOperation, mutex_init, mutex_unlock, cond_wait, on_mutex, on_cond,
}
use dmtcp_integration.Transitions.Mutexes
use dmtcp_integration.Transitions.Conds
use dmtcp_integration.Transitions.Relations.{
  dependent_transitions, transitions_dependent_common, joins_dependent, dependent_with,
  operation_dependent_with, coenabled_transitions, transitions_coenabled_common, joins_coenabled,
  coenabled_with, operation_coenabled_with,
}

-- The relations of two operations on mutexes that the handlers of condition variables ask for are those of
-- `MCTransition`.
pub mutex_transitions-agree :
    (t u : ℕ) (a b : MutexOperation) (m n : Ref)
    → (dependent_transitions
          (record { thread = t; operation = on_mutex a m })
          (record { thread = u; operation = on_mutex b n })
        ≡ Conds.dependent_mutex_transitions t a m u b n)
      × (coenabled_transitions
            (record { thread = t; operation = on_mutex a m })
            (record { thread = u; operation = on_mutex b n })
          ≡ Conds.coenabled_mutex_transitions t a m u b n)
unfolding dependent_transitions transitions_dependent_common joins_dependent dependent_with
    operation_dependent_with coenabled_transitions transitions_coenabled_common joins_coenabled
    coenabled_with operation_coenabled_with Conds.dependent_mutex_transitions
    Conds.coenabled_mutex_transitions
mutex_transitions-agree t u a b m n = (ground arith, ground arith)

-- `MCCondWait::dependentWith` asks for the wrong relation. So a waiting that must lock a mutex is
-- independent of the unlocking of that mutex by another thread, and dependent with every initialisation of
-- a mutex by another thread, also of one that the waiting has nothing to do with.
pub wait_dependence_is_inverted :
    (t u : ℕ) (c m n : Ref)
    → (t == u) ≡ false
    → (dependent_transitions
          (record { thread = t; operation = on_cond (cond_wait m) c })
          (record { thread = u; operation = on_mutex mutex_unlock m })
        ≡ false)
      × (dependent_transitions
            (record { thread = t; operation = on_cond (cond_wait m) c })
            (record { thread = u; operation = on_mutex mutex_init n })
          ≡ true)
unfolding dependent_transitions transitions_dependent_common joins_dependent dependent_with
    operation_dependent_with Conds.dependent_with Conds.wait_dependent_with
    Conds.wait_dependent_with_mutex Conds.coenabled_mutex_transitions Mutexes.coenabled_with
    Mutexes.lock_coenabled_with Mutexes.dependent_with Mutexes.init_dependent_with
wait_dependence_is_inverted t u c m n d = (ground (arith, d), ground (arith, d))
