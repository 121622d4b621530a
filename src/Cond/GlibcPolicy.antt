-- ===== src/Cond/GlibcPolicy.antt =====
-- src/misc/cond/MCConditionVariableGLibcPolicy.cpp: the two groups of the glibc scheme.
pub mod Laws
use dmtcp_integration.Base.{
  ℕ, Bool, not, ◌||◌, Option, none, some, List, [], ◌∷◌, ◌++◌, if◌then◌else◌, is_empty, insert_all,
  assert, ◌>>=◌, ◌>>◌,
}
use dmtcp_integration.Cond.DefaultPolicy
use dmtcp_integration.Cond.DefaultPolicy.{DefaultPolicy}

pub record GlibcPolicy : Type 0 where
  pub base : DefaultPolicy
  pub open base use *
  pub group1 : List ℕ
  pub group2 : List ℕ

unfoldable pub receive_broadcast_message : GlibcPolicy → GlibcPolicy
unfolding DefaultPolicy.receive_broadcast_message
receive_broadcast_message p =
    let b = DefaultPolicy.receive_broadcast_message p.base in
    record {
      base = record b {
        broadcast_eligible_threads =
            insert_all p.group2 (insert_all p.group1 b.broadcast_eligible_threads);
      };
      group1 = [];
      group2 = [];
    }

-- The first half of `receive_signal_message`: an empty first group is filled from the second.
abbrev switch_groups : GlibcPolicy → GlibcPolicy
switch_groups p = if is_empty p.group1 then record p { group1 = p.group2; group2 = [] } else p

abbrev push_group1 : GlibcPolicy → GlibcPolicy
push_group1 p =
    if not (is_empty p.group1)
    then record p { base = record (p.base) { wake_groups = p.wake_groups ++ p.group1 ∷ [] } }
    else p

unfoldable pub receive_signal_message : GlibcPolicy → GlibcPolicy
receive_signal_message p = push_group1 (switch_groups p)

-- `find(begin, begin, tid)` searches nothing and gives `begin`. In the first group `begin` is erased if
-- it is `end`, which is undefined; for the second group it is asserted to be `end`.
unfoldable pub wake_thread : GlibcPolicy → ℕ → Option GlibcPolicy
wake_thread p tid = do
  b ← DefaultPolicy.wake_thread p.base tid
  assert (not (is_empty p.group1))
  assert (is_empty p.group2)
  some (record p { base = b })

unfoldable pub add_waiter : GlibcPolicy → ℕ → GlibcPolicy
add_waiter p tid = record p { group2 = p.group2 ++ tid ∷ [] }

unfoldable pub has_waiters : GlibcPolicy → Bool
has_waiters p = not (is_empty p.group1) || not (is_empty p.group2)
