-- ===== src/History/ClockVector.antt =====
-- src/MCClockVector.cpp and include/mcmini/MCClockVector.hpp: maps from threads to indices of the
-- transition stack, with 0 for a thread that is not mapped.
pub mod Laws
use dmtcp_integration.Base.{
  ℕ, suc, Option, none, some, List, [], ◌∷◌, ◌==◌, if◌then◌else◌, length, max,
}

-- `std::unordered_map<tid_t, uint32_t>` as the list of its pairs in the order of an iteration.
abbrev pub ClockVector : Type 0
ClockVector = List (ℕ × ℕ)

abbrev pub new_empty_clock_vector : ClockVector
new_empty_clock_vector = []

unfoldable pub size : ClockVector → ℕ
size cv = length cv

unfoldable pub value_for_thread : ClockVector → ℕ → Option ℕ
value_for_thread [] tid = none
value_for_thread ((t, i) ∷ cv) tid = if t == tid then some i else value_for_thread cv tid

-- `MCOptional::value_or`
abbrev pub value_or : Option ℕ → ℕ → ℕ
value_or none d = d
value_or (some i) d = i

-- `cv[tid] = index`: a thread that is not mapped gets a pair of its own.
unfoldable pub assign : ClockVector → ℕ → ℕ → ClockVector
assign [] tid index = (tid, index) ∷ []
assign ((t, i) ∷ cv) tid index = if t == tid then (t, index) ∷ cv else (t, i) ∷ assign cv tid index

-- One of the two loops of `max`: over the pairs of the first vector, with values of the other.
unfoldable pub max_into : ClockVector → ClockVector → ClockVector → ClockVector
max_into [] other acc = acc
max_into ((t, i) ∷ cv) other acc =
    max_into cv other (assign acc t (max i (value_or (value_for_thread other t) 0)))

unfoldable pub max_vector : ClockVector → ClockVector → ClockVector
max_vector cv1 cv2 = max_into cv2 cv1 (max_into cv1 cv2 new_empty_clock_vector)
