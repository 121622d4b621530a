-- ===== src/History/ClockVector/Laws.antt =====
-- The maximum of two clock vectors of src/MCClockVector.cpp, component by component.
use dmtcp_integration.Base.{
  ℕ, ◌≡◌, ◌↔◌, refl, ◌∙◌, ap, Option, none, some, [], ◌∷◌, arith, ◌==◌, if◌then◌else◌, max,
}
use dmtcp_integration.History.ClockVector.{
  ClockVector, value_for_thread, value_or, assign, max_into, max_vector,
}

-- The component of a thread.
abbrev pub value : ClockVector → ℕ → ℕ
value cv tid = value_or (value_for_thread cv tid) 0

-- No thread is mapped twice.
abbrev pub IsMap : ClockVector → Type 0
IsMap [] = Unit {0}
IsMap ((t, i) ∷ cv) = (value_for_thread cv t ≡ none) × IsMap cv

pub value_for_thread-assign :
    (cv : ClockVector) (tid index u : ℕ)
    → value_for_thread (assign cv tid index) u
      ≡ (if tid == u then some index else value_for_thread cv u)
unfolding value_for_thread assign
value_for_thread-assign [] tid index u = refl
value_for_thread-assign ((t, i) ∷ cv) tid index u =
    ground (arith, value_for_thread-assign cv tid index u)

pub assign-IsMap : (cv : ClockVector) (tid index : ℕ) → IsMap cv → IsMap (assign cv tid index)
unfolding value_for_thread assign
assign-IsMap [] tid index m = (refl, tt)
assign-IsMap ((t, i) ∷ cv) tid index m =
    ground (arith, assign-IsMap cv tid index m.1, value_for_thread-assign cv tid index t)

max_into-IsMap : (cv other acc : ClockVector) → IsMap acc → IsMap (max_into cv other acc)
unfolding max_into
max_into-IsMap [] other acc m = m
max_into-IsMap ((t, i) ∷ cv) other acc m = max_into-IsMap cv other _ (assign-IsMap acc t _ m)

-- The value that a loop leaves for a thread: the thread's own pair decides, else it is not touched.
abbrev joined : Option ℕ → ℕ → Option ℕ → Option ℕ
joined none j old = old
joined (some i) j old = some (max i j)

value_for_thread-max_into :
    (cv other acc : ClockVector) (tid : ℕ)
    → IsMap cv
    → value_for_thread (max_into cv other acc) tid
      ≡ joined (value_for_thread cv tid) (value other tid) (value_for_thread acc tid)
unfolding max_into value_for_thread
value_for_thread-max_into [] other acc tid m = refl
value_for_thread-max_into ((t, i) ∷ cv) other acc tid m =
    let next = assign acc t (max i (value other t)) in
    ground (
      arith,
      m.0,
      value_for_thread-max_into cv other next tid m.1,
      value_for_thread-assign acc t (max i (value other t)) tid,
      ap (value_for_thread cv) {x = t} {y = tid},
      ap (value other) {x = t} {y = tid},
    )

-- The maximum of two maps is a map.
pub max_vector-IsMap : (cv1 cv2 : ClockVector) → IsMap (max_vector cv1 cv2)
unfolding max_vector
max_vector-IsMap cv1 cv2 = max_into-IsMap cv2 cv1 _ (max_into-IsMap cv1 cv2 [] tt)

-- Each component of the maximum of two clock vectors is the greater one of their two components, with 0
-- for a thread that is not mapped, and a thread is mapped by the maximum exactly if one of the two maps it.
pub value-max_vector :
    (cv1 cv2 : ClockVector) (tid : ℕ)
    → IsMap cv1
    → IsMap cv2
    → (value (max_vector cv1 cv2) tid ≡ max (value cv1 tid) (value cv2 tid))
      × ((value_for_thread (max_vector cv1 cv2) tid ≡ none)
          ↔ ((value_for_thread cv1 tid ≡ none) × (value_for_thread cv2 tid ≡ none)))
unfolding max_vector value_for_thread
value-max_vector cv1 cv2 tid m1 m2 =
    rw (second, first) (join (value_for_thread cv1 tid) (value_for_thread cv2 tid))
  where
    first :
        value_for_thread (max_into cv1 cv2 []) tid
        ≡ joined (value_for_thread cv1 tid) (value cv2 tid) none
    first = value_for_thread-max_into cv1 cv2 [] tid m1 ∙ ground arith

    second :
        value_for_thread (max_into cv2 cv1 (max_into cv1 cv2 [])) tid
        ≡ joined
            (value_for_thread cv2 tid)
            (value cv1 tid)
            (value_for_thread (max_into cv1 cv2 []) tid)
    second = value_for_thread-max_into cv2 cv1 (max_into cv1 cv2 []) tid m2

    join :
        (a b : Option ℕ)
        → (value_or (joined b (value_or a 0) (joined a (value_or b 0) none)) 0
            ≡ max (value_or a 0) (value_or b 0))
          × ((joined b (value_or a 0) (joined a (value_or b 0) none) ≡ none)
              ↔ ((a ≡ none) × (b ≡ none)))
    join none none = (omega arith, (λ h. (refl, refl), λ h. refl))
    join none (some j) = (omega arith, (λ h. cc, λ h. cc))
    join (some i) none = (omega arith, (λ h. cc, λ h. cc))
    join (some i) (some j) = (omega arith, (λ h. cc, λ h. cc))
