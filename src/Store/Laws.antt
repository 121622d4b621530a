-- ===== src/Store/Laws.antt =====
-- Reads of the object store of include/mcmini/MCObjectStore.h after its writes.
use dmtcp_integration.Base.{
  ℕ, zero, suc, ◌≤◌, ◌≡◌, refl, ap, ◌∙◌, ◌≢◌, inl, inr, false, Option, none, some, List, [], ◌∷◌,
  ◌++◌, ◌==◌, arith, Bool-cases, length, map, get_elem?, ◌>>=◌,
}
use dmtcp_integration.Store.{
  StorageObject, ObjectStore, find, insert_pair, register_new_object, reset_object,
  reset_objects_to_initial_state_in_store, get_object_with_id, map_system_address_to_shadow,
  get_object_with_system_address, write_object, write_current,
}

pub find-insert_pair :
    (m : List (ℕ × ℕ)) (k v : ℕ) → find m k ≡ none → find (insert_pair k v m) k ≡ some v
unfolding find insert_pair
find-insert_pair [] k v h = grind arith
find-insert_pair ((a, b) ∷ m) k v h = elim (Bool-cases (a == k)) [
  | inl e ↦ grind arith
  | inr e ↦ ground (arith, find-insert_pair m k v)
]

pub find-insert_pair_known :
    (m : List (ℕ × ℕ)) (k v w : ℕ) → find m k ≡ some w → find (insert_pair k v m) k ≡ some w
unfolding find insert_pair
find-insert_pair_known [] k v w h = cc
find-insert_pair_known ((a, b) ∷ m) k v w h = elim (Bool-cases (a == k)) [
  | inl e ↦ grind arith
  | inr e ↦ ground (arith, find-insert_pair_known m k v w)
]

pub find-insert_pair_other :
    (m : List (ℕ × ℕ)) (k v j : ℕ) → (k == j) ≡ false → find (insert_pair k v m) j ≡ find m j
unfolding find insert_pair
find-insert_pair_other [] k v j h = grind arith
find-insert_pair_other ((a, b) ∷ m) k v j h = elim (Bool-cases (a == k)) [
  | inl e ↦ grind arith
  | inr e ↦ ground (arith, find-insert_pair_other m k v j h)
]

module _ {V W : Type 0} where
  get_elem?-map :
      (f : V → W) (xs : List V) (i : ℕ)
      → get_elem? (map f xs) i ≡ (get_elem? xs i >>= λ x. some (f x))
  get_elem?-map f [] i = refl
  get_elem?-map f (x ∷ xs) zero = refl
  get_elem?-map f (x ∷ xs) (suc i) = get_elem?-map f xs i

module _ {V : Type 0} where
  current_at : List (StorageObject V) → ℕ → Option V
  current_at os i = do o ← get_elem? os i; some o.current

  current_at-write_self :
      (os : List (StorageObject V)) (i : ℕ) (v w : V)
      → current_at os i ≡ some v
      → current_at (write_current os i w) i ≡ some w
  unfolding current_at write_current
  current_at-write_self [] i v w h = cc
  current_at-write_self (o ∷ os) zero v w h = refl
  current_at-write_self (o ∷ os) (suc i) v w h = current_at-write_self os i v w h

  current_at-write_other :
      (os : List (StorageObject V)) (i j : ℕ) (w : V)
      → i ≢ j
      → current_at (write_current os i w) j ≡ current_at os j
  unfolding current_at write_current
  current_at-write_other [] i j w n = refl
  current_at-write_other (o ∷ os) zero zero w n = absurd (n refl)
  current_at-write_other (o ∷ os) zero (suc j) w n = refl
  current_at-write_other (o ∷ os) (suc i) zero w n = refl
  current_at-write_other (o ∷ os) (suc i) (suc j) w n =
      current_at-write_other os i j w (λ e. n (ap suc e))

  write_current_comm :
      (os : List (StorageObject V)) (i j : ℕ) (v w : V)
      → i ≢ j
      → write_current (write_current os i v) j w ≡ write_current (write_current os j w) i v
  unfolding write_current
  write_current_comm [] i j v w n = refl
  write_current_comm (o ∷ os) zero zero v w n = absurd (n refl)
  write_current_comm (o ∷ os) zero (suc j) v w n = refl
  write_current_comm (o ∷ os) (suc i) zero v w n = refl
  write_current_comm (o ∷ os) (suc i) (suc j) v w n =
      ap (λ l. o ∷ l) (write_current_comm os i j v w (λ e. n (ap suc e)))

  write_current-write_current :
      (os : List (StorageObject V)) (i : ℕ) (v w : V)
      → write_current (write_current os i v) i w ≡ write_current os i w
  unfolding write_current
  write_current-write_current [] i v w = refl
  write_current-write_current (o ∷ os) zero v w = refl
  write_current-write_current (o ∷ os) (suc i) v w =
      ap (λ l. o ∷ l) (write_current-write_current os i v w)

  write_current-read :
      (os : List (StorageObject V)) (i : ℕ) (v : V)
      → current_at os i ≡ some v
      → write_current os i v ≡ os
  unfolding current_at write_current
  write_current-read [] i v h = refl
  write_current-read (o ∷ os) zero v h = grind arith
  write_current-read (o ∷ os) (suc i) v h = ap (λ l. o ∷ l) (write_current-read os i v h)

  current_at-append_left :
      (os ps : List (StorageObject V)) (i : ℕ) (v : V)
      → current_at os i ≡ some v
      → current_at (os ++ ps) i ≡ some v
  unfolding current_at
  current_at-append_left [] ps i v h = cc
  current_at-append_left (o ∷ os) ps zero v h = h
  current_at-append_left (o ∷ os) ps (suc i) v h = current_at-append_left os ps i v h

  current_at-append_end :
      (os : List (StorageObject V)) (o : StorageObject V)
      → current_at (os ++ o ∷ []) (length os) ≡ some o.current
  unfolding current_at
  current_at-append_end [] o = refl
  current_at-append_end (p ∷ os) o = current_at-append_end os o

  current_at-beyond : (os : List (StorageObject V)) (i : ℕ) → length os ≤ i → current_at os i ≡ none
  unfolding current_at
  current_at-beyond [] i h = refl
  current_at-beyond (o ∷ os) zero h = absurd (omega (arith, h))
  current_at-beyond (o ∷ os) (suc i) h = current_at-beyond os i (omega (arith, h))

  pub get_object_with_id-beyond :
      (s : ObjectStore V) (i : ℕ) → length s.storage ≤ i → get_object_with_id s i ≡ none
  unfolding get_object_with_id current_at
  get_object_with_id-beyond s i h = current_at-beyond s.storage i h

  pub get_object_with_id-append_end :
      (s t : ObjectStore V) (o : StorageObject V)
      → t.storage ≡ s.storage ++ o ∷ []
      → get_object_with_id t (length s.storage) ≡ some o.current
  unfolding get_object_with_id current_at
  get_object_with_id-append_end s t o h =
      ap (λ os. current_at os (length s.storage)) h ∙ current_at-append_end s.storage o

  pub get_object_with_id-append_left :
      (s t : ObjectStore V) (o : StorageObject V) (i : ℕ) (v : V)
      → t.storage ≡ s.storage ++ o ∷ []
      → get_object_with_id s i ≡ some v
      → get_object_with_id t i ≡ some v
  unfolding get_object_with_id current_at
  get_object_with_id-append_left s t o i v h e =
      ap (λ os. current_at os i) h ∙ current_at-append_left s.storage (o ∷ []) i v e

  pub get_object_with_id-write_object :
      (s : ObjectStore V) (i : ℕ) (v w : V)
      → get_object_with_id s i ≡ some v
      → get_object_with_id (write_object s i w) i ≡ some w
  unfolding get_object_with_id write_object current_at
  get_object_with_id-write_object s i v w h = current_at-write_self s.storage i v w h

  pub get_object_with_id-write_other :
      (s : ObjectStore V) (i j : ℕ) (w : V)
      → i ≢ j
      → get_object_with_id (write_object s i w) j ≡ get_object_with_id s j
  unfolding get_object_with_id write_object current_at
  get_object_with_id-write_other s i j w n = current_at-write_other s.storage i j w n

  pub write_object_comm :
      (s : ObjectStore V) (i j : ℕ) (v w : V)
      → i ≢ j
      → write_object (write_object s i v) j w ≡ write_object (write_object s j w) i v
  unfolding write_object
  write_object_comm s i j v w n =
      ap (λ os. record s { storage = os }) (write_current_comm s.storage i j v w n)

  pub write_object-write_object :
      (s : ObjectStore V) (i : ℕ) (v w : V)
      → write_object (write_object s i v) i w ≡ write_object s i w
  unfolding write_object
  write_object-write_object s i v w =
      ap (λ os. record s { storage = os }) (write_current-write_current s.storage i v w)

  pub write_object-read :
      (s : ObjectStore V) (i : ℕ) (v : V) → get_object_with_id s i ≡ some v → write_object s i v ≡ s
  unfolding get_object_with_id write_object current_at
  write_object-read s i v h =
      ap (λ os. record s { storage = os }) (write_current-read s.storage i v h)

-- Objects with their `copy()`.
module _ {V : Type 0} (copy : V → V) where
  pub register_new_object-result :
      (s t : ObjectStore V) (v : V) (id : ℕ)
      → register_new_object copy s v ≡ some (id, t)
      → (id ≡ length s.storage)
        × (t ≡ record s {
          storage = s.storage ++ record { current = v; initial_state = copy v } ∷ [];
        })
  unfolding register_new_object
  register_new_object-result s t v id r = ground arith

  -- An object that is registered under an address that no earlier object has is found by its address,
  -- and every object that was found by its id is still found by it.
  pub register_new_object-lookup :
      (s t : ObjectStore V) (v : V) (address id : ℕ)
      → find s.system_visible_object_map address ≡ none
      → register_new_object copy s v ≡ some (id, t)
      → (get_object_with_system_address (map_system_address_to_shadow t address id) address
          ≡ some v)
        × ((i : ℕ) (w : V)
            → get_object_with_id s i ≡ some w
            → get_object_with_id (map_system_address_to_shadow t address id) i ≡ some w)
  unfolding register_new_object get_object_with_system_address map_system_address_to_shadow
      get_object_with_id current_at
  register_new_object-lookup s t v address id fresh r =
      let (e, f) = register_new_object-result s t v id r in
      (
        grind (
          arith,
          e,
          f,
          find-insert_pair s.system_visible_object_map address id fresh,
          current_at-append_end s.storage (record { current = v; initial_state = copy v }),
        ),
        λ i w h. grind (
          arith,
          f,
          current_at-append_left s.storage (record { current = v; initial_state = copy v } ∷ []) i w
              h,
        ),
      )

  reset-write_current :
      (os : List (StorageObject V)) (i : ℕ) (w : V)
      → map (reset_object copy) (write_current os i w) ≡ map (reset_object copy) os
  unfolding reset_object write_current
  reset-write_current [] i w = refl
  reset-write_current (o ∷ os) zero w = refl
  reset-write_current (o ∷ os) (suc i) w =
      ap (λ l. record o { current = copy o.initial_state } ∷ l) (reset-write_current os i w)

  -- A reset forgets every write to an object since its registration.
  pub reset-write_object :
      (s : ObjectStore V) (i : ℕ) (w : V)
      → reset_objects_to_initial_state_in_store copy (write_object s i w)
        ≡ reset_objects_to_initial_state_in_store copy s
  unfolding reset_objects_to_initial_state_in_store write_object
  reset-write_object s i w =
      ap (λ os. record s { storage = os }) (reset-write_current s.storage i w)
