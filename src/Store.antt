-- ===== src/Store.antt =====
-- include/mcmini/MCObjectStore.h and src/MCObjectStore.cpp: the store of the visible objects, for objects
-- of a type `V` with a virtual `copy()`.
pub mod Laws
use dmtcp_integration.Base.{
  ℕ, zero, suc, ◌+◌, Option, none, some, List, [], ◌∷◌, ◌++◌, ◌==◌, ltb, if◌then◌else◌, length,
  get_elem?, set, map, assert, ◌>>=◌, ◌>>◌,
}

-- `StorageObject`
pub record StorageObject (V : Type 0) : Type 0 where
  pub current : V
  pub initial_state : V

-- The array `storage` ends at `storageTop`. The map's entries stand in the order of their insertion.
pub record ObjectStore (V : Type 0) : Type 0 where
  pub storage : List (StorageObject V)
  pub system_visible_object_map : List (ℕ × ℕ)

-- `MAX_TOTAL_VISIBLE_OBJECTS_IN_PROGRAM`
abbrev pub max_total_visible_objects : ℕ
max_total_visible_objects = 10000

-- `MCObjectStore()`
unfoldable pub new : {V : Type 0} → ObjectStore V
new = record { storage = []; system_visible_object_map = [] }

-- `std::unordered_map::find`
unfoldable pub find : List (ℕ × ℕ) → ℕ → Option ℕ
find [] key = none
find ((k, v) ∷ m) key = if k == key then some v else find m key

-- `std::unordered_map::insert`, which keeps the value of a key that the map has.
unfoldable pub insert_pair : ℕ → ℕ → List (ℕ × ℕ) → List (ℕ × ℕ)
insert_pair key v [] = (key, v) ∷ []
insert_pair key v ((k, w) ∷ m) = if k == key then (k, w) ∷ m else (k, w) ∷ insert_pair key v m

module _ {V : Type 0} (copy : V → V) where
  -- The new object's id and the store with it. `none` is the assertion on the store's capacity.
  unfoldable pub register_new_object : ObjectStore V → V → Option (ℕ × ObjectStore V)
  register_new_object s object = do
    assert (ltb (length s.storage) max_total_visible_objects)
    some (
      length s.storage,
      record s {
        storage = s.storage ++ record { current = object; initial_state = copy object } ∷ [];
      },
    )

  -- The loop's body for one object.
  unfoldable pub reset_object : StorageObject V → StorageObject V
  reset_object o = record o { current = copy o.initial_state }

  unfoldable pub reset_objects_to_initial_state_in_store : ObjectStore V → ObjectStore V
  unfolding reset_object
  reset_objects_to_initial_state_in_store s = record s { storage = map reset_object s.storage }

module _ {V : Type 0} where
  -- `none` is a read above `storageTop`.
  unfoldable pub get_object_with_id : ObjectStore V → ℕ → Option V
  get_object_with_id s id = do o ← get_elem? s.storage id; some o.current

  unfoldable pub map_system_address_to_shadow : ObjectStore V → ℕ → ℕ → ObjectStore V
  unfolding insert_pair
  map_system_address_to_shadow s address id = record s {
    system_visible_object_map = insert_pair address id s.system_visible_object_map;
  }

  -- `none` is the null pointer.
  unfoldable pub get_object_with_system_address : ObjectStore V → ℕ → Option V
  unfolding find get_object_with_id
  get_object_with_system_address s address = do
    id ← find s.system_visible_object_map address
    get_object_with_id s id

  unfoldable pub write_current : List (StorageObject V) → ℕ → V → List (StorageObject V)
  write_current [] id object = []
  write_current (o ∷ os) zero object = record o { current = object } ∷ os
  write_current (o ∷ os) (suc id) object = o ∷ write_current os id object

  -- A write through the shared pointer that `getObjectWithId` returns.
  unfoldable pub write_object : ObjectStore V → ℕ → V → ObjectStore V
  unfolding write_current
  write_object s id object = record s { storage = write_current s.storage id object }
