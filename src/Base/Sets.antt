-- ===== src/Base/Sets.antt =====
-- `std::unordered_set<tid_t>` and the searches of `std::vector` and `std::deque`: a set is the list of
-- its elements in the order of an iteration, which no theorem depends on.
use Prim.Native.Nat.{ℕ}
use mathlib.Core.Path.{◌≡◌, refl}
use mathlib.Core.Logic.{inl, inr}
use mathlib.Core.Bool.{Bool, true, false, not, ◌&&◌, ◌||◌}
use mathlib.Core.List.{List, [], ◌∷◌, ◌++◌}
use native.Mathlib.Omega.{arith}
use dmtcp_integration.Base.Tests.{◌==◌, if◌then◌else◌, Bool-cases}

-- `count(a) > 0`, and `find` that does not return `end()`.
unfoldable pub contains : List ℕ → ℕ → Bool
contains [] a = false
contains (x ∷ xs) a = x == a || contains xs a

unfoldable pub insert : ℕ → List ℕ → List ℕ
unfolding contains
insert a xs = if contains xs a then xs else a ∷ xs

-- `erase(a)` of a set, and the erase-remove idiom on a vector.
unfoldable pub erase : ℕ → List ℕ → List ℕ
erase a [] = []
erase a (x ∷ xs) = if x == a then erase a xs else x ∷ erase a xs

-- `erase(find(begin, end, a))`, guarded by a test for `end`.
unfoldable pub erase_first : ℕ → List ℕ → List ℕ
erase_first a [] = []
erase_first a (x ∷ xs) = if x == a then xs else x ∷ erase_first a xs

-- A loop of insertions.
unfoldable pub insert_all : List ℕ → List ℕ → List ℕ
insert_all [] xs = xs
insert_all (a ∷ bs) xs = insert_all bs (insert a xs)

pub contains-insert : (a b : ℕ) (xs : List ℕ) → contains (insert a xs) b ≡ (a == b || contains xs b)
unfolding contains insert
contains-insert a b xs = elim (Bool-cases (contains xs a)) [
  | inl old ↦ rw old (held xs old)
  | inr new ↦ rw new refl
]
  where
    held : (ys : List ℕ) → contains ys a ≡ true → contains ys b ≡ (a == b || contains ys b)
    held [] h = ground arith
    held (y ∷ ys) h = ground (arith, held ys)

pub contains-erase :
    (a b : ℕ) (xs : List ℕ) → contains (erase a xs) b ≡ (not (a == b) && contains xs b)
unfolding contains erase
contains-erase a b [] = ground arith
contains-erase a b (x ∷ xs) = ground (arith, contains-erase a b xs)

pub contains-append :
    (a : ℕ) (xs ys : List ℕ) → contains (xs ++ ys) a ≡ (contains xs a || contains ys a)
unfolding contains
contains-append a [] ys = refl
contains-append a (x ∷ xs) ys = ground (arith, contains-append a xs ys)

pub contains-insert_all :
    (bs xs : List ℕ) (b : ℕ) → contains (insert_all bs xs) b ≡ (contains bs b || contains xs b)
unfolding contains insert_all
contains-insert_all [] xs b = refl
contains-insert_all (a ∷ bs) xs b =
    ground (arith, contains-insert_all bs (insert a xs) b, contains-insert a b xs)

pub ruleset set_laws = (contains-insert, contains-erase, contains-append, contains-insert_all)
