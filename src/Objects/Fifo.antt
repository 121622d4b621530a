-- ===== src/Objects/Fifo.antt =====
-- The specification of the waiting threads of a lock: one queue of threads, each with the role in which
-- it waits. `tids` and `of_role` are the views of it that MCRWLock and MCRWWLock store separately.
use dmtcp_integration.Base.{
  ℕ, ◌≡◌, refl, ap, Bool, Option, none, some, List, [], ◌∷◌, ◌++◌, arith, ◌==◌, if◌then◌else◌,
}

module _ {R : Type 0} where
  unfoldable pub tids : List (R × ℕ) → List ℕ
  tids [] = []
  tids ((r, t) ∷ q) = t ∷ tids q

  -- The role of the first entry of a thread.
  unfoldable pub role_of : List (R × ℕ) → ℕ → Option R
  role_of [] t = none
  role_of ((r, u) ∷ q) t = if u == t then some r else role_of q t

  pub tids-append : (q p : List (R × ℕ)) → tids (q ++ p) ≡ tids q ++ tids p
  unfolding tids
  tids-append [] p = refl
  tids-append ((r, t) ∷ q) p = ap (◌∷◌ t) (tids-append q p)

  pub tids-snoc : (q : List (R × ℕ)) (r : R) (t : ℕ) → tids (q ++ (r, t) ∷ []) ≡ tids q ++ t ∷ []
  unfolding tids
  tids-snoc q r t = tids-append q ((r, t) ∷ [])

-- The threads of the roles that a test accepts, oldest first.
module _ {R : Type 0} (p : R → Bool) where
  unfoldable pub of_role : List (R × ℕ) → List ℕ
  of_role [] = []
  of_role ((r, t) ∷ q) = if p r then t ∷ of_role q else of_role q

  pub of_role-snoc :
      (q : List (R × ℕ)) (r : R) (t : ℕ)
      → of_role (q ++ (r, t) ∷ []) ≡ (if p r then of_role q ++ t ∷ [] else of_role q)
  unfolding of_role
  of_role-snoc [] r t = refl
  of_role-snoc ((s, u) ∷ q) r t = ground (arith, of_role-snoc q r t)
