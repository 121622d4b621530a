-- ===== src/Transitions/Execution/Commute.antt =====
-- What one transition does to an object does not depend on what another does to a different object.
use dmtcp_integration.Base.{
  ℕ, Option, none, some, ◌≡◌, ◌≢◌, refl, sym, ap, ◌∙◌, inl, inr, Option-cases, ◌>>=◌, arith,
}
use dmtcp_integration.Store.{get_object_with_id, write_object}
use dmtcp_integration.Store.Laws.{
  get_object_with_id-write_object, get_object_with_id-write_other, write_object_comm,
  write_object-write_object,
}
use dmtcp_integration.Transitions.Program.{Program, VisibleObject, call_method}

-- The program after a write to one object.
abbrev pub with_object : Program → ℕ → VisibleObject → Program
with_object p i v = record p { object_storage = write_object p.object_storage i v }

pub call_method-some :
    (p : Program) (i : ℕ) (f : VisibleObject → Option VisibleObject) (v w : VisibleObject)
    → get_object_with_id p.object_storage i ≡ some v
    → f v ≡ some w
    → call_method p i f ≡ some (with_object p i w)
unfolding call_method
call_method-some p i f v w e k = rw (e, k) refl

pub call_method-fails :
    (p : Program) (i : ℕ) (f : VisibleObject → Option VisibleObject) (v : VisibleObject)
    → get_object_with_id p.object_storage i ≡ some v
    → f v ≡ none
    → call_method p i f ≡ none
unfolding call_method
call_method-fails p i f v e k = rw (e, k) refl

pub call_method-missing :
    (p : Program) (i : ℕ) (f : VisibleObject → Option VisibleObject)
    → get_object_with_id p.object_storage i ≡ none
    → call_method p i f ≡ none
unfolding call_method
call_method-missing p i f e = rw e refl

-- Two calls on one object are one call of the two methods in turn.
pub call_method-call_method :
    (p : Program) (i : ℕ) (f g : VisibleObject → Option VisibleObject)
    → (call_method p i f >>= λ q. call_method q i g) ≡ call_method p i (λ v. f v >>= g)
call_method-call_method p i f g = elim (Option-cases (get_object_with_id p.object_storage i)) [
  | inl e ↦ rw (call_method-missing p i f e, call_method-missing p i (λ v. f v >>= g) e) refl
  | inr (v, e) ↦ elim (Option-cases (f v)) [
    | inl k ↦
        rw (call_method-fails p i f v e k, call_method-fails p i (λ v. f v >>= g) v e (rw k refl))
          refl
    | inr (w, k) ↦
        let read = get_object_with_id-write_object p.object_storage i v w e in
        elim (Option-cases (g w)) [
          | inl m ↦
              rw
                (
                  call_method-some p i f v w e k,
                  call_method-fails (with_object p i w) i g w read m,
                  call_method-fails p i (λ v. f v >>= g) v e (rw (k, m) refl),
                )
                refl
          | inr (u, m) ↦
              rw
                (
                  call_method-some p i f v w e k,
                  call_method-some (with_object p i w) i g w u read m,
                  call_method-some p i (λ v. f v >>= g) v u e (rw (k, m) refl),
                  write_object-write_object p.object_storage i w u,
                )
                refl
        ]
  ]
]

-- A call after a call on a different object finds what it would have found before it.
call_method-after :
    (p : Program) (i j : ℕ) (v : VisibleObject)
    → i ≢ j
    → get_object_with_id (with_object p i v).object_storage j
      ≡ get_object_with_id p.object_storage j
call_method-after p i j v n = get_object_with_id-write_other p.object_storage i j v n

still_none :
    (p : Program) (i j : ℕ) (g : VisibleObject → Option VisibleObject) (w : VisibleObject)
    → i ≢ j
    → call_method p j g ≡ none
    → call_method (with_object p i w) j g ≡ none
still_none p i j g w n h = elim (Option-cases (get_object_with_id p.object_storage j)) [
  | inl e ↦ call_method-missing (with_object p i w) j g (call_method-after p i j w n ∙ e)
  | inr (x, e) ↦ elim (Option-cases (g x)) [
    | inl k ↦ call_method-fails (with_object p i w) j g x (call_method-after p i j w n ∙ e) k
    | inr (y, k) ↦ cc (h, call_method-some p j g x y e k)
  ]
]

-- A call that does not succeed stops the two calls in either order.
call_method-stops :
    (p : Program) (i j : ℕ) (f g : VisibleObject → Option VisibleObject)
    → i ≢ j
    → call_method p j g ≡ none
    → (call_method p i f >>= λ q. call_method q j g) ≡ none
call_method-stops p i j f g n h = elim (Option-cases (get_object_with_id p.object_storage i)) [
  | inl e ↦ rw (call_method-missing p i f e) refl
  | inr (v, e) ↦ elim (Option-cases (f v)) [
    | inl k ↦ rw (call_method-fails p i f v e k) refl
    | inr (w, k) ↦ rw (call_method-some p i f v w e k) (still_none p i j g w n h)
  ]
]

-- What a call that succeeds has found and written.
pub call_method-found :
    (p q : Program) (i : ℕ) (f : VisibleObject → Option VisibleObject)
    → call_method p i f ≡ some q
    → (v : VisibleObject) × (w : VisibleObject) × (get_object_with_id p.object_storage i ≡ some v)
      × (f v ≡ some w)
      × (q ≡ with_object p i w)
call_method-found p q i f h = elim (Option-cases (get_object_with_id p.object_storage i)) [
  | inl e ↦ absurd (ground (arith, h, call_method-missing p i f e))
  | inr (v, e) ↦ elim (Option-cases (f v)) [
    | inl k ↦ absurd (ground (arith, h, call_method-fails p i f v e k))
    | inr (w, k) ↦ (v, w, e, k, ground (arith, h, call_method-some p i f v w e k))
  ]
]

-- Calls on different objects may be exchanged.
pub call_method_comm :
    (p : Program) (i j : ℕ) (f g : VisibleObject → Option VisibleObject)
    → i ≢ j
    → (call_method p i f >>= λ q. call_method q j g)
      ≡ (call_method p j g >>= λ q. call_method q i f)
call_method_comm p i j f g n = elim (Option-cases (call_method p i f)) [
  | inl a ↦ rw a (sym (call_method-stops p j i g f (λ e. n (sym e)) a))
  | inr (q, a) ↦ elim (Option-cases (call_method p j g)) [
    | inl b ↦ rw b (call_method-stops p i j f g n b)
    | inr (r, b) ↦
        let (v, v', e, k, s) = call_method-found p q i f a in
        let (w, w', d, m, t) = call_method-found p r j g b in
        rw (a, b, s, t)
          (call_method-some (with_object p i v') j g w w' (call_method-after p i j v' n ∙ d) m
            ∙ ap (λ st. some (record p { object_storage = st }))
                (write_object_comm p.object_storage i j v' w' n)
            ∙ sym (
                call_method-some (with_object p j w') i f v v'
                  (call_method-after p j i w' (λ x. n (sym x)) ∙ e) k))
  ]
]
