-- ===== src/Strides/Size.antt =====
-- crates/mohu-buffer/src/strides.rs: `shape_size` against the exact product.
use mohu_fork_nirman.Base.{
  ℕ, zero, suc, ◌*◌, ◌≤◌, ◌<◌, ◌≡◌, ◌⊎◌, inl, inr, refl, ap, subst, ◌∙◌, List, [], ◌∷◌, arith,
}
use native.Mathlib.Nat.{mul_assoc, one-mul}
use mohu_fork_nirman.Base.Words.{usize_max, isize_max}
use mohu_fork_nirman.Errors.{MohuResult, ok, err, shape_overflow}
use mohu_fork_nirman.Strides.{size_step, shape_size_from, shape_size}
use mohu_fork_nirman.Strides.Bounds.{product, zero-or-positive}

-- A round multiplies exactly, or fails: on a product that no `usize` holds, or above `isize::MAX`.
size_step_lem :
    (total dim : ℕ)
    → ((total * dim ≤ isize_max) × (size_step total dim ≡ ok (total * dim)))
      ⊎ ((isize_max < total * dim)
          × ((size_step total dim ≡ err (shape_overflow usize_max))
              ⊎ (size_step total dim ≡ err (shape_overflow isize_max))))
unfolding size_step
size_step_lem total dim = ground arith

shape_size_from-ok :
    (total : ℕ) (ds : List ℕ) (n : ℕ)
    → total ≤ isize_max
    → shape_size_from total ds ≡ ok n
    → (n ≡ total * product ds) × (n ≤ isize_max)
unfolding shape_size_from
shape_size_from-ok total [] n h e = grind arith
shape_size_from-ok total (d ∷ ds) n h e = elim (size_step_lem total d) [
  | inl (small, s) ↦
      let rest = shape_size_from-ok (total * d) ds n small (ground (arith, s, e)) in
      (grind (arith, rest.0), rest.1)
  | inr (big, inl s) ↦ ground (arith, s, e)
  | inr (big, inr s) ↦ ground (arith, s, e)
]

abbrev Overflows : MohuResult ℕ → Type 0
Overflows r = (r ≡ err (shape_overflow usize_max)) ⊎ (r ≡ err (shape_overflow isize_max))

-- A computed size against the exact product `p`.
abbrev Sized : ℕ → MohuResult ℕ → Type 0
Sized p r = ((p ≤ isize_max) × (r ≡ ok p)) ⊎ ((isize_max < p) × Overflows r)

grows : (t d p : ℕ) → 0 < t * (d * p) → t * d ≤ t * (d * p)
grows t d zero h = absurd (omega arith)
grows t d (suc p) h = grind arith

shape_size_from-Sized :
    (total : ℕ) (ds : List ℕ)
    → total ≤ isize_max
    → 0 < total * product ds
    → Sized (total * product ds) (shape_size_from total ds)
unfolding shape_size_from
shape_size_from-Sized total [] b h = inl (omega arith, ap ok (omega arith))
shape_size_from-Sized total (d ∷ ds) b h = elim (size_step_lem total d) [
  | inl (small, s) ↦ rw s (
      subst (λ p. Sized p (shape_size_from (total * d) ds)) (mul_assoc total d (product ds))
        (shape_size_from-Sized (total * d) ds small (rw mul_assoc h)))
  | inr (big, inl s) ↦ rw s (inr (omega (arith, grows total d (product ds) h), inl refl))
  | inr (big, inr s) ↦ rw s (inr (omega (arith, grows total d (product ds) h), inr refl))
]

shape_size_from-total :
    (total : ℕ) (ds : List ℕ)
    → ((n : ℕ) × (shape_size_from total ds ≡ ok n)) ⊎ Overflows (shape_size_from total ds)
unfolding shape_size_from
shape_size_from-total total [] = inl (total, refl)
shape_size_from-total total (d ∷ ds) = elim (size_step_lem total d) [
  | inl (small, s) ↦ rw s (shape_size_from-total (total * d) ds)
  | inr (big, inl s) ↦ rw s (inr (inl refl))
  | inr (big, inr s) ↦ rw s (inr (inr refl))
]

pub shape_size-ok :
    (shape : List ℕ) (n : ℕ) → shape_size shape ≡ ok n → (n ≡ product shape) × (n ≤ isize_max)
unfolding shape_size
shape_size-ok shape n e =
    let r = shape_size_from-ok 1 shape n (omega arith) e in (r.0 ∙ one-mul (product shape), r.1)

-- `shape_size` of a shape with no zero returns the exact product whenever that is at most
-- `isize::MAX`, and otherwise an overflow error; of a shape with a zero it returns 0 or, where the
-- dimensions before the zero overflow, an overflow error.
pub shape_size-product :
    (shape : List ℕ)
    → ((0 < product shape) × Sized (product shape) (shape_size shape))
      ⊎ ((product shape ≡ 0) × ((shape_size shape ≡ ok 0) ⊎ Overflows (shape_size shape)))
unfolding shape_size
shape_size-product shape = elim (zero-or-positive (product shape)) [
  | inl z ↦ elim (shape_size_from-total 1 shape) [
    | inl (n, e) ↦ inr (z, inl (e ∙ ap ok ((shape_size-ok shape n e).0 ∙ z)))
    | inr o ↦ inr (z, inr o)
  ]
  | inr p ↦ inl (
    p,
    subst (λ q. Sized q (shape_size_from 1 shape)) (one-mul (product shape))
        (shape_size_from-Sized 1 shape (omega arith) (omega arith)),
  )
]
