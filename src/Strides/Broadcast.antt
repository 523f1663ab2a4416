-- ===== src/Strides/Broadcast.antt =====
-- crates/mohu-buffer/src/strides.rs: the outcome of `broadcast_strides`.
use mohu_fork_nirman.Base.{
  ℕ, suc, ◌-◌, ◌≤◌, ◌≡◌, ◌⊎◌, inl, inr, refl, ap, sym, List, [], ◌∷◌, ◌++◌, ◌==◌, ==_iff,
  if◌then◌else◌, length, drop, replicate, arith, lt→ltb, ge→ltb, ne→==, length-append, length-drop,
  length-replicate, dec_lt, ℕ_discrete,
}
use mohu_fork_nirman.Errors.{MohuError, MohuResult, ok, err, broadcast_error, ◌>>=◌}
use mohu_fork_nirman.Strides.{broadcast_axes, broadcast_strides}

-- Axis by axis the source has the target's size or size 1.
abbrev pub Fits : List ℕ → List ℕ → Type 0
Fits [] ts = Unit {0}
Fits (s ∷ ss) [] = ⊥
Fits (s ∷ ss) (t ∷ ts) = ((s ≡ t) ⊎ (s ≡ 1)) × Fits ss ts

-- The source's element that an index of the target reads: index 0 on a repeated axis.
abbrev pub source_axes : List ℕ → List ℕ → List ℕ → List ℕ
source_axes (s ∷ ss) (t ∷ ts) (i ∷ is) = (if s == t then i else 0) ∷ source_axes ss ts is
source_axes [] ts is = []
source_axes ss [] is = []
source_axes ss ts [] = []

-- The outcome on the aligned axes, where the loop fails with `e`.
abbrev Aligned : MohuError → List ℕ → List ℕ → MohuResult (List ℕ) → Type 0
Aligned e ss ts r =
    (Fits ss ts × ((out : List ℕ) × (r ≡ ok out) × (length out ≡ length ss)))
    ⊎ ((¬ Fits ss ts) × (r ≡ err e))

Aligned-cons :
    (e : MohuError) (s st t : ℕ) (ss ts : List ℕ) (rest : MohuResult (List ℕ))
    → Aligned e ss ts rest
    → Aligned e (s ∷ ss) (t ∷ ts) (
        if s == t
        then (rest >>= λ out. ok (st ∷ out))
        else if s == 1
        then (rest >>= λ out. ok (0 ∷ out))
        else err e)
Aligned-cons e s st t ss ts rest (inl (fits, (out, r, l))) = elim (ℕ_discrete s t) [
  | yes p ↦ rw ((==_iff s t).1 p, r) (inl ((inl p, fits), (st ∷ out, refl, ap suc l)))
  | no q ↦ rw (ne→== s t q) (elim (ℕ_discrete s 1) [
    | yes p ↦ rw ((==_iff s 1).1 p, r) (inl ((inr p, fits), (0 ∷ out, refl, ap suc l)))
    | no o ↦ rw (ne→== s 1 o) (inr ((λ f. elim f.0 [ inl x ↦ q x | inr x ↦ o x ]), refl))
  ])
]
Aligned-cons e s st t ss ts rest (inr (n, r)) = rw r (inr ((λ f. n f.1), ground arith))

broadcast_axes-Aligned :
    (e : MohuError) (ss sts ts : List ℕ)
    → length ss ≡ length sts
    → length ss ≡ length ts
    → Aligned e ss ts (broadcast_axes (err e) ss sts ts)
unfolding broadcast_axes
broadcast_axes-Aligned e [] sts ts l m = inl (tt, ([], refl, refl))
broadcast_axes-Aligned e (s ∷ ss) [] ts l m = absurd (omega arith)
broadcast_axes-Aligned e (s ∷ ss) (st ∷ sts) [] l m = absurd (omega arith)
broadcast_axes-Aligned e (s ∷ ss) (st ∷ sts) (t ∷ ts) l m =
    Aligned-cons e s st t ss ts _ (broadcast_axes-Aligned e ss sts ts (omega arith) (omega arith))

-- For a source with as many strides as axes, `broadcast_strides` succeeds exactly when the source
-- has no more axes than the target and each of its axes has the size of the target's axis that it
-- is aligned with or size 1; it then gives a stride for each axis of the target, and otherwise the
-- broadcast error.
pub broadcast_strides_iff :
    (src strides tgt : List ℕ)
    → length src ≡ length strides
    → ((length src ≤ length tgt)
        × Fits src (drop (length tgt - length src) tgt)
        × ((out : List ℕ) × (broadcast_strides src strides tgt ≡ ok out)
            × (length out ≡ length tgt)))
      ⊎ ((¬ ((length src ≤ length tgt) × Fits src (drop (length tgt - length src) tgt)))
          × (broadcast_strides src strides tgt ≡ err (broadcast_error src tgt)))
unfolding broadcast_strides
broadcast_strides_iff src strides tgt l = elim (dec_lt (length tgt) (length src)) [
  | yes p ↦ inr ((λ f. absurd (omega (arith, f.0))), rw (lt→ltb _ _ p))
  | no q ↦
      let tail = drop (length tgt - length src) tgt in
      let size : length tail ≡ length src =
        omega (arith, length-drop (length tgt - length src) tgt) in
      elim (broadcast_axes-Aligned (broadcast_error src tgt) src strides tail l (sym size)) [
        | inl (fits, (out, e, n)) ↦ inl (
          omega arith,
          fits,
          (
            replicate (length tgt - length src) 0 ++ out,
            rw (ge→ltb (length tgt) (length src) q, e),
            omega (
              arith,
              length-append (replicate (length tgt - length src) 0) out,
              length-replicate {A = ℕ} (length tgt - length src) 0,
            ),
          ),
        )
        | inr (n, e) ↦ inr ((λ f. n f.1), rw (ge→ltb (length tgt) (length src) q, e))
      ]
]
