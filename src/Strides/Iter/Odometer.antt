-- ===== src/Strides/Iter/Odometer.antt =====
-- crates/mohu-buffer/src/strides.rs: one `advance` against the row-major number.
use mohu_fork_nirman.Base.{
  ℕ, zero, suc, ◌+◌, ◌*◌, ◌<◌, ◌≡◌, inl, inr, refl, ap, List, [], ◌∷◌, Bool, true, false, ltb,
  if◌then◌else◌, length, arith, Bool-cases, lt→ltb, ge→ltb, dec_lt,
}
use mohu_fork_nirman.Base.Words.{usize_mod, add_word, add_word-eq-add}
use mohu_fork_nirman.Strides.Bounds.{product, InBounds, linear, linear-lt, scale}
use mohu_fork_nirman.Strides.Iter.{bump_axis, advance_loop}

-- What one walk of the odometer leaves: one more, or all digits back at zero.
abbrev pub Advanced : List ℕ → List ℕ → List ℕ × Bool → Type 0
Advanced shape current (after, false) =
    InBounds after shape × (linear after shape ≡ linear current shape + 1)
Advanced shape current (after, true) =
    InBounds after shape × (linear after shape ≡ 0) × (linear current shape + 1 ≡ product shape)

-- The loop on a list with one more axis in front: the tail's walk, then the front axis if it ran
-- over.
on_front : ℕ → ℕ → List ℕ × Bool → List ℕ × Bool
on_front d c (after, false) = (c ∷ after, false)
on_front d c (after, true) =
    if ltb (add_word c 1) d then (add_word c 1 ∷ after, false) else (0 ∷ after, true)

bump_axis-cons :
    (axis d c : ℕ) (ds cs : List ℕ)
    → bump_axis (suc axis) (d ∷ ds) (c ∷ cs)
      ≡ (c ∷ (bump_axis axis ds cs).0, (bump_axis axis ds cs).1)
unfolding bump_axis
bump_axis-cons axis d c ds cs = ground arith

bump_axis-front :
    (d c : ℕ) (ds cs : List ℕ)
    → bump_axis zero (d ∷ ds) (c ∷ cs)
      ≡ (if ltb (add_word c 1) d then (add_word c 1 ∷ cs, true) else (0 ∷ cs, false))
unfolding bump_axis
bump_axis-front d c ds cs = refl

advance_loop-cons :
    (axis d c : ℕ) (ds cs : List ℕ)
    → advance_loop (suc axis) (d ∷ ds) (c ∷ cs) ≡ on_front d c (advance_loop axis ds cs)
unfolding advance_loop on_front
advance_loop-cons zero d c ds cs =
    ground (arith, bump_axis-cons zero d c ds cs, bump_axis-front d c ds (bump_axis zero ds cs).0)
advance_loop-cons (suc axis) d c ds cs =
    rw (bump_axis-cons (suc axis) d c ds cs) (elim (Bool-cases (bump_axis (suc axis) ds cs).1) [
      | inl stop ↦ rw stop
      | inr more ↦ rw more (advance_loop-cons axis d c ds (bump_axis (suc axis) ds cs).0)
    ])

on_front-Advanced :
    (d c : ℕ) (ds cs : List ℕ) (out : List ℕ × Bool)
    → c < d
    → d < usize_mod
    → Advanced ds cs out
    → Advanced (d ∷ ds) (c ∷ cs) (on_front d c out)
unfolding on_front
on_front-Advanced d c ds cs (after, false) h w (b, n) = ((h, b), omega arith)
on_front-Advanced d c ds cs (after, true) h w (b, z, n) =
    rw (add_word-eq-add c 1 (omega arith)) (elim (dec_lt (c + 1) d) [
      | yes p ↦ rw (lt→ltb (c + 1) d p) ((p, b), omega arith)
      | no q ↦ rw (ge→ltb (c + 1) d q) ((omega arith, b), omega arith, last q)
    ])
  where
    last : ¬ (c + 1 < d) → linear (c ∷ cs) (d ∷ ds) + 1 ≡ product (d ∷ ds)
    last q = let e : d ≡ c + 1 = omega arith in omega (arith, ap (λ (t : ℕ). t * product ds) e)

advance_loop-zero : (d c : ℕ) → advance_loop zero (d ∷ []) (c ∷ []) ≡ on_front d c ([], true)
unfolding advance_loop bump_axis on_front
advance_loop-zero d c = ground arith

-- From any index within the shape one walk adds one to the row-major number, or, from the last
-- index, comes round to the first.
pub advance_loop-Advanced :
    (axis : ℕ) (shape current : List ℕ)
    → length shape ≡ suc axis
    → product shape < usize_mod
    → InBounds current shape
    → Advanced shape current (advance_loop axis shape current)
advance_loop-Advanced axis [] current l w b = absurd (omega arith)
advance_loop-Advanced axis (d ∷ ds) [] l w b = absurd b
advance_loop-Advanced zero (d ∷ []) (c ∷ []) l w b =
    rw (advance_loop-zero d c)
      (on_front-Advanced d c [] [] ([], true) b.0 (omega arith) (tt, refl, omega arith))
advance_loop-Advanced zero (d ∷ []) (c ∷ e ∷ cs) l w b = absurd b.1
advance_loop-Advanced zero (d ∷ e ∷ ds) (c ∷ cs) l w b = absurd (omega arith)
advance_loop-Advanced (suc axis) (d ∷ ds) (c ∷ cs) l w b =
    let bound = linear-lt cs ds b.1 in
    let inner = scale (product ds) d (omega arith) in
    let outer = scale d (product ds) (omega arith) in
    rw (advance_loop-cons axis d c ds cs) (
      on_front-Advanced d c ds cs (advance_loop axis ds cs) b.0 (omega arith)
        (advance_loop-Advanced axis ds cs (omega arith) (omega arith) b.1))
