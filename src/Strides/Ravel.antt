-- ===== src/Strides/Ravel.antt =====
-- crates/mohu-buffer/src/strides.rs: `unravel_index` and `ravel_multi_index` against the row-major
-- number.
use mohu_fork_nirman.Base.{
  ℕ_discrete, ℕ, zero, suc, ◌+◌, ◌*◌, ◌/◌, ◌%◌, ◌≤◌, ◌<◌, ◌≡◌, ◌⊎◌, inl, inr, refl, ap, subst, ◌∙◌,
  sym, List, [], ◌∷◌, arith, length,
}
use native.Mathlib.Nat.{mod-lt, div-add-mod'}
use mohu_fork_nirman.Base.Words.{usize_mod, add_word, mul_word, add_word-eq-add, mul_word-eq-mul}
use mohu_fork_nirman.Errors.{ok, err, panic, index_out_of_bounds}
use mohu_fork_nirman.Strides.{
  shape_size, unravel_from, unravel_index, ravel_from, ravel_multi_index,
}
use mohu_fork_nirman.Strides.Bounds.{
  product, InBounds, linear, linear-lt, InBounds-length, linear-injective, zero-or-positive,
  positive-mul, scale,
}
use mohu_fork_nirman.Strides.Size.{shape_size-ok}

-- What the loop of `unravel_index` leaves: digits within the shape, and the quotient.
abbrev Unraveled : ℕ → List ℕ → List ℕ × ℕ → Type 0
Unraveled rem ds (idx, r) = InBounds idx ds × (rem ≡ r * product ds + linear idx ds)

next_digit : (r d p l rem : ℕ) → 0 < d → rem ≡ r * p + l → rem ≡ r / d * (d * p) + (r % d * p + l)
next_digit r d p l rem h e = omega (arith, e, ap (λ (t : ℕ). t * p) (div-add-mod' r d))

unravel_from-Unraveled :
    (ds : List ℕ) (rem : ℕ)
    → 0 < product ds
    → (out : List ℕ × ℕ) × (unravel_from ds rem ≡ ok out) × Unraveled rem ds out
unfolding unravel_from
unravel_from-Unraveled [] rem h = (([], rem), refl, (tt, omega arith))
unravel_from-Unraveled (d ∷ ds) rem h =
    let (hd, hp) = positive-mul d (product ds) h in
    let (out, e, (within, sum)) = unravel_from-Unraveled ds rem hp in
    (
      (out.1 % d ∷ out.0, out.1 / d),
      rw e (ground arith),
      ((mod-lt _ hd, within), next_digit out.1 d (product ds) (linear out.0 ds) rem hd sum),
    )

quotient_zero : (r p l n : ℕ) → n ≡ r * p + l → n < p → (r ≡ 0) × (l ≡ n)
quotient_zero zero p l n e h = omega arith
quotient_zero (suc r) p l n e h = absurd (grind arith)

unravel_index-linear :
    (shape : List ℕ) (size flat : ℕ)
    → shape_size shape ≡ ok size
    → flat < size
    → (idx : List ℕ) × (unravel_index flat shape ≡ ok idx)
      × InBounds idx shape
      × (linear idx shape ≡ flat)
unfolding unravel_index
unravel_index-linear shape size flat s h =
    let (n, _) = shape_size-ok shape size s in
    let (out, e, (within, sum)) = unravel_from-Unraveled shape flat (omega arith) in
    (
      out.0,
      ground (arith, s, e),
      within,
      (quotient_zero out.1 (product shape) (linear out.0 shape) flat sum (omega arith)).1,
    )

ravel_step :
    (flat d i p l : ℕ)
    → l < p
    → flat * (d * p) + (i * p + l) < usize_mod
    → add_word (mul_word flat d) i ≡ flat * d + i
ravel_step flat d i p l hp h =
    let small : flat * d + i < usize_mod = omega (arith, scale (flat * d + i) p (omega arith)) in
    rw (mul_word-eq-mul flat d (omega arith)) (add_word-eq-add (flat * d) i small)

-- The running value of `ravel_multi_index`, which does not wrap below 2 ^ 64.
ravel_from-linear :
    (flat axis : ℕ) (is ds : List ℕ)
    → InBounds is ds
    → flat * product ds + linear is ds < usize_mod
    → ravel_from flat axis is ds ≡ ok (flat * product ds + linear is ds)
unfolding ravel_from
ravel_from-linear flat axis [] [] b h = ap ok (omega arith)
ravel_from-linear flat axis [] (d ∷ ds) b h = absurd b
ravel_from-linear flat axis (i ∷ is) [] b h = absurd b
ravel_from-linear flat axis (i ∷ is) (d ∷ ds) b h =
    let step = ravel_step flat d i (product ds) (linear is ds) (linear-lt is ds b.1) h in
    let rest = ravel_from-linear (flat * d + i) (axis + 1) is ds b.1 (omega arith) in
    rw step (ground (arith, rest))

ravel_from-InBounds :
    (flat axis n : ℕ) (is ds : List ℕ)
    → length is ≡ length ds
    → ravel_from flat axis is ds ≡ ok n
    → InBounds is ds
unfolding ravel_from
ravel_from-InBounds flat axis n [] [] l e = tt
ravel_from-InBounds flat axis n [] (d ∷ ds) l e = omega arith
ravel_from-InBounds flat axis n (i ∷ is) [] l e = omega arith
ravel_from-InBounds flat axis n (i ∷ is) (d ∷ ds) l e =
    ground (arith, ravel_from-InBounds (add_word (mul_word flat d) i) (axis + 1) n is ds)

zero_factor : (d p : ℕ) → d * p ≡ 0 → 0 < p → d ≡ 0
zero_factor zero p h q = refl
zero_factor (suc d) p h q = absurd (grind arith)

unravel_from-panic : (ds : List ℕ) (rem : ℕ) → product ds ≡ 0 → unravel_from ds rem ≡ panic
unfolding unravel_from
unravel_from-panic [] rem h = absurd (omega arith)
unravel_from-panic (d ∷ ds) rem h = elim (zero-or-positive (product ds)) [
  | inl z ↦ rw (unravel_from-panic ds rem z)
  | inr p ↦
      let (out, e, _) = unravel_from-Unraveled ds rem p in
      ground (arith, e, zero_factor d (product ds) h p)
]

-- For a shape whose size `shape_size` gives and a number below that size, `unravel_index` returns
-- an index within the shape, `ravel_multi_index` takes that index back to the number, and it is the
-- index with that row-major number.
pub ravel_multi_index-unravel_index :
    (shape : List ℕ) (size flat : ℕ)
    → shape_size shape ≡ ok size
    → flat < size
    → (idx : List ℕ) × (unravel_index flat shape ≡ ok idx)
      × InBounds idx shape
      × (linear idx shape ≡ flat)
      × (ravel_multi_index idx shape ≡ ok flat)
unfolding ravel_multi_index
ravel_multi_index-unravel_index shape size flat s h =
    let (idx, e, within, number) = unravel_index-linear shape size flat s h in
    let small = shape_size-ok shape size s in
    let bound = linear-lt idx shape within in
    let back = ravel_from-linear 0 0 idx shape within (omega arith) in
    (idx, e, within, number, ground (arith, back, InBounds-length idx shape within))

-- For a shape whose size `shape_size` gives, `ravel_multi_index` accepts only indices within the
-- shape, gives a number below the size, and `unravel_index` takes that number back to the index.
pub unravel_index-ravel_multi_index :
    (shape idx : List ℕ) (size flat : ℕ)
    → shape_size shape ≡ ok size
    → ravel_multi_index idx shape ≡ ok flat
    → InBounds idx shape × (flat < size) × (unravel_index flat shape ≡ ok idx)
unfolding ravel_multi_index
unravel_index-ravel_multi_index shape idx size flat s h =
    let same : length idx ≡ length shape = ground arith in
    let within = ravel_from-InBounds 0 0 flat idx shape same (ground arith) in
    let small = shape_size-ok shape size s in
    let bound = linear-lt idx shape within in
    let back = ravel_from-linear 0 0 idx shape within (omega arith) in
    let number : linear idx shape ≡ flat = ground (arith, back) in
    let (idx', e, within', number') = unravel_index-linear shape size flat s (omega arith) in
    (
      within,
      omega arith,
      subst (λ j. unravel_index flat shape ≡ ok j)
          (linear-injective idx' idx shape within' within (number' ∙ sym number)) e,
    )

-- `unravel_index` of a number from the size on: on a shape with elements it gives the out-of-bounds
-- error with the number and the size; on a shape of size 0, where that is every number, it panics.
pub unravel_index_fails :
    (shape : List ℕ) (size flat : ℕ)
    → shape_size shape ≡ ok size
    → size ≤ flat
    → ((0 < size) × (unravel_index flat shape ≡ err (index_out_of_bounds flat 0 size)))
      ⊎ ((size ≡ 0) × (unravel_index flat shape ≡ panic))
unfolding unravel_index
unravel_index_fails shape size flat s h =
    let small = shape_size-ok shape size s in
    elim (ℕ_discrete size 0) [
      | yes z ↦ inr (z, ground (arith, s, unravel_from-panic shape flat (sym small.0 ∙ z)))
      | no p ↦ inl (omega arith, ground (arith, s))
    ]
