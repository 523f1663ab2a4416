-- ===== src/Layout/Apart.antt =====
-- crates/mohu-buffer/src/layout.rs: the bytes that a layout touches, and layouts that do not overlap.
use mohu_fork_nirman.Base.{
  ℕ, suc, ◌+◌, ◌-◌, ◌*◌, ◌%◌, ◌≤◌, ◌<◌, ◌≡◌, ◌⊎◌, inl, inr, refl, ap, ap₂, sym, ◌∙◌, Bool, true,
  false, ◌&&◌, List, [], ◌∷◌, ltb, length, arith, ℕ_discrete, ==_iff, ne→==, lt→ltb, ge→ltb, le→leb,
  gt→leb, dec_le, dec_lt,
}
use mohu_fork_nirman.Base.Words.{usize_mod, isize_max, add_word, sub_word, mul_word}
use mohu_fork_nirman.Base.Ints.{ℤ, pos, negsuc}
use mohu_fork_nirman.Errors.{ok, err, axis_out_of_range}
use mohu_fork_nirman.Strides.Bounds.{InBounds, scale}
use mohu_fork_nirman.Strides.Reach.{reach, byte_offset-reach}
use mohu_fork_nirman.Layout.{Layout, ndim, size, byte_offset_unchecked}
use mohu_fork_nirman.Layout.Extent.{
  range_step, range_loop, byte_range, overlaps_with, pattern_of, normalise_axis,
}

-- The distance of the last element from the first.
abbrev pub extent : List ℕ → List ℕ → ℕ
extent (d ∷ ds) (s ∷ ss) = s * (d - 1) + extent ds ss
extent [] ss = 0
extent ds [] = 0

reach-extent : (is ds ss : List ℕ) → InBounds is ds → reach is ss ≤ extent ds ss
reach-extent [] [] ss h = omega arith
reach-extent [] (d ∷ ds) ss h = absurd h
reach-extent (i ∷ is) [] ss h = absurd h
reach-extent (i ∷ is) (d ∷ ds) [] h = omega arith
reach-extent (i ∷ is) (d ∷ ds) (s ∷ ss) h =
    let rest = reach-extent is ds ss h.1 in
    let here : i * s ≤ s * (d - 1) = grind (arith, h.0) in omega arith

span_small :
    (d s : ℕ) → 0 < d → 0 < s → s * (d - 1) ≤ isize_max → mul_word s (sub_word d 1) ≡ s * (d - 1)
unfolding sub_word mul_word
span_small d s positive moving room =
    let wide : d - 1 ≤ s * (d - 1) = grind (arith, scale (d - 1) s moving) in
    let less : (d + (usize_mod - 1)) % usize_mod ≡ d - 1 = omega (arith, wide) in
    ap (λ k. s * k % usize_mod) less ∙ omega arith

add_word-fits : (a b : ℕ) → a + b < usize_mod → add_word a b ≡ a + b
unfolding add_word
add_word-fits a b h = omega arith

range_step-forward :
    (d s lo hi : ℕ)
    → 0 < d
    → lo < usize_mod
    → hi + s * (d - 1) ≤ isize_max
    → range_step d s (lo, hi) ≡ (lo, hi + s * (d - 1))
unfolding range_step
range_step-forward d s lo hi positive word room = elim (ℕ_discrete s 0) [
  | yes z ↦ rw ((==_iff s 0).1 z) (ap (λ x. (lo, x)) (grind (arith, z)))
  | no n ↦
      let small = span_small d s positive (omega arith) (omega arith) in
      rw (ne→== s 0 n, ne→== d 0 (omega arith), small)
        (elim (dec_lt 0 (s * (d - 1))) [
          | yes p ↦
              rw (lt→ltb 0 (s * (d - 1)) p, le→leb (s * (d - 1)) isize_max (omega arith))
                (ap (λ x. (lo, x)) (add_word-fits hi (s * (d - 1)) (omega arith)))
          | no p ↦ rw (ge→ltb 0 (s * (d - 1)) p) (
              ap₂ (λ x y. (x, y)) (add_word-fits lo (s * (d - 1)) (omega arith) ∙ omega arith)
                (omega arith))
        ])
]

range_loop-forward :
    (is ds ss : List ℕ) (lo hi : ℕ)
    → InBounds is ds
    → lo < usize_mod
    → hi + extent ds ss ≤ isize_max
    → range_loop ds ss (lo, hi) ≡ (lo, hi + extent ds ss)
unfolding range_loop
range_loop-forward [] [] ss lo hi h word room = ap (λ x. (lo, x)) (omega arith)
range_loop-forward [] (d ∷ ds) ss lo hi h word room = absurd h
range_loop-forward (i ∷ is) [] ss lo hi h word room = absurd h
range_loop-forward (i ∷ is) (d ∷ ds) [] lo hi h word room = ap (λ x. (lo, x)) (omega arith)
range_loop-forward (i ∷ is) (d ∷ ds) (s ∷ ss) lo hi h word room =
    ap (range_loop ds ss) (range_step-forward d s lo hi (omega (arith, h.0)) word (omega arith))
    ∙ range_loop-forward is ds ss lo (hi + s * (d - 1)) h.1 word (omega arith)
    ∙ ap (λ x. (lo, x)) (omega arith)

-- For a layout with elements and without negative strides, whose last element is within `isize::MAX`:
-- `byte_range` gives the offsets of the first and the last element, and the offset of each index
-- within the layout lies between them.
pub byte_range_lem :
    (l : Layout) (idx : List ℕ)
    → ¬ (size l ≡ 0)
    → l.offset + extent l.shape l.strides ≤ isize_max
    → InBounds idx l.shape
    → (byte_range l ≡ (l.offset, l.offset + extent l.shape l.strides))
      × (l.offset ≤ byte_offset_unchecked l idx)
      × (byte_offset_unchecked l idx ≤ l.offset + extent l.shape l.strides)
unfolding byte_range byte_offset_unchecked
byte_range_lem l idx some_size room within =
    let far = reach-extent idx l.shape l.strides within in
    let at = byte_offset-reach idx l.strides l.offset (omega arith) in
    (
      rw (ne→== (size l) 0 some_size)
          (range_loop-forward idx l.shape l.strides l.offset l.offset within (omega arith) room),
      omega (arith, at, far),
      omega (arith, at, far),
    )

overlaps_with-ranges :
    (l m : Layout) (lo1 hi1 lo2 hi2 : ℕ)
    → ¬ (size l ≡ 0)
    → ¬ (size m ≡ 0)
    → byte_range l ≡ (lo1, hi1)
    → byte_range m ≡ (lo2, hi2)
    → overlaps_with l m ≡ (ltb lo1 (add_word hi2 m.itemsize) && ltb lo2 (add_word hi1 l.itemsize))
unfolding overlaps_with
overlaps_with-ranges l m lo1 hi1 lo2 hi2 some_l some_m e f =
    rw (ne→== (size l) 0 some_l, ne→== (size m) 0 some_m)
      (ap₂ (λ (p q : ℕ × ℕ). ltb p.0 (add_word q.1 m.itemsize) && ltb q.0 (add_word p.1 l.itemsize))
        e f)

-- Two layouts with elements and without negative strides, whose last elements end within `isize::MAX`,
-- that `overlaps_with` says are apart share no byte: any element of the one ends before any
-- element of the other begins, or the other way round.
pub overlaps_with_lem :
    (l m : Layout) (idx idx' : List ℕ)
    → ¬ (size l ≡ 0)
    → ¬ (size m ≡ 0)
    → l.offset + extent l.shape l.strides + l.itemsize ≤ isize_max
    → m.offset + extent m.shape m.strides + m.itemsize ≤ isize_max
    → InBounds idx l.shape
    → InBounds idx' m.shape
    → overlaps_with l m ≡ false
    → (byte_offset_unchecked l idx + l.itemsize ≤ byte_offset_unchecked m idx')
      ⊎ (byte_offset_unchecked m idx' + m.itemsize ≤ byte_offset_unchecked l idx)
overlaps_with_lem l m idx idx' some_l some_m room_l room_m within within' apart =
    let (range_l, first_l, last_l) = byte_range_lem l idx some_l (omega arith) within in
    let (range_m, first_m, last_m) = byte_range_lem m idx' some_m (omega arith) within' in
    let hi1 = l.offset + extent l.shape l.strides in
    let hi2 = m.offset + extent m.shape m.strides in
    let end1 = add_word-fits hi1 l.itemsize (omega arith) in
    let end2 = add_word-fits hi2 m.itemsize (omega arith) in
    let test =
      sym (overlaps_with-ranges l m l.offset hi1 m.offset hi2 some_l some_m range_l range_m)
      ∙ apart in
    elim (dec_lt l.offset (add_word hi2 m.itemsize)) [
      | no a ↦ inr (omega (arith, end2))
      | yes a ↦ elim (dec_lt m.offset (add_word hi1 l.itemsize)) [
        | no b ↦ inl (omega (arith, end1))
        | yes b ↦ absurd (
            both (ltb l.offset (add_word hi2 m.itemsize)) (ltb m.offset (add_word hi1 l.itemsize))
              (lt→ltb l.offset (add_word hi2 m.itemsize) a)
              (lt→ltb m.offset (add_word hi1 l.itemsize) b) test)
      ]
    ]
  where
    both : (a b : Bool) → a ≡ true → b ≡ true → ¬ ((a && b) ≡ false)
    both a b p q h = ground arith

-- `normalise_axis` accepts the axes from minus the number of axes up to it, without it: an axis that is
-- not negative stands for itself, and a negative one counts from the end. Every other axis gets the
-- range error.
pub normalise_axis_lem :
    (l : Layout) (axis : ℤ)
    → ((a : ℕ) × (normalise_axis l axis ≡ ok a)
        × (a < length l.shape)
        × ((axis ≡ pos a) ⊎ ((k : ℕ) × (axis ≡ negsuc k) × (a + suc k ≡ length l.shape))))
      ⊎ ((normalise_axis l axis ≡ err (axis_out_of_range (pattern_of axis) (length l.shape)))
          × (((a : ℕ) × (axis ≡ pos a) × (length l.shape ≤ a))
              ⊎ ((k : ℕ) × (axis ≡ negsuc k) × (length l.shape ≤ k))))
unfolding normalise_axis ndim
normalise_axis_lem l (pos a) = elim (dec_le (length l.shape) a) [
  | yes p ↦ inr (rw (le→leb (length l.shape) a p) refl, inl (a, refl, p))
  | no p ↦ inl (a, rw (gt→leb (length l.shape) a p) refl, omega arith, inl refl)
]
normalise_axis_lem l (negsuc k) = elim (dec_le (suc k) (length l.shape)) [
  | yes p ↦ inl (
    length l.shape - suc k,
    rw (le→leb (suc k) (length l.shape) p) refl,
    omega arith,
    inr (k, refl, omega arith),
  )
  | no p ↦ inr (rw (gt→leb (suc k) (length l.shape) p) refl, inr (k, refl, omega arith))
]
