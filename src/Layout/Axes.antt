-- ===== src/Layout/Axes.antt =====
-- crates/mohu-buffer/src/layout.rs: `expand_dims`, `squeeze_axis` and `squeeze`.
use mohu_fork_nirman.Base.{
  ℕ, zero, suc, ◌+◌, ◌*◌, ◌%◌, ◌≤◌, ◌<◌, ◌≡◌, ◌⊎◌, inl, inr, refl, ap, ap₂, sym, ◌∙◌, List, [], ◌∷◌,
  ==_iff, length, get_or, arith, dec_lt, ℕ_discrete, ne→==, lt→ltb, ge→ltb,
}
use mohu_fork_nirman.Base.Words.{usize_mod}
use mohu_fork_nirman.Errors.{ok, err, axis_out_of_range}
use mohu_fork_nirman.Strides.Bounds.{InBounds}
use mohu_fork_nirman.Strides.Reach.{reach, byte_offset-reach}
use mohu_fork_nirman.Layout.{
  Layout, ndim, insert_at, expand_dims, remove_at, squeeze_axis, keep_long, squeeze,
  byte_offset_unchecked,
}

remove_at-insert_at :
    (axis x : ℕ) (xs : List ℕ) → axis ≤ length xs → remove_at axis (insert_at axis x xs) ≡ xs
unfolding remove_at insert_at
remove_at-insert_at zero x xs h = refl
remove_at-insert_at (suc axis) x [] h = absurd (omega arith)
remove_at-insert_at (suc axis) x (y ∷ ys) h =
    ap (◌∷◌ y) (remove_at-insert_at axis x ys (omega arith))

get_or-insert_at :
    (axis x : ℕ) (xs : List ℕ) → axis ≤ length xs → get_or (insert_at axis x xs) axis 0 ≡ x
unfolding insert_at
get_or-insert_at zero x xs h = refl
get_or-insert_at (suc axis) x [] h = absurd (omega arith)
get_or-insert_at (suc axis) x (y ∷ ys) h = get_or-insert_at axis x ys (omega arith)

length-insert_at :
    (axis x : ℕ) (xs : List ℕ) → axis ≤ length xs → length (insert_at axis x xs) ≡ suc (length xs)
unfolding insert_at
length-insert_at zero x xs h = refl
length-insert_at (suc axis) x [] h = absurd (omega arith)
length-insert_at (suc axis) x (y ∷ ys) h = ap suc (length-insert_at axis x ys (omega arith))

abbrev expanded : Layout → ℕ → Layout
expanded l axis = record {
  shape = insert_at axis 1 l.shape;
  strides = insert_at axis l.itemsize l.strides;
  offset = l.offset;
  itemsize = l.itemsize;
}

squeeze_axis-ok :
    (m : Layout) (axis : ℕ)
    → axis < length m.shape
    → get_or m.shape axis 0 ≡ 1
    → squeeze_axis m axis
      ≡ ok (record {
        shape = remove_at axis m.shape;
        strides = remove_at axis m.strides;
        offset = m.offset;
        itemsize = m.itemsize;
      })
unfolding squeeze_axis ndim
squeeze_axis-ok m axis h e = ground (arith, e)

squeeze_axis-expanded :
    (l : Layout) (axis : ℕ)
    → axis ≤ length l.shape
    → axis ≤ length l.strides
    → squeeze_axis (expanded l axis) axis ≡ ok l
squeeze_axis-expanded l axis h k =
    squeeze_axis-ok (expanded l axis) axis (omega (arith, length-insert_at axis 1 l.shape h))
      (get_or-insert_at axis 1 l.shape h)
    ∙ ap₂
        (λ ds ss.
          ok (record { shape = ds; strides = ss; offset = l.offset; itemsize = l.itemsize }))
        (remove_at-insert_at axis 1 l.shape h) (remove_at-insert_at axis l.itemsize l.strides k)

-- Where `expand_dims` succeeds on a layout with a stride for each axis, `squeeze_axis` of the new axis
-- gives the layout back; and it fails only for an axis number above the number of axes, with the
-- axis error.
pub squeeze_axis-expand_dims :
    (l : Layout) (axis : ℕ)
    → length l.strides ≡ length l.shape
    → ((axis ≤ length l.shape)
        × ((m : Layout) × (expand_dims l axis ≡ ok m) × (squeeze_axis m axis ≡ ok l)))
      ⊎ ((length l.shape < axis)
          × (expand_dims l axis ≡ err (axis_out_of_range axis (length l.shape))))
unfolding expand_dims ndim
squeeze_axis-expand_dims l axis s = elim (dec_lt (length l.shape) axis) [
  | yes p ↦ inr (p, rw (lt→ltb (length l.shape) axis p) refl)
  | no q ↦ inl (
    omega arith,
    (
      expanded l axis,
      rw (ge→ltb (length l.shape) axis q) refl,
      squeeze_axis-expanded l axis (omega arith) (omega arith),
    ),
  )
]

gone : (i d t : ℕ) → i < d → d ≡ 1 → i * t ≡ 0
gone zero d t h e = omega arith
gone (suc i) d t h e = absurd (omega arith)

-- The entries of an index at the axes that `squeeze` keeps.
InBounds-keep_long :
    (is ds ss : List ℕ)
    → length ss ≡ length ds
    → InBounds is ds
    → InBounds (keep_long ds is) (keep_long ds ds)
      × (reach (keep_long ds is) (keep_long ds ss) ≡ reach is ss)
unfolding keep_long
InBounds-keep_long [] [] ss s b = (tt, refl)
InBounds-keep_long [] (d ∷ ds) ss s b = absurd b
InBounds-keep_long (i ∷ is) [] ss s b = absurd b
InBounds-keep_long (i ∷ is) (d ∷ ds) [] s b = absurd (omega arith)
InBounds-keep_long (i ∷ is) (d ∷ ds) (t ∷ ss) s b =
    let (inside, same) = InBounds-keep_long is ds ss (omega arith) b.1 in
    elim (ℕ_discrete d 1) [
      | yes p ↦ rw ((==_iff d 1).1 p) (inside, omega (arith, same, gone i d t b.0 p))
      | no q ↦ rw (ne→== d 1 q) ((b.0, inside), omega (arith, same))
    ]

-- On a layout with a stride for each axis, dropping an index's entries at the axes of size 1 gives an
-- index within the squeezed layout, which reads the same byte offset.
pub squeeze-byte_offset :
    (l : Layout) (idx : List ℕ)
    → l.offset < usize_mod
    → length l.strides ≡ length l.shape
    → InBounds idx l.shape
    → InBounds (keep_long l.shape idx) (squeeze l).shape
      × (byte_offset_unchecked (squeeze l) (keep_long l.shape idx) ≡ byte_offset_unchecked l idx)
unfolding squeeze byte_offset_unchecked
squeeze-byte_offset l idx w s b =
    let (inside, same) = InBounds-keep_long idx l.shape l.strides s b in
    (
      inside,
      byte_offset-reach (keep_long l.shape idx) (keep_long l.shape l.strides) l.offset w
          ∙ ap (λ r. (l.offset + r) % usize_mod) same
          ∙ sym (byte_offset-reach idx l.strides l.offset w),
    )
