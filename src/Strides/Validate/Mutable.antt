-- ===== src/Strides/Validate/Mutable.antt =====
-- crates/mohu-buffer/src/strides.rs: `validate_strides` for a mutable layout on contiguous strides.
use mohu_fork_nirman.Base.{
  ℕ, suc, ◌*◌, ◌≤◌, ◌<◌, ◌≡◌, refl, ap, ◌∙◌, List, [], ◌∷◌, true, leb, ltb, if◌then◌else◌, length,
  arith,
}
use mohu_fork_nirman.Base.Words.{isize_max}
use mohu_fork_nirman.Errors.{ok, err, overlapping_strides}
use mohu_fork_nirman.Strides.{c_strides}
use mohu_fork_nirman.Strides.Bounds.{product, positive-mul, scale}
use mohu_fork_nirman.Strides.Address.{row_major, c_strides-row_major, positive-product}
use mohu_fork_nirman.Strides.Validate.{validate_strides, non_broadcast}
use mohu_fork_nirman.Strides.Validate.Contiguous.{unsigned_abs-small, validate_axes-row_major}
use mohu_fork_nirman.Strides.Validate.Overlap.{SpansFit, check_no_overlap_lem}

-- The axes with more than one element.
abbrev pub long_axes : List ℕ → ℕ
long_axes [] = 0
long_axes (d ∷ ds) = let rest = long_axes ds in if ltb 1 d then suc rest else rest

row_major-SpansFit :
    (item : ℕ) (ds : List ℕ)
    → 0 < item
    → 0 < product ds
    → item * product ds ≤ isize_max
    → SpansFit (row_major ds item) ds
row_major-SpansFit item [] q p h = tt
row_major-SpansFit item (d ∷ ds) q p h =
    let (hd, hp) = positive-mul d (product ds) p in
    let whole : item * product ds * d ≡ item * (d * product ds) = omega arith in
    let inner = scale (item * product ds) d hd in
    (
      omega arith,
      rw (unsigned_abs-small (item * product ds) (omega arith)) (omega arith),
      row_major-SpansFit item ds q hp (omega arith),
    )

length-non_broadcast :
    (item : ℕ) (ds : List ℕ)
    → 0 < item
    → 0 < product ds
    → length (non_broadcast (row_major ds item) ds) ≡ long_axes ds
unfolding non_broadcast
length-non_broadcast item [] q p = refl
length-non_broadcast item (d ∷ ds) q p =
    let (hd, hp) = positive-mul d (product ds) p in
    ground (arith, positive-product item (product ds) q hp, length-non_broadcast item ds q hp)

-- For a shape with no zero whose elements take at most `isize::MAX` bytes, the row-major strides,
-- under which no two elements overlap, pass the validation of a mutable layout only if at most one
-- axis has more than one element; with two such axes the result is the overlap error.
pub validate_strides_mutable :
    (shape : List ℕ) (item : ℕ)
    → 0 < item
    → 0 < product shape
    → item * product shape ≤ isize_max
    → validate_strides shape (c_strides shape item) item true ≡ (
        if leb (long_axes shape) 1
        then ok tt
        else err (overlapping_strides shape (c_strides shape item) item))
unfolding validate_strides
validate_strides_mutable shape item q p h =
    rw (c_strides-row_major shape item q p h, validate_axes-row_major 0 item shape q p h)
      (check_no_overlap_lem shape (row_major shape item) item (row_major-SpansFit item shape q p h)
        ∙ ap
            (λ n.
              if leb n 1
              then ok tt
              else err (overlapping_strides shape (row_major shape item) item))
            (length-non_broadcast item shape q p))
