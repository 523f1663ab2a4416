-- ===== src/Strides/Examples.antt =====
-- The theorems on crates/mohu-buffer/src/strides.rs at a matrix of two rows and three columns with
-- items of 8 bytes.
use mohu_fork_nirman.Base.{
  ℕ, ◌+◌, ◌*◌, ◌≤◌, ◌<◌, ◌≡◌, ◌⊎◌, refl, List, [], ◌∷◌, none, some, arith, true, if◌then◌else◌, leb,
}
use mohu_fork_nirman.Base.Words.{saturating_mul, unsigned_abs, checked_mul}
use mohu_fork_nirman.Errors.{ok, err, panic, index_out_of_bounds, overlapping_strides}
use mohu_fork_nirman.Strides.{
  c_strides_from, c_strides, size_step, shape_size_from, shape_size, broadcast_axes,
  broadcast_strides, unravel_index, ravel_multi_index, ravel_from, byte_offset,
}
use mohu_fork_nirman.Strides.Bounds.{product, InBounds, linear}
use mohu_fork_nirman.Strides.Ravel.{
  ravel_multi_index-unravel_index, unravel_index-ravel_multi_index, unravel_index_fails,
}
use mohu_fork_nirman.Strides.Address.{byte_offset-c_strides}
use mohu_fork_nirman.Strides.Iter.{new}
use mohu_fork_nirman.Strides.Iter.Yield.{nth, nth-unravel_index}
use mohu_fork_nirman.Strides.Validate.{validate_strides}
use mohu_fork_nirman.Strides.Validate.Mutable.{long_axes, validate_strides_mutable}

abbrev matrix : List ℕ
matrix = 2 ∷ 3 ∷ []

abbrev six : ℕ
six = 6

abbrev row : List ℕ
row = 1 ∷ 3 ∷ []

shape_size-matrix : shape_size matrix ≡ ok 6
unfolding shape_size shape_size_from size_step checked_mul
shape_size-matrix = refl

c_strides-matrix : c_strides matrix 8 ≡ 24 ∷ 8 ∷ []
unfolding c_strides c_strides_from saturating_mul unsigned_abs
c_strides-matrix = refl

ravel_multi_index-matrix : ravel_multi_index (1 ∷ 2 ∷ []) matrix ≡ ok 5
unfolding ravel_multi_index ravel_from
ravel_multi_index-matrix = refl

ravel_multi_index-unravel_index_example :
    (idx : List ℕ) × (unravel_index 4 matrix ≡ ok idx)
    × InBounds idx matrix
    × (linear idx matrix ≡ 4)
    × (ravel_multi_index idx matrix ≡ ok 4)
ravel_multi_index-unravel_index_example =
    ravel_multi_index-unravel_index matrix 6 4 shape_size-matrix (omega arith)

unravel_index-ravel_multi_index_example :
    InBounds (1 ∷ 2 ∷ []) matrix × (5 < 6) × (unravel_index 5 matrix ≡ ok (1 ∷ 2 ∷ []))
unravel_index-ravel_multi_index_example =
    unravel_index-ravel_multi_index matrix (1 ∷ 2 ∷ []) 6 5 shape_size-matrix
      ravel_multi_index-matrix

unravel_index_fails_example :
    ((0 < 6) × (unravel_index 7 matrix ≡ err (index_out_of_bounds 7 0 6)))
    ⊎ ((six ≡ 0) × (unravel_index 7 matrix ≡ panic))
unravel_index_fails_example = unravel_index_fails matrix 6 7 shape_size-matrix (omega arith)

nth-unravel_index_example :
    ((4 < 6)
      × ((idx : List ℕ) × (nth 4 (new matrix) ≡ some idx) × (unravel_index 4 matrix ≡ ok idx)))
    ⊎ ((6 ≤ 4) × (nth 4 (new matrix) ≡ none))
nth-unravel_index_example = nth-unravel_index matrix 6 4 shape_size-matrix

byte_offset-c_strides_example :
    (byte_offset (1 ∷ 2 ∷ []) (c_strides matrix 8) 64 ≡ 64 + 8 * linear (1 ∷ 2 ∷ []) matrix)
    × (byte_offset (1 ∷ 2 ∷ []) (c_strides matrix 8) 64 + 8 ≤ 64 + 8 * product matrix)
byte_offset-c_strides_example =
    byte_offset-c_strides matrix (1 ∷ 2 ∷ []) 8 64 (omega arith) (omega arith) (omega arith)
      (omega arith, (omega arith, tt))

broadcast_row : broadcast_strides row (24 ∷ 8 ∷ []) matrix ≡ ok (0 ∷ 8 ∷ [])
unfolding broadcast_strides broadcast_axes
broadcast_row = refl

-- Two long axes: the strides of a plain matrix are refused.
validate_strides_mutable_example : validate_strides matrix (c_strides matrix 8) 8 true ≡ (
    if leb (long_axes matrix) 1
    then ok tt
    else err (overlapping_strides matrix (c_strides matrix 8) 8))
validate_strides_mutable_example =
    validate_strides_mutable matrix 8 (omega arith) (omega arith) (omega arith)
