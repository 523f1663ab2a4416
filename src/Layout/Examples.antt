-- ===== src/Layout/Examples.antt =====
-- The theorems on crates/mohu-buffer/src/layout.rs at a matrix of two rows and three columns with
-- items of 8 bytes, 64 bytes into a buffer.
use mohu_fork_nirman.Base.{
  ℕ, false, ◌+◌, ◌≤◌, ◌≡◌, ◌⊎◌, refl, List, [], ◌∷◌, none, some, arith, text_eq,
}
use mohu_fork_nirman.Base.Ints.{pos}
use mohu_fork_nirman.Base.Words.{sub_word, saturating_mul, unsigned_abs, add_word, mul_word}
use mohu_fork_nirman.Errors.{ok}
use mohu_fork_nirman.Strides.{c_strides_from, c_strides}
use mohu_fork_nirman.Strides.Bounds.{product, InBounds}
use mohu_fork_nirman.Strides.Iter.{wrapping_product}
use mohu_fork_nirman.Layout.{
  Layout, reshape, byte_offset_unchecked, ndim, size, is_empty, contains_zero, is_c_contiguous,
}
use mohu_fork_nirman.Layout.Permute.{check_axes, gather, permute}
use mohu_fork_nirman.Layout.Permuted.{permute-byte_offset}
use mohu_fork_nirman.Layout.Slice.{SliceArg, clamp, resolve_step, resolve, slice_axis}
use mohu_fork_nirman.Layout.Sliced.{slice_axis-byte_offset}
use mohu_fork_nirman.Layout.Extent.{range_step, range_loop, byte_range, overlaps_with}
use mohu_fork_nirman.Layout.Apart.{overlaps_with_lem}
use mohu_fork_nirman.Layout.Reshaped.{reshape-byte_offset}

abbrev grid : Layout
grid = record { shape = 2 ∷ 3 ∷ []; strides = 24 ∷ 8 ∷ []; offset = 64; itemsize = 8 }

-- `1::2`
abbrev odd : SliceArg
odd = record { start = some (pos 1); stop = none; step = some (pos 2) }

-- `::-1`
abbrev odd_grid : Layout
odd_grid = record { shape = 2 ∷ 1 ∷ []; strides = 24 ∷ 16 ∷ []; offset = 72; itemsize = 8 }

odd_columns : slice_axis grid 1 odd ≡ ok odd_grid
unfolding slice_axis resolve resolve_step clamp ndim add_word mul_word
odd_columns = refl

slice_axis-byte_offset_example :
    InBounds (1 ∷ 1 ∷ []) grid.shape
    × (byte_offset_unchecked odd_grid (1 ∷ 0 ∷ []) ≡ byte_offset_unchecked grid (1 ∷ 1 ∷ []))
unfolding clamp
slice_axis-byte_offset_example =
    slice_axis-byte_offset grid odd_grid 1 1 odd (1 ∷ 0 ∷ []) (omega arith) refl refl odd_columns
      (omega arith, (omega arith, tt))

abbrev past : List ℕ
past = 1 ∷ 3 ∷ []

abbrev tall : Layout
tall = record { shape = 3 ∷ 2 ∷ []; strides = 16 ∷ 8 ∷ []; offset = 64; itemsize = 8 }

reshape-tall : reshape grid (3 ∷ 2 ∷ []) ≡ ok tall
unfolding reshape is_c_contiguous is_empty contains_zero ndim size wrapping_product c_strides
    c_strides_from saturating_mul unsigned_abs mul_word text_eq
reshape-tall = refl

reshape-byte_offset_example :
    (product (3 ∷ 2 ∷ []) ≡ product grid.shape)
    × (byte_offset_unchecked tall (2 ∷ 0 ∷ []) ≡ byte_offset_unchecked grid (1 ∷ 1 ∷ []))
reshape-byte_offset_example =
    reshape-byte_offset grid tall (3 ∷ 2 ∷ []) (1 ∷ 1 ∷ []) (2 ∷ 0 ∷ []) (omega arith) refl
      (omega arith) (omega arith) (omega arith) (omega arith) reshape-tall
      (omega arith, (omega arith, tt)) (omega arith, (omega arith, tt)) refl

abbrev grid_turned : Layout
grid_turned = record { shape = 3 ∷ 2 ∷ []; strides = 8 ∷ 24 ∷ []; offset = 64; itemsize = 8 }

permute-grid : permute grid (1 ∷ 0 ∷ []) ≡ ok grid_turned
unfolding permute check_axes gather ndim
permute-grid = refl

permute-byte_offset_example :
    InBounds (gather (1 ∷ 0 ∷ []) (1 ∷ 2 ∷ [])) grid_turned.shape
    × (byte_offset_unchecked grid_turned (gather (1 ∷ 0 ∷ []) (1 ∷ 2 ∷ []))
        ≡ byte_offset_unchecked grid (1 ∷ 2 ∷ []))
permute-byte_offset_example =
    permute-byte_offset grid grid_turned (1 ∷ 0 ∷ []) (1 ∷ 2 ∷ []) (omega arith) refl permute-grid
      (omega arith, (omega arith, tt))

-- The two rows of a matrix.
abbrev upper : Layout
upper = record { shape = 3 ∷ []; strides = 8 ∷ []; offset = 0; itemsize = 8 }

abbrev lower : Layout
lower = record { shape = 3 ∷ []; strides = 8 ∷ []; offset = 24; itemsize = 8 }

some_upper : ¬ (size upper ≡ 0)
unfolding size wrapping_product mul_word
some_upper = omega arith

some_lower : ¬ (size lower ≡ 0)
unfolding size wrapping_product mul_word
some_lower = omega arith

rows_apart : overlaps_with upper lower ≡ false
unfolding overlaps_with byte_range range_loop range_step size wrapping_product mul_word add_word
    sub_word
rows_apart = refl

overlaps_with_lem_example :
    (byte_offset_unchecked upper (2 ∷ []) + 8 ≤ byte_offset_unchecked lower (0 ∷ []))
    ⊎ (byte_offset_unchecked lower (0 ∷ []) + 8 ≤ byte_offset_unchecked upper (2 ∷ []))
overlaps_with_lem_example =
    overlaps_with_lem upper lower (2 ∷ []) (0 ∷ []) some_upper some_lower (omega arith)
      (omega arith) (omega arith, tt) (omega arith, tt) rows_apart
