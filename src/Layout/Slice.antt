-- ===== src/Layout/Slice.antt =====
-- crates/mohu-buffer/src/layout.rs: `SliceArg` and `slice_axis`. The arguments are `i64`, so integers
-- here; the step of the result is an `isize` and so its bit pattern. A dimension is at most
-- `isize::MAX`, as `shape_size` wants of a whole shape, and `dim as i64` keeps it.
use mohu_fork_nirman.Base.{
  ℕ, zero, suc, ◌+◌, ◌-◌, ◌/◌, min, not, Bool, ◌&&◌, Option, none, some, leb, ◌==◌, if◌then◌else◌,
  get_or, set,
}
use mohu_fork_nirman.Base.Ints.{ℤ, pos, negsuc}
use mohu_fork_nirman.Base.Words.{usize_mod, usize_max, add_word, mul_word}
use mohu_fork_nirman.Errors.{MohuResult, ok, err, ◌>>=◌, zero_slice_step, axis_out_of_range}
use mohu_fork_nirman.Layout.{Layout, ndim}

pub record SliceArg : Type 0 where
  pub start : Option ℤ
  pub stop : Option ℤ
  pub step : Option ℤ

abbrev pub full : SliceArg
full = record { start = none; stop = none; step = none }

-- `clamp`: a negative value counts from the end, and the result lies in 0..=dim.
unfoldable pub clamp : ℕ → ℤ → ℕ
clamp dim (pos v) = min v dim
clamp dim (negsuc v) = min (dim - suc v) dim

-- The stop of a reversed slice: -1, before the first element, is `usize::MAX`.
unfoldable pub reversed_stop : ℕ → ℤ → ℕ
reversed_stop dim (pos v) = min v dim
reversed_stop dim (negsuc v) = if leb (suc v) dim then dim - suc v else usize_max

abbrev pub map_or : Option ℤ → ℕ → (ℤ → ℕ) → ℕ
map_or none default f = default
map_or (some v) default f = f v

-- `usize::div_ceil`, by a number that is not 0.
abbrev pub div_ceil : ℕ → ℕ → ℕ
div_ceil a b = (a + (b - 1)) / b

unfoldable pub e_reversed_empty : ℕ → ℕ → Bool
e_reversed_empty start stop = not (stop == usize_max) && leb start stop

unfoldable pub resolve_step : SliceArg → ℕ → ℤ → MohuResult (ℕ × ℕ × ℕ)
unfolding clamp reversed_stop e_reversed_empty
resolve_step arg dim (pos zero) = err zero_slice_step
resolve_step arg dim (pos (suc n)) =
    let start = map_or arg.start 0 (clamp dim) in
    let stop = map_or arg.stop dim (clamp dim) in
    ok (start, (if leb stop start then 0 else div_ceil (stop - start) (suc n)), suc n)
resolve_step arg dim (negsuc n) =
    let start = map_or arg.start (dim - 1) (clamp dim) in
    let stop = map_or arg.stop usize_max (reversed_stop dim) in
    ok (
      start,
      (if e_reversed_empty start stop then 0 else div_ceil (start - stop) (suc n)),
      usize_mod - suc n,
    )

abbrev pub unwrap_or : Option ℤ → ℤ → ℤ
unwrap_or none default = default
unwrap_or (some v) default = v

unfoldable pub resolve : SliceArg → ℕ → MohuResult (ℕ × ℕ × ℕ)
unfolding resolve_step
resolve arg dim = resolve_step arg dim (unwrap_or arg.step (pos 1))

unfoldable pub slice_axis : Layout → ℕ → SliceArg → MohuResult Layout
unfolding resolve
slice_axis l axis arg =
    if leb (ndim l) axis
    then err (axis_out_of_range axis (ndim l))
    else (resolve arg (get_or l.shape axis 0) >>= λ (start, count, step).
        let stride = get_or l.strides axis 0 in
        ok (record {
          shape = set l.shape axis count;
          strides = set l.strides axis (mul_word stride step);
          offset = add_word l.offset (mul_word start stride);
          itemsize = l.itemsize;
        }))
