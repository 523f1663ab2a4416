-- ===== src/Layout/Extent.antt =====
-- crates/mohu-buffer/src/layout.rs: `byte_range`, `span`, `overlaps_with` and `normalise_axis`. An `isize`
-- is its bit pattern; the number of axes is at most `isize::MAX`, as any vector's length.
use mohu_fork_nirman.Base.{
  ℕ, suc, ◌-◌, Bool, false, ◌&&◌, ◌||◌, List, [], ◌∷◌, leb, ltb, ◌==◌, if◌then◌else◌,
}
use mohu_fork_nirman.Base.Ints.{ℤ, pos, negsuc}
use mohu_fork_nirman.Base.Words.{usize_mod, isize_max, add_word, sub_word, mul_word}
use mohu_fork_nirman.Errors.{MohuResult, ok, err, axis_out_of_range}
use mohu_fork_nirman.Layout.{Layout, ndim, size}

-- One round of the loop of `byte_range`. A pattern above `isize::MAX` is negative.
unfoldable pub range_step : ℕ → ℕ → ℕ × ℕ → ℕ × ℕ
unfolding add_word sub_word mul_word
range_step dim stride (lo, hi) =
    let span = mul_word stride (sub_word dim 1) in
    if stride == 0 || dim == 0
    then (lo, hi)
    else if ltb 0 span && leb span isize_max
    then (lo, add_word hi span)
    else (add_word lo span, hi)

unfoldable pub range_loop : List ℕ → List ℕ → ℕ × ℕ → ℕ × ℕ
unfolding range_step
range_loop (dim ∷ shape) (stride ∷ strides) r = range_loop shape strides (range_step dim stride r)
range_loop [] strides r = r
range_loop shape [] r = r

unfoldable pub byte_range : Layout → ℕ × ℕ
unfolding size range_loop
byte_range l =
    if size l == 0 then (l.offset, l.offset) else range_loop l.shape l.strides (l.offset, l.offset)

unfoldable pub span : Layout → ℕ
unfolding size byte_range add_word sub_word
span l =
    let (lo, hi) = byte_range l in if size l == 0 then 0 else add_word (sub_word hi lo) l.itemsize

unfoldable pub overlaps_with : Layout → Layout → Bool
unfolding add_word
overlaps_with l m =
    let (lo1, hi1) = byte_range l in
    let (lo2, hi2) = byte_range m in
    if size l == 0 || size m == 0
    then false
    else ltb lo1 (add_word hi2 m.itemsize) && ltb lo2 (add_word hi1 l.itemsize)

-- An `i64` as a bit pattern.
abbrev pub pattern_of : ℤ → ℕ
pattern_of (pos a) = a
pattern_of (negsuc k) = usize_mod - suc k

unfoldable pub normalise_axis : Layout → ℤ → MohuResult ℕ
unfolding ndim
normalise_axis l (pos a) = if leb (ndim l) a then err (axis_out_of_range a (ndim l)) else ok a
normalise_axis l (negsuc k) =
    if leb (suc k) (ndim l)
    then ok (ndim l - suc k)
    else err (axis_out_of_range (pattern_of (negsuc k)) (ndim l))
