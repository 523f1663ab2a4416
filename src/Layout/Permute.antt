-- ===== src/Layout/Permute.antt =====
-- crates/mohu-buffer/src/layout.rs: `permute` and `transpose`.
use mohu_fork_nirman.Base.{
  ℕ, zero, suc, Bool, true, false, not, List, [], ◌∷◌, leb, ◌==◌, if◌then◌else◌, length, get_or,
  set, replicate,
}
use mohu_fork_nirman.Errors.{
  MohuResult, ok, err, panic, ◌>>◌, dimension_mismatch, axis_out_of_range, internal, repeated_axis,
}
use mohu_fork_nirman.Layout.{Layout, ndim}

-- The loop of `permute` over the axes, with the marks `seen`.
unfoldable pub check_axes : ℕ → List Bool → List ℕ → MohuResult (Unit {0})
check_axes n seen [] = ok tt
check_axes n seen (ax ∷ axes) =
    let rest = check_axes n (set seen ax true) axes in
    if leb n ax
    then err (axis_out_of_range ax n)
    else if get_or seen ax false
    then err (internal (repeated_axis ax))
    else rest

-- `axes.iter().map(|&a| xs[a])`, for axes within the list.
unfoldable pub gather : List ℕ → List ℕ → List ℕ
gather [] xs = []
gather (ax ∷ axes) xs = get_or xs ax 0 ∷ gather axes xs

unfoldable pub permute : Layout → List ℕ → MohuResult Layout
unfolding check_axes gather
permute l axes =
    if not (length axes == ndim l)
    then err (dimension_mismatch (ndim l) (length axes))
    else (check_axes (ndim l) (replicate (ndim l) false) axes
        >> ok (record {
          shape = gather axes l.shape;
          strides = gather axes l.strides;
          offset = l.offset;
          itemsize = l.itemsize;
        }))

-- `(0..n).rev()`
unfoldable pub descending : ℕ → List ℕ
descending zero = []
descending (suc n) = n ∷ descending n

-- `expect` panics on an error.
abbrev pub expect {ℓ} : {A : Type ℓ} → MohuResult A → MohuResult A
expect (ok a) = ok a
expect (err e) = panic
expect panic = panic

unfoldable pub transpose : Layout → MohuResult Layout
unfolding permute descending
transpose l = if leb (ndim l) 1 then ok l else expect (permute l (descending (ndim l)))
