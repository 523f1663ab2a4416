-- ===== src/Strides/Validate.antt =====
-- crates/mohu-buffer/src/strides.rs: `validate_strides` and its check against overlapping elements.
pub mod Contiguous
pub mod Overlap
pub mod Mutable
use mohu_fork_nirman.Base.{
  ℕ, ◌+◌, ◌*◌, ◌%◌, Bool, true, false, not, List, [], ◌∷◌, ltb, leb, ◌==◌, ◌&&◌, if◌then◌else◌,
  length,
}
use mohu_fork_nirman.Base.Words.{mul_word, unsigned_abs}
use mohu_fork_nirman.Errors.{
  MohuResult, ok, err, panic, ◌>>=◌, ◌>>◌, invalid_stride, overlapping_strides,
}

-- The first loop, from axis number `axis` on. A remainder by zero panics.
unfoldable pub validate_axes : ℕ → List ℕ → List ℕ → ℕ → MohuResult (Unit {0})
unfolding unsigned_abs
validate_axes axis (stride ∷ strides) (dim ∷ dims) itemsize =
    let rest = validate_axes (axis + 1) strides dims itemsize in
    if leb dim 1
    then rest
    else if itemsize == 0
    then panic
    else if unsigned_abs stride % itemsize == 0
    then rest
    else err (invalid_stride axis stride itemsize)
validate_axes axis [] dims itemsize = ok tt
validate_axes axis strides [] itemsize = ok tt

-- The axes that move: stride not 0 and more than one element.
unfoldable pub non_broadcast : List ℕ → List ℕ → List (ℕ × ℕ)
non_broadcast (s ∷ ss) (d ∷ ds) =
    let rest = non_broadcast ss ds in if not (s == 0) && ltb 1 d then (s, d) ∷ rest else rest
non_broadcast [] ds = []
non_broadcast ss [] = []

-- `sort_by_key` with the reversed stride length: a stable sort, the longest stride first.
unfoldable pub insert : ℕ × ℕ → List (ℕ × ℕ) → List (ℕ × ℕ)
unfolding unsigned_abs
insert x [] = x ∷ []
insert x (y ∷ ys) =
    if leb (unsigned_abs y.0) (unsigned_abs x.0) then x ∷ y ∷ ys else y ∷ insert x ys

unfoldable pub sort : List (ℕ × ℕ) → List (ℕ × ℕ)
unfolding insert
sort [] = []
sort (x ∷ xs) = insert x (sort xs)

-- The loop over neighbours.
unfoldable pub check_spans : MohuResult (Unit {0}) → List (ℕ × ℕ) → MohuResult (Unit {0})
unfolding mul_word unsigned_abs
check_spans fail [] = ok tt
check_spans fail (x ∷ []) = ok tt
check_spans fail (x ∷ y ∷ ys) =
    let rest = check_spans fail (y ∷ ys) in
    if ltb (unsigned_abs y.0) (mul_word (unsigned_abs x.0) x.1) then fail else rest

unfoldable pub check_no_overlap : List ℕ → List ℕ → ℕ → MohuResult (Unit {0})
unfolding non_broadcast sort check_spans
check_no_overlap shape strides itemsize =
    let axes = non_broadcast strides shape in
    if leb (length axes) 1
    then ok tt
    else check_spans (err (overlapping_strides shape strides itemsize)) (sort axes)

unfoldable pub validate_strides : List ℕ → List ℕ → ℕ → Bool → MohuResult (Unit {0})
validate_strides shape strides itemsize mutable =
    validate_axes 0 strides shape itemsize
    >> (if mutable then check_no_overlap shape strides itemsize else ok tt)
