-- ===== src/Strides.antt =====
-- crates/mohu-buffer/src/strides.rs: strides, index conversion and broadcasting. A stride is the
-- bit pattern of an `isize`, see Base/Words. The walk of two slices by `zip` is a recursion on
-- both lists.
pub mod Bounds
pub mod Size
pub mod Ravel
pub mod Address
pub mod Reach
pub mod Orders
pub mod Broadcast
pub mod Repeated
pub mod Iter
pub mod Validate
mod Examples
use mohu_fork_nirman.Base.{
  ℕ, zero, suc, ◌+◌, ◌-◌, ◌*◌, ◌/◌, ◌%◌, Bool, true, false, List, [], ◌∷◌, ◌++◌, Option, none, some,
  ◌==◌, ltb, leb, ◌&&◌, if◌then◌else◌, length, drop, replicate,
}
use mohu_fork_nirman.Base.Words.{
  usize_mod, usize_max, isize_max, add_word, mul_word, saturating_mul, checked_mul,
}
use mohu_fork_nirman.Errors.{
  MohuResult, ok, err, panic, ◌>>=◌, ◌>>◌, guard, shape_overflow, broadcast_error,
  index_out_of_bounds, too_many_indices,
}

-- The loop of `c_strides`, which fills the strides from the last axis: the strides and what the
-- accumulator is left at.
unfoldable pub c_strides_from : List ℕ → ℕ → List ℕ × ℕ
c_strides_from [] acc = ([], acc)
c_strides_from (d ∷ ds) acc =
    let (strides, acc') = c_strides_from ds acc in (acc' ∷ strides, saturating_mul acc' d)

unfoldable pub c_strides : List ℕ → ℕ → List ℕ
unfolding c_strides_from
c_strides shape itemsize = (c_strides_from shape itemsize).0

-- The loop of `f_strides`, from the first axis on.
unfoldable pub f_strides_from : List ℕ → ℕ → List ℕ
f_strides_from [] acc = []
f_strides_from (d ∷ ds) acc = acc ∷ f_strides_from ds (saturating_mul acc d)

unfoldable pub f_strides : List ℕ → ℕ → List ℕ
unfolding f_strides_from
f_strides shape itemsize = f_strides_from shape itemsize

-- One round of the loop of `shape_size`.
unfoldable pub size_step : ℕ → ℕ → MohuResult ℕ
unfolding checked_mul
size_step total dim = elim (checked_mul total dim) [
  | none ↦ err (shape_overflow usize_max)
  | some t ↦ if ltb isize_max t then err (shape_overflow isize_max) else ok t
]

unfoldable pub shape_size_from : ℕ → List ℕ → MohuResult ℕ
shape_size_from total [] = ok total
shape_size_from total (d ∷ ds) = size_step total d >>= λ t. shape_size_from t ds

unfoldable pub shape_size : List ℕ → MohuResult ℕ
unfolding shape_size_from size_step
shape_size shape = shape_size_from 1 shape

-- `size.checked_mul(itemsize).ok_or(…)`
unfoldable pub bytes_of : ℕ → ℕ → MohuResult ℕ
unfolding checked_mul
bytes_of size itemsize = elim (checked_mul size itemsize) [
  | none ↦ err (shape_overflow usize_max)
  | some n ↦ ok n
]

unfoldable pub contiguous_nbytes : List ℕ → ℕ → MohuResult ℕ
unfolding bytes_of
contiguous_nbytes [] itemsize = ok itemsize
contiguous_nbytes (d ∷ ds) itemsize = shape_size (d ∷ ds) >>= λ size. bytes_of size itemsize

-- The loop of `broadcast_strides` over the source's axes, beside the target's trailing axes.
-- `fail` is the error that it returns. The source has no more axes than the target, so the last
-- clause, an index out of range, is never reached.
unfoldable pub broadcast_axes : MohuResult (List ℕ) → List ℕ → List ℕ → List ℕ → MohuResult (List ℕ)
broadcast_axes fail [] strides tgt = ok []
broadcast_axes fail (s ∷ ss) [] tgt = ok []
broadcast_axes fail (s ∷ ss) (st ∷ sts) [] = panic
broadcast_axes fail (s ∷ ss) (st ∷ sts) (t ∷ ts) =
    let rest = broadcast_axes fail ss sts ts in
    if s == t
    then (rest >>= λ out. ok (st ∷ out))
    else if s == 1
    then (rest >>= λ out. ok (0 ∷ out))
    else fail

unfoldable pub broadcast_strides : List ℕ → List ℕ → List ℕ → MohuResult (List ℕ)
unfolding broadcast_axes
broadcast_strides src_shape src_strides tgt_shape =
    let fail = err (broadcast_error src_shape tgt_shape) in
    let offset = length tgt_shape - length src_shape in
    if ltb (length tgt_shape) (length src_shape)
    then fail
    else (broadcast_axes fail src_shape src_strides (drop offset tgt_shape) >>= λ out.
        ok (replicate offset 0 ++ out))

-- The loop of `unravel_index`, from the last axis: the indices and the remainder that is left. A
-- remainder by zero panics.
unfoldable pub unravel_from : List ℕ → ℕ → MohuResult (List ℕ × ℕ)
unravel_from [] rem = ok ([], rem)
unravel_from (d ∷ ds) rem =
    unravel_from ds rem >>= λ (idx, r). if d == 0 then panic else ok (r % d ∷ idx, r / d)

unfoldable pub unravel_index : ℕ → List ℕ → MohuResult (List ℕ)
unravel_index flat shape = shape_size shape >>= λ size.
    if leb size flat && ltb 0 size
    then err (index_out_of_bounds flat 0 size)
    else (unravel_from shape flat >>= λ (idx, r). ok idx)

-- The loop of `ravel_multi_index`.
unfoldable pub ravel_from : ℕ → ℕ → List ℕ → List ℕ → MohuResult ℕ
unfolding add_word mul_word
ravel_from flat axis (i ∷ is) (d ∷ ds) =
    let rest = ravel_from (add_word (mul_word flat d) i) (axis + 1) is ds in
    if leb d i then err (index_out_of_bounds i axis d) else rest
ravel_from flat axis [] ds = ok flat
ravel_from flat axis is [] = ok flat

unfoldable pub ravel_multi_index : List ℕ → List ℕ → MohuResult ℕ
unfolding ravel_from
ravel_multi_index indices shape =
    if length indices == length shape
    then ravel_from 0 0 indices shape
    else err (too_many_indices (length indices) (length shape))

unfoldable pub byte_offset : List ℕ → List ℕ → ℕ → ℕ
unfolding add_word mul_word
byte_offset (i ∷ is) (s ∷ ss) off = byte_offset is ss (add_word off (mul_word i s))
byte_offset [] ss off = off
byte_offset is [] off = off
