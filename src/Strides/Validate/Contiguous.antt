-- ===== src/Strides/Validate/Contiguous.antt =====
-- crates/mohu-buffer/src/strides.rs: `validate_strides` for a read-only layout on contiguous strides.
use native.Mathlib.Nat.{mul-mod_right}
use mohu_fork_nirman.Base.{ℕ, ◌+◌, ◌*◌, ◌%◌, ◌≤◌, ◌<◌, ◌≡◌, refl, List, [], ◌∷◌, false, arith}
use mohu_fork_nirman.Base.Words.{isize_max, unsigned_abs}
use mohu_fork_nirman.Errors.{ok}
use mohu_fork_nirman.Strides.{c_strides}
use mohu_fork_nirman.Strides.Bounds.{product, positive-mul, scale}
use mohu_fork_nirman.Strides.Address.{row_major, c_strides-row_major}
use mohu_fork_nirman.Strides.Validate.{validate_axes, validate_strides}

pub unsigned_abs-small : (a : ℕ) → a ≤ isize_max → unsigned_abs a ≡ a
unfolding unsigned_abs
unsigned_abs-small a h = ground arith

axis-ok : (item p : ℕ) → 0 < item → item * p ≤ isize_max → unsigned_abs (item * p) % item ≡ 0
axis-ok item p q h = rw (unsigned_abs-small (item * p) h) (mul-mod_right item p)

pub validate_axes-row_major :
    (axis item : ℕ) (ds : List ℕ)
    → 0 < item
    → 0 < product ds
    → item * product ds ≤ isize_max
    → validate_axes axis (row_major ds item) ds item ≡ ok tt
unfolding validate_axes
validate_axes-row_major axis item [] q p h = refl
validate_axes-row_major axis item (d ∷ ds) q p h =
    let (hd, hp) = positive-mul d (product ds) p in
    let whole : item * product ds * d ≡ item * (d * product ds) = omega arith in
    let inner = scale (item * product ds) d hd in
    ground (
      arith,
      axis-ok item (product ds) q (omega arith),
      validate_axes-row_major (axis + 1) item ds q hp (omega arith),
    )

-- For a shape with no zero whose elements take at most `isize::MAX` bytes, `c_strides` passes the
-- validation of a read-only layout.
pub validate_strides-c_strides :
    (shape : List ℕ) (item : ℕ)
    → 0 < item
    → 0 < product shape
    → item * product shape ≤ isize_max
    → validate_strides shape (c_strides shape item) item false ≡ ok tt
unfolding validate_strides
validate_strides-c_strides shape item q p h =
    rw (c_strides-row_major shape item q p h, validate_axes-row_major 0 item shape q p h)
