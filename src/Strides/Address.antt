-- ===== src/Strides/Address.antt =====
-- crates/mohu-buffer/src/strides.rs: the offsets of indices under `c_strides`.
use mohu_fork_nirman.Base.{ℕ, zero, suc, ◌+◌, ◌*◌, ◌≤◌, ◌<◌, ◌≡◌, ap, ◌∙◌, List, [], ◌∷◌, arith}
use mohu_fork_nirman.Base.Words.{
  usize_mod, isize_max, add_word, mul_word, add_word-eq-add, mul_word-eq-mul, saturating_mul-eq-mul,
}
use mohu_fork_nirman.Strides.{c_strides_from, c_strides, byte_offset}
use mohu_fork_nirman.Strides.Bounds.{product, InBounds, linear, linear-lt, positive-mul, scale}

-- The strides of the row-major order without a limit on their size.
abbrev pub row_major : List ℕ → ℕ → List ℕ
row_major [] item = []
row_major (d ∷ ds) item = item * product ds ∷ row_major ds item

pub positive-product : (a b : ℕ) → 0 < a → 0 < b → 0 < a * b
positive-product zero b h k = elim h [ ]
positive-product (suc a) zero h k = elim k [ ]
positive-product (suc a) (suc b) h k = omega arith

-- Below `isize::MAX` nothing saturates.
c_strides_from-row_major :
    (ds : List ℕ) (item : ℕ)
    → 0 < item
    → 0 < product ds
    → item * product ds ≤ isize_max
    → c_strides_from ds item ≡ (row_major ds item, item * product ds)
unfolding c_strides_from
c_strides_from-row_major [] item q p h = ap (λ k. ([], k)) (omega arith)
c_strides_from-row_major (d ∷ ds) item q p h =
    let (hd, hp) = positive-mul d (product ds) p in
    let whole : item * product ds * d ≡ item * (d * product ds) = omega arith in
    let inner = scale (item * product ds) d hd in
    let outer = scale d (item * product ds) (positive-product item (product ds) q hp) in
    rw (c_strides_from-row_major ds item q hp (omega arith)) (
      rw (saturating_mul-eq-mul (item * product ds) d (omega arith) (omega arith) (omega arith))
        (ap (λ k. (item * product ds ∷ row_major ds item, k)) whole))

block : (i d q : ℕ) → i < d → i * q + q ≤ d * q
block i d q h = grind arith

-- The address of an index under row-major strides, which does not wrap.
pub byte_offset-row_major :
    (idx ds : List ℕ) (item off : ℕ)
    → InBounds idx ds
    → off + item * product ds < usize_mod
    → byte_offset idx (row_major ds item) off ≡ off + item * linear idx ds
unfolding byte_offset
byte_offset-row_major [] [] item off b h = omega arith
byte_offset-row_major [] (d ∷ ds) item off b h = absurd b
byte_offset-row_major (i ∷ is) [] item off b h = absurd b
byte_offset-row_major (i ∷ is) (d ∷ ds) item off b h =
    let fits = block i d (item * product ds) b.0 in
    let step : add_word off (mul_word i (item * product ds)) ≡ off + i * (item * product ds) =
      rw (mul_word-eq-mul i (item * product ds) (omega arith))
        (add_word-eq-add off (i * (item * product ds)) (omega arith)) in
    rw step (
      byte_offset-row_major is ds item (off + i * (item * product ds)) b.1 (omega arith)
      ∙ omega arith)

-- For a shape with no zero whose elements take at most `isize::MAX` bytes, laid out from `base` so
-- that the end does not pass 2 ^ 64, the byte offset of an index under `c_strides` is `base` plus
-- the item size times the index's row-major number, and so lies an item below the end.
pub byte_offset-c_strides :
    (shape idx : List ℕ) (item base : ℕ)
    → 0 < item
    → item * product shape ≤ isize_max
    → base + item * product shape < usize_mod
    → InBounds idx shape
    → (byte_offset idx (c_strides shape item) base ≡ base + item * linear idx shape)
      × (byte_offset idx (c_strides shape item) base + item ≤ base + item * product shape)
unfolding c_strides
byte_offset-c_strides shape idx item base q h fits b =
    let bound = linear-lt idx shape b in
    let strides =
      ap (λ (r : List ℕ × ℕ). r.0) (c_strides_from-row_major shape item q (omega arith) h) in
    let address =
      ap (λ ss. byte_offset idx ss base) strides
      ∙ byte_offset-row_major idx shape item base b fits in
    (address, rw address (omega (arith, block (linear idx shape) (product shape) item bound)))

pub c_strides-row_major :
    (shape : List ℕ) (item : ℕ)
    → 0 < item
    → 0 < product shape
    → item * product shape ≤ isize_max
    → c_strides shape item ≡ row_major shape item
unfolding c_strides
c_strides-row_major shape item q p h =
    ap (λ (r : List ℕ × ℕ). r.0) (c_strides_from-row_major shape item q p h)
