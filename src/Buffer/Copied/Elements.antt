-- ===== src/Buffer/Copied/Elements.antt =====
-- crates/mohu-buffer/src/ops.rs: a copy of a buffer's elements to a new block keeps each of them.
use mohu_fork_nirman.Base.{
  ℕ, suc, ◌+◌, ◌-◌, ◌*◌, ◌≤◌, ◌<◌, ◌≡◌, inl, inr, ap, sym, ◌∙◌, true, false, List, arith,
  Bool-cases,
}
use mohu_fork_nirman.Base.Words.{usize_mod, mul_word}
use mohu_fork_nirman.Errors.{ok}
use mohu_fork_nirman.DType.{itemsize}
use mohu_fork_nirman.Strides.{c_strides, shape_size, bytes_of, contiguous_nbytes}
use mohu_fork_nirman.Strides as strides_module
use mohu_fork_nirman.Strides.Bounds.{product, InBounds, linear, linear-lt}
use mohu_fork_nirman.Strides.Address.{byte_offset-c_strides}
use mohu_fork_nirman.Layout.{size, ndim, is_empty, is_c_contiguous, byte_offset_unchecked}
use mohu_fork_nirman.Layout.Reshaped.{contiguous_strides}
use mohu_fork_nirman.Buffer.{Memory, Buffer, BufferFlags}
use mohu_fork_nirman.Buffer.Copy.{copy_bytes, copy_elements}
use mohu_fork_nirman.Buffer.Copied.{Moved, copy_bytes-Moved}
use mohu_fork_nirman.Strides.Iter.Runs.{total-new}
use mohu_fork_nirman.Buffer.Roundtrip.{itemsize-positive, total_bytes, is_c_contiguous-fresh}
use mohu_fork_nirman.Buffer.Copied.Made.{made}
use mohu_fork_nirman.Buffer.Copied.Offsets.{Readable, Elements, small, offsets-index, strided}

last_item : (item l p : ℕ) → 0 < p → l ≡ p - 1 → item * l + item ≡ item * p
last_item item l p h e =
    let whole : suc l ≡ p = omega (arith, e, h) in
    let step : item * suc l ≡ item * l + item = grind arith in sym step ∙ ap (λ n. item * n) whole

inside_item : (item l p i : ℕ) → l < p → i < item → item * l + i < item * p
inside_item item l p i h k = grind arith

module _ (mem : Memory) (src : Buffer) (r : Readable mem src) where
  contiguous_offset :
      (idx : List ℕ)
      → is_c_contiguous src.layout ≡ true
      → src.layout.offset + itemsize src.dtype * product src.layout.shape < usize_mod
      → InBounds idx src.layout.shape
      → byte_offset_unchecked src.layout idx
        ≡ src.layout.offset + itemsize src.dtype * linear idx src.layout.shape
  unfolding byte_offset_unchecked is_c_contiguous is_empty ndim
  contiguous_offset idx c top b =
      let shape = src.layout.shape in
      let strides =
        contiguous_strides shape src.layout.strides idx src.layout.itemsize r.axes b c in
      ap (λ ss. strides_module.byte_offset idx ss src.layout.offset)
        (strides ∙ ap (c_strides shape) r.item)
      ∙ (byte_offset-c_strides shape idx (itemsize src.dtype) src.layout.offset
          (itemsize-positive src.dtype) r.fits top b).0

  -- The copy in one go.
  whole :
      (k : ℕ)
      → is_c_contiguous src.layout ≡ true
      → src.layout.offset + itemsize src.dtype * product src.layout.shape < usize_mod
      → itemsize src.dtype * product src.layout.shape ≤ (mem.raws k).nbytes
      → (m : Memory) × (copy_bytes mem src.raw src.layout.offset k 0
            (mul_word (size src.layout) (itemsize src.dtype))
          ≡ (ok tt, m))
        × Moved mem m k
        × Elements mem m src k
  unfolding size
  whole k c top room =
      let shape = src.layout.shape in
      let item = itemsize src.dtype in
      let total =
        ap (λ n. mul_word n item) (total-new shape (small mem src r))
        ∙ total_bytes (product shape) item r.fits in
      let (idx, within, number, _, _) =
        offsets-index mem src r (product shape - 1) (omega (arith, r.elements)) in
      let last = contiguous_offset idx c top within in
      let end : item * linear idx shape + item ≡ item * product shape =
        last_item item (linear idx shape) (product shape) r.elements number in
      let (m, done, moved, copied, _) =
        copy_bytes-Moved mem src.raw src.layout.offset k 0 (item * product shape)
          (omega (arith, last, end, r.inside idx within)) (omega (arith, room)) in
      (
        m,
        ap (λ n. copy_bytes mem src.raw src.layout.offset k 0 n) total ∙ done,
        moved,
        (λ idx b i h.
            let below : item * linear idx shape + i < item * product shape =
              inside_item item (linear idx shape) (product shape) i (linear-lt idx shape b) h in
            ap (m.raws k).bytes (omega arith)
            ∙ copied (item * linear idx shape + i) below
            ∙ ap (mem.raws src.raw).bytes (omega (arith, contiguous_offset idx c top b))),
      )

  pub copy_elements-Elements :
      (k : ℕ) (flags : BufferFlags)
      → ¬ (src.raw ≡ k)
      → itemsize src.dtype * product src.layout.shape ≤ (mem.raws k).nbytes
      → (m : Memory) × (copy_elements mem src (made k src.dtype src.layout.shape flags)
          ≡ (ok tt, m))
        × Moved mem m k
        × Elements mem m src k
  unfolding copy_elements
  copy_elements-Elements k flags other room =
      let dst = is_c_contiguous-fresh src.layout.shape (itemsize src.dtype) in
      elim (Bool-cases (is_c_contiguous src.layout)) [
        | inl c ↦
            let (m, done, moved, copied) = whole k c (no_wrap c) room in
            (m, rw (c, dst) done, moved, copied)
        | inr c ↦
            let (m, done, moved, copied) =
              strided mem src r k src.layout.shape other (first_byte c) room in
            (m, rw c done, moved, copied)
      ]
    where
      no_wrap :
          is_c_contiguous src.layout ≡ true
          → src.layout.offset + itemsize src.dtype * product src.layout.shape < usize_mod
      no_wrap c = elim r.start [ inl e ↦ omega (arith, e, r.fits) | inr (_, top) ↦ top ]

      first_byte : is_c_contiguous src.layout ≡ false → src.layout.offset ≡ 0
      first_byte c = elim r.start [ inl e ↦ e | inr (c', _) ↦ cc ]
