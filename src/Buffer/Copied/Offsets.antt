-- ===== src/Buffer/Copied/Offsets.antt =====
-- crates/mohu-buffer/src/ops.rs: a copy one by one, over the byte iterator, keeps each element.
use mohu_fork_nirman.Base.{
  ℕ, suc, ◌+◌, ◌*◌, ◌≤◌, ◌<◌, ◌≡◌, ◌⊎◌, refl, ap, ◌∙◌, true, List, Option, none, some, length,
  arith,
}
use mohu_fork_nirman.Base.Words.{usize_mod, isize_max}
use mohu_fork_nirman.Errors.{ok}
use mohu_fork_nirman.DType.{itemsize}
use mohu_fork_nirman.Strides.{c_strides, shape_size, bytes_of, contiguous_nbytes}
use mohu_fork_nirman.Strides as strides_module
use mohu_fork_nirman.Strides.Bounds.{product, InBounds, linear, linear-lt, linear-injective}
use mohu_fork_nirman.Strides.Iter.{new_bytes}
use mohu_fork_nirman.Strides.Iter.Yield.{nth-within}
use mohu_fork_nirman.Strides.Iter.Bytes.{at_index, nth_byte, nth_byte-nth, nth_byte-past}
use mohu_fork_nirman.Layout.{size, is_c_contiguous, byte_offset_unchecked}
use mohu_fork_nirman.Buffer.{Memory, Buffer}
use mohu_fork_nirman.Buffer.Copy.{copy_loop}
use mohu_fork_nirman.Buffer.Copied.{Moved, Ahead, copy_loop-Moved}
use mohu_fork_nirman.Strides.Iter.Runs.{total-new}
use mohu_fork_nirman.Buffer.Roundtrip.{itemsize-positive}
use mohu_fork_nirman.Buffer.Copied.Made.{scale_by}

-- A buffer with elements, which all lie in its block, and which take at most `isize::MAX` bytes. It starts at its
-- block's first byte, or it is contiguous and its end does not pass 2 ^ 64.
pub record Readable (mem : Memory) (buf : Buffer) : Type 0 where
  pub axes : length buf.layout.strides ≡ length buf.layout.shape
  pub item : buf.layout.itemsize ≡ itemsize buf.dtype
  pub elements : 0 < product buf.layout.shape
  pub fits : itemsize buf.dtype * product buf.layout.shape ≤ isize_max
  pub inside :
      (idx : List ℕ)
      → InBounds idx buf.layout.shape
      → byte_offset_unchecked buf.layout idx + itemsize buf.dtype ≤ (mem.raws buf.raw).nbytes
  pub start :
      (buf.layout.offset ≡ 0)
      ⊎ ((is_c_contiguous buf.layout ≡ true)
          × (buf.layout.offset + itemsize buf.dtype * product buf.layout.shape < usize_mod))

-- What the byte iterator gives where it gives something.
abbrev offset_or_0 : Option ℕ → ℕ
offset_or_0 none = 0
offset_or_0 (some off) = off

nth_byte-index :
    (shape strides : List ℕ) (base k : ℕ)
    → product shape < usize_mod
    → k < product shape
    → (idx : List ℕ) × InBounds idx shape
      × (linear idx shape ≡ k)
      × (nth_byte k (new_bytes shape strides base)
          ≡ some (strides_module.byte_offset idx strides base))
unfolding new_bytes
nth_byte-index shape strides base k w h =
    let (idx, e, within, number) = nth-within shape k w h in
    (idx, within, number, nth_byte-nth k _ ∙ ap (at_index strides base) e)

-- What a copy of the elements of `src` into the block `k` leaves there.
abbrev pub Elements : Memory → Memory → Buffer → ℕ → Type 0
Elements mem m src k =
    (idx : List ℕ)
    → InBounds idx src.layout.shape
    → (i : ℕ) → i < itemsize src.dtype
    → (m.raws k).bytes (itemsize src.dtype * linear idx src.layout.shape + i)
      ≡ (mem.raws src.raw).bytes (byte_offset_unchecked src.layout idx + i)

module _ (mem : Memory) (src : Buffer) (r : Readable mem src) where
  pub offsets : ℕ → ℕ
  offsets j =
      offset_or_0 (nth_byte j (new_bytes src.layout.shape src.layout.strides src.layout.offset))

  pub small : product src.layout.shape < usize_mod
  small =
      let wide : product src.layout.shape ≤ itemsize src.dtype * product src.layout.shape =
        scale_by (itemsize src.dtype) (product src.layout.shape) (itemsize-positive src.dtype) in
      omega (arith, wide, r.fits)

  pub offsets-index :
      (k : ℕ)
      → k < product src.layout.shape
      → (idx : List ℕ) × InBounds idx src.layout.shape
        × (linear idx src.layout.shape ≡ k)
        × (nth_byte k (new_bytes src.layout.shape src.layout.strides src.layout.offset)
            ≡ some (offsets k))
        × (offsets k ≡ byte_offset_unchecked src.layout idx)
  unfolding offsets byte_offset_unchecked
  offsets-index k h =
      let (idx, within, number, e) =
        nth_byte-index src.layout.shape src.layout.strides src.layout.offset k small h in
      (idx, within, number, rw e refl, rw e refl)

  offsets-linear :
      (idx : List ℕ)
      → InBounds idx src.layout.shape
      → offsets (linear idx src.layout.shape) ≡ byte_offset_unchecked src.layout idx
  offsets-linear idx b =
      let shape = src.layout.shape in
      let (jdx, within, number, _, same) =
        offsets-index (linear idx shape) (linear-lt idx shape b) in
      same ∙ ap (byte_offset_unchecked src.layout) (linear-injective jdx idx shape within b number)

  offsets-Ahead :
      src.layout.offset ≡ 0
      → Ahead
          (new_bytes src.layout.shape src.layout.strides src.layout.offset)
          (product src.layout.shape)
          offsets
          src.layout.offset
          (itemsize src.dtype)
          (mem.raws src.raw).nbytes
  offsets-Ahead start = record {
    yields = λ j h. (offsets-index j h).3;
    ends =
        nth_byte-past src.layout.shape src.layout.strides src.layout.offset
          (product src.layout.shape) small (omega arith);
    inside = λ j h.
        let (idx, within, _, _, same) = offsets-index j h in
        omega (arith, same, r.inside idx within, start);
  }

  -- The copy one by one, from a layout that starts at the first byte.
  pub strided :
      (k : ℕ) (shape : List ℕ)
      → ¬ (src.raw ≡ k)
      → src.layout.offset ≡ 0
      → itemsize src.dtype * product src.layout.shape ≤ (mem.raws k).nbytes
      → (m : Memory) × (copy_loop
            (suc (size src.layout))
            (new_bytes src.layout.shape src.layout.strides src.layout.offset)
            0
            mem
            src.raw
            src.layout.offset
            k
            0
            (itemsize src.dtype)
            (itemsize src.dtype)
          ≡ (ok tt, m))
        × Moved mem m k
        × Elements mem m src k
  unfolding size
  strided k shape other start room =
      let count = total-new src.layout.shape small in
      let turned : product src.layout.shape * itemsize src.dtype
          ≡ itemsize src.dtype * product src.layout.shape =
        grind arith in
      let (m, done, moved, copied, _) =
        copy_loop-Moved (product src.layout.shape) (suc (size src.layout))
          (new_bytes src.layout.shape src.layout.strides src.layout.offset) 0 mem src.raw
          src.layout.offset k 0 (itemsize src.dtype) offsets other (omega (arith, count))
          (offsets-Ahead start) (omega (arith, turned, room)) in
      (
        m,
        done,
        moved,
        (λ idx b i h.
            let number = linear idx src.layout.shape in
            let swapped : itemsize src.dtype * number ≡ number * itemsize src.dtype = grind arith in
            let at : itemsize src.dtype * number + i ≡ 0 + (0 + number) * itemsize src.dtype + i =
              omega (arith, swapped) in
            let from : src.layout.offset + offsets number + i
                ≡ byte_offset_unchecked src.layout idx + i =
              omega (arith, start, offsets-linear idx b) in
            ap (m.raws k).bytes at
            ∙ copied number i (linear-lt idx src.layout.shape b) h
            ∙ ap (mem.raws src.raw).bytes from),
      )
