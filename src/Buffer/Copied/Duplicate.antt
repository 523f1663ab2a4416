-- ===== src/Buffer/Copied/Duplicate.antt =====
-- crates/mohu-buffer/src/buffer.rs: a contiguous copy of a buffer reads what the buffer reads.
use mohu_fork_nirman.Base.{
  ℕ, ◌+◌, ◌*◌, ◌≤◌, ◌<◌, ◌≡◌, refl, ap, ◌∙◌, true, List, some, arith, ==_iff, le→leb,
}
use mohu_fork_nirman.Base.Words.{isize_max}
use mohu_fork_nirman.Errors.{ok}
use mohu_fork_nirman.DType.{itemsize}
use mohu_fork_nirman.Strides.Bounds.{product, InBounds, linear, linear-lt}
use mohu_fork_nirman.Strides.Address.{byte_offset-c_strides}
use mohu_fork_nirman.Layout.{size, byte_offset_unchecked}
use mohu_fork_nirman.Layout.Indexed.{fresh, byte_offset-within}
use mohu_fork_nirman.Buffer.{
  Memory, Buffer, BufferFlags, RawBuffer, only_writeable, insert_flags, contains_flags,
}
use mohu_fork_nirman.Buffer.Copy.{
  is_writeable, check_copy, set_unique, copy_checked, to_contiguous, read,
}
use mohu_fork_nirman.DType.Code.{dtype_eq_refl}
use mohu_fork_nirman.Buffer.Access.{get, check_dtype}
use mohu_fork_nirman.Strides.Iter.{wrapping_product}
use mohu_fork_nirman.Buffer.Copied.{bytes_at-same}
use mohu_fork_nirman.Buffer.Roundtrip.{itemsize-positive}
use mohu_fork_nirman.Buffer.Copied.Made.{made, alloc_buffer-Made}
use mohu_fork_nirman.Buffer.Copied.Offsets.{Readable, Elements}
use mohu_fork_nirman.Buffer.Copied.Elements.{copy_elements-Elements}

-- The source as it was, after blocks that are not in use have changed.
Readable-kept :
    (mem m : Memory) (src : Buffer)
    → m.raws src.raw ≡ mem.raws src.raw
    → Readable mem src
    → Readable m src
Readable-kept mem m src same r = record {
  axes = r.axes;
  item = r.item;
  elements = r.elements;
  fits = r.fits;
  inside = λ idx b. omega (arith, r.inside idx b, ap (λ (raw : RawBuffer). raw.nbytes) same);
  start = r.start;
}

check_copy-made :
    (src : Buffer) (k : ℕ) (flags : BufferFlags)
    → contains_flags flags only_writeable ≡ true
    → check_copy src (made k src.dtype src.layout.shape flags) ≡ ok tt
unfolding check_copy is_writeable size
check_copy-made src k flags w =
    rw
      (
        dtype_eq_refl src.dtype,
        (==_iff (wrapping_product 1 src.layout.shape) (wrapping_product 1 src.layout.shape)).1 refl,
        w,
      )
      refl

-- What `to_contiguous` makes of a buffer: a block of its own that holds the elements, besides those in use.
pub record Duplicate (mem m : Memory) (src : Buffer) : Type 0 where
  pub single : (m.raws mem.next_raw).strong_count ≡ 1
  pub long : (m.raws mem.next_raw).nbytes ≡ itemsize src.dtype * product src.layout.shape
  pub others : (k : ℕ) → k < mem.next_raw → m.raws k ≡ mem.raws k
  pub elements : Elements mem m src mem.next_raw

pub to_contiguous-Duplicate :
    (address : ℕ) (bytes : ℕ → ℕ) (mem : Memory) (src : Buffer)
    → src.raw < mem.next_raw
    → Readable mem src
    → (flags : BufferFlags) × (m : Memory) × (to_contiguous (some address) bytes mem src
        ≡ (ok (made mem.next_raw src.dtype src.layout.shape flags), m))
      × Duplicate mem m src
unfolding to_contiguous copy_checked set_unique
to_contiguous-Duplicate address bytes mem src used r =
    let shape = src.layout.shape in
    let k = mem.next_raw in
    let (flags, m1, allocated, writeable, fresh_block) =
      alloc_buffer-Made address bytes mem src.dtype shape r.elements r.fits in
    let same = fresh_block.kept src.raw used in
    let (m2, done, moved, copied) =
      copy_elements-Elements m1 src (Readable-kept mem m1 src same r) k
        (insert_flags flags only_writeable) (λ e. absurd (omega (arith, e, used)))
        (omega (arith, fresh_block.long)) in
    (
      insert_flags flags only_writeable,
      m2,
      rw (allocated, check_copy-made src k flags writeable, done) refl,
      record {
        single = moved.owners ∙ fresh_block.single;
        long = moved.as_long ∙ fresh_block.long;
        others = λ j h. moved.others j (λ e. absurd (omega (arith, e, h))) ∙ fresh_block.kept j h;
        elements = λ idx b i h.
            copied idx b i h
            ∙ ap (λ (raw : RawBuffer). raw.bytes (byte_offset_unchecked src.layout idx + i)) same;
      },
    )

pub fresh_offset :
    (shape : List ℕ) (item : ℕ) (idx : List ℕ)
    → 0 < item
    → item * product shape ≤ isize_max
    → InBounds idx shape
    → byte_offset_unchecked (fresh shape item) idx ≡ item * linear idx shape
unfolding byte_offset_unchecked
fresh_offset shape item idx q h b =
    (byte_offset-c_strides shape idx item 0 q h (omega (arith, h)) b).0 ∙ omega arith

pub last_inside : (item l p : ℕ) → l < p → item * l + item ≤ item * p
last_inside item l p h = grind arith

-- The read of an element that a copy holds.
pub get-made :
    (mem m : Memory) (src : Buffer) (flags : BufferFlags) (idx : List ℕ)
    → Readable mem src
    → Duplicate mem m src
    → InBounds idx src.layout.shape
    → get m src.dtype (made mem.next_raw src.dtype src.layout.shape flags) idx
      ≡ get mem src.dtype src idx
unfolding get check_dtype read
get-made mem m src flags idx r d b =
    let shape = src.layout.shape in
    let item = itemsize src.dtype in
    let target = fresh shape item in
    let address : byte_offset_unchecked target idx ≡ item * linear idx shape =
      fresh_offset shape item idx (itemsize-positive src.dtype) r.fits b in
    let below = last_inside item (linear idx shape) (product shape) (linear-lt idx shape b) in
    rw
      (
        dtype_eq_refl src.dtype,
        byte_offset-within target idx b,
        byte_offset-within src.layout idx b,
      )
      (rw
        (
          le→leb (byte_offset_unchecked target idx + item) (m.raws mem.next_raw).nbytes
              (omega (arith, address, below, d.long)),
          le→leb (byte_offset_unchecked src.layout idx + item) (mem.raws src.raw).nbytes
              (r.inside idx b),
        )
        (ap ok (
          bytes_at-same (m.raws mem.next_raw).bytes (mem.raws src.raw).bytes
            (byte_offset_unchecked target idx) (byte_offset_unchecked src.layout idx) item
            (λ i h. ap (λ o. (m.raws mem.next_raw).bytes (o + i)) address ∙ d.elements idx b i h))))
