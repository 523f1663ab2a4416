-- ===== src/Buffer/Copied/Made.antt =====
-- crates/mohu-buffer/src/buffer.rs: the buffer that `Buffer::alloc` makes of a shape with elements.
use mohu_fork_nirman.Base.{
  ℕ, zero, suc, ◌*◌, ◌≤◌, ◌<◌, ◌≡◌, inl, inr, refl, ap, true, List, [], ◌∷◌, some, lt→ltb, arith,
}
use mohu_fork_nirman.Base.Words.{usize_mod, isize_max, checked_mul}
use mohu_fork_nirman.Errors.{ok}
use mohu_fork_nirman.DType.{DType, itemsize}
use mohu_fork_nirman.Strides.{bytes_of, contiguous_nbytes}
use mohu_fork_nirman.Strides.Bounds.{product}
use mohu_fork_nirman.Strides.Address.{positive-product}
use mohu_fork_nirman.Strides.Size.{shape_size-product}
use mohu_fork_nirman.Layout.{Layout}
use mohu_fork_nirman.Layout.Indexed.{fresh, new_c-fresh}
use mohu_fork_nirman.Buffer.{
  Memory, Buffer, BufferFlags, RawBuffer, only_writeable, c_order, compute_flags, with_layout,
  layout_of, alloc_buffer, insert_flags, contains_flags,
}
use mohu_fork_nirman.Buffer.Roundtrip.{raw_alloc-some, itemsize-positive}

bytes_of-mul : (n item : ℕ) → item * n ≤ isize_max → bytes_of n item ≡ ok (item * n)
unfolding bytes_of checked_mul
bytes_of-mul n item h =
    let turned : n * item ≡ item * n = grind arith in
    rw (turned, bytes_of) (rw (lt→ltb (item * n) usize_mod (omega (arith, h))) refl)

pub scale_by : (a n : ℕ) → 0 < a → n ≤ a * n
scale_by zero n h = absurd (omega (arith, h))
scale_by (suc a) n h = omega arith

-- The bytes of a shape with elements, which take at most `isize::MAX`.
contiguous_nbytes-product :
    (shape : List ℕ) (item : ℕ)
    → 0 < item
    → 0 < product shape
    → item * product shape ≤ isize_max
    → contiguous_nbytes shape item ≡ ok (item * product shape)
unfolding contiguous_nbytes
contiguous_nbytes-product [] item q p h = ap ok (omega arith)
contiguous_nbytes-product (d ∷ ds) item q p h = elim (shape_size-product (d ∷ ds)) [
  | inr (empty, _) ↦ absurd (omega (arith, empty, p))
  | inl (_, inl (_, e)) ↦ rw e (bytes_of-mul (product (d ∷ ds)) item h)
  | inl (_, inr (over, _)) ↦
      let wide : product (d ∷ ds) ≤ item * product (d ∷ ds) = scale_by item (product (d ∷ ds)) q in
      absurd (omega (arith, over, wide, h))
]

-- The buffer that `alloc_buffer` makes in the block `k`.
abbrev pub made : ℕ → DType → List ℕ → BufferFlags → Buffer
made k t shape flags = record {
  raw = k;
  dtype = t;
  layout = fresh shape (itemsize t);
  flags = flags;
}

compute_flags-writeable :
    (raw : RawBuffer) (l : Layout) → contains_flags (compute_flags raw l) only_writeable ≡ true
unfolding compute_flags insert_flags contains_flags
compute_flags-writeable raw l = ground arith

pub record Made (mem m : Memory) (t : DType) (shape : List ℕ) : Type 0 where
  pub long : (m.raws mem.next_raw).nbytes ≡ itemsize t * product shape
  pub single : (m.raws mem.next_raw).strong_count ≡ 1
  pub kept : (k : ℕ) → k < mem.next_raw → m.raws k ≡ mem.raws k

pub alloc_buffer-Made :
    (address : ℕ) (bytes : ℕ → ℕ) (mem : Memory) (t : DType) (shape : List ℕ)
    → 0 < product shape
    → itemsize t * product shape ≤ isize_max
    → (flags : BufferFlags) × (m : Memory) × (alloc_buffer (some address) bytes mem t shape c_order
        ≡ (ok (made mem.next_raw t shape flags), m))
      × (contains_flags flags only_writeable ≡ true)
      × Made mem m t shape
unfolding alloc_buffer with_layout layout_of
alloc_buffer-Made address bytes mem t shape p h =
    let positive = itemsize-positive t in
    let (m, allocated, long, single, kept) =
      raw_alloc-some address bytes mem (itemsize t * product shape)
        (positive-product (itemsize t) (product shape) positive p) in
    let sized = contiguous_nbytes-product shape (itemsize t) positive p h in
    let laid = new_c-fresh shape (itemsize t) positive p h in
    (
      compute_flags (m.raws mem.next_raw) (fresh shape (itemsize t)),
      m,
      rw (sized, allocated, laid) refl,
      compute_flags-writeable (m.raws mem.next_raw) (fresh shape (itemsize t)),
      record { long = long; single = single; kept = kept },
    )
