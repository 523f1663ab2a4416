-- ===== src/Buffer/Create.antt =====
-- crates/mohu-buffer/src/buffer.rs and ops.rs: buffers from slices of values and back, and the fill with a
-- repeated value. A value of a scalar type is the list of its bytes.
use mohu_fork_nirman.Base.{
  ℕ, zero, suc, ◌+◌, ◌*◌, not, Option, none, some, List, [], ◌∷◌, ◌++◌, leb, ◌==◌, if◌then◌else◌,
  length,
}
use mohu_fork_nirman.Base.Words.{mul_word}
use mohu_fork_nirman.Errors.{
  MohuResult, ok, err, panic, ◌>>=◌, internal, bytes_length, non_contiguous, read_only,
}
use mohu_fork_nirman.DType.{DType, itemsize}
use mohu_fork_nirman.Layout.{Layout, size, new_c, is_c_contiguous}
use mohu_fork_nirman.Strides.Iter.{StridedByteIter, new_bytes, next_byte}
use mohu_fork_nirman.Buffer.{
  RawBuffer, Memory, Buffer, c_order, then_do, raw_alloc, drop_raw, compute_flags, insert_flags,
  only_writeable, alloc_buffer,
}
use mohu_fork_nirman.Buffer.Copy.{bytes_at, read, write, is_writeable, make_unique}
use mohu_fork_nirman.Buffer.Access.{check_dtype}

-- The bytes of a slice of values.
abbrev pub concat : List (List ℕ) → List ℕ
concat [] = []
concat (x ∷ xs) = x ++ concat xs

abbrev pub elements_at : (ℕ → ℕ) → ℕ → ℕ → ℕ → List (List ℕ)
elements_at bytes off size zero = []
elements_at bytes off size (suc n) = bytes_at bytes off size ∷ elements_at bytes (off + size) size n

-- The end of `from_slice`.
unfoldable pub with_slice : DType → ℕ → MohuResult Layout → Memory → MohuResult Buffer × Memory
unfolding compute_flags insert_flags drop_raw
with_slice dtype k (ok layout) mem = (
  ok (record {
    raw = k;
    dtype = dtype;
    layout = layout;
    flags = insert_flags (compute_flags (mem.raws k) layout) only_writeable;
  }),
  mem,
)
with_slice dtype k (err e) mem = (err e, drop_raw mem k)
with_slice dtype k panic mem = (panic, drop_raw mem k)

-- `from_slice`, and `from_vec`
unfoldable pub from_slice :
    Option ℕ → (ℕ → ℕ) → Memory → DType → List (List ℕ) → MohuResult Buffer × Memory
from_slice system fresh mem dtype values =
    then_do (raw_alloc system fresh mem (mul_word (length values) (itemsize dtype))) (λ k mem.
      then_do (write mem k 0 (concat values))
        (λ done mem. with_slice dtype k (new_c (length values ∷ []) (itemsize dtype)) mem))

-- `as_slice`
unfoldable pub as_slice : Memory → DType → Buffer → MohuResult (List (List ℕ))
unfolding check_dtype
as_slice mem t buf =
    let raw = mem.raws buf.raw in
    let len = size buf.layout in
    check_dtype t buf >>= λ done.
    if not (is_c_contiguous buf.layout)
    then err non_contiguous
    else if leb (buf.layout.offset + len * itemsize t) raw.nbytes
    then ok (elements_at raw.bytes buf.layout.offset (itemsize t) len)
    else panic

-- The loop of `to_vec` over a buffer that is not contiguous, in as many rounds as it has elements.
unfoldable pub collect_loop : ℕ → StridedByteIter → RawBuffer → ℕ → MohuResult (List (List ℕ))
unfolding read
collect_loop zero it raw size = ok []
collect_loop (suc fuel) it raw size =
    let (item, it') = next_byte it in
    let rest = collect_loop fuel it' raw size in
    elim item [
      | none ↦ ok []
      | some off ↦ read raw off size >>= λ value. rest >>= λ values. ok (value ∷ values)
    ]

unfoldable pub to_vec : Memory → DType → Buffer → MohuResult (List (List ℕ))
unfolding check_dtype as_slice collect_loop
to_vec mem t buf =
    let strided =
      collect_loop (suc (size buf.layout))
        (new_bytes buf.layout.shape buf.layout.strides buf.layout.offset) (mem.raws buf.raw)
        (itemsize t) in
    check_dtype t buf >>= λ done. if is_c_contiguous buf.layout then as_slice mem t buf else strided

-- The parallel fill of a slice, whose chunks hold whole values.
unfoldable pub fill_slice : Memory → ℕ → ℕ → List ℕ → ℕ → MohuResult (Unit {0}) × Memory
unfolding write
fill_slice mem k off value zero = (ok tt, mem)
fill_slice mem k off value (suc n) =
    then_do (write mem k off value) (λ done mem. fill_slice mem k (off + length value) value n)

-- The fill of a buffer that is not contiguous, from the pointer `first`.
unfoldable pub fill_loop :
    ℕ → StridedByteIter → Memory → ℕ → ℕ → List ℕ → MohuResult (Unit {0}) × Memory
unfolding write
fill_loop zero it mem k first value = (ok tt, mem)
fill_loop (suc fuel) it mem k first value =
    let (item, it') = next_byte it in
    elim item [
      | none ↦ (ok tt, mem)
      | some off ↦
          then_do (write mem k (first + off) value)
            (λ done mem. fill_loop fuel it' mem k first value)
    ]

unfoldable pub fill_elements : Buffer → Memory → List ℕ → MohuResult (Unit {0}) × Memory
unfolding fill_slice fill_loop
fill_elements buf mem value =
    if is_c_contiguous buf.layout
    then fill_slice mem buf.raw buf.layout.offset value (size buf.layout)
    else fill_loop (suc (size buf.layout))
        (new_bytes buf.layout.shape buf.layout.strides buf.layout.offset) mem buf.raw
        buf.layout.offset value

-- `fill_raw`
unfoldable pub fill_raw :
    Option ℕ → (ℕ → ℕ) → List ℕ → Buffer × Memory → MohuResult (Unit {0}) × (Buffer × Memory)
unfolding fill_elements
fill_raw system fresh value s =
    if not (length value == s.0.layout.itemsize)
    then (err (internal (bytes_length (length value) s.0.layout.itemsize)), s)
    else if not (is_writeable s.0)
    then (err read_only, s)
    else then_do (make_unique system fresh s)
        (λ done s. let (r, mem') = fill_elements s.0 s.1 value in (r, (s.0, mem')))

-- The end of `full`; the buffer is dropped where the fill fails.
unfoldable pub filled : MohuResult (Unit {0}) × (Buffer × Memory) → MohuResult Buffer × Memory
filled (ok done, (buf, mem)) = (ok buf, mem)
filled (err e, (buf, mem)) = (err e, drop_raw mem buf.raw)
filled (panic, (buf, mem)) = (panic, mem)

-- `Buffer::full`
unfoldable pub full :
    Option ℕ → (ℕ → ℕ) → Memory → DType → List ℕ → List ℕ → MohuResult Buffer × Memory
unfolding filled
full system fresh mem dtype shape value =
    if not (length value == itemsize dtype)
    then (err (internal (bytes_length (length value) (itemsize dtype))), mem)
    else then_do (alloc_buffer system fresh mem dtype shape c_order)
        (λ buf mem. filled (fill_raw system fresh value (buf, mem)))
