-- ===== src/Buffer/Copy.antt =====
-- crates/mohu-buffer/src/ops.rs and buffer.rs: copies between buffers, and copy on write.
use mohu_fork_nirman.Base.{
  ℕ, zero, suc, ◌+◌, ◌*◌, Bool, not, ◌&&◌, Option, none, some, List, [], ◌∷◌, leb, ◌==◌,
  if◌then◌else◌, length,
}
use mohu_fork_nirman.Base.Words.{mul_word}
use mohu_fork_nirman.Errors.{
  MohuResult, ok, err, panic, dtype_mismatch, dtype_name, shape_mismatch, read_only,
}
use mohu_fork_nirman.DType.{itemsize}
use mohu_fork_nirman.DType.Code.{as_u8, dtype_eq}
use mohu_fork_nirman.Layout.{size, is_c_contiguous}
use mohu_fork_nirman.Strides.Iter.{StridedByteIter, new_bytes, next_byte}
use mohu_fork_nirman.Buffer.{
  RawBuffer, Memory, Buffer, put, then_do, c_order, alloc_buffer, drop_raw, contains_flags,
  insert_flags, only_writeable,
}

-- `n` bytes from `off` on.
abbrev pub bytes_at : (ℕ → ℕ) → ℕ → ℕ → List ℕ
bytes_at bytes off zero = []
bytes_at bytes off (suc n) = bytes off ∷ bytes_at bytes (suc off) n

abbrev pub overwrite : (ℕ → ℕ) → ℕ → List ℕ → ℕ → ℕ
overwrite bytes off [] i = bytes i
overwrite bytes off (v ∷ vs) i = if i == off then v else overwrite bytes (suc off) vs i

-- A read of `n` bytes through a pointer into a block.
unfoldable pub read : RawBuffer → ℕ → ℕ → MohuResult (List ℕ)
read raw off n = if leb (off + n) raw.nbytes then ok (bytes_at raw.bytes off n) else panic

unfoldable pub write : Memory → ℕ → ℕ → List ℕ → MohuResult (Unit {0}) × Memory
write mem k off value =
    let raw = mem.raws k in
    if leb (off + length value) raw.nbytes
    then (
      ok tt,
      record mem { raws = put k (record raw { bytes = overwrite raw.bytes off value }) mem.raws },
    )
    else (panic, mem)

-- A copy of `n` bytes from one block to another.
unfoldable pub copy_bytes : Memory → ℕ → ℕ → ℕ → ℕ → ℕ → MohuResult (Unit {0}) × Memory
unfolding read write
copy_bytes mem src src_off dst dst_off n =
    then_do (read (mem.raws src) src_off n, mem) (λ value mem. write mem dst dst_off value)

-- The loop over a source that is not contiguous, which starts at the pointers `src_start` and `dst_start`.
-- The iterator ends after as many rounds as the source has elements.
unfoldable pub copy_loop :
    ℕ → StridedByteIter → ℕ → Memory → ℕ → ℕ → ℕ → ℕ → ℕ → ℕ → MohuResult (Unit {0}) × Memory
unfolding copy_bytes
copy_loop zero it elem_idx mem src src_start dst dst_start src_itemsize dst_itemsize = (ok tt, mem)
copy_loop (suc fuel) it elem_idx mem src src_start dst dst_start src_itemsize dst_itemsize =
    let (item, it') = next_byte it in
    elim item [
      | none ↦ (ok tt, mem)
      | some src_off ↦
          then_do
            (copy_bytes mem src (src_start + src_off) dst (dst_start + elem_idx * dst_itemsize)
              src_itemsize)
            (λ done mem.
              copy_loop fuel it' (suc elem_idx) mem src src_start dst dst_start src_itemsize
                dst_itemsize)
    ]

-- The copy itself, after the checks.
unfoldable pub copy_elements : Memory → Buffer → Buffer → MohuResult (Unit {0}) × Memory
unfolding copy_bytes copy_loop
copy_elements mem src dst =
    let item = itemsize src.dtype in
    if is_c_contiguous src.layout && is_c_contiguous dst.layout
    then copy_bytes mem src.raw src.layout.offset dst.raw dst.layout.offset
        (mul_word (size src.layout) item)
    else copy_loop (suc (size src.layout))
        (new_bytes src.layout.shape src.layout.strides src.layout.offset) 0 mem src.raw
        src.layout.offset dst.raw dst.layout.offset item (itemsize dst.dtype)

unfoldable pub is_writeable : Buffer → Bool
unfolding contains_flags
is_writeable buf = contains_flags buf.flags only_writeable

-- The checks of `copy_to_contiguous`.
unfoldable pub check_copy : Buffer → Buffer → MohuResult (Unit {0})
unfolding is_writeable
check_copy src dst =
    if not (dtype_eq src.dtype dst.dtype)
    then err (dtype_mismatch (dtype_name (as_u8 src.dtype)) (dtype_name (as_u8 dst.dtype)))
    else if not (size src.layout == size dst.layout)
    then err (shape_mismatch src.layout.shape dst.layout.shape)
    else if not (is_writeable dst)
    then err read_only
    else ok tt

unfoldable pub set_unique : Buffer → Buffer
unfolding insert_flags
set_unique buf = record buf { flags = insert_flags buf.flags only_writeable }

-- `copy_to_contiguous` into a new buffer. It is the only owner of its block, so that `make_unique` only
-- sets its flag.
unfoldable pub copy_checked :
    Memory → Buffer → Buffer → MohuResult (Unit {0}) → MohuResult Buffer × Memory
unfolding copy_elements set_unique drop_raw
copy_checked mem src dst (ok done) =
    then_do (copy_elements mem src (set_unique dst)) (λ done mem. (ok (set_unique dst), mem))
copy_checked mem src dst (err e) = (err e, drop_raw mem dst.raw)
copy_checked mem src dst panic = (panic, mem)

unfoldable pub to_contiguous : Option ℕ → (ℕ → ℕ) → Memory → Buffer → MohuResult Buffer × Memory
unfolding alloc_buffer check_copy copy_checked
to_contiguous system fresh mem buf =
    then_do (alloc_buffer system fresh mem buf.dtype buf.layout.shape c_order)
      (λ dst mem. copy_checked mem buf dst (check_copy buf dst))

-- The end of `make_unique`: `self` becomes the copy, and lets go of its block.
unfoldable pub replace_by :
    Buffer → MohuResult Buffer × Memory → MohuResult (Unit {0}) × (Buffer × Memory)
unfolding drop_raw
replace_by buf (ok copied, mem) = (ok tt, (copied, drop_raw mem buf.raw))
replace_by buf (err e, mem) = (err e, (buf, mem))
replace_by buf (panic, mem) = (panic, (buf, mem))

unfoldable pub make_unique :
    Option ℕ → (ℕ → ℕ) → Buffer × Memory → MohuResult (Unit {0}) × (Buffer × Memory)
unfolding set_unique to_contiguous replace_by
make_unique system fresh (buf, mem) =
    if (mem.raws buf.raw).strong_count == 1
    then (ok tt, (set_unique buf, mem))
    else replace_by buf (to_contiguous system fresh mem buf)

-- `copy_to_contiguous` into any buffer.
unfoldable pub copy_to_contiguous :
    Option ℕ → (ℕ → ℕ) → Buffer → Buffer × Memory → MohuResult (Unit {0}) × (Buffer × Memory)
unfolding check_copy make_unique copy_elements
copy_to_contiguous system fresh src (dst, mem) =
    then_do (check_copy src dst, (dst, mem))
      (λ done (dst, mem).
        then_do (make_unique system fresh (dst, mem))
          (λ done (dst, mem). let (r, mem') = copy_elements mem src dst in (r, (dst, mem'))))
