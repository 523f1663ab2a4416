-- ===== src/Buffer/Exchange/Addresses.antt =====
-- crates/mohu-buffer/src/buffer.rs: where the elements of a tensor are that is exported and imported.
use mohu_fork_nirman.Base.{
  ℕ, ◌≡◌, refl, ap, sym, ◌∙◌, List, [], ◌∷◌, length, ◌&&◌, false, Bool, true, ◌==◌, ne→==, arith,
  ==_iff, Bool-cases, inl, inr,
}
use mohu_fork_nirman.Base.Words.{add_word, mul_word, add_word-zero, add_word-lt}
use mohu_fork_nirman.Errors.{MohuResult, ok, err, panic, ◌>>=◌, ◌>>◌}
use mohu_fork_nirman.DType.{itemsize}
use mohu_fork_nirman.Dlpack.Codes.{received}
use mohu_fork_nirman.Strides as strides_module
use mohu_fork_nirman.Strides.Validate.{validate_strides}
use mohu_fork_nirman.Layout.{Layout, ndim, check_indices, byte_offset, byte_offset_unchecked}
use mohu_fork_nirman.Buffer.{Memory, Buffer}
use mohu_fork_nirman.Buffer.Exchange.{export_tensor, import_tensor, import_block, data_of}
use mohu_fork_nirman.Buffer.Exchange.Returned.{Whole, read_tensor-export_tensor}

-- The address of an element of a layout on a block at `ptr`.
abbrev pub element_address : ℕ → Layout → List ℕ → MohuResult ℕ
element_address ptr layout indices = byte_offset layout indices >>= λ off. ok (add_word ptr off)

add_word_assoc : (a b c : ℕ) → add_word a (add_word b c) ≡ add_word (add_word a b) c
unfolding add_word
add_word_assoc a b c = omega arith

-- The base of the strides may be moved out of the loop over the indices.
add_word-byte_offset :
    (is ss : List ℕ) (p off : ℕ)
    → add_word p (strides_module.byte_offset is ss off)
      ≡ strides_module.byte_offset is ss (add_word p off)
unfolding strides_module.byte_offset
add_word-byte_offset [] ss p off = refl
add_word-byte_offset (i ∷ is) [] p off = refl
add_word-byte_offset (i ∷ is) (s ∷ ss) p off =
    add_word-byte_offset is ss p (add_word off (mul_word i s))
    ∙ ap (strides_module.byte_offset is ss) (add_word_assoc p off (mul_word i s))

after_checks :
    (p q a b : ℕ) (checks : MohuResult (Unit {0}))
    → add_word p a ≡ add_word q b
    → (checks >> ok a >>= λ off. ok (add_word p off))
      ≡ (checks >> ok b >>= λ off. ok (add_word q off))
after_checks p q a b (ok unit) same = ap ok same
after_checks p q a b (err e) same = refl
after_checks p q a b panic same = refl

-- The offset of a layout may be moved to the pointer.
element_address_moved :
    (ptr : ℕ) (layout : Layout) (item : ℕ) (indices : List ℕ)
    → element_address
        (add_word ptr layout.offset)
        (record { shape = layout.shape; strides = layout.strides; offset = 0; itemsize = item })
        indices
      ≡ element_address ptr layout indices
unfolding byte_offset byte_offset_unchecked ndim
element_address_moved ptr layout item indices =
    let moved : add_word (add_word ptr layout.offset)
          (strides_module.byte_offset indices layout.strides 0)
        ≡ add_word ptr (strides_module.byte_offset indices layout.strides layout.offset) =
      add_word-byte_offset indices layout.strides (add_word ptr layout.offset) 0
      ∙ ap (strides_module.byte_offset indices layout.strides)
          (add_word-zero (add_word ptr layout.offset) (add_word-lt ptr layout.offset))
      ∙ sym (add_word-byte_offset indices layout.strides ptr layout.offset) in
    elim (Bool-cases (length indices == length layout.shape)) [
      | inl e ↦ rw e (after_checks _ _ _ _ (check_indices 0 indices layout.shape) moved)
      | inr e ↦ rw e refl
    ]

&&-false : (b : Bool) → (b && false) ≡ false
&&-false true = refl
&&-false false = refl

-- A buffer that is exported and imported again keeps its elements in place. For a buffer whose strides are whole
-- numbers of items, whose layout passes the stride validation and whose data is not at the null pointer,
-- `from_dlpack` of what `to_dlpack` exports, at an address that is not null, succeeds in any later state. The
-- buffer it gives has the shape and the strides of the first, its dtype but for bool, which becomes U8, and
-- cannot be written; each of its elements lies at the address where the first has it, and an index fails for
-- both alike.
pub import_tensor-export_tensor :
    (mem later : Memory) (buf : Buffer) (managed : ℕ) (has_deleter : Bool) (bytes : ℕ → ℕ)
    → let layout = buf.layout in
      let ptr = (mem.raws buf.raw).ptr in
      Whole (itemsize buf.dtype) layout.strides
      → length layout.shape ≡ length layout.strides
      → validate_strides layout.shape layout.strides (itemsize buf.dtype) false ≡ ok tt
      → ¬ (add_word ptr layout.offset ≡ 0)
      → ¬ (managed ≡ 0)
      → (back : Buffer) × (m : Memory) × (import_tensor later managed has_deleter
            ((export_tensor mem buf).0).dl_tensor
            bytes
          ≡ (ok back, m))
        × (back.dtype ≡ received buf.dtype)
        × (back.layout.shape ≡ layout.shape)
        × (back.layout.strides ≡ layout.strides)
        × (back.flags.writeable ≡ false)
        × ((indices : List ℕ)
            → element_address (m.raws back.raw).ptr back.layout indices
              ≡ element_address ptr layout indices)
unfolding import_tensor export_tensor data_of
import_tensor-export_tensor mem later buf managed has_deleter bytes whole lengths valid nonnull
      present =
    let tensor = ((export_tensor mem buf).0).dl_tensor in
    let layout : Layout = record {
      shape = buf.layout.shape;
      strides = buf.layout.strides;
      offset = 0;
      itemsize = itemsize buf.dtype;
    } in
    let (back, m) =
      import_block later managed has_deleter bytes (data_of tensor) (received buf.dtype) layout in
    let at_pointer : (m.raws back.raw).ptr ≡ tensor.data_ptr =
      rw ((==_iff later.next_raw later.next_raw).1 refl)
        (add_word-zero tensor.data_ptr (add_word-lt (mem.raws buf.raw).ptr buf.layout.offset)) in
    (
      back,
      m,
      rw (ne→== managed 0 present)
          (rw (read_tensor-export_tensor mem buf whole lengths valid nonnull) refl),
      refl,
      refl,
      refl,
      &&-false _,
      λ indices.
          ap (λ ptr. element_address ptr layout indices) at_pointer
          ∙ element_address_moved (mem.raws buf.raw).ptr buf.layout (itemsize buf.dtype) indices,
    )
