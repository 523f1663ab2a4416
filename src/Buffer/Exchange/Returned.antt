-- ===== src/Buffer/Exchange/Returned.antt =====
-- crates/mohu-buffer/src/buffer.rs: a tensor that mohu exports and imports again.
use mohu_fork_nirman.Base.{
  ℕ, ◌%◌, ◌<◌, ◌≡◌, refl, ap, ◌∙◌, List, [], ◌∷◌, map, length, ==_iff, ne→==, arith, false, some,
}
use mohu_fork_nirman.Base.Words.{
  usize_mod, add_word-zero, add_word-lt, unsigned_abs, add_word, mul_word,
}
use mohu_fork_nirman.Errors.{ok}
use mohu_fork_nirman.DType.{DType, bool, itemsize}
use mohu_fork_nirman.Dlpack.{from_dlpack, assert_cpu_device}
use mohu_fork_nirman.Dlpack.Codes.{received, from_dlpack-to_dlpack}
use mohu_fork_nirman.Strides.Validate.{validate_strides}
use mohu_fork_nirman.Layout.{Layout, new_custom}
use mohu_fork_nirman.Buffer.{Memory, Buffer}
use mohu_fork_nirman.Buffer.Roundtrip.{itemsize-positive}
use mohu_fork_nirman.Buffer.Exchange.{
  DlTensor, div_signed, export_tensor, imported_layout, data_of, check_data, read_tensor,
}

-- Each stride is a word that stands for a multiple of the item size.
abbrev pub Whole : ℕ → List ℕ → Type 0
Whole item [] = Unit {0}
Whole item (s ∷ ss) = (s < usize_mod) × (unsigned_abs s % item ≡ 0) × Whole item ss

mul_word-div_signed :
    (t : DType) (s : ℕ)
    → s < usize_mod
    → unsigned_abs s % itemsize t ≡ 0
    → mul_word (div_signed s (itemsize t)) (itemsize t) ≡ s
unfolding mul_word div_signed unsigned_abs itemsize
mul_word-div_signed bool s w h = ground arith
mul_word-div_signed _ s w h = ground arith

map-div_signed :
    (t : DType) (ss : List ℕ)
    → Whole (itemsize t) ss
    → map (λ s. mul_word s (itemsize t)) (map (λ s. div_signed s (itemsize t)) ss) ≡ ss
map-div_signed t [] h = refl
map-div_signed t (s ∷ ss) (w, m, rest) =
    ap (λ x. x ∷ map (λ s. mul_word s (itemsize t)) (map (λ s. div_signed s (itemsize t)) ss))
      (mul_word-div_signed t s w m)
    ∙ ap (λ l. s ∷ l) (map-div_signed t ss rest)

itemsize-received : (t : DType) → itemsize (received t) ≡ itemsize t
unfolding itemsize
itemsize-received bool = refl
itemsize-received _ = refl

exported_layout :
    (t : DType) (layout : Layout)
    → Whole (itemsize t) layout.strides
    → length layout.shape ≡ length layout.strides
    → validate_strides layout.shape layout.strides (itemsize t) false ≡ ok tt
    → imported_layout layout.shape
        (some (map (λ s. div_signed s (itemsize t)) layout.strides))
        (received t)
      ≡ ok (record {
        shape = layout.shape;
        strides = layout.strides;
        offset = 0;
        itemsize = itemsize t;
      })
unfolding imported_layout new_custom
exported_layout t layout whole lengths valid = rw (itemsize-received t) (
    rw (map-div_signed t layout.strides whole) (
      rw
        (
          (==_iff (length layout.shape) (length layout.strides)).1 lengths,
          ne→== (itemsize t) 0 (omega (arith, itemsize-positive t)),
        )
        (rw valid refl)))

check_data_lem :
    (tensor : DlTensor)
    → tensor.byte_offset ≡ 0
    → tensor.data_ptr < usize_mod
    → ¬ (tensor.data_ptr ≡ 0)
    → check_data tensor ≡ ok tt
unfolding check_data data_of
check_data_lem tensor start word nonnull =
    rw start (rw (add_word-zero tensor.data_ptr word) (rw (ne→== tensor.data_ptr 0 nonnull) refl))

read_tensor_steps :
    (tensor : DlTensor) (dtype : DType) (layout : Layout)
    → assert_cpu_device tensor.device.device_type ≡ ok tt
    → (let (code, bits, lanes) = tensor.dtype in from_dlpack code bits lanes ≡ ok dtype)
    → check_data tensor ≡ ok tt
    → imported_layout tensor.shape tensor.strides dtype ≡ ok layout
    → read_tensor tensor ≡ ok (dtype, layout)
unfolding read_tensor
read_tensor_steps tensor dtype layout cpu known present shaped =
    rw cpu (rw known (rw present (rw shaped refl)))

-- A tensor that `to_dlpack` exports reads back as it was: for a buffer whose strides are whole numbers of items, whose
-- layout passes the stride validation and whose data is not at the null pointer, `from_dlpack` finds its shape and its
-- strides again, at offset 0, and its dtype, but for bool, which comes back as U8.
pub read_tensor-export_tensor :
    (mem : Memory) (buf : Buffer)
    → let layout = buf.layout in
      Whole (itemsize buf.dtype) layout.strides
      → length layout.shape ≡ length layout.strides
      → validate_strides layout.shape layout.strides (itemsize buf.dtype) false ≡ ok tt
      → ¬ (add_word (mem.raws buf.raw).ptr layout.offset ≡ 0)
      → read_tensor ((export_tensor mem buf).0).dl_tensor
        ≡ ok (
          received buf.dtype,
          record {
            shape = layout.shape;
            strides = layout.strides;
            offset = 0;
            itemsize = itemsize buf.dtype;
          },
        )
unfolding export_tensor assert_cpu_device
read_tensor-export_tensor mem buf whole lengths valid nonnull =
    read_tensor_steps ((export_tensor mem buf).0).dl_tensor (received buf.dtype) _ refl
      ((from_dlpack-to_dlpack buf.dtype).0)
      (check_data_lem ((export_tensor mem buf).0).dl_tensor refl
        (add_word-lt (mem.raws buf.raw).ptr buf.layout.offset) nonnull)
      (exported_layout buf.dtype buf.layout whole lengths valid)
