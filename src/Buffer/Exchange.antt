-- ===== src/Buffer/Exchange.antt =====
-- crates/mohu-buffer/src/buffer.rs: tensors that leave and enter through DLPack. A pointer is an address, and 0 is
-- the null pointer; an `i64` is its bit pattern.
pub mod Returned
pub mod Lifetimes
pub mod Addresses
mod Examples
use mohu_fork_nirman.Base.{
  ℕ, suc, Bool, ◌+◌, ◌-◌, ◌/◌, ◌%◌, ◌^◌, Option, none, some, List, map, length, leb, ◌==◌, codes,
  if◌then◌else◌,
}
use mohu_fork_nirman.Base.Words.{usize_mod, add_word, mul_word, is_negative}
use mohu_fork_nirman.Errors.{
  MohuResult, ok, err, ◌>>=◌, ◌>>◌, dlpack_null_pointer, dlpack_invalid, text,
}
use mohu_fork_nirman.DType.{DType, itemsize}
use mohu_fork_nirman.Dlpack.{to_raw, to_dlpack, from_dlpack, assert_cpu_device}
use mohu_fork_nirman.Layout.{Layout, size, new_c, new_custom}
use mohu_fork_nirman.Buffer.{
  BufferFlags, RawBuffer, imported, Memory, Buffer, put, then_do, clone_raw, drop_raw, remove_flags,
  only_writeable, compute_flags,
}

pub record RawDlDevice : Type 0 where
  pub device_type : ℕ
  pub device_id : ℕ

-- The arrays of the shape and the strides are as long as `ndim` says; the strides may be missing.
pub record DlTensor : Type 0 where
  pub data_ptr : ℕ
  pub device : RawDlDevice
  pub ndim : ℕ
  pub dtype : ℕ × ℕ × ℕ
  pub shape : List ℕ
  pub strides : Option (List ℕ)
  pub byte_offset : ℕ

-- A `DLManagedTensor` that mohu exports, with the block that its context keeps alive.
pub record Exported : Type 0 where
  pub dl_tensor : DlTensor
  pub raw : ℕ

-- `a / b` of an `isize` by a positive number, which rounds towards zero.
unfoldable pub div_signed : ℕ → ℕ → ℕ
div_signed a b = if is_negative a then (usize_mod - (usize_mod - a) / b) % usize_mod else a / b

-- `Buffer::to_dlpack`
unfoldable pub export_tensor : Memory → Buffer → Exported × Memory
unfolding div_signed clone_raw
export_tensor mem buf = (
  record {
    dl_tensor = record {
      data_ptr = add_word (mem.raws buf.raw).ptr buf.layout.offset;
      device = record { device_type = 1; device_id = 0 };
      ndim = length buf.layout.shape % 2 ^ 32;
      dtype = to_raw (to_dlpack buf.dtype);
      shape = buf.layout.shape;
      strides = some (map (λ s. div_signed s (itemsize buf.dtype)) buf.layout.strides);
      byte_offset = 0;
    };
    raw = buf.raw;
  },
  clone_raw mem buf.raw,
)

-- `dlmanaged_deleter` on a tensor that mohu exported.
unfoldable pub delete_exported : Memory → Exported → Memory
unfolding drop_raw
delete_exported mem tensor = drop_raw mem tensor.raw

unfoldable pub imported_layout : List ℕ → Option (List ℕ) → DType → MohuResult Layout
unfolding mul_word
imported_layout shape none dtype = new_c shape (itemsize dtype)
imported_layout shape (some strides) dtype =
    new_custom shape (map (λ s. mul_word s (itemsize dtype)) strides) 0 (itemsize dtype)

-- The block of an imported tensor, whose memory holds `bytes`, and the buffer on it.
unfoldable pub import_block : Memory → ℕ → Bool → (ℕ → ℕ) → ℕ → DType → Layout → Buffer × Memory
unfolding compute_flags remove_flags
import_block mem managed has_deleter bytes ptr dtype layout =
    let raw : RawBuffer = record {
      source = imported managed has_deleter;
      ptr = ptr;
      nbytes = mul_word (size layout) (itemsize dtype);
      strong_count = 1;
      bytes = bytes;
    } in
    (
      record {
        raw = mem.next_raw;
        dtype = dtype;
        layout = layout;
        flags = remove_flags (compute_flags raw layout) only_writeable;
      },
      record mem { raws = put mem.next_raw raw mem.raws; next_raw = suc mem.next_raw },
    )

-- The pointer to the first element.
unfoldable pub data_of : DlTensor → ℕ
unfolding add_word
data_of tensor = add_word tensor.data_ptr tensor.byte_offset

unfoldable pub check_data : DlTensor → MohuResult (Unit {0})
unfolding data_of
check_data tensor =
    if data_of tensor == 0
    then err (dlpack_invalid (text (codes "DLTensor.data is null")))
    else ok tt

-- What a tensor says of its elements.
unfoldable pub read_tensor : DlTensor → MohuResult (DType × Layout)
unfolding check_data imported_layout
read_tensor tensor =
    let (code, bits, lanes) = tensor.dtype in
    assert_cpu_device tensor.device.device_type >> from_dlpack code bits lanes >>= λ dtype.
    check_data tensor >> imported_layout tensor.shape tensor.strides dtype >>= λ layout.
    ok (dtype, layout)

-- `Buffer::from_dlpack` of the tensor at the address `managed`, where its memory holds `bytes`. `has_deleter` says
-- whether its `deleter` is not null.
unfoldable pub import_tensor : Memory → ℕ → Bool → DlTensor → (ℕ → ℕ) → MohuResult Buffer × Memory
unfolding read_tensor import_block
import_tensor mem managed has_deleter tensor bytes =
    if managed == 0
    then (err dlpack_null_pointer, mem)
    else then_do (read_tensor tensor, mem)
        (λ (dtype, layout) mem.
          let (buf, mem') =
            import_block mem managed has_deleter bytes (data_of tensor) dtype layout in
          (ok buf, mem'))
