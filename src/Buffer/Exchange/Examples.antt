-- ===== src/Buffer/Exchange/Examples.antt =====
-- crates/mohu-buffer/src/buffer.rs: two rows of three 16-bit numbers, exported and imported, and a tensor of one byte.
use mohu_fork_nirman.Base.{ℕ, ◌≡◌, refl, none, true, [], ◌∷◌, arith, false}
use mohu_fork_nirman.Base.Words.{add_word, unsigned_abs}
use mohu_fork_nirman.Errors.{MohuResult, ok}
use mohu_fork_nirman.DType.{u8, i16, itemsize}
use mohu_fork_nirman.Dlpack.{assert_cpu_device, from_dlpack}
use mohu_fork_nirman.Strides.Validate.{validate_strides, validate_axes}
use mohu_fork_nirman.Strides.{c_strides, f_strides}
use mohu_fork_nirman.Layout.{new_c, is_empty, ndim}
use mohu_fork_nirman.Base.{text_eq, List}
use mohu_fork_nirman.Buffer.{Memory, Buffer, drop_raw, drop_source}
use mohu_fork_nirman.Buffer.Examples.{memory, numbers}
use mohu_fork_nirman.Buffer.Exchange.{DlTensor, export_tensor, delete_exported, import_tensor}
use mohu_fork_nirman.Buffer.Exchange.Lifetimes.{clones, drops, deleter_once, exported_alive}
use mohu_fork_nirman.Buffer.Exchange.Returned.{Whole}
use mohu_fork_nirman.Buffer.Exchange.Addresses.{element_address, import_tensor-export_tensor}

-- One byte at the address 300.
abbrev foreign : DlTensor
foreign = record {
  data_ptr = 300;
  device = record { device_type = 1; device_id = 0 };
  ndim = 1;
  dtype = (1, 8, 1);
  shape = 1 ∷ [];
  strides = none;
  byte_offset = 0;
}

abbrev taken : MohuResult Buffer × Memory
taken = import_tensor (memory 1) 9000 true foreign (λ i. 5)

abbrev byte : Buffer
byte = record {
  raw = 1;
  dtype = u8;
  layout = record { shape = 1 ∷ []; strides = 1 ∷ []; offset = 0; itemsize = 1 };
  flags = record {
    writeable = false;
    owns_data = true;
    c_contiguous = true;
    f_contiguous = true;
    aligned = false;
  };
}

made : taken ≡ (ok byte, taken.1)
unfolding import_tensor assert_cpu_device from_dlpack new_c c_strides itemsize validate_strides
    validate_axes is_empty ndim text_eq f_strides
made = refl

deleter_once_example :
    let others_gone = drops 3 1 (clones 3 1 taken.1) in
    (others_gone.released ≡ [])
    × ((drop_raw others_gone 1).released ≡ 9000 ∷ [])
    × ((drop_raw others_gone 1).stats ≡ (memory 1).stats)
deleter_once_example = deleter_once (memory 1) taken.1 9000 true foreign (λ i. 5) byte 3 made

exported_alive_example :
    let (tensor, m) = export_tensor (memory 1) numbers in
    let others_gone = drops 1 0 m in
    (others_gone.stats ≡ (memory 1).stats)
    × (others_gone.released ≡ [])
    × (((delete_exported others_gone tensor).stats, (delete_exported others_gone tensor).released)
        ≡ drop_source ((memory 1).raws 0).source ((memory 1).stats, []))
exported_alive_example = exported_alive (memory 1) numbers

numbers-Whole : Whole (itemsize numbers.dtype) (6 ∷ 2 ∷ [])
unfolding itemsize unsigned_abs
numbers-Whole = (omega arith, refl, (omega arith, refl, tt))

valid_numbers : validate_strides (2 ∷ 3 ∷ []) (6 ∷ 2 ∷ []) (itemsize numbers.dtype) false ≡ ok tt
unfolding validate_strides validate_axes itemsize
valid_numbers = refl

present_numbers : ¬ (add_word 4096 0 ≡ 0)
unfolding add_word
present_numbers h = omega (arith, h)

import_tensor-export_tensor_example :
    (back : Buffer) × (m : Memory) × (import_tensor
        (memory 2)
        9000
        true
        ((export_tensor (memory 1) numbers).0).dl_tensor
        (λ i. i)
      ≡ (ok back, m))
    × (back.dtype ≡ i16)
    × (back.layout.shape ≡ 2 ∷ 3 ∷ [])
    × (back.layout.strides ≡ 6 ∷ 2 ∷ [])
    × (back.flags.writeable ≡ false)
    × ((indices : List ℕ)
        → element_address (m.raws back.raw).ptr back.layout indices
          ≡ element_address 4096 numbers.layout indices)
import_tensor-export_tensor_example =
    import_tensor-export_tensor (memory 1) (memory 2) numbers 9000 true (λ i. i) numbers-Whole refl
      valid_numbers present_numbers (λ h. omega (arith, h))
