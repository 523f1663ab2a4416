-- ===== src/Dlpack/Codes.antt =====
-- crates/mohu-dtype/src/dlpack.rs: exported and imported codes, and the device codes.
use mohu_fork_nirman.Base.{ℕ, if◌then◌else◌, ◌≡◌, ◌↔◌, refl, ◌⊎◌, some, arith}
use mohu_fork_nirman.Errors.{ok, err, dlpack_unsupported_device}
use mohu_fork_nirman.DType.{DType, bool, u8, bit_width}
use mohu_fork_nirman.Dlpack.{
  to_raw, to_dlpack, from_dlpack, DlDeviceType, cpu, from_i32, device_as_i32, assert_cpu_device,
  is_cpu_resident,
}

-- DLPack has no bool: it travels as U8.
abbrev pub received : DType → DType
received bool = u8
received d = d

-- Exporting a dtype gives its width in bits and one lane, and importing the exported code gives
-- the dtype back, but for bool, which comes back as U8.
pub from_dlpack-to_dlpack :
    (d : DType)
    → let (code, bits, lanes) = to_raw (to_dlpack d) in
      (from_dlpack code bits lanes ≡ ok (received d)) × (bits ≡ bit_width d) × (lanes ≡ 1)
unfolding from_dlpack to_raw to_dlpack bit_width
from_dlpack-to_dlpack bool = (refl, refl, refl)
from_dlpack-to_dlpack _ = (refl, refl, refl)

-- What `from_dlpack` accepts is exactly what some dtype exports: the imported dtype exports the
-- same code, bits and lanes, so every other triple is rejected.
pub to_dlpack-from_dlpack :
    (code bits lanes : ℕ) (d : DType)
    → from_dlpack code bits lanes ≡ ok d
    → to_raw (to_dlpack d) ≡ (code, bits, lanes)
unfolding from_dlpack to_raw to_dlpack
to_dlpack-from_dlpack code bits lanes d h = ground arith

assert_cpu_device_only : (n : ℕ) → assert_cpu_device n ≡ ok tt → (n ≡ 1) ⊎ (n ≡ 3)
unfolding assert_cpu_device
assert_cpu_device_only n h = ground arith

assert_cpu_device_passes : (n : ℕ) → (n ≡ 1) ⊎ (n ≡ 3) → assert_cpu_device n ≡ ok tt
unfolding assert_cpu_device
assert_cpu_device_passes n h = ground arith

assert_cpu_device_total :
    (n : ℕ)
    → (assert_cpu_device n ≡ ok tt) ⊎ (assert_cpu_device n ≡ err (dlpack_unsupported_device n))
unfolding assert_cpu_device
assert_cpu_device_total n = ground arith

from_i32-device_as_i32 : (d : DlDeviceType) → from_i32 (device_as_i32 d) ≡ some d
unfolding from_i32 device_as_i32
from_i32-device_as_i32 cpu = refl
from_i32-device_as_i32 _ = refl

assert_cpu_device-resident :
    (d : DlDeviceType)
    → assert_cpu_device (device_as_i32 d)
      ≡ (if is_cpu_resident d then ok tt else err (dlpack_unsupported_device (device_as_i32 d)))
unfolding assert_cpu_device device_as_i32 is_cpu_resident
assert_cpu_device-resident cpu = refl
assert_cpu_device-resident _ = refl

-- The CPU assertion passes exactly for the device codes 1 (CPU) and 3 (pinned CPU memory), and
-- otherwise returns the unsupported-device error with the code; the code of a device reads back to
-- the device, and passes exactly when the device is CPU-resident.
pub assert_cpu_device_iff :
    (n : ℕ) (d : DlDeviceType)
    → ((assert_cpu_device n ≡ ok tt) ↔ ((n ≡ 1) ⊎ (n ≡ 3)))
      × ((assert_cpu_device n ≡ ok tt) ⊎ (assert_cpu_device n ≡ err (dlpack_unsupported_device n)))
      × (from_i32 (device_as_i32 d) ≡ some d)
      × (assert_cpu_device (device_as_i32 d) ≡ (
          if is_cpu_resident d then ok tt else err (dlpack_unsupported_device (device_as_i32 d))))
assert_cpu_device_iff n d = (
  (assert_cpu_device_only n, assert_cpu_device_passes n),
  assert_cpu_device_total n,
  from_i32-device_as_i32 d,
  assert_cpu_device-resident d,
)
