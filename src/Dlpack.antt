-- ===== src/Dlpack.antt =====
-- crates/mohu-dtype/src/dlpack.rs: dtypes as DLPack codes and the DLPack device codes. A device
-- code is an `i32`, read as its bit pattern.
pub mod Codes
use mohu_fork_nirman.Base.{
  ℕ, Bool, true, false, Option, none, some, ◌==◌, ◌&&◌, if◌then◌else◌, Text, codes,
}
use mohu_fork_nirman.Errors.{
  MohuResult, ok, err, ◌>>=◌, dlpack_invalid, dlpack_unsupported_dtype, dlpack_unsupported_device,
  dlpack_lanes, dlpack_code,
}
use mohu_fork_nirman.DType.{
  DType, bool, i8, i16, i32, i64, u8, u16, u32, u64, f16, bf16, f32, f64, c64, c128,
}

pub data DlDataTypeCode : Type 0 where
  int uint float bfloat complex : DlDataTypeCode

-- The discriminants.
unfoldable pub code_as_u8 : DlDataTypeCode → ℕ
code_as_u8 int = 0
code_as_u8 uint = 1
code_as_u8 float = 2
code_as_u8 bfloat = 4
code_as_u8 complex = 5

unfoldable pub code_from_u8 : ℕ → MohuResult DlDataTypeCode
code_from_u8 n =
    if n == 0
    then ok int
    else if n == 1
    then ok uint
    else if n == 2
    then ok float
    else if n == 4
    then ok bfloat
    else if n == 5
    then ok complex
    else err (dlpack_invalid (dlpack_code n))

pub record DlDataType : Type 0 where
  pub code : DlDataTypeCode
  pub bits : ℕ
  pub lanes : ℕ

abbrev pub scalar : DlDataTypeCode → ℕ → DlDataType
scalar c b = record { code = c; bits = b; lanes = 1 }

unfoldable pub from_raw : ℕ → ℕ → ℕ → MohuResult DlDataType
unfolding code_from_u8
from_raw code bits lanes = do
  c ← code_from_u8 code
  ok (record { code = c; bits = bits; lanes = lanes })

unfoldable pub to_raw : DlDataType → ℕ × ℕ × ℕ
unfolding code_as_u8
to_raw t = (code_as_u8 t.code, t.bits, t.lanes)

unfoldable pub to_dlpack : DType → DlDataType
to_dlpack bool = scalar uint 8
to_dlpack i8 = scalar int 8
to_dlpack i16 = scalar int 16
to_dlpack i32 = scalar int 32
to_dlpack i64 = scalar int 64
to_dlpack u8 = scalar uint 8
to_dlpack u16 = scalar uint 16
to_dlpack u32 = scalar uint 32
to_dlpack u64 = scalar uint 64
to_dlpack f16 = scalar float 16
to_dlpack bf16 = scalar bfloat 16
to_dlpack f32 = scalar float 32
to_dlpack f64 = scalar float 64
to_dlpack c64 = scalar complex 64
to_dlpack c128 = scalar complex 128

-- The `match` on the pair of kind and bits; `none` is its last arm.
unfoldable pub kind_bits : DlDataTypeCode → ℕ → Option DType
kind_bits int b =
    if b == 8
    then some i8
    else if b == 16
    then some i16
    else if b == 32
    then some i32
    else if b == 64
    then some i64
    else none
kind_bits uint b =
    if b == 8
    then some u8
    else if b == 16
    then some u16
    else if b == 32
    then some u32
    else if b == 64
    then some u64
    else none
kind_bits float b =
    if b == 16 then some f16 else if b == 32 then some f32 else if b == 64 then some f64 else none
kind_bits bfloat b = if b == 16 then some bf16 else none
kind_bits complex b = if b == 64 then some c64 else if b == 128 then some c128 else none

unfoldable pub from_dlpack : ℕ → ℕ → ℕ → MohuResult DType
unfolding code_from_u8 kind_bits
from_dlpack code bits lanes =
    if lanes == 1
    then (do
      kind ← code_from_u8 code
      elim (kind_bits kind bits) [
        | some d ↦ ok d
        | none ↦ err (dlpack_unsupported_dtype code bits lanes)
      ])
    else err (dlpack_invalid (dlpack_lanes lanes))

pub data DlDeviceType : Type 0 where
  cpu cuda cpu_pinned open_cl vulkan metal vpi rocm ext_dev cuda_managed one_api web_gpu hexagon :
      DlDeviceType

unfoldable pub from_i32 : ℕ → Option DlDeviceType
from_i32 n =
    if n == 1
    then some cpu
    else if n == 2
    then some cuda
    else if n == 3
    then some cpu_pinned
    else if n == 4
    then some open_cl
    else if n == 7
    then some vulkan
    else if n == 8
    then some metal
    else if n == 9
    then some vpi
    else if n == 10
    then some rocm
    else if n == 12
    then some ext_dev
    else if n == 13
    then some cuda_managed
    else if n == 14
    then some one_api
    else if n == 15
    then some web_gpu
    else if n == 16
    then some hexagon
    else none

-- The discriminants, `repr(i32)`.
unfoldable pub device_as_i32 : DlDeviceType → ℕ
device_as_i32 cpu = 1
device_as_i32 cuda = 2
device_as_i32 cpu_pinned = 3
device_as_i32 open_cl = 4
device_as_i32 vulkan = 7
device_as_i32 metal = 8
device_as_i32 vpi = 9
device_as_i32 rocm = 10
device_as_i32 ext_dev = 12
device_as_i32 cuda_managed = 13
device_as_i32 one_api = 14
device_as_i32 web_gpu = 15
device_as_i32 hexagon = 16

unfoldable pub is_cpu_resident : DlDeviceType → Bool
is_cpu_resident cpu = true
is_cpu_resident cpu_pinned = true
is_cpu_resident _ = false

unfoldable pub device_name : DlDeviceType → Text
device_name cpu = codes "CPU"
device_name cuda = codes "CUDA"
device_name cpu_pinned = codes "CPU (pinned)"
device_name open_cl = codes "OpenCL"
device_name vulkan = codes "Vulkan"
device_name metal = codes "Metal"
device_name vpi = codes "VPI"
device_name rocm = codes "ROCm"
device_name ext_dev = codes "ExtDev"
device_name cuda_managed = codes "CUDA (managed)"
device_name one_api = codes "OneAPI"
device_name web_gpu = codes "WebGPU"
device_name hexagon = codes "Hexagon"

-- The arm `Some(d) if d.is_cpu_resident()`, and the arm for all else.
unfoldable pub assert_cpu_device : ℕ → MohuResult (Unit {0})
unfolding from_i32 is_cpu_resident
assert_cpu_device device_type = elim (from_i32 device_type) [
  | some d ↦ if is_cpu_resident d then ok tt else err (dlpack_unsupported_device device_type)
  | none ↦ err (dlpack_unsupported_device device_type)
]
