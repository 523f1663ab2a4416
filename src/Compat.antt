-- ===== src/Compat.antt =====
-- crates/mohu-dtype/src/compat.rs: the codes of a dtype in Python's `struct` module, the buffer
-- protocol, ctypes, C and Rust. The Arrow conversions (a feature over a third-party enum) are left
-- out.
pub mod Formats
use mohu_fork_nirman.Base.{
  ℕ, Bool, true, false, ◌||◌, List, [], ◌∷◌, Option, none, some, ◌==◌, if◌then◌else◌, Text, codes,
  trim_start_matches, is_one_of,
}
use mohu_fork_nirman.Errors.{
  MohuResult, ok, err, unsupported_dtype, python_unsupported_buffer_format,
}
use mohu_fork_nirman.DType.{
  DType, bool, i8, i16, i32, i64, u8, u16, u32, u64, f16, bf16, f32, f64, c64, c128,
}
use mohu_fork_nirman.Names.{numpy_str, first_match}

pub data ByteOrder : Type 0 where
  native little big not_applicable : ByteOrder

unfoldable pub struct_prefix : ByteOrder → ℕ
struct_prefix native = b'='
struct_prefix little = b'<'
struct_prefix big = b'>'
struct_prefix not_applicable = b'|'

unfoldable pub for_itemsize : ℕ → ByteOrder
for_itemsize n = if n == 1 then not_applicable else native

unfoldable pub struct_format_char : DType → Option ℕ
struct_format_char bool = some b'?'
struct_format_char i8 = some b'b'
struct_format_char i16 = some b'h'
struct_format_char i32 = some b'i'
struct_format_char i64 = some b'q'
struct_format_char u8 = some b'B'
struct_format_char u16 = some b'H'
struct_format_char u32 = some b'I'
struct_format_char u64 = some b'Q'
struct_format_char f16 = some b'e'
struct_format_char bf16 = none
struct_format_char f32 = some b'f'
struct_format_char f64 = some b'd'
struct_format_char c64 = none
struct_format_char c128 = none

unfoldable pub to_struct_format : DType → MohuResult Text
unfolding struct_format_char
to_struct_format d = elim (struct_format_char d) [
  | some ch ↦ ok (b'=' ∷ ch ∷ [])
  | none ↦ err (unsupported_dtype (codes "struct format") (numpy_str d))
]

unfoldable pub buffer_format : DType → Text
buffer_format bool = codes "|?"
buffer_format i8 = codes "|b"
buffer_format i16 = codes "<h"
buffer_format i32 = codes "<i"
buffer_format i64 = codes "<q"
buffer_format u8 = codes "|B"
buffer_format u16 = codes "<H"
buffer_format u32 = codes "<I"
buffer_format u64 = codes "<Q"
buffer_format f16 = codes "<e"
buffer_format bf16 = codes "<e"
buffer_format f32 = codes "<f"
buffer_format f64 = codes "<d"
buffer_format c64 = codes "<Zf"
buffer_format c128 = codes "<Zd"

-- The characters that `from_buffer_format` strips: `<`, `>`, `=`, `@`, `!`, `|` and the space.
unfoldable pub is_prefix_char : ℕ → Bool
is_prefix_char c =
    c == b'<' || c == b'>' || c == b'=' || c == b'@' || c == b'!' || c == b'|' || c == b' '

abbrev format_codes : List (List Text × DType)
format_codes =
    (codes "?" ∷ [], bool)
    ∷ (codes "b" ∷ [], i8)
    ∷ (codes "B" ∷ [], u8)
    ∷ (codes "h" ∷ [], i16)
    ∷ (codes "H" ∷ [], u16)
    ∷ (codes "i" ∷ codes "l" ∷ [], i32)
    ∷ (codes "I" ∷ codes "L" ∷ [], u32)
    ∷ (codes "q" ∷ codes "n" ∷ [], i64)
    ∷ (codes "Q" ∷ codes "N" ∷ [], u64)
    ∷ (codes "e" ∷ [], f16)
    ∷ (codes "f" ∷ [], f32)
    ∷ (codes "d" ∷ [], f64)
    ∷ (codes "Zf" ∷ [], c64)
    ∷ (codes "Zd" ∷ [], c128)
    ∷ []

-- The `match` on the stripped text.
unfoldable pub parse_stripped : Text → MohuResult DType
parse_stripped stripped = elim (first_match stripped format_codes) [
  | some d ↦ ok d
  | none ↦ err (python_unsupported_buffer_format stripped)
]

unfoldable pub from_buffer_format : Text → MohuResult DType
from_buffer_format fmt = parse_stripped (trim_start_matches is_prefix_char fmt)

unfoldable pub ctypes_name : DType → Option Text
ctypes_name bool = some (codes "c_bool")
ctypes_name i8 = some (codes "c_int8")
ctypes_name i16 = some (codes "c_int16")
ctypes_name i32 = some (codes "c_int32")
ctypes_name i64 = some (codes "c_int64")
ctypes_name u8 = some (codes "c_uint8")
ctypes_name u16 = some (codes "c_uint16")
ctypes_name u32 = some (codes "c_uint32")
ctypes_name u64 = some (codes "c_uint64")
ctypes_name f16 = none
ctypes_name bf16 = none
ctypes_name f32 = some (codes "c_float")
ctypes_name f64 = some (codes "c_double")
ctypes_name c64 = none
ctypes_name c128 = none

unfoldable pub c_type_name : DType → Text
c_type_name bool = codes "_Bool"
c_type_name i8 = codes "int8_t"
c_type_name i16 = codes "int16_t"
c_type_name i32 = codes "int32_t"
c_type_name i64 = codes "int64_t"
c_type_name u8 = codes "uint8_t"
c_type_name u16 = codes "uint16_t"
c_type_name u32 = codes "uint32_t"
c_type_name u64 = codes "uint64_t"
c_type_name f16 = codes "__fp16"
c_type_name bf16 = codes "__bfloat16"
c_type_name f32 = codes "float"
c_type_name f64 = codes "double"
c_type_name c64 = codes "float _Complex"
c_type_name c128 = codes "double _Complex"

unfoldable pub rust_type_name : DType → Text
rust_type_name bool = codes "bool"
rust_type_name i8 = codes "i8"
rust_type_name i16 = codes "i16"
rust_type_name i32 = codes "i32"
rust_type_name i64 = codes "i64"
rust_type_name u8 = codes "u8"
rust_type_name u16 = codes "u16"
rust_type_name u32 = codes "u32"
rust_type_name u64 = codes "u64"
rust_type_name f16 = codes "half::f16"
rust_type_name bf16 = codes "half::bf16"
rust_type_name f32 = codes "f32"
rust_type_name f64 = codes "f64"
rust_type_name c64 = codes "num_complex::Complex<f32>"
rust_type_name c128 = codes "num_complex::Complex<f64>"
