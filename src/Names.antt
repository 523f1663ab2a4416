-- ===== src/Names.antt =====
-- crates/mohu-dtype/src/dtype.rs: the names of a dtype and `DType::parse`. A text is its list of
-- code points, a character its code point.
pub mod Case
pub mod Chars
use mohu_fork_nirman.Base.{
  ℕ, ◌+◌, Bool, true, false, List, [], ◌∷◌, Option, none, some, ◌==◌, if◌then◌else◌, Text, codes,
  is_one_of, trim, to_ascii_lowercase,
}
use mohu_fork_nirman.Errors.{MohuResult, ok, err, unknown_dtype, text}
use mohu_fork_nirman.DType.{
  DType, bool, i8, i16, i32, i64, u8, u16, u32, u64, f16, bf16, f32, f64, c64, c128, itemsize,
}

unfoldable pub numpy_str : DType → Text
numpy_str bool = codes "bool"
numpy_str i8 = codes "int8"
numpy_str i16 = codes "int16"
numpy_str i32 = codes "int32"
numpy_str i64 = codes "int64"
numpy_str u8 = codes "uint8"
numpy_str u16 = codes "uint16"
numpy_str u32 = codes "uint32"
numpy_str u64 = codes "uint64"
numpy_str f16 = codes "float16"
numpy_str bf16 = codes "bfloat16"
numpy_str f32 = codes "float32"
numpy_str f64 = codes "float64"
numpy_str c64 = codes "complex64"
numpy_str c128 = codes "complex128"

unfoldable pub numpy_char : DType → Option ℕ
numpy_char bool = some b'?'
numpy_char i8 = some b'b'
numpy_char i16 = some b'h'
numpy_char i32 = some b'i'
numpy_char i64 = some b'l'
numpy_char u8 = some b'B'
numpy_char u16 = some b'H'
numpy_char u32 = some b'I'
numpy_char u64 = some b'L'
numpy_char f16 = some b'e'
numpy_char bf16 = none
numpy_char f32 = some b'f'
numpy_char f64 = some b'd'
numpy_char c64 = some b'F'
numpy_char c128 = some b'D'

unfoldable pub kind_char : DType → ℕ
kind_char bool = b'b'
kind_char i8 = b'i'
kind_char i16 = b'i'
kind_char i32 = b'i'
kind_char i64 = b'i'
kind_char u8 = b'u'
kind_char u16 = b'u'
kind_char u32 = b'u'
kind_char u64 = b'u'
kind_char f16 = b'f'
kind_char bf16 = b'f'
kind_char f32 = b'f'
kind_char f64 = b'f'
kind_char c64 = b'c'
kind_char c128 = b'c'

-- The decimal digits of an item size, which is 1, 2, 4, 8 or 16.
digits_of_size : ℕ → Text
digits_of_size n = if n == 16 then codes "16" else (48 + n) ∷ []

-- `format!("{}{}{}", endian, kind_char, itemsize)`
unfoldable pub array_interface_typestr : DType → Text
unfolding digits_of_size kind_char itemsize
array_interface_typestr d =
    (if itemsize d == 1 then b'|' else b'<') ∷ kind_char d ∷ digits_of_size (itemsize d)

unfoldable pub max_decimal_digits : DType → Option ℕ
max_decimal_digits bool = some 1
max_decimal_digits i8 = some 3
max_decimal_digits u8 = some 3
max_decimal_digits i16 = some 5
max_decimal_digits u16 = some 5
max_decimal_digits i32 = some 10
max_decimal_digits u32 = some 10
max_decimal_digits i64 = some 20
max_decimal_digits u64 = some 20
max_decimal_digits _ = none

-- The arms of the `match` on the lower-cased text, in order.
abbrev aliases : List (List Text × DType)
aliases =
    (codes "bool" ∷ codes "bool_" ∷ codes "?" ∷ codes "b1" ∷ [], bool)
    ∷ (codes "int8" ∷ codes "i1" ∷ codes "b" ∷ codes "byte" ∷ [], i8)
    ∷ (codes "int16" ∷ codes "i2" ∷ codes "h" ∷ codes "short" ∷ [], i16)
    ∷ (codes "int32" ∷ codes "i4" ∷ codes "i" ∷ codes "int" ∷ codes "int_" ∷ [], i32)
    ∷ (codes "int64" ∷ codes "i8" ∷ codes "l" ∷ codes "long" ∷ codes "longlong" ∷ [], i64)
    ∷ (codes "uint8" ∷ codes "u1" ∷ codes "ubyte" ∷ [], u8)
    ∷ (codes "uint16" ∷ codes "u2" ∷ codes "ushort" ∷ [], u16)
    ∷ (codes "uint32" ∷ codes "u4" ∷ codes "uint" ∷ [], u32)
    ∷ (codes "uint64" ∷ codes "u8" ∷ codes "ulong" ∷ [], u64)
    ∷ (codes "float16" ∷ codes "f2" ∷ codes "half" ∷ codes "f16" ∷ [], f16)
    ∷ (codes "bfloat16" ∷ codes "bf16" ∷ [], bf16)
    ∷ (codes "float32" ∷ codes "f4" ∷ codes "float" ∷ codes "single" ∷ codes "f32" ∷ [], f32)
    ∷ (codes "float64" ∷ codes "f8" ∷ codes "double" ∷ codes "f64" ∷ [], f64)
    ∷ (codes "complex64" ∷ codes "c8" ∷ codes "csingle" ∷ codes "c64" ∷ [], c64)
    ∷ (codes "complex128" ∷ codes "c16" ∷ codes "cdouble" ∷ codes "c128" ∷ [], c128)
    ∷ []

-- The arms of the inner `match` on the trimmed text.
abbrev char_codes : List (List Text × DType)
char_codes =
    (codes "B" ∷ [], u8)
    ∷ (codes "H" ∷ [], u16)
    ∷ (codes "I" ∷ [], u32)
    ∷ (codes "L" ∷ [], u64)
    ∷ (codes "F" ∷ [], c64)
    ∷ (codes "D" ∷ [], c128)
    ∷ []

-- The first arm that one of its patterns matches.
unfoldable pub first_match : Text → List (List Text × DType) → Option DType
first_match s [] = none
first_match s ((names, d) ∷ arms) = if is_one_of s names then some d else first_match s arms

unfoldable pub parse_char_code : Text → MohuResult DType
parse_char_code other = elim (first_match other char_codes) [
  | some d ↦ ok d
  | none ↦ err (unknown_dtype (text other))
]

unfoldable pub parse : Text → MohuResult DType
parse s = elim (first_match (to_ascii_lowercase (trim s)) aliases) [
  | some d ↦ ok d
  | none ↦ parse_char_code (trim s)
]
