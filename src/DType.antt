-- ===== src/DType.antt =====
-- crates/mohu-dtype/src/dtype.rs: the runtime type tag, its sizes, its kinds and the conversions
-- between tags.
pub mod Finite
pub mod Code
pub mod Kinds
pub mod Scalar
use mohu_fork_nirman.Base.{ℕ, ◌*◌, Bool, true, false, ◌||◌, Option, none, some, List, [], ◌∷◌}

-- The enum `DType`, in definition order.
pub data DType : Type 0 where
  bool i8 i16 i32 i64 u8 u16 u32 u64 f16 bf16 f32 f64 c64 c128 : DType

abbrev pub all_dtypes : List DType
all_dtypes =
    bool ∷ i8 ∷ i16 ∷ i32 ∷ i64 ∷ u8 ∷ u16 ∷ u32 ∷ u64 ∷ f16 ∷ bf16 ∷ f32 ∷ f64 ∷ c64 ∷ c128 ∷ []

abbrev pub dtype_count : ℕ
dtype_count = 15

unfoldable pub itemsize : DType → ℕ
itemsize bool = 1
itemsize i8 = 1
itemsize u8 = 1
itemsize i16 = 2
itemsize u16 = 2
itemsize f16 = 2
itemsize bf16 = 2
itemsize i32 = 4
itemsize u32 = 4
itemsize f32 = 4
itemsize i64 = 8
itemsize u64 = 8
itemsize f64 = 8
itemsize c64 = 8
itemsize c128 = 16

unfoldable pub alignment : DType → ℕ
alignment bool = 1
alignment i8 = 1
alignment u8 = 1
alignment i16 = 2
alignment u16 = 2
alignment f16 = 2
alignment bf16 = 2
alignment i32 = 4
alignment u32 = 4
alignment f32 = 4
alignment c64 = 4
alignment i64 = 8
alignment u64 = 8
alignment f64 = 8
alignment c128 = 8

unfoldable pub bit_width : DType → ℕ
unfolding itemsize
bit_width d = itemsize d * 8

unfoldable pub is_bool : DType → Bool
is_bool bool = true
is_bool _ = false

unfoldable pub is_signed_integer : DType → Bool
is_signed_integer i8 = true
is_signed_integer i16 = true
is_signed_integer i32 = true
is_signed_integer i64 = true
is_signed_integer _ = false

unfoldable pub is_unsigned_integer : DType → Bool
is_unsigned_integer u8 = true
is_unsigned_integer u16 = true
is_unsigned_integer u32 = true
is_unsigned_integer u64 = true
is_unsigned_integer _ = false

unfoldable pub is_integer : DType → Bool
is_integer i8 = true
is_integer i16 = true
is_integer i32 = true
is_integer i64 = true
is_integer u8 = true
is_integer u16 = true
is_integer u32 = true
is_integer u64 = true
is_integer _ = false

unfoldable pub is_float : DType → Bool
is_float f16 = true
is_float bf16 = true
is_float f32 = true
is_float f64 = true
is_float _ = false

unfoldable pub is_complex : DType → Bool
is_complex c64 = true
is_complex c128 = true
is_complex _ = false

unfoldable pub is_floating_point : DType → Bool
unfolding is_float is_complex
is_floating_point d = is_float d || is_complex d

unfoldable pub is_numeric : DType → Bool
is_numeric bool = false
is_numeric _ = true

unfoldable pub is_ordered : DType → Bool
unfolding is_integer is_float
is_ordered d = is_integer d || is_float d

unfoldable pub real_dtype : DType → DType
real_dtype c64 = f32
real_dtype c128 = f64
real_dtype other = other

unfoldable pub complex_dtype : DType → DType
complex_dtype f32 = c64
complex_dtype f64 = c128
complex_dtype other = other

unfoldable pub as_signed : DType → DType
as_signed u8 = i8
as_signed u16 = i16
as_signed u32 = i32
as_signed u64 = i64
as_signed other = other

unfoldable pub as_unsigned : DType → DType
as_unsigned i8 = u8
as_unsigned i16 = u16
as_unsigned i32 = u32
as_unsigned i64 = u64
as_unsigned other = other

unfoldable pub widen : DType → DType
widen bool = u8
widen i8 = i16
widen i16 = i32
widen i32 = i64
widen i64 = i64
widen u8 = u16
widen u16 = u32
widen u32 = u64
widen u64 = u64
widen f16 = f32
widen bf16 = f32
widen f32 = f64
widen f64 = f64
widen c64 = c128
widen c128 = c128

unfoldable pub narrow : DType → Option DType
narrow i16 = some i8
narrow i32 = some i16
narrow i64 = some i32
narrow u16 = some u8
narrow u32 = some u16
narrow u64 = some u32
narrow f32 = some f16
narrow f64 = some f32
narrow c128 = some c64
narrow _ = none

unfoldable pub to_float : DType → DType
to_float bool = f16
to_float i8 = f16
to_float u8 = f16
to_float i16 = f32
to_float u16 = f32
to_float i32 = f64
to_float u32 = f64
to_float i64 = f64
to_float u64 = f64
to_float other = other
