-- ===== src/Promote.antt =====
-- crates/mohu-dtype/src/promote.rs: the promotion and cast tables and what is computed from them.
-- A table is a list of 225 entries, read at `a * 15 + b`; `a as usize` is the code `as_u8`.
pub mod Order
pub mod Common
use mohu_fork_nirman.Base.{
  ℕ, ◌+◌, ◌*◌, List, [], ◌∷◌, Bool, true, false, ◌&&◌, if◌then◌else◌, get_or,
}
use mohu_fork_nirman.Errors.{MohuResult, ok, err, internal, empty_dtypes}
use mohu_fork_nirman.DType.{
  DType, bool, i8, i16, i32, i64, u8, u16, u32, u64, f16, bf16, f32, f64, c64, c128, dtype_count,
  is_integer, is_float,
}
use mohu_fork_nirman.DType.Code.{as_u8}

pub data CastMode : Type 0 where
  safe same_kind unsafe : CastMode

-- PROMOTION_TABLE, row by row.
abbrev promotion_table : List DType
promotion_table =
    bool ∷ i8 ∷ i16 ∷ i32 ∷ i64 ∷ u8 ∷ u16 ∷ u32 ∷ u64 ∷ f16 ∷ bf16 ∷ f32 ∷ f64 ∷ c64 ∷ c128 ∷ i8
    ∷ i8 ∷ i16 ∷ i32 ∷ i64 ∷ i16 ∷ i32 ∷ i64 ∷ f64 ∷ f32 ∷ bf16 ∷ f32 ∷ f64 ∷ c64 ∷ c128 ∷ i16 ∷ i16
    ∷ i16 ∷ i32 ∷ i64 ∷ i16 ∷ i32 ∷ i64 ∷ f64 ∷ f32 ∷ f32 ∷ f32 ∷ f64 ∷ c64 ∷ c128 ∷ i32 ∷ i32 ∷ i32
    ∷ i32 ∷ i64 ∷ i32 ∷ i32 ∷ i64 ∷ f64 ∷ f64 ∷ f64 ∷ f64 ∷ f64 ∷ c128 ∷ c128 ∷ i64 ∷ i64 ∷ i64
    ∷ i64 ∷ i64 ∷ i64 ∷ i64 ∷ i64 ∷ f64 ∷ f64 ∷ f64 ∷ f64 ∷ f64 ∷ c128 ∷ c128 ∷ u8 ∷ i16 ∷ i16 ∷ i32
    ∷ i64 ∷ u8 ∷ u16 ∷ u32 ∷ u64 ∷ f16 ∷ bf16 ∷ f32 ∷ f64 ∷ c64 ∷ c128 ∷ u16 ∷ i32 ∷ i32 ∷ i32 ∷ i64
    ∷ u16 ∷ u16 ∷ u32 ∷ u64 ∷ f32 ∷ f32 ∷ f32 ∷ f64 ∷ c64 ∷ c128 ∷ u32 ∷ i64 ∷ i64 ∷ i64 ∷ i64 ∷ u32
    ∷ u32 ∷ u32 ∷ u64 ∷ f64 ∷ f64 ∷ f64 ∷ f64 ∷ c128 ∷ c128 ∷ u64 ∷ f64 ∷ f64 ∷ f64 ∷ f64 ∷ u64
    ∷ u64 ∷ u64 ∷ u64 ∷ f64 ∷ f64 ∷ f64 ∷ f64 ∷ c128 ∷ c128 ∷ f16 ∷ f32 ∷ f32 ∷ f64 ∷ f64 ∷ f16
    ∷ f32 ∷ f64 ∷ f64 ∷ f16 ∷ f32 ∷ f32 ∷ f64 ∷ c64 ∷ c128 ∷ bf16 ∷ bf16 ∷ f32 ∷ f64 ∷ f64 ∷ bf16
    ∷ f32 ∷ f64 ∷ f64 ∷ f32 ∷ bf16 ∷ f32 ∷ f64 ∷ c64 ∷ c128 ∷ f32 ∷ f32 ∷ f32 ∷ f64 ∷ f64 ∷ f32
    ∷ f32 ∷ f64 ∷ f64 ∷ f32 ∷ f32 ∷ f32 ∷ f64 ∷ c64 ∷ c128 ∷ f64 ∷ f64 ∷ f64 ∷ f64 ∷ f64 ∷ f64 ∷ f64
    ∷ f64 ∷ f64 ∷ f64 ∷ f64 ∷ f64 ∷ f64 ∷ c128 ∷ c128 ∷ c64 ∷ c64 ∷ c64 ∷ c128 ∷ c128 ∷ c64 ∷ c64
    ∷ c128 ∷ c128 ∷ c64 ∷ c64 ∷ c64 ∷ c128 ∷ c64 ∷ c128 ∷ c128 ∷ c128 ∷ c128 ∷ c128 ∷ c128 ∷ c128
    ∷ c128 ∷ c128 ∷ c128 ∷ c128 ∷ c128 ∷ c128 ∷ c128 ∷ c128 ∷ c128 ∷ []

-- SAFE_CAST_TABLE
abbrev safe_cast_table : List Bool
safe_cast_table =
    true ∷ true ∷ true ∷ true ∷ true ∷ true ∷ true ∷ true ∷ true ∷ true ∷ true ∷ true ∷ true ∷ true
    ∷ true ∷ false ∷ true ∷ true ∷ true ∷ true ∷ false ∷ false ∷ false ∷ false ∷ true ∷ true ∷ true
    ∷ true ∷ true ∷ true ∷ false ∷ false ∷ true ∷ true ∷ true ∷ false ∷ false ∷ false ∷ false
    ∷ false ∷ false ∷ true ∷ true ∷ true ∷ true ∷ false ∷ false ∷ false ∷ true ∷ true ∷ false
    ∷ false ∷ false ∷ false ∷ false ∷ false ∷ false ∷ true ∷ false ∷ true ∷ false ∷ false ∷ false
    ∷ false ∷ true ∷ false ∷ false ∷ false ∷ false ∷ false ∷ false ∷ false ∷ true ∷ false ∷ true
    ∷ false ∷ false ∷ true ∷ true ∷ true ∷ true ∷ true ∷ true ∷ true ∷ true ∷ true ∷ true ∷ true
    ∷ true ∷ true ∷ false ∷ false ∷ false ∷ true ∷ true ∷ false ∷ true ∷ true ∷ true ∷ false ∷ false
    ∷ true ∷ true ∷ true ∷ true ∷ false ∷ false ∷ false ∷ false ∷ true ∷ false ∷ false ∷ true ∷ true
    ∷ false ∷ false ∷ false ∷ true ∷ false ∷ true ∷ false ∷ false ∷ false ∷ false ∷ false ∷ false
    ∷ false ∷ false ∷ true ∷ false ∷ false ∷ false ∷ true ∷ false ∷ true ∷ false ∷ false ∷ false
    ∷ false ∷ false ∷ false ∷ false ∷ false ∷ false ∷ true ∷ false ∷ true ∷ true ∷ true ∷ true
    ∷ false ∷ false ∷ false ∷ false ∷ false ∷ false ∷ false ∷ false ∷ false ∷ false ∷ true ∷ true
    ∷ true ∷ true ∷ true ∷ false ∷ false ∷ false ∷ false ∷ false ∷ false ∷ false ∷ false ∷ false
    ∷ false ∷ false ∷ true ∷ true ∷ true ∷ true ∷ false ∷ false ∷ false ∷ false ∷ false ∷ false
    ∷ false ∷ false ∷ false ∷ false ∷ false ∷ false ∷ true ∷ false ∷ true ∷ false ∷ false ∷ false
    ∷ false ∷ false ∷ false ∷ false ∷ false ∷ false ∷ false ∷ false ∷ false ∷ false ∷ true ∷ true
    ∷ false ∷ false ∷ false ∷ false ∷ false ∷ false ∷ false ∷ false ∷ false ∷ false ∷ false ∷ false
    ∷ false ∷ false ∷ true ∷ []

-- SAMEKIND_CAST_TABLE
abbrev samekind_cast_table : List Bool
samekind_cast_table =
    true ∷ false ∷ false ∷ false ∷ false ∷ false ∷ false ∷ false ∷ false ∷ false ∷ false ∷ false
    ∷ false ∷ false ∷ false ∷ false ∷ true ∷ true ∷ true ∷ true ∷ true ∷ true ∷ true ∷ true ∷ false
    ∷ false ∷ false ∷ false ∷ false ∷ false ∷ false ∷ true ∷ true ∷ true ∷ true ∷ true ∷ true ∷ true
    ∷ true ∷ false ∷ false ∷ false ∷ false ∷ false ∷ false ∷ false ∷ true ∷ true ∷ true ∷ true
    ∷ true ∷ true ∷ true ∷ true ∷ false ∷ false ∷ false ∷ false ∷ false ∷ false ∷ false ∷ true
    ∷ true ∷ true ∷ true ∷ true ∷ true ∷ true ∷ true ∷ false ∷ false ∷ false ∷ false ∷ false ∷ false
    ∷ false ∷ true ∷ true ∷ true ∷ true ∷ true ∷ true ∷ true ∷ true ∷ false ∷ false ∷ false ∷ false
    ∷ false ∷ false ∷ false ∷ true ∷ true ∷ true ∷ true ∷ true ∷ true ∷ true ∷ true ∷ false ∷ false
    ∷ false ∷ false ∷ false ∷ false ∷ false ∷ true ∷ true ∷ true ∷ true ∷ true ∷ true ∷ true ∷ true
    ∷ false ∷ false ∷ false ∷ false ∷ false ∷ false ∷ false ∷ true ∷ true ∷ true ∷ true ∷ true
    ∷ true ∷ true ∷ true ∷ false ∷ false ∷ false ∷ false ∷ false ∷ false ∷ false ∷ false ∷ false
    ∷ false ∷ false ∷ false ∷ false ∷ false ∷ false ∷ true ∷ true ∷ true ∷ true ∷ false ∷ false
    ∷ false ∷ false ∷ false ∷ false ∷ false ∷ false ∷ false ∷ false ∷ false ∷ true ∷ true ∷ true
    ∷ true ∷ false ∷ false ∷ false ∷ false ∷ false ∷ false ∷ false ∷ false ∷ false ∷ false ∷ false
    ∷ true ∷ true ∷ true ∷ true ∷ false ∷ false ∷ false ∷ false ∷ false ∷ false ∷ false ∷ false
    ∷ false ∷ false ∷ false ∷ true ∷ true ∷ true ∷ true ∷ false ∷ false ∷ false ∷ false ∷ false
    ∷ false ∷ false ∷ false ∷ false ∷ false ∷ false ∷ false ∷ false ∷ false ∷ false ∷ true ∷ true
    ∷ false ∷ false ∷ false ∷ false ∷ false ∷ false ∷ false ∷ false ∷ false ∷ false ∷ false ∷ false
    ∷ false ∷ true ∷ true ∷ []

-- The index is always in range (`table_index-lt`), so the default is never read.
unfoldable pub table_index : DType → DType → ℕ
unfolding as_u8
table_index a b = as_u8 a * dtype_count + as_u8 b

unfoldable pub promote : DType → DType → DType
unfolding table_index
promote a b = get_or promotion_table (table_index a b) bool

unfoldable pub can_cast : DType → DType → CastMode → Bool
unfolding table_index
can_cast from to safe = get_or safe_cast_table (table_index from to) false
can_cast from to same_kind = get_or samekind_cast_table (table_index from to) false
can_cast from to unsafe = true

pub result_type : DType → DType → MohuResult DType
result_type a b = ok (promote a b)

unfoldable pub promote_from : DType → List DType → DType
promote_from acc [] = acc
promote_from acc (d ∷ ds) = promote_from (promote acc d) ds

unfoldable pub common_type : List DType → MohuResult DType
unfolding promote_from
common_type [] = err (internal empty_dtypes)
common_type (d ∷ ds) = ok (promote_from d ds)

unfoldable pub weak_promote : DType → DType → Bool → DType
weak_promote array_dtype scalar_dtype false = promote array_dtype scalar_dtype
weak_promote array_dtype scalar_dtype true =
    if is_integer scalar_dtype && is_integer array_dtype
    then array_dtype
    else if is_float scalar_dtype && is_float array_dtype
    then array_dtype
    else promote array_dtype scalar_dtype
