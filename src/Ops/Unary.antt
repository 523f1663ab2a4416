-- ===== src/Ops/Unary.antt =====
-- crates/mohu-buffer/src/ops.rs: the operations that choose by the dtype at run time. The scalar types by their
-- dtypes, and the arithmetic of `f64` and of the scalar types, are parameters.
use mohu_fork_nirman.Base.{ℕ, Option, none, some, codes}
use mohu_fork_nirman.Errors.{MohuResult, err, dtype_mismatch, dtype_name, text}
use mohu_fork_nirman.DType.{DType, bool, i8, i16, i32, i64, u8, u16, u32, u64, f16, bf16, f32, f64}
use mohu_fork_nirman.DType.Code.{as_u8}
use mohu_fork_nirman.DType.Scalar.{Scalar}
use mohu_fork_nirman.Buffer.{Memory, Buffer}
use mohu_fork_nirman.Buffer.Copy.{copy_to_contiguous}
use mohu_fork_nirman.Ops.Map.{parallel_map}

-- `num_traits::cast` to a wider type and back.
abbrev pub through : {A W : Type 0} → (A → Option W) → (W → Option A) → (W → W) → A → A
through to back op x = elim (to x) [
  | none ↦ x
  | some w ↦ elim (back (op w)) [ none ↦ x | some y ↦ y ]
]

-- What `abs_copy` and `neg_copy` use of the scalar types: the casts to `f64` and to `i128` and back, and
-- the operations of the types that do without.
pub record Arithmetic (T : DType → Type 0) (F I : Type 0) : Type 1 where
  pub scalar : (t : DType) → Scalar (T t)
  pub to_f64 : (t : DType) → T t → Option F
  pub from_f64 : (t : DType) → F → Option (T t)
  pub abs_f64 : F → F
  pub to_i128 : (t : DType) → T t → Option I
  pub from_i128 : (t : DType) → I → Option (T t)
  pub neg_i128 : I → I
  pub abs : (t : DType) → T t → T t
  pub neg : (t : DType) → T t → T t

module _ {T : DType → Type 0} {F I : Type 0} (a : Arithmetic T F I) where
  unfoldable pub map_at :
      Option ℕ
      → (ℕ → ℕ)
      → (t : DType) → (T t → T t)
      → Buffer
      → Buffer × Memory
      → MohuResult (Unit {0}) × (Buffer × Memory)
  map_at system fresh t f src dst = parallel_map system fresh (a.scalar t) (a.scalar t) f src dst

  unfoldable pub abs_copy :
      Option ℕ → (ℕ → ℕ) → Buffer → Buffer × Memory → MohuResult (Unit {0}) × (Buffer × Memory)
  abs_copy system fresh src dst =
      let copied = copy_to_contiguous system fresh src dst in
      let via_f64 = λ (t : DType).
        map_at system fresh t (through (a.to_f64 t) (a.from_f64 t) a.abs_f64) src dst in
      let direct = λ (t : DType). map_at system fresh t (a.abs t) src dst in
      elim src.dtype [
        | bool ↦ copied
        | u8 ↦ copied
        | u16 ↦ copied
        | u32 ↦ copied
        | u64 ↦ copied
        | i8 ↦ via_f64 i8
        | i16 ↦ via_f64 i16
        | i32 ↦ via_f64 i32
        | i64 ↦ via_f64 i64
        | f16 ↦ via_f64 f16
        | bf16 ↦ via_f64 bf16
        | t ↦ direct t
      ]

  unfoldable pub neg_copy :
      Option ℕ → (ℕ → ℕ) → Buffer → Buffer × Memory → MohuResult (Unit {0}) × (Buffer × Memory)
  neg_copy system fresh src dst =
      let copied = copy_to_contiguous system fresh src dst in
      let via_i128 = λ (t : DType).
        map_at system fresh t (through (a.to_i128 t) (a.from_i128 t) a.neg_i128) src dst in
      let direct = λ (t : DType). map_at system fresh t (a.neg t) src dst in
      elim src.dtype [
        | bool ↦ copied
        | i8 ↦ via_i128 i8
        | i16 ↦ via_i128 i16
        | i32 ↦ via_i128 i32
        | i64 ↦ via_i128 i64
        | t ↦ direct t
      ]

  -- `sqrt_copy`, `ln_copy` and `exp_copy`, by the function that they apply.
  unfoldable pub float_copy :
      Option ℕ
      → (ℕ → ℕ)
      → ((t : DType) → T t → T t)
      → Buffer
      → Buffer × Memory
      → MohuResult (Unit {0}) × (Buffer × Memory)
  float_copy system fresh f src dst =
      let refused =
        err (dtype_mismatch (text (codes "F32 or F64")) (dtype_name (as_u8 src.dtype))) in
      elim src.dtype [
        | f32 ↦ map_at system fresh f32 (f f32) src dst
        | f64 ↦ map_at system fresh f64 (f f64) src dst
        | t ↦ (refused, dst)
      ]
