-- ===== src/Numeric/Truth.antt =====
-- crates/mohu-buffer/src/buffer.rs: the tests of an element in `any`, `all` and `count_nonzero`, one for each of the
-- three and each dtype. `cast` is `num_traits::cast` to `f64`, whose result is given by its bits.
use mohu_fork_nirman.Base.{
  ℕ, ◌-◌, ◌%◌, ◌^◌, ◌==◌, Bool, false, not, ◌||◌, Option, none, some, List, take, drop,
}
use mohu_fork_nirman.DType.{
  DType, bool, i8, i16, i32, i64, u8, u16, u32, u64, f16, bf16, f32, f64, c64, c128,
}
use mohu_fork_nirman.Ops.Indexed.{from_le_bytes}

-- `x != 0.0` for a float of `width` bits: its bits but for the sign are not all 0.
unfoldable pub float_ne_zero : ℕ → ℕ → Bool
float_ne_zero width bits = not (bits % 2 ^ (width - 1) == 0)

-- `x.re` and `x.im` of a complex number whose parts have `size` bytes.
unfoldable pub re : ℕ → List ℕ → ℕ
re size v = from_le_bytes (take size v)

unfoldable pub im : ℕ → List ℕ → ℕ
im size v = from_le_bytes (take size (drop size v))

-- `.map(|v| v != 0.0).unwrap_or(false)`
unfoldable pub cast_ne_zero : Option ℕ → Bool
unfolding float_ne_zero
cast_ne_zero none = false
cast_ne_zero (some bits) = float_ne_zero 64 bits

unfoldable pub do_any : (DType → List ℕ → Option ℕ) → DType → List ℕ → Bool
unfolding cast_ne_zero
do_any cast t v = cast_ne_zero (cast t v)

unfoldable pub any_test : (DType → List ℕ → Option ℕ) → DType → List ℕ → Bool
unfolding do_any float_ne_zero re im
any_test cast bool v = not (from_le_bytes v == 0)
any_test cast c64 v = float_ne_zero 32 (re 4 v) || float_ne_zero 32 (im 4 v)
any_test cast c128 v = float_ne_zero 64 (re 8 v) || float_ne_zero 64 (im 8 v)
any_test cast i8 v = do_any cast i8 v
any_test cast i16 v = do_any cast i16 v
any_test cast i32 v = do_any cast i32 v
any_test cast i64 v = do_any cast i64 v
any_test cast u8 v = do_any cast u8 v
any_test cast u16 v = do_any cast u16 v
any_test cast u32 v = do_any cast u32 v
any_test cast u64 v = do_any cast u64 v
any_test cast f16 v = do_any cast f16 v
any_test cast bf16 v = do_any cast bf16 v
any_test cast f32 v = do_any cast f32 v
any_test cast f64 v = do_any cast f64 v

unfoldable pub do_all : (DType → List ℕ → Option ℕ) → DType → List ℕ → Bool
unfolding cast_ne_zero
do_all cast t v = cast_ne_zero (cast t v)

unfoldable pub all_test : (DType → List ℕ → Option ℕ) → DType → List ℕ → Bool
unfolding do_all float_ne_zero re im
all_test cast bool v = not (from_le_bytes v == 0)
all_test cast c64 v = float_ne_zero 32 (re 4 v) || float_ne_zero 32 (im 4 v)
all_test cast c128 v = float_ne_zero 64 (re 8 v) || float_ne_zero 64 (im 8 v)
all_test cast i8 v = do_all cast i8 v
all_test cast i16 v = do_all cast i16 v
all_test cast i32 v = do_all cast i32 v
all_test cast i64 v = do_all cast i64 v
all_test cast u8 v = do_all cast u8 v
all_test cast u16 v = do_all cast u16 v
all_test cast u32 v = do_all cast u32 v
all_test cast u64 v = do_all cast u64 v
all_test cast f16 v = do_all cast f16 v
all_test cast bf16 v = do_all cast bf16 v
all_test cast f32 v = do_all cast f32 v
all_test cast f64 v = do_all cast f64 v

unfoldable pub do_cnz : (DType → List ℕ → Option ℕ) → DType → List ℕ → Bool
unfolding cast_ne_zero
do_cnz cast t v = cast_ne_zero (cast t v)

unfoldable pub count_test : (DType → List ℕ → Option ℕ) → DType → List ℕ → Bool
unfolding do_cnz float_ne_zero re im
count_test cast bool v = not (from_le_bytes v == 0)
count_test cast c64 v = float_ne_zero 32 (re 4 v) || float_ne_zero 32 (im 4 v)
count_test cast c128 v = float_ne_zero 64 (re 8 v) || float_ne_zero 64 (im 8 v)
count_test cast i8 v = do_cnz cast i8 v
count_test cast i16 v = do_cnz cast i16 v
count_test cast i32 v = do_cnz cast i32 v
count_test cast i64 v = do_cnz cast i64 v
count_test cast u8 v = do_cnz cast u8 v
count_test cast u16 v = do_cnz cast u16 v
count_test cast u32 v = do_cnz cast u32 v
count_test cast u64 v = do_cnz cast u64 v
count_test cast f16 v = do_cnz cast f16 v
count_test cast bf16 v = do_cnz cast bf16 v
count_test cast f32 v = do_cnz cast f32 v
count_test cast f64 v = do_cnz cast f64 v
