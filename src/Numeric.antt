-- ===== src/Numeric.antt =====
-- crates/mohu-buffer/src/buffer.rs: the numeric methods of `Buffer`, over ops.rs. The arithmetic of the scalar types
-- and of `f64` is a parameter.
pub mod Truth
pub mod Counts
use mohu_fork_nirman.Base.{
  ℕ, zero, suc, ◌+◌, Bool, true, false, not, ◌&&◌, ◌||◌, Option, List, [], ◌∷◌, map, leb, ◌-◌, ◌==◌,
  text_eq, codes, if◌then◌else◌,
}
use mohu_fork_nirman.Errors.{MohuResult, ok, err, panic, ◌>>=◌, ◌>>◌, non_contiguous, read_only}
use mohu_fork_nirman.DType.{DType, f64, is_bool}
use mohu_fork_nirman.DType.Code.{dtype_eq}
use mohu_fork_nirman.DType.Scalar.{Scalar}
use mohu_fork_nirman.Promote.{CastMode, unsafe}
use mohu_fork_nirman.Layout.{size}
use mohu_fork_nirman.Buffer.{Memory, Buffer, c_order, then_do, alloc_buffer, drop_raw}
use mohu_fork_nirman.Buffer.Copy.{to_contiguous, make_unique}
use mohu_fork_nirman.Buffer.Access.{check_dtype}
use mohu_fork_nirman.Buffer.Create.{filled, as_slice}
use mohu_fork_nirman.Ops.{load_bytes}
use mohu_fork_nirman.Ops.Checks.{check_contiguous, check_write}
use mohu_fork_nirman.Ops.Fill.{with_unique}
use mohu_fork_nirman.Ops.Map.{scalar_inplace, clip}
use mohu_fork_nirman.Ops.Cast.{cast_copy}
use mohu_fork_nirman.Ops.Indexed.{from_le_bytes}
use mohu_fork_nirman.Ops.Reduce.{
  Split, Double, contiguous_values, check_real, reduce_split, unwrap_or, sum_all_f64,
}
use mohu_fork_nirman.Numeric.Truth.{any_test, all_test, count_test}
use mohu_fork_nirman.Ops.Unary.{Arithmetic, abs_copy, neg_copy, float_copy}

-- The slice that `as_mut_slice` gives, as bytes of the block from the buffer's first element on.
unfoldable pub as_mut_slice :
    Option ℕ → (ℕ → ℕ) → DType → Buffer × Memory → MohuResult (List (List ℕ)) × (Buffer × Memory)
as_mut_slice system fresh t buf =
    then_do (check_dtype t buf.0 >> check_write buf.0 >> check_contiguous buf.0, buf)
      (λ done s. then_do (make_unique system fresh s) (λ done s. (as_slice s.1 t s.0, s)))

-- A new buffer of a dtype and the shape of another, which an operation fills.
unfoldable pub into_new :
    Option ℕ
    → (ℕ → ℕ)
    → Memory
    → DType
    → Buffer
    → (Buffer × Memory → MohuResult (Unit {0}) × (Buffer × Memory))
    → MohuResult Buffer × Memory
into_new system fresh mem dtype buf op =
    then_do (alloc_buffer system fresh mem dtype buf.layout.shape c_order)
      (λ dst mem. filled (op (dst, mem)))

unfoldable pub cast :
    Option ℕ
    → (ℕ → ℕ)
    → (DType → DType → List ℕ → List ℕ)
    → CastMode
    → Memory
    → DType
    → Buffer
    → MohuResult Buffer × Memory
cast system fresh cast_scalar mode mem target buf =
    if dtype_eq target buf.dtype
    then to_contiguous system fresh mem buf
    else into_new system fresh mem target buf (λ s. cast_copy system fresh cast_scalar mode buf s)

unfoldable pub mean_all_f64 :
    {F : Type 0}
    → Option ℕ
    → (ℕ → ℕ)
    → Split
    → Double F
    → (F → ℕ → F)
    → Memory
    → Buffer
    → MohuResult F × Memory
mean_all_f64 system fresh split d divide mem buf =
    let n = size buf.layout in
    if n == 0
    then (ok d.nan, mem)
    else then_do (sum_all_f64 system fresh split d mem buf) (λ sum mem. (ok (divide sum n), mem))

-- The value of an element as an `f64`, as `sum_all_f64` and `var_all_f64` take it.
unfoldable pub as_f64 : {F : Type 0} → Double F → DType → List ℕ → F
as_f64 d t v =
    if is_bool t then d.of_byte (from_le_bytes v) else unwrap_or (d.cast t v) d.zero_value

-- `deviation` squares the difference of a value and the mean.
unfoldable pub var_all_f64 :
    {F : Type 0}
    → Option ℕ
    → (ℕ → ℕ)
    → Split
    → Double F
    → (F → ℕ → F)
    → (F → F → F)
    → Memory
    → Buffer
    → ℕ
    → MohuResult F × Memory
var_all_f64 system fresh split d divide deviation mem buf ddof =
    let n = size buf.layout in
    then_do (check_real "var_all_f64" buf, mem)
      (λ done mem.
        if leb n ddof
        then (ok d.nan, mem)
        else then_do (mean_all_f64 system fresh split d divide mem buf) (λ mean mem.
          then_do (contiguous_values system fresh mem buf) (λ vs mem.
            let ss =
              reduce_split d.add split d.zero_value
                (map (λ v. deviation (as_f64 d buf.dtype v) mean) vs) in
            (ok (divide ss (n - ddof)), mem))))

unfoldable pub std_all_f64 :
    {F : Type 0}
    → Option ℕ
    → (ℕ → ℕ)
    → Split
    → Double F
    → (F → ℕ → F)
    → (F → F → F)
    → (F → F)
    → Memory
    → Buffer
    → ℕ
    → MohuResult F × Memory
std_all_f64 system fresh split d divide deviation sqrt mem buf ddof =
    then_do (var_all_f64 system fresh split d divide deviation mem buf ddof)
      (λ v mem. (ok (sqrt v), mem))

abbrev pub any_of : (List ℕ → Bool) → List (List ℕ) → Bool
any_of p [] = false
any_of p (v ∷ vs) = p v || any_of p vs

abbrev pub all_of : (List ℕ → Bool) → List (List ℕ) → Bool
all_of p [] = true
all_of p (v ∷ vs) = p v && all_of p vs

abbrev pub count_of : (List ℕ → Bool) → List (List ℕ) → ℕ
count_of p [] = 0
count_of p (v ∷ vs) = if p v then suc (count_of p vs) else count_of p vs

unfoldable pub any :
    Option ℕ → (ℕ → ℕ) → (DType → List ℕ → Option ℕ) → Memory → Buffer → MohuResult Bool × Memory
unfolding any_test
any system fresh cast_f64 mem buf =
    then_do (contiguous_values system fresh mem buf)
      (λ vs mem. (ok (any_of (any_test cast_f64 buf.dtype) vs), mem))

unfoldable pub all :
    Option ℕ → (ℕ → ℕ) → (DType → List ℕ → Option ℕ) → Memory → Buffer → MohuResult Bool × Memory
unfolding all_test
all system fresh cast_f64 mem buf =
    then_do (contiguous_values system fresh mem buf)
      (λ vs mem. (ok (all_of (all_test cast_f64 buf.dtype) vs), mem))

unfoldable pub count_nonzero :
    Option ℕ → (ℕ → ℕ) → (DType → List ℕ → Option ℕ) → Memory → Buffer → MohuResult ℕ × Memory
unfolding count_test
count_nonzero system fresh cast_f64 mem buf =
    then_do (contiguous_values system fresh mem buf)
      (λ vs mem. (ok (count_of (count_test cast_f64 buf.dtype) vs), mem))

abbrev pub all_close : (List ℕ → List ℕ → Bool) → List (List ℕ) → List (List ℕ) → Bool
all_close near [] bs = true
all_close near (a ∷ as') [] = true
all_close near (a ∷ as') (b ∷ bs) = near a b && all_close near as' bs

-- The casts to `f64` are dropped at the end. `near` is the test on two values, with the tolerances.
unfoldable pub allclose :
    Option ℕ
    → (ℕ → ℕ)
    → (DType → DType → List ℕ → List ℕ)
    → (List ℕ → List ℕ → Bool)
    → Memory
    → Buffer
    → Buffer
    → MohuResult Bool × Memory
allclose system fresh cast_scalar near mem buf other =
    if not (text_eq buf.layout.shape other.layout.shape)
    then (ok false, mem)
    else then_do (cast system fresh cast_scalar unsafe mem f64 buf)
        (λ a mem. second_cast a (cast system fresh cast_scalar unsafe mem f64 other))
  where
    compare_slices : Memory → Buffer → Buffer → MohuResult Bool
    compare_slices mem a b =
        as_slice mem f64 a >>= λ xs. as_slice mem f64 b >>= λ ys. ok (all_close near xs ys)

    second_cast : Buffer → MohuResult Buffer × Memory → MohuResult Bool × Memory
    second_cast a (ok b, mem) = (compare_slices mem a b, drop_raw (drop_raw mem b.raw) a.raw)
    second_cast a (err e, mem) = (err e, drop_raw mem a.raw)
    second_cast a (panic, mem) = (panic, mem)

module _ {T : DType → Type 0} {F I : Type 0} (arithmetic : Arithmetic T F I) where
  unfoldable pub abs : Option ℕ → (ℕ → ℕ) → Memory → Buffer → MohuResult Buffer × Memory
  abs system fresh mem buf =
      into_new system fresh mem buf.dtype buf (λ s. abs_copy arithmetic system fresh buf s)

  unfoldable pub neg : Option ℕ → (ℕ → ℕ) → Memory → Buffer → MohuResult Buffer × Memory
  neg system fresh mem buf =
      into_new system fresh mem buf.dtype buf (λ s. neg_copy arithmetic system fresh buf s)

  -- `sqrt`, `ln` and `exp`
  unfoldable pub float_map :
      Option ℕ → (ℕ → ℕ) → ((t : DType) → T t → T t) → Memory → Buffer → MohuResult Buffer × Memory
  float_map system fresh f mem buf =
      into_new system fresh mem buf.dtype buf (λ s. float_copy arithmetic system fresh f buf s)

-- `add_scalar` and `mul_scalar`
unfoldable pub with_scalar :
    {A : Type 0}
    → Option ℕ
    → (ℕ → ℕ)
    → Scalar A
    → (A → A → A)
    → A
    → Memory
    → Buffer
    → MohuResult Buffer × Memory
with_scalar system fresh s op scalar mem buf =
    then_do (to_contiguous system fresh mem buf)
      (λ dst mem. filled (scalar_inplace system fresh s op scalar (dst, mem)))

unfoldable pub clip_val :
    {A : Type 0}
    → Option ℕ
    → (ℕ → ℕ)
    → Scalar A
    → (A → A → Bool)
    → A
    → A
    → Memory
    → Buffer
    → MohuResult Buffer × Memory
clip_val system fresh s lt lo hi mem buf =
    into_new system fresh mem buf.dtype buf (λ st. clip system fresh s lt lo hi buf st)
