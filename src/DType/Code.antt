-- ===== src/DType/Code.antt =====
-- crates/mohu-dtype/src/dtype.rs: the stable numeric codes `as_u8` and `from_u8`, and the equality
-- test of dtypes through them.
use mohu_fork_nirman.Base.{
  ℕ, ◌⊎◌, inl, inr, dec_lt, ◌<◌, ◌≤◌, ◌≡◌, refl, arith, ap, sym, ◌∙◌, Bool, true, ◌==◌,
  if◌then◌else◌, ==_iff,
}
use mohu_fork_nirman.Errors.{MohuResult, ok, err, panic, unknown_dtype, dtype_code}
use mohu_fork_nirman.DType.{
  DType, bool, i8, i16, i32, i64, u8, u16, u32, u64, f16, bf16, f32, f64, c64, c128, dtype_count,
}

unfoldable pub as_u8 : DType → ℕ
as_u8 bool = 0
as_u8 i8 = 1
as_u8 i16 = 2
as_u8 i32 = 3
as_u8 i64 = 4
as_u8 u8 = 5
as_u8 u16 = 6
as_u8 u32 = 7
as_u8 u64 = 8
as_u8 f16 = 9
as_u8 bf16 = 10
as_u8 f32 = 11
as_u8 f64 = 12
as_u8 c64 = 13
as_u8 c128 = 14

unfoldable pub from_u8 : ℕ → MohuResult DType
from_u8 n =
    if n == 0
    then ok bool
    else if n == 1
    then ok i8
    else if n == 2
    then ok i16
    else if n == 3
    then ok i32
    else if n == 4
    then ok i64
    else if n == 5
    then ok u8
    else if n == 6
    then ok u16
    else if n == 7
    then ok u32
    else if n == 8
    then ok u64
    else if n == 9
    then ok f16
    else if n == 10
    then ok bf16
    else if n == 11
    then ok f32
    else if n == 12
    then ok f64
    else if n == 13
    then ok c64
    else if n == 14
    then ok c128
    else err (unknown_dtype (dtype_code n))

-- `from_u8` takes every dtype's code back to the dtype.
pub from_u8-as_u8 : (d : DType) → from_u8 (as_u8 d) ≡ ok d
unfolding from_u8 as_u8
from_u8-as_u8 bool = refl
from_u8-as_u8 _ = refl

as_u8-from_u8 : (n : ℕ) {d : DType} → from_u8 n ≡ ok d → as_u8 d ≡ n
unfolding from_u8 as_u8
as_u8-from_u8 n h = ground arith

from_u8_rejects : (n : ℕ) → dtype_count ≤ n → from_u8 n ≡ err (unknown_dtype (dtype_code n))
unfolding from_u8
from_u8_rejects n h = ground arith

pub as_u8-lt : (d : DType) → as_u8 d < dtype_count
unfolding as_u8
as_u8-lt bool = omega arith
as_u8-lt _ = omega arith

-- The test `==` that the enum derives.
unfoldable pub dtype_eq : DType → DType → Bool
unfolding as_u8
dtype_eq a b = as_u8 a == as_u8 b

ok-injective : {a b : DType} → ok a ≡ ok b → a ≡ b
ok-injective h = cc

pub as_u8-injective : (a b : DType) → as_u8 a ≡ as_u8 b → a ≡ b
as_u8-injective a b h = ok-injective (sym (from_u8-as_u8 a) ∙ ap from_u8 h ∙ from_u8-as_u8 b)

pub dtype_eq→eq : (a b : DType) → dtype_eq a b ≡ true → a ≡ b
unfolding dtype_eq
dtype_eq→eq a b h = as_u8-injective a b ((==_iff (as_u8 a) (as_u8 b)).0 h)

from_u8_accepts : (n : ℕ) → n < dtype_count → (d : DType) × (from_u8 n ≡ ok d)
unfolding from_u8
from_u8_accepts n h = from_ok (from_u8 n) refl
  where
    from_ok : (r : MohuResult DType) → from_u8 n ≡ r → (d : DType) × (r ≡ ok d)
    from_ok (ok d) e = (d, refl)
    from_ok (err x) e = absurd (ground arith)
    from_ok panic e = absurd (ground arith)

pub dtype_eq_refl : (a : DType) → dtype_eq a a ≡ true
unfolding dtype_eq
dtype_eq_refl a = (==_iff (as_u8 a) (as_u8 a)).1 refl

-- `from_u8` and `as_u8` are inverse: the code of every dtype `e` reads back to it, and a number
-- either is read as a dtype with that code, or is at least `dtype_count` and is rejected with the
-- unknown-dtype error.
pub from_u8_iff :
    (e : DType) (n : ℕ)
    → (from_u8 (as_u8 e) ≡ ok e)
      × (((d : DType) × (from_u8 n ≡ ok d) × (as_u8 d ≡ n))
          ⊎ ((dtype_count ≤ n) × (from_u8 n ≡ err (unknown_dtype (dtype_code n)))))
from_u8_iff e n = (
  from_u8-as_u8 e,
  elim (dec_lt n dtype_count) [
    | yes p ↦ let (d, r) = from_u8_accepts n p in inl (d, r, as_u8-from_u8 n r)
    | no q ↦ inr (omega arith, from_u8_rejects n (omega arith))
  ],
)
