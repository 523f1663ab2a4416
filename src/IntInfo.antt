-- ===== src/IntInfo.antt =====
-- crates/mohu-dtype/src/iinfo.rs: the ranges of the integer dtypes. An `i128` or `i64` is an
-- integer, a `u128` or `u64` a number; `as u128` writes out the two's complement.
pub mod Ranges
use mohu_fork_nirman.Base.{
  ℕ, ◌+◌, ◌-◌, ◌%◌, ◌^◌, ◌*◌, Bool, true, false, ◌&&◌, if◌then◌else◌, leb, codes,
}
use mohu_fork_nirman.Base.Ints.{ℤ, pos, negsuc, leb_ℤ}
use mohu_fork_nirman.Errors.{MohuResult, ok, err, unsupported_dtype}
use mohu_fork_nirman.DType.{
  DType, i8, i16, i32, i64, u8, u16, u32, u64, bool, f16, bf16, f32, f64, c64, c128,
}
use mohu_fork_nirman.Names.{numpy_str}

pub record IntInfo : Type 0 where
  pub dtype : DType
  pub bits : ℕ
  pub is_signed : Bool
  pub min : ℤ
  pub max : ℕ

-- The constructor functions `i8()` to `u64()`.
abbrev pub signed : DType → ℕ → ℕ → IntInfo
signed d bits half = record {
  dtype = d;
  bits = bits;
  is_signed = true;
  min = negsuc half;
  max = half;
}

abbrev pub unsigned : DType → ℕ → ℕ → IntInfo
unsigned d bits top = record { dtype = d; bits = bits; is_signed = false; min = pos 0; max = top }

unfoldable pub of : DType → MohuResult IntInfo
of i8 = ok (signed i8 8 127)
of i16 = ok (signed i16 16 32767)
of i32 = ok (signed i32 32 2147483647)
of i64 = ok (signed i64 64 9223372036854775807)
of u8 = ok (unsigned u8 8 255)
of u16 = ok (unsigned u16 16 65535)
of u32 = ok (unsigned u32 32 4294967295)
of u64 = ok (unsigned u64 64 18446744073709551615)
of other = err (unsupported_dtype (codes "iinfo") (numpy_str other))

abbrev u128_mod : ℕ
u128_mod = 2 ^ 128

-- `v as u128` for an `i128`
unfoldable pub as_u128 : ℤ → ℕ
as_u128 (pos n) = n % u128_mod
as_u128 (negsuc n) = u128_mod - 1 - n % u128_mod

unfoldable pub can_hold_i128 : IntInfo → ℤ → Bool
unfolding as_u128
can_hold_i128 info v = leb_ℤ info.min v && leb (as_u128 v) info.max

unfoldable pub can_hold_u128 : IntInfo → ℕ → Bool
can_hold_u128 info v = leb v info.max

unfoldable pub minimum_signed_type_for : ℤ → DType
minimum_signed_type_for v =
    if leb_ℤ (negsuc 127) v && leb_ℤ v (pos 127)
    then i8
    else if leb_ℤ (negsuc 32767) v && leb_ℤ v (pos 32767)
    then i16
    else if leb_ℤ (negsuc 2147483647) v && leb_ℤ v (pos 2147483647)
    then i32
    else i64

unfoldable pub minimum_unsigned_type_for : ℕ → DType
minimum_unsigned_type_for v =
    if leb v 255 then u8 else if leb v 65535 then u16 else if leb v 4294967295 then u32 else u64
