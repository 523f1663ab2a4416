-- ===== src/Examples.antt =====
-- The theorems on crates/mohu-dtype at concrete dtypes and numbers.
use mohu_fork_nirman.Base.{
  ◌≡◌, ◌⊎◌, ◌≤◌, refl, true, false, some, arith, codes, to_ascii_lowercase, trim, is_one_of,
}
use mohu_fork_nirman.Base.Ints.{pos, negsuc}
use mohu_fork_nirman.Errors.{ok}
use mohu_fork_nirman.DType.{
  i8, i16, i32, i64, u8, u32, itemsize, f16, f32, is_signed_integer, is_unsigned_integer,
}
use mohu_fork_nirman.Promote.{safe, promote, can_cast}
use mohu_fork_nirman.Promote.Order.{promote_absorbs}
use mohu_fork_nirman.Names.{parse, parse_char_code, first_match, numpy_char}
use mohu_fork_nirman.Compat.{is_prefix_char}
use mohu_fork_nirman.Dlpack.{from_dlpack}
use mohu_fork_nirman.IntInfo.{IntInfo, of, can_hold_i128, minimum_signed_type_for}
use mohu_fork_nirman.IntInfo.Ranges.{InRange, minimum_signed_type_for_least}

u8_to_i16 : can_cast u8 i16 safe ≡ true
unfolding can_cast
u8_to_i16 = refl

i16_to_i32 : can_cast i16 i32 safe ≡ true
unfolding can_cast
i16_to_i32 = refl

promote_absorbs_example :
    (promote u8 i16 ≡ i16) ⊎ ((u8 ≡ i8) × (i16 ≡ f16) × (promote u8 i16 ≡ f32))
promote_absorbs_example = promote_absorbs u8 i16 u8_to_i16

numpy_char_u8 : numpy_char u8 ≡ some 66
unfolding numpy_char
numpy_char_u8 = refl

parse_int8 : parse (to_ascii_lowercase (codes "Int8")) ≡ ok i8
unfolding parse parse_char_code first_match is_one_of trim to_ascii_lowercase
parse_int8 = refl

little_endian : is_prefix_char 60 ≡ true
unfolding is_prefix_char
little_endian = refl

import_u8 : from_dlpack 1 8 1 ≡ ok u8
unfolding from_dlpack
import_u8 = refl

abbrev i8_info : IntInfo
i8_info = record { dtype = i8; bits = 8; is_signed = true; min = negsuc 127; max = 127 }

of_i8 : of i8 ≡ ok i8_info
unfolding of
of_i8 = refl

refused : can_hold_i128 i8_info (negsuc 5) ≡ false
unfolding can_hold_i128
refused = refl

within_i64 : InRange (of i64) (negsuc 200)
unfolding of
within_i64 = (omega arith, omega arith)

within_i32 : InRange (of i32) (negsuc 200)
unfolding of
within_i32 = (omega arith, omega arith)

signed_i32 : is_signed_integer i32 ≡ true
unfolding is_signed_integer
signed_i32 = refl

within_u32 : InRange (of u32) (pos 300)
unfolding of
within_u32 = (omega arith, omega arith)

unsigned_u32 : is_unsigned_integer u32 ≡ true
unfolding is_unsigned_integer
unsigned_u32 = refl

minimum_signed_type_for_least_example :
    (is_signed_integer (minimum_signed_type_for (negsuc 200)) ≡ true)
    × InRange (of (minimum_signed_type_for (negsuc 200))) (negsuc 200)
    × (itemsize (minimum_signed_type_for (negsuc 200)) ≤ itemsize i32)
minimum_signed_type_for_least_example =
    minimum_signed_type_for_least (negsuc 200) i32 within_i64 signed_i32 within_i32
