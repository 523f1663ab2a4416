-- ===== src/IntInfo/Ranges.antt =====
-- crates/mohu-dtype/src/iinfo.rs: the ranges, the membership tests and the narrowest-type functions.
use mohu_fork_nirman.Base.{
  ℕ, ◌+◌, ◌^◌, ◌≤◌, ◌<◌, ◌≡◌, ◌⊎◌, inl, inr, refl, true, false, codes, arith,
}
use mohu_fork_nirman.Base.Ints.{ℤ, pos, negsuc, ◌≤ℤ◌, pos_part, neg_part}
use mohu_fork_nirman.Errors.{MohuResult, ok, panic, err, unsupported_dtype}
use mohu_fork_nirman.DType.{
  DType, i8, i16, i32, i64, u8, u16, u32, u64, bit_width, itemsize, is_integer, is_signed_integer,
  is_unsigned_integer,
}
use mohu_fork_nirman.Names.{numpy_str}
use mohu_fork_nirman.IntInfo.{
  IntInfo, of, can_hold_i128, can_hold_u128, minimum_signed_type_for, minimum_unsigned_type_for,
}

-- `of` succeeds exactly for the integer dtypes; its entry names the dtype, its width and its
-- signedness, its range has 2 ^ bits values and reaches below zero for the signed types alone;
-- every other dtype gives the unsupported-dtype error.
pub of_range :
    (d : DType)
    → ((info : IntInfo) × (of d ≡ ok info)
        × (is_integer d ≡ true)
        × (info.dtype ≡ d)
        × (info.bits ≡ bit_width d)
        × (info.is_signed ≡ is_signed_integer d)
        × (info.max + 1 + neg_part info.min ≡ 2 ^ info.bits)
        × ((info.is_signed ≡ true) × (neg_part info.min ≡ info.max + 1)
            ⊎ (info.is_signed ≡ false) × (info.min ≡ pos 0)))
      ⊎ ((is_integer d ≡ false) × (of d ≡ err (unsupported_dtype (codes "iinfo") (numpy_str d))))
unfolding of is_integer bit_width is_signed_integer
of_range i8 = inl (_, refl, refl, refl, refl, refl, refl, inl (refl, refl))
of_range i16 = inl (_, refl, refl, refl, refl, refl, refl, inl (refl, refl))
of_range i32 = inl (_, refl, refl, refl, refl, refl, refl, inl (refl, refl))
of_range i64 = inl (_, refl, refl, refl, refl, refl, refl, inl (refl, refl))
of_range u8 = inl (_, refl, refl, refl, refl, refl, refl, inr (refl, refl))
of_range u16 = inl (_, refl, refl, refl, refl, refl, refl, inr (refl, refl))
of_range u32 = inl (_, refl, refl, refl, refl, refl, refl, inr (refl, refl))
of_range u64 = inl (_, refl, refl, refl, refl, refl, refl, inr (refl, refl))
of_range _ = inr (refl, refl)

of_bounds :
    (d : DType) (info : IntInfo) → of d ≡ ok info → (pos_part info.min ≡ 0) × (info.max < 2 ^ 127)
unfolding of
of_bounds i8 info h = ground arith
of_bounds _ info h = ground arith

-- `can_hold_i128` on an `i128` compares a value that is not negative with the maximum, as
-- `can_hold_u128` does, and refuses every negative value, also one that the signed type holds.
pub can_hold_i128_signs :
    (d : DType) (info : IntInfo) (n : ℕ)
    → of d ≡ ok info
    → n < 2 ^ 127
    → (can_hold_i128 info (pos n) ≡ can_hold_u128 info n) × (can_hold_i128 info (negsuc n) ≡ false)
unfolding can_hold_i128 can_hold_u128
can_hold_i128_signs d info n h r = ground (arith, of_bounds d info h)

-- A value lies in the range of an integer dtype.
abbrev pub InRange : MohuResult IntInfo → ℤ → Type 0
InRange (ok info) v = (info.min ≤ℤ v) × (v ≤ℤ pos info.max)
InRange (err e) v = ⊥
InRange panic v = ⊥

signed_least :
    (v : ℤ) (d : DType)
    → is_signed_integer d ≡ true
    → InRange (of d) v
    → itemsize (minimum_signed_type_for v) ≤ itemsize d
unfolding minimum_signed_type_for of is_signed_integer itemsize
signed_least v i8 s r = ground arith
signed_least v _ s r = ground arith

unsigned_least :
    (v : ℕ) (d : DType)
    → is_unsigned_integer d ≡ true
    → InRange (of d) (pos v)
    → itemsize (minimum_unsigned_type_for v) ≤ itemsize d
unfolding minimum_unsigned_type_for of is_unsigned_integer itemsize
unsigned_least v u8 s r = ground arith
unsigned_least v _ s r = ground arith

-- For a value of `i64`, `minimum_signed_type_for` returns a signed dtype whose range holds the
-- value and which is no wider than any signed dtype `d` that holds it.
pub minimum_signed_type_for_least :
    (v : ℤ) (d : DType)
    → InRange (of i64) v
    → is_signed_integer d ≡ true
    → InRange (of d) v
    → (is_signed_integer (minimum_signed_type_for v) ≡ true)
      × InRange (of (minimum_signed_type_for v)) v
      × (itemsize (minimum_signed_type_for v) ≤ itemsize d)
unfolding minimum_signed_type_for of is_signed_integer
minimum_signed_type_for_least v d h s r = (ground arith, ground arith, signed_least v d s r)

-- For a value of `u64`, `minimum_unsigned_type_for` returns an unsigned dtype whose range holds
-- the value and which is no wider than any unsigned dtype `d` that holds it.
pub minimum_unsigned_type_for_least :
    (v : ℕ) (d : DType)
    → v < 2 ^ 64
    → is_unsigned_integer d ≡ true
    → InRange (of d) (pos v)
    → (is_unsigned_integer (minimum_unsigned_type_for v) ≡ true)
      × InRange (of (minimum_unsigned_type_for v)) (pos v)
      × (itemsize (minimum_unsigned_type_for v) ≤ itemsize d)
unfolding minimum_unsigned_type_for of is_unsigned_integer
minimum_unsigned_type_for_least v d h s r = (ground arith, ground arith, unsigned_least v d s r)
