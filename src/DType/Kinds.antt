-- ===== src/DType/Kinds.antt =====
-- crates/mohu-dtype/src/dtype.rs: sizes, kinds and conversions against each other.
use mohu_fork_nirman.Base.{ℕ, ◌+◌, ◌*◌, ◌%◌, ◌≡◌, refl, Bool, true, false, some, arith}
use mohu_fork_nirman.DType.{
  DType, bool, i16, itemsize, alignment, is_bool, is_signed_integer, is_unsigned_integer,
  is_integer, is_float, is_complex, widen, narrow, real_dtype, is_ordered, is_numeric,
}

abbrev pub flag : Bool → ℕ
flag true = 1
flag false = 0

-- Every dtype has exactly one of the five kinds bool, signed, unsigned, float and complex, and the
-- derived predicates `is_integer`, `is_numeric` and `is_ordered` agree with the kinds.
pub kinds_partition :
    (d : DType)
    → (flag (is_bool d)
          + flag (is_signed_integer d)
          + flag (is_unsigned_integer d)
          + flag (is_float d)
          + flag (is_complex d)
        ≡ 1)
      × (flag (is_integer d) ≡ flag (is_signed_integer d) + flag (is_unsigned_integer d))
      × (flag (is_numeric d) + flag (is_bool d) ≡ 1)
      × (flag (is_ordered d) ≡ flag (is_integer d) + flag (is_float d))
unfolding is_bool is_signed_integer is_unsigned_integer is_float is_complex is_integer is_numeric
    is_ordered
kinds_partition bool = (refl, refl, refl, refl)
kinds_partition _ = (refl, refl, refl, refl)

-- The alignment divides the item size and is the item size of the real component.
pub alignment-itemsize :
    (d : DType) → (itemsize d % alignment d ≡ 0) × (alignment d ≡ itemsize (real_dtype d))
unfolding itemsize alignment real_dtype
alignment-itemsize bool = (refl, refl)
alignment-itemsize _ = (refl, refl)

-- Where `narrow` gives a dtype, that has half the item size, and `widen` takes it back.
pub widen-narrow : (d e : DType) → narrow d ≡ some e → (widen e ≡ d) × (itemsize d ≡ 2 * itemsize e)
unfolding narrow widen itemsize
widen-narrow i16 e h = ground arith
widen-narrow _ e h = ground arith
