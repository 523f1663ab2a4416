-- ===== src/Promote/Order.antt =====
-- crates/mohu-dtype/src/promote.rs: the order of the safe casts, and `promote` in it.
use mohu_fork_nirman.Base.{
  ◌*◌, ◌<◌, ◌≡◌, ◌⊎◌, inl, inr, refl, Bool, true, false, not, ◌&&◌, ◌||◌, if◌then◌else◌, ◌&&◌, ◌||◌,
  &&-true, ||-true, arith,
}
use mohu_fork_nirman.DType.{
  DType, i8, f16, f32, dtype_count, all_dtypes, is_bool, is_integer, is_float, is_complex,
}
use mohu_fork_nirman.DType.Code.{as_u8-lt, dtype_eq, dtype_eq→eq}
use mohu_fork_nirman.DType.Finite.{all, for_all, for_all₂, implies, implies-true}
use mohu_fork_nirman.Promote.{safe, same_kind, unsafe, table_index, promote, can_cast}

-- Every index into a table is below its 225 entries.
pub table_index-lt : (a b : DType) → table_index a b < dtype_count * dtype_count
unfolding table_index
table_index-lt a b = omega (arith, as_u8-lt a, as_u8-lt b)

-- Promotion is symmetric, a dtype promotes with itself to itself, and both operands cast safely to
-- the result.
pub promote_upper_bound :
    (a b : DType)
    → (promote a b ≡ promote b a)
      × (promote a a ≡ a)
      × (can_cast a (promote a b) safe ≡ true)
      × (can_cast b (promote a b) safe ≡ true)
unfolding promote can_cast dtype_eq
promote_upper_bound a b = (
  dtype_eq→eq _ _ (for_all₂ (λ x y. dtype_eq (promote x y) (promote y x)) refl a b),
  dtype_eq→eq _ _ (for_all (λ x. dtype_eq (promote x x) x) refl a),
  for_all₂ (λ x y. can_cast x (promote x y) safe) refl a b,
  for_all₂ (λ x y. can_cast y (promote x y) safe) refl a b,
)

checked_trans : DType → DType → DType → Bool
checked_trans x y z = implies (can_cast x y safe) (
    implies (can_cast y z safe)
      (can_cast x z safe && (if can_cast z x safe then dtype_eq x z else not (dtype_eq x z))))

checked_trans-true : (a b c : DType) → checked_trans a b c ≡ true
unfolding checked_trans can_cast dtype_eq
checked_trans-true a b c =
    for_all (checked_trans a b) (for_all₂ (λ x y. all (checked_trans x y) all_dtypes) refl a b) c

same_truth : (p q : Bool) → (if p then q else not q) ≡ true → p ≡ q
same_truth p q h = ground arith

-- Safe casting is a partial order: where `a` casts safely to `b` and `b` to `c`, `a` casts safely
-- to `c`, and `c` casts safely back to `a` exactly when the two are the same dtype.
pub safe_order :
    (a b c : DType)
    → can_cast a b safe ≡ true
    → can_cast b c safe ≡ true
    → (can_cast a c safe ≡ true) × (can_cast c a safe ≡ dtype_eq a c)
unfolding checked_trans
safe_order a b c p q =
    let both =
      &&-true (can_cast a c safe) _
        (implies-true _ _ (implies-true _ _ (checked_trans-true a b c) p) q) in
    (both.0, same_truth _ _ both.1)

pub can_cast_refl : (a : DType) → can_cast a a safe ≡ true
unfolding can_cast
can_cast_refl = for_all (λ x. can_cast x x safe) refl

-- Where `a` casts safely to `b`, the two promote to `b`, but for the one pair I8 and F16, which
-- promotes to F32 although I8 casts safely to F16.
pub promote_absorbs :
    (a b : DType)
    → can_cast a b safe ≡ true
    → (promote a b ≡ b) ⊎ ((a ≡ i8) × (b ≡ f16) × (promote a b ≡ f32))
unfolding promote can_cast dtype_eq
promote_absorbs a b p =
    elim (||-true (dtype_eq (promote a b) b) (exception a b)
      (implies-true _ _ (for_all₂ checked refl a b) p)) [
        | inl e ↦ inl (dtype_eq→eq _ _ e)
        | inr e ↦
            let (x, r) = &&-true (dtype_eq a i8) _ e in
            let (y, z) = &&-true (dtype_eq b f16) _ r in
            inr (dtype_eq→eq _ _ x, dtype_eq→eq _ _ y, dtype_eq→eq _ _ z)
      ]
  where
    exception : DType → DType → Bool
    exception x y = dtype_eq x i8 && (dtype_eq y f16 && dtype_eq (promote x y) f32)

    checked : DType → DType → Bool
    checked x y = implies (can_cast x y safe) (dtype_eq (promote x y) y || exception x y)

-- The broad kinds: bool, integer of either sign, real float, complex.
abbrev pub same_broad_kind : DType → DType → Bool
same_broad_kind a b =
    (is_bool a && is_bool b)
    || (is_integer a && is_integer b)
    || (is_float a && is_float b)
    || (is_complex a && is_complex b)

bool_eq : Bool → Bool → Bool
bool_eq true b = b
bool_eq false b = not b

bool_eq→eq : (a b : Bool) → bool_eq a b ≡ true → a ≡ b
unfolding bool_eq
bool_eq→eq a b h = ground arith

-- A same-kind cast is allowed exactly between dtypes of one broad kind; an unsafe cast always is.
pub same_kind_iff :
    (a b : DType) → (can_cast a b same_kind ≡ same_broad_kind a b) × (can_cast a b unsafe ≡ true)
unfolding can_cast bool_eq is_bool is_integer is_float is_complex
same_kind_iff a b = (
  bool_eq→eq _ _
      (for_all₂ (λ x y. bool_eq (can_cast x y same_kind) (same_broad_kind x y)) refl a b),
  refl,
)
