-- ===== src/Errors/Kinds.antt =====
-- crates/mohu-error/src/kind.rs, and `kind`, `is_transient` and `is_usage_error` of error.rs: the coarse
-- kind of an error. The loop of `ErrorChain::root` that starts `kind` is its first clause.
use mohu_fork_nirman.Base.{
  ℕ, ◌≡◌, ◌⊎◌, inl, inr, refl, Bool, true, false, Option, none, some, leb, ltb, ◌&&◌, ◌==◌,
  if◌then◌else◌, Text, codes,
}
use mohu_fork_nirman.Errors.{
  MohuError, MultiError, nothing, error_then, context, multiple, io, allocation_failed,
}
use mohu_fork_nirman.Errors.Codes.{ErrorCode, number}
use mohu_fork_nirman.Errors.Variants.{code}

pub data ErrorKind : Type 0 where
  usage runtime system internal : ErrorKind

-- `self as u8`
unfoldable pub rank : ErrorKind → ℕ
rank usage = 0
rank runtime = 1
rank system = 2
rank ErrorKind.internal = 3

unfoldable pub is_recoverable : ErrorKind → Bool
is_recoverable system = true
is_recoverable _ = false

unfoldable pub label : ErrorKind → Text
label usage = codes "usage"
label runtime = codes "runtime"
label system = codes "system"
label ErrorKind.internal = codes "internal"

abbrev between : ℕ → ℕ → ErrorCode → Bool
between first last c = leb first (number c) && leb (number c) last

-- `From<ErrorCode>`
unfoldable pub from_code : ErrorCode → ErrorKind
unfolding number
from_code c =
    if between 1000 3999 c
    then usage
    else if between 4000 4002 c
    then system
    else if between 4003 4999 c
    then usage
    else if between 5000 5999 c
    then runtime
    else if between 6000 6999 c
    then system
    else if number c == 7002
    then ErrorKind.internal
    else if between 7000 7999 c
    then usage
    else if between 8000 8999 c
    then system
    else if between 9000 9999 c
    then usage
    else if number c == 10000
    then runtime
    else if number c == 10001
    then runtime
    else ErrorKind.internal

-- `max_by_key` keeps the last of the greatest.
unfoldable pub later_max : ErrorKind → ErrorKind → ErrorKind
unfolding rank
later_max a b = if ltb (rank b) (rank a) then a else b

unfoldable mutual
  unfolding from_code code later_max

  pub kind : MohuError → ErrorKind
  kind (context message source) = kind source
  kind (MohuError.internal message) = ErrorKind.internal
  kind (multiple errors) = elim (worst errors) [ none ↦ ErrorKind.internal | some k ↦ k ]
  kind e = from_code (code e)

  pub worst : MultiError → Option ErrorKind
  worst nothing = none
  worst (error_then e errors) = elim (worst errors) [
    | none ↦ some (kind e)
    | some k ↦ some (later_max (kind e) k)
  ]

unfoldable pub is_transient : MohuError → Bool
is_transient (io _) = true
is_transient (allocation_failed _) = true
is_transient _ = false

unfoldable pub is_usage_error : MohuError → Bool
unfolding code
is_usage_error e = elim (code e) [
  | ErrorCode.shape_mismatch ↦ true
  | ErrorCode.broadcast_error ↦ true
  | ErrorCode.dimension_mismatch ↦ true
  | ErrorCode.axis_out_of_range ↦ true
  | ErrorCode.dtype_mismatch ↦ true
  | ErrorCode.invalid_cast ↦ true
  | ErrorCode.index_out_of_bounds ↦ true
  | ErrorCode.too_many_indices ↦ true
  | ErrorCode.zero_slice_step ↦ true
  | ErrorCode.slice_out_of_bounds ↦ true
  | ErrorCode.reshape_incompatible ↦ true
  | ErrorCode.bool_index_shape_mismatch ↦ true
  | ErrorCode.fancy_index_out_of_bounds ↦ true
  | _ ↦ false
]

usage_kind : (e : MohuError) → (is_usage_error e ≡ false) ⊎ (kind e ≡ usage)
unfolding kind is_usage_error
usage_kind (MohuError.shape_mismatch _ _) = inr refl
usage_kind (MohuError.broadcast_error _ _) = inr refl
usage_kind (MohuError.dimension_mismatch _ _) = inr refl
usage_kind (MohuError.axis_out_of_range _ _) = inr refl
usage_kind (MohuError.reshape_incompatible _ _ _) = inr refl
usage_kind (MohuError.dtype_mismatch _ _) = inr refl
usage_kind (MohuError.invalid_cast _ _ _) = inr refl
usage_kind (MohuError.index_out_of_bounds _ _ _) = inr refl
usage_kind (MohuError.too_many_indices _ _) = inr refl
usage_kind MohuError.zero_slice_step = inr refl
usage_kind (MohuError.slice_out_of_bounds _ _ _ _) = inr refl
usage_kind (MohuError.bool_index_shape_mismatch _ _) = inr refl
usage_kind (MohuError.fancy_index_out_of_bounds _ _ _) = inr refl
usage_kind e = inl refl

transient_kind :
    (e : MohuError)
    → (is_transient e ≡ false) ⊎ ((kind e ≡ system) × (is_recoverable (kind e) ≡ true))
unfolding kind is_transient is_recoverable
transient_kind (io detail) = inr (refl, refl)
transient_kind (allocation_failed bytes) = inr (refl, refl)
transient_kind e = inl refl

-- The two tests of an error agree with its kind: an error that is a usage error by its code has the
-- kind of usage errors, and a transient error has a kind that one can recover from.
pub kind_lem :
    (e : MohuError)
    → ((is_usage_error e ≡ false) ⊎ (kind e ≡ usage))
      × ((is_transient e ≡ false) ⊎ ((kind e ≡ system) × (is_recoverable (kind e) ≡ true)))
kind_lem e = (usage_kind e, transient_kind e)
