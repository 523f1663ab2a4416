-- ===== src/Errors.antt =====
-- crates/mohu-error/src/error.rs: `MohuError` and `MohuResult`. A formatted message is kept as the
-- values that it prints, and the text of a size, of a dtype or of valid axes is left out where the other
-- fields determine it.
pub mod Codes
pub mod Variants
pub mod Kinds
pub mod Chain
pub mod Context
pub mod Multi
mod Examples
use mohu_fork_nirman.Base.{ℕ, ◌≡◌, refl, List, Bool, if◌then◌else◌, Text}

-- What the `String` inside an error was made from.
pub data Message : Type 0 where
  text : Text → Message
  dtype_code : ℕ → Message
  dtype_name : ℕ → Message
  bytes_length : ℕ → ℕ → Message
  strides_length : ℕ → ℕ → Message
  zero_itemsize : Message
  repeated_axis : ℕ → Message
  squeeze_size : ℕ → ℕ → Message
  dlpack_lanes : ℕ → Message
  dlpack_code : ℕ → Message
  empty_dtypes : Message
  valid_axes : ℕ → Message
  operation : Text → Message
  on_axis : ℕ → Message
  none_in_operation : Text → Message
  none_on_axis : ℕ → Message
  axis_outside : Text → ℕ → ℕ → Message

-- An `i64`, an `isize` or a float is its bit pattern. A `MultiError` is its vector of errors.
mutual
  pub data MohuError : Type 0 where
    shape_mismatch : List ℕ → List ℕ → MohuError
    broadcast_error : List ℕ → List ℕ → MohuError
    dimension_mismatch : ℕ → ℕ → MohuError
    axis_out_of_range : ℕ → ℕ → MohuError
    scalar_array : MohuError
    zero_sized_dimension : ℕ → MohuError
    shape_overflow : ℕ → MohuError
    reshape_incompatible : ℕ → List ℕ → ℕ → MohuError
    empty_stack_sequence : MohuError
    concat_shape_mismatch : ℕ → List ℕ → List ℕ → MohuError
    dtype_mismatch : Message → Message → MohuError
    invalid_cast : Message → Message → Message → MohuError
    overflow : Message → Message → MohuError
    underflow : Message → Message → MohuError
    unknown_dtype : Message → MohuError
    unsupported_dtype : Text → Text → MohuError
    ambiguous_promotion : Message → Message → MohuError
    index_out_of_bounds : ℕ → ℕ → ℕ → MohuError
    too_many_indices : ℕ → ℕ → MohuError
    zero_slice_step : MohuError
    slice_out_of_bounds : ℕ → ℕ → ℕ → ℕ → MohuError
    bool_index_shape_mismatch : List ℕ → List ℕ → MohuError
    fancy_index_out_of_bounds : ℕ → ℕ → ℕ → MohuError
    allocation_failed : ℕ → MohuError
    alignment_error : ℕ → ℕ → MohuError
    buffer_too_small : ℕ → ℕ → MohuError
    invalid_stride : ℕ → ℕ → ℕ → MohuError
    overlapping_strides : List ℕ → List ℕ → ℕ → MohuError
    non_contiguous : MohuError
    read_only : MohuError
    cannot_resize_shared : MohuError
    offset_overflow : List ℕ → List ℕ → List ℕ → MohuError
    singular_matrix : MohuError
    non_convergence : ℕ → ℕ → ℕ → MohuError
    domain_error : Text → Message → MohuError
    division_by_zero : MohuError
    matrix_dimension_mismatch : Text → ℕ → ℕ → ℕ → ℕ → MohuError
    eigen_decomposition_failed : Text → MohuError
    not_positive_definite : MohuError
    qr_rank_deficient : ℕ → ℕ → MohuError
    svd_non_convergence : ℕ → MohuError
    unsupported_norm_order : Message → ℕ → MohuError
    io : Message → MohuError
    invalid_magic : Text → List ℕ → List ℕ → MohuError
    unsupported_version : Text → ℕ → ℕ → ℕ → ℕ → MohuError
    corrupt_data : Text → Message → MohuError
    unexpected_eof : Text → ℕ → MohuError
    unsupported_codec : Text → Message → Message → MohuError
    npy_header_error : Message → MohuError
    npz_entry_not_found : Message → MohuError
    csv_parse_error : ℕ → ℕ → Message → MohuError
    dlpack_unsupported_device : ℕ → MohuError
    dlpack_version_mismatch : ℕ → ℕ → ℕ → MohuError
    dlpack_null_pointer : MohuError
    dlpack_unsupported_dtype : ℕ → ℕ → ℕ → MohuError
    dlpack_invalid : Message → MohuError
    arrow_schema : Message → MohuError
    arrow_ipc : Message → MohuError
    arrow_unsupported_type : Message → MohuError
    arrow_validity_error : ℕ → Message → MohuError
    python_type : Text → Message → MohuError
    python_value : Message → MohuError
    python_buffer : Message → MohuError
    python_no_buffer : MohuError
    python_unsupported_buffer_format : Text → MohuError
    context : Message → MohuError → MohuError
    not_implemented : Text → MohuError
    internal : Message → MohuError
    multiple : MultiError → MohuError

  pub data MultiError : Type 0 where
    nothing : MultiError
    error_then : MohuError → MultiError → MultiError

-- `panic` is the outcome of a call that Rust ends by a panic: a division by zero or an index out of
-- range.
pub data MohuResult {ℓ} (A : Type ℓ) : Type ℓ where
  ok : A → MohuResult A
  err : MohuError → MohuResult A
  panic : MohuResult A

-- `?`: the continuation runs on the value; an error and a panic end the chain.
infixl 5 ◌>>=◌ ◌>>◌
abbrev pub ◌>>=◌ {ℓ κ} :
    {A : Type ℓ} {B : Type κ} → MohuResult A → (A → MohuResult B) → MohuResult B
panic >>= next = panic
err cause >>= next = err cause
ok value >>= next = next value

abbrev pub ◌>>◌ {ℓ} : {B : Type ℓ} → MohuResult (Unit {0}) → MohuResult B → MohuResult B
ok done >> after = after
err cause >> after = err cause
panic >> after = panic

-- Early return, `if bad { return Err(cause) }`, on the condition under which the code goes on.
abbrev pub guard : Bool → MohuError → MohuResult (Unit {0})
guard good cause = if good then ok tt else err cause

-- A chain that succeeds, taken apart at its first call.
pub >>=-ok {ℓ κ} :
    {A : Type ℓ} {B : Type κ} (first : MohuResult A) (next : A → MohuResult B) {out : B}
    → (first >>= next) ≡ ok out
    → (value : A) × (first ≡ ok value) × (next value ≡ ok out)
>>=-ok panic next chain = cc
>>=-ok (err cause) next chain = cc
>>=-ok (ok value) next chain = (value, refl, chain)

pub ok-injective {ℓ} : {A : Type ℓ} {a b : A} → ok a ≡ ok b → a ≡ b
ok-injective h = cc

pub err_not_ok : {A : Type 0} {e : MohuError} {a : A} → ¬ (err e ≡ ok a)
err_not_ok h = cc

pub panic_not_ok : {A : Type 0} {a : A} → ¬ (panic ≡ ok a)
panic_not_ok h = cc

pub >>-ok {ℓ} :
    {B : Type ℓ} (first : MohuResult (Unit {0})) (next : MohuResult B) {out : B}
    → (first >> next) ≡ ok out
    → (first ≡ ok tt) × (next ≡ ok out)
>>-ok (ok done) next chain = (refl, chain)
>>-ok (err cause) next chain = cc
>>-ok panic next chain = cc
