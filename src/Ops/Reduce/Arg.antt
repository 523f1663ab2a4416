-- ===== src/Ops/Reduce/Arg.antt =====
-- crates/mohu-buffer/src/ops.rs: `argmin_flat` and `argmax_flat` of a contiguous buffer.
use mohu_fork_nirman.Base.{ℕ, ◌≡◌, refl, ap, Bool, true, false, Option, List, ◌∷◌}
use mohu_fork_nirman.Errors.{ok}
use mohu_fork_nirman.DType.{DType}
use mohu_fork_nirman.Layout.{is_empty, is_c_contiguous}
use mohu_fork_nirman.Buffer.{Memory, Buffer}
use mohu_fork_nirman.Buffer.Create.{to_vec}
use mohu_fork_nirman.Ops.Contents.{load_bytes-to_vec}
use mohu_fork_nirman.Ops.Reduce.{
  Split, contiguous_values, check_real, over_values, is_bool, argmin_flat, argmax_flat,
}
use mohu_fork_nirman.Ops.Reduce.First.{Preorder, FirstLeast, reduce_with-FirstLeast}

pub contiguous_values-to_vec :
    (system : Option ℕ) (fresh : ℕ → ℕ) (mem : Memory) (buf : Buffer) (vs : List (List ℕ))
    → is_c_contiguous buf.layout ≡ true
    → to_vec mem buf.dtype buf ≡ ok vs
    → contiguous_values system fresh mem buf ≡ (ok vs, mem)
unfolding contiguous_values
contiguous_values-to_vec system fresh mem buf vs whole held =
    rw (whole, load_bytes-to_vec mem buf.dtype buf vs whole held) refl

-- `argmin_flat` of a contiguous buffer with values, neither complex nor `bool`, whose order is a total
-- preorder: whatever the split, the result is the place of the first least value, and the memory is
-- as before.
pub argmin_flat-FirstLeast :
    (system : Option ℕ) (fresh : ℕ → ℕ) (split : Split) (le : DType → List ℕ → List ℕ → Bool)
    (mem : Memory) (buf : Buffer) (v : List ℕ) (vs : List (List ℕ))
    → Preorder (le buf.dtype)
    → check_real "argmin_flat" buf ≡ ok tt
    → is_bool buf.dtype ≡ false
    → is_empty buf.layout ≡ false
    → is_c_contiguous buf.layout ≡ true
    → to_vec mem buf.dtype buf ≡ ok (v ∷ vs)
    → (r : ℕ) × (argmin_flat system fresh split le mem buf ≡ (ok r, mem))
      × FirstLeast (le buf.dtype) (v ∷ vs) r
unfolding argmin_flat over_values
argmin_flat-FirstLeast system fresh split le mem buf v vs order real other some_value whole held =
    let (r, found, first) = reduce_with-FirstLeast (le buf.dtype) split v vs order in
    (
      r,
      rw
          (
            real,
            some_value,
            contiguous_values-to_vec system fresh mem buf (v ∷ vs) whole held,
            other,
          )
          (ap (λ i. (ok i, mem)) found),
      first,
    )

-- `argmax_flat` of such a buffer: the result is the place of the first greatest value.
pub argmax_flat-FirstLeast :
    (system : Option ℕ) (fresh : ℕ → ℕ) (split : Split) (le : DType → List ℕ → List ℕ → Bool)
    (mem : Memory) (buf : Buffer) (v : List ℕ) (vs : List (List ℕ))
    → Preorder (le buf.dtype)
    → check_real "argmax_flat" buf ≡ ok tt
    → is_bool buf.dtype ≡ false
    → is_empty buf.layout ≡ false
    → is_c_contiguous buf.layout ≡ true
    → to_vec mem buf.dtype buf ≡ ok (v ∷ vs)
    → (r : ℕ) × (argmax_flat system fresh split le mem buf ≡ (ok r, mem))
      × FirstLeast (λ a b. le buf.dtype b a) (v ∷ vs) r
unfolding argmax_flat over_values
argmax_flat-FirstLeast system fresh split le mem buf v vs order real other some_value whole held =
    let ge = λ (a b : List ℕ). le buf.dtype b a in
    let turned : Preorder ge = record {
      le_trans = λ a b c h i. order.le_trans c b a i h;
      le_total = λ a b h. order.le_total b a h;
    } in
    let (r, found, first) = reduce_with-FirstLeast ge split v vs turned in
    (
      r,
      rw
          (
            real,
            some_value,
            contiguous_values-to_vec system fresh mem buf (v ∷ vs) whole held,
            other,
          )
          (ap (λ i. (ok i, mem)) found),
      first,
    )
