-- ===== src/Ops/Reduce.antt =====
-- crates/mohu-buffer/src/ops.rs: reductions. How rayon splits a slice is a parameter.

pub mod Fold
pub mod First
pub mod Arg
use Prim.Native.String.{String}
use mohu_fork_nirman.Base.{
  ℕ, suc, min, max, leb, Bool, length, true, false, Option, none, some, List, [], ◌∷◌, map, drop,
  take, codes, ◌==◌, if◌then◌else◌, not,
}
use mohu_fork_nirman.Errors.{MohuResult, ok, err, panic, ◌>>=◌, ◌>>◌, unsupported_dtype}
use mohu_fork_nirman.DType.{DType, is_bool, c64, c128, itemsize}
use mohu_fork_nirman.DType.Scalar.{Scalar}
use mohu_fork_nirman.Names.{numpy_str}
use mohu_fork_nirman.Layout.{size, is_empty, is_c_contiguous}
use mohu_fork_nirman.Buffer.{Memory, Buffer, then_do, drop_raw}
use mohu_fork_nirman.Buffer.Copy.{to_contiguous}
use mohu_fork_nirman.Buffer.Access.{check_dtype}
use mohu_fork_nirman.Ops.{load_bytes, load}
use mohu_fork_nirman.Ops.Checks.{check_contiguous}
use mohu_fork_nirman.Ops.Indexed.{from_le_bytes}
use mohu_fork_nirman.Ops.Scan.{total}

-- A piece of a slice is reduced in one go, or split in two after some of its elements.
pub data Split : Type 0 where
  piece : Split
  split_at : ℕ → Split → Split → Split

module _ {R : Type 0} (combine : R → R → R) where
  -- `reduce` of a parallel iterator: each piece starts from the identity.
  abbrev pub reduce_split : Split → R → List R → R
  reduce_split piece identity xs = total combine identity xs
  reduce_split (split_at n l r) identity xs =
      combine (reduce_split l identity (take n xs)) (reduce_split r identity (drop n xs))

  abbrev pub combine_some : Option R → Option R → Option R
  combine_some none b = b
  combine_some (some a) none = some a
  combine_some (some a) (some b) = some (combine a b)

-- `reduce_with`
abbrev pub reduce_with : {R : Type 0} → (R → R → R) → Split → List R → Option R
reduce_with combine split xs = reduce_split (combine_some combine) split none (map some xs)

unfoldable pub reduce :
    {A R : Type 0} → Split → Scalar A → R → (A → R) → (R → R → R) → Memory → Buffer → MohuResult R
reduce split s init map_fn combine mem buf =
    (check_dtype s.dtype buf >> check_contiguous buf) >>= λ done.
    load s mem buf (size buf.layout) >>= λ xs. ok (reduce_split combine split init (map map_fn xs))

-- The values of a buffer, of a copy where it is not contiguous.
unfoldable pub contiguous_values :
    Option ℕ → (ℕ → ℕ) → Memory → Buffer → MohuResult (List (List ℕ)) × Memory
contiguous_values system fresh mem buf =
    let item = itemsize buf.dtype in
    if is_c_contiguous buf.layout
    then (load_bytes mem buf item (size buf.layout), mem)
    else then_do (to_contiguous system fresh mem buf)
        (λ c mem. (load_bytes mem c item (size c.layout), drop_raw mem c.raw))

unfoldable pub check_real : String → Buffer → MohuResult (Unit {0})
check_real op buf =
    let refused = err (unsupported_dtype (codes op) (numpy_str buf.dtype)) in
    elim buf.dtype [ c64 ↦ refused | c128 ↦ refused | t ↦ ok tt ]

-- `f64`, with the casts of the other scalar types to it, and their order.
pub record Double (F : Type 0) : Type 0 where
  pub zero_value : F
  pub nan : F
  pub infinity : F
  pub neg_infinity : F
  pub add : F → F → F
  pub of_byte : ℕ → F
  pub cast : DType → List ℕ → Option F
  pub le : DType → List ℕ → List ℕ → Bool

abbrev pub unwrap_or : {A : Type 0} → Option A → A → A
unwrap_or none d = d
unwrap_or (some a) d = a

unfoldable pub sum_all_f64 :
    {F : Type 0} → Option ℕ → (ℕ → ℕ) → Split → Double F → Memory → Buffer → MohuResult F × Memory
sum_all_f64 system fresh split d mem buf =
    let value = λ (v : List ℕ).
      if is_bool buf.dtype
      then d.of_byte (from_le_bytes v)
      else unwrap_or (d.cast buf.dtype v) d.zero_value in
    then_do (check_real "sum_all_f64" buf, mem)
      (λ done mem.
        then_do (contiguous_values system fresh mem buf)
          (λ vs mem. (ok (reduce_split d.add split d.zero_value (map value vs)), mem)))

-- `if av <= bv { a } else { b }`, and the match of `min_all_f64`.
abbrev pub lesser : {A : Type 0} → (A → A → Bool) → A → A → A
lesser le a b = if le a b then a else b

abbrev pub greater : {A : Type 0} → (A → A → Bool) → A → A → A
greater le a b = if le b a then a else b

-- What the minima and maxima share: an answer for a buffer without elements, and else one from its values.
unfoldable pub over_values :
    {B : Type 0}
    → Option ℕ
    → (ℕ → ℕ)
    → String
    → B
    → (List (List ℕ) → MohuResult B)
    → Memory
    → Buffer
    → MohuResult B × Memory
over_values system fresh op empty answer mem buf =
    then_do (check_real op buf, mem)
      (λ done mem.
        if is_empty buf.layout
        then (ok empty, mem)
        else then_do (contiguous_values system fresh mem buf) (λ vs mem. (answer vs, mem)))

-- The end of the minima and maxima of a type but `bool`, whose fallback is the first element.
abbrev pub cast_or_nan : {F : Type 0} → Double F → DType → Option (List ℕ) → MohuResult F
cast_or_nan d t none = panic
cast_or_nan d t (some m) = ok (unwrap_or (d.cast t m) d.nan)

unfoldable pub min_all_f64 :
    {F : Type 0} → Option ℕ → (ℕ → ℕ) → Split → Double F → Memory → Buffer → MohuResult F × Memory
min_all_f64 system fresh split d mem buf =
    over_values system fresh "min_all_f64" d.infinity
      (λ vs.
        if is_bool buf.dtype
        then ok (d.of_byte (unwrap_or (reduce_with min split (map from_le_bytes vs)) 0))
        else cast_or_nan d buf.dtype (reduce_with (lesser (d.le buf.dtype)) split vs))
      mem buf

unfoldable pub max_all_f64 :
    {F : Type 0} → Option ℕ → (ℕ → ℕ) → Split → Double F → Memory → Buffer → MohuResult F × Memory
max_all_f64 system fresh split d mem buf =
    over_values system fresh "max_all_f64" d.neg_infinity
      (λ vs.
        if is_bool buf.dtype
        then ok (d.of_byte (unwrap_or (reduce_with max split (map from_le_bytes vs)) 0))
        else cast_or_nan d buf.dtype (reduce_with (greater (d.le buf.dtype)) split vs))
      mem buf

abbrev pub enumerate : {A : Type 0} → List A → ℕ → List (ℕ × A)
enumerate [] i = []
enumerate (x ∷ xs) i = (i, x) ∷ enumerate xs (suc i)

abbrev pub lesser_at : {A : Type 0} → (A → A → Bool) → ℕ × A → ℕ × A → ℕ × A
lesser_at le (i, a) (j, b) = if le a b then (i, a) else (j, b)

abbrev pub greater_at : {A : Type 0} → (A → A → Bool) → ℕ × A → ℕ × A → ℕ × A
greater_at le (i, a) (j, b) = if le b a then (i, a) else (j, b)

-- `Iterator::max_by_key` of the standard library gives the last of several maxima.
abbrev pub last_greater_at : {A : Type 0} → (A → A → Bool) → ℕ × A → ℕ × A → ℕ × A
last_greater_at le (i, a) (j, b) = if le a b then (j, b) else (i, a)

abbrev pub index_or_0 : {A : Type 0} → Option (ℕ × A) → ℕ
index_or_0 none = 0
index_or_0 (some (i, a)) = i

-- On `bool` the iterators are the standard library's, from the left to the right.
unfoldable pub argmin_flat :
    Option ℕ
    → (ℕ → ℕ)
    → Split
    → (DType → List ℕ → List ℕ → Bool)
    → Memory
    → Buffer
    → MohuResult ℕ × Memory
argmin_flat system fresh split le mem buf =
    over_values system fresh "argmin_flat" 0
      (λ vs.
        if is_bool buf.dtype
        then ok
            (index_or_0 (reduce_with (lesser_at leb) piece (enumerate (map from_le_bytes vs) 0)))
        else ok (index_or_0 (reduce_with (lesser_at (le buf.dtype)) split (enumerate vs 0))))
      mem buf

unfoldable pub argmax_flat :
    Option ℕ
    → (ℕ → ℕ)
    → Split
    → (DType → List ℕ → List ℕ → Bool)
    → Memory
    → Buffer
    → MohuResult ℕ × Memory
argmax_flat system fresh split le mem buf =
    over_values system fresh "argmax_flat" 0
      (λ vs.
        if is_bool buf.dtype
        then ok (
            index_or_0
              (reduce_with (last_greater_at leb) piece (enumerate (map from_le_bytes vs) 0)))
        else ok (index_or_0 (reduce_with (greater_at (le buf.dtype)) split (enumerate vs 0))))
      mem buf
