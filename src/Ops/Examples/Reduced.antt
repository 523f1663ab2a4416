-- ===== src/Ops/Examples/Reduced.antt =====
-- crates/mohu-buffer/src/ops.rs: runs of the theorems on scans and reductions.
use mohu_fork_nirman.Base.{
  ltb, ◌==◌, Option, some, Bool-cases, inl, inr, if◌then◌else◌, ◌≤◌, ℕ, ◌≡◌, ◌≢◌, refl, Bool, true,
  false, not, ◌||◌, none, List, [], ◌∷◌, text_eq, leb, arith,
}
use mohu_fork_nirman.Errors.{ok}
use mohu_fork_nirman.DType.{is_bool, DType, u8, c64, itemsize}
use mohu_fork_nirman.DType.Code.{dtype_eq}
use mohu_fork_nirman.Layout.{size, is_c_contiguous, is_empty, ndim}
use mohu_fork_nirman.Buffer.{Memory, Buffer}
use mohu_fork_nirman.Buffer.Copy.{is_writeable}
use mohu_fork_nirman.Buffer.Create.{to_vec, as_slice}
use mohu_fork_nirman.Buffer.Access.{check_dtype}
use mohu_fork_nirman.Strides.{c_strides}
use mohu_fork_nirman.Strides.Iter.{wrapping_product}
use mohu_fork_nirman.Buffer.Copy.{set_unique}
use mohu_fork_nirman.Ops.Contents.{Holds}
use mohu_fork_nirman.Ops.Scan.{parallel_scan}
use mohu_fork_nirman.Ops.Scan.Chunked.{parallel_scan-Holds}
use mohu_fork_nirman.Numeric.{any, all, count_nonzero}
use mohu_fork_nirman.Numeric.Counts.{is_zero, KeepsZero, nonzeros, counts_agree}
use mohu_fork_nirman.Ops.Reduce.First.{Preorder, FirstLeast}
use mohu_fork_nirman.Ops.Reduce.Arg.{argmin_flat-FirstLeast}
use mohu_fork_nirman.Ops.Reduce.{check_real, argmin_flat, piece, split_at, reduce}
use mohu_fork_nirman.Ops.Reduce.Fold.{reduce-total}
use mohu_fork_nirman.Ops.Indexed.{from_le_bytes}
use mohu_fork_nirman.Ops.Examples.{
  truth, index_bytes, memory, vector, whole, three, same, sole_1, held_0,
}

or_assoc : (a b c : Bool) → ((a || b) || c) ≡ (a || (b || c))
or_assoc true b c = refl
or_assoc false b c = refl

or_false : (a : Bool) → (a || false) ≡ a
or_false true = refl
or_false false = refl

parallel_scan-Holds_example :
    (mem' : Memory) × (parallel_scan none (λ i. 0) 8 truth false ◌||◌ (vector 0) (vector 1, memory)
      ≡ (ok tt, (set_unique (vector 1), mem')))
    × Holds truth mem' (set_unique (vector 1)) (false ∷ true ∷ true ∷ [])
    × ((i : ℕ) → i ≢ 1 → mem'.raws i ≡ memory.raws i)
parallel_scan-Holds_example =
    parallel_scan-Holds none (λ i. 0) 8 truth false ◌||◌ (vector 0) (vector 1) memory
      (false ∷ true ∷ false ∷ []) or_assoc (λ a. refl) (omega (arith, three 0)) sole_1 same
      (whole 0) refl held_0

reduce-total_example :
    reduce (split_at 2 (split_at 1 piece piece) piece) truth false not ◌||◌ memory (vector 0)
    ≡ ok true
reduce-total_example =
    reduce-total (split_at 2 (split_at 1 piece piece) piece) truth false not ◌||◌ memory (vector 0)
      (false ∷ true ∷ false ∷ []) or_assoc or_false same (whole 0) held_0

both : DType → List ℕ → List ℕ → Bool
both t a b = leb (from_le_bytes a) (from_le_bytes b)

abbrev small : Buffer
small = record (vector 0) { dtype = u8 }

small_real : check_real "argmin_flat" small ≡ ok tt
unfolding check_real
small_real = refl

small_other : is_bool u8 ≡ false
unfolding is_bool
small_other = refl

small_some : is_empty small.layout ≡ false
unfolding is_empty
small_some = refl

small_held : to_vec memory u8 small ≡ ok ((0 ∷ []) ∷ (1 ∷ []) ∷ (0 ∷ []) ∷ [])
unfolding to_vec as_slice check_dtype dtype_eq is_writeable is_c_contiguous is_empty size itemsize
    ndim text_eq c_strides wrapping_product
small_held = refl

both_order : Preorder (both u8)
unfolding both
both_order = record {
  le_trans = λ a b c h i. ground (arith, h, i);
  le_total = λ a b h. ground (arith, h);
}

argmin_flat-FirstLeast_example :
    (r : ℕ) × (argmin_flat none (λ i. 0) (split_at 1 piece piece) both memory small
      ≡ (ok r, memory))
    × FirstLeast (both u8) ((0 ∷ []) ∷ (1 ∷ []) ∷ (0 ∷ []) ∷ []) r
argmin_flat-FirstLeast_example =
    argmin_flat-FirstLeast none (λ i. 0) (split_at 1 piece piece) both memory small (0 ∷ [])
      ((1 ∷ []) ∷ (0 ∷ []) ∷ []) both_order small_real small_other small_some (whole 0) small_held

-- A cast to 1.0, or to 0.0 for zero.
abbrev to_one : DType → List ℕ → Option ℕ
to_one t v = some (if is_zero t v then 0 else 4607182418800017408)

to_one-KeepsZero : KeepsZero to_one
to_one-KeepsZero t v real simple = elim (Bool-cases (is_zero t v)) [
  | inl e ↦ (0, rw e refl, rw e refl)
  | inr e ↦ (4607182418800017408, rw e refl, rw e refl)
]

-- Three complex numbers, the first and the last with a real part that is not zero.
abbrev complex : Buffer
complex = record (vector 3) {
  dtype = c64;
  layout = record { shape = 3 ∷ []; strides = 8 ∷ []; offset = 0; itemsize = 8 };
}

complex_whole : is_c_contiguous complex.layout ≡ true
unfolding is_c_contiguous is_empty ndim text_eq c_strides
complex_whole = refl

complex_held : to_vec memory c64 complex ≡ ok index_bytes
unfolding to_vec as_slice check_dtype dtype_eq is_writeable is_c_contiguous is_empty size itemsize
    ndim text_eq c_strides wrapping_product
complex_held = refl

two_nonzeros : nonzeros c64 index_bytes ≡ 2
unfolding nonzeros is_zero
two_nonzeros = refl

counts_agree_example :
    let n = nonzeros c64 index_bytes in
    (n ≤ size complex.layout)
    × (count_nonzero none (λ i. 0) to_one memory complex ≡ (ok n, memory))
    × (any none (λ i. 0) to_one memory complex ≡ (ok (ltb 0 n), memory))
    × (all none (λ i. 0) to_one memory complex ≡ (ok (n == size complex.layout), memory))
counts_agree_example =
    counts_agree none (λ i. 0) to_one memory complex index_bytes to_one-KeepsZero complex_whole
      complex_held
