-- ===== src/Numeric/Counts.antt =====
-- crates/mohu-buffer/src/buffer.rs: `any`, `all` and `count_nonzero` against the number of the elements that are not zero.
use mohu_fork_nirman.Base.{
  ℕ, suc, ◌≤◌, ◌≡◌, inl, inr, refl, ap, ◌∙◌, sym, Bool, true, false, not, ◌&&◌, ◌||◌, ◌-◌, ◌%◌, ◌^◌,
  ap₂, some, take, drop, if◌then◌else◌, Bool-cases, Option, List, [], ◌∷◌, ltb, ◌==◌, length, arith,
  ne→==, ==_iff, ℕ_discrete,
}
use mohu_fork_nirman.Errors.{ok}
use mohu_fork_nirman.DType.{DType, bool, f16, bf16, f32, f64, c64, c128, is_bool, is_complex}
use mohu_fork_nirman.Ops.Indexed.{from_le_bytes}
use mohu_fork_nirman.Numeric.Truth.{
  float_ne_zero, re, im, cast_ne_zero, do_any, do_all, do_cnz, any_test, all_test, count_test,
}
use mohu_fork_nirman.Layout.{size, is_c_contiguous}
use mohu_fork_nirman.Buffer.{Memory, Buffer}
use mohu_fork_nirman.Buffer.Create.{to_vec}
use mohu_fork_nirman.Ops.Contents.{length-to_vec}
use mohu_fork_nirman.Ops.Reduce.Arg.{contiguous_values-to_vec}
use mohu_fork_nirman.Numeric.{any_of, all_of, count_of, any, all, count_nonzero}

count_of-below : (p : List ℕ → Bool) (vs : List (List ℕ)) → count_of p vs ≤ length vs
count_of-below p [] = omega arith
count_of-below p (v ∷ vs) = elim (Bool-cases (p v)) [
  | inl e ↦ rw e (omega (arith, count_of-below p vs))
  | inr e ↦ rw e (omega (arith, count_of-below p vs))
]

any_of-count_of : (p : List ℕ → Bool) (vs : List (List ℕ)) → any_of p vs ≡ ltb 0 (count_of p vs)
any_of-count_of p [] = refl
any_of-count_of p (v ∷ vs) = elim (Bool-cases (p v)) [
  | inl e ↦ rw e (ground arith)
  | inr e ↦ rw e (any_of-count_of p vs)
]

suc_==_suc : (a b : ℕ) → (a == b) ≡ (suc a == suc b)
suc_==_suc a b = elim (ℕ_discrete a b) [
  | yes e ↦ (==_iff a b).1 e ∙ sym ((==_iff (suc a) (suc b)).1 (ap suc e))
  | no d ↦ ne→== a b d ∙ sym (ne→== (suc a) (suc b) (omega arith))
]

all_of-count_of :
    (p : List ℕ → Bool) (vs : List (List ℕ)) → all_of p vs ≡ (count_of p vs == length vs)
all_of-count_of p [] = refl
all_of-count_of p (v ∷ vs) = elim (Bool-cases (p v)) [
  | inl e ↦ rw e (all_of-count_of p vs ∙ suc_==_suc (count_of p vs) (length vs))
  | inr e ↦
      rw e (sym (ne→== (count_of p vs) (suc (length vs)) (omega (arith, count_of-below p vs))))
]

-- Whether the value that the bytes of an element stand for is zero: an integer with no bit set, a float with no bit
-- but the sign set, or a complex number with two such parts.
abbrev pub float_is_zero : ℕ → ℕ → Bool
float_is_zero width bits = bits % 2 ^ (width - 1) == 0

unfoldable pub is_zero : DType → List ℕ → Bool
is_zero f16 v = float_is_zero 16 (from_le_bytes v)
is_zero bf16 v = float_is_zero 16 (from_le_bytes v)
is_zero f32 v = float_is_zero 32 (from_le_bytes v)
is_zero f64 v = float_is_zero 64 (from_le_bytes v)
is_zero c64 v =
    float_is_zero 32 (from_le_bytes (take 4 v))
    && float_is_zero 32 (from_le_bytes (take 4 (drop 4 v)))
is_zero c128 v =
    float_is_zero 64 (from_le_bytes (take 8 v))
    && float_is_zero 64 (from_le_bytes (take 8 (drop 8 v)))
is_zero _ v = from_le_bytes v == 0

-- A cast to `f64` that succeeds for each integer and each real float, and gives zero for zero only.
abbrev pub KeepsZero : (DType → List ℕ → Option ℕ) → Type 0
KeepsZero cast_f64 =
    (t : DType) (v : List ℕ)
    → is_bool t ≡ false
    → is_complex t ≡ false
    → (bits : ℕ) × (cast_f64 t v ≡ some bits) × (float_is_zero 64 bits ≡ is_zero t v)

-- The elements that are not zero.
unfoldable pub nonzeros : DType → List (List ℕ) → ℕ
nonzeros t [] = 0
nonzeros t (v ∷ vs) = if is_zero t v then nonzeros t vs else suc (nonzeros t vs)

count_of-nonzeros :
    (t : DType) (vs : List (List ℕ)) → count_of (λ v. not (is_zero t v)) vs ≡ nonzeros t vs
unfolding nonzeros
count_of-nonzeros t [] = refl
count_of-nonzeros t (v ∷ vs) = elim (Bool-cases (is_zero t v)) [
  | inl e ↦ rw e (count_of-nonzeros t vs)
  | inr e ↦ rw e (ap suc (count_of-nonzeros t vs))
]

cast_ne_zero-not :
    (cast_f64 : DType → List ℕ → Option ℕ) (t : DType) (v : List ℕ)
    → KeepsZero cast_f64
    → is_bool t ≡ false
    → is_complex t ≡ false
    → cast_ne_zero (cast_f64 t v) ≡ not (is_zero t v)
unfolding cast_ne_zero float_ne_zero
cast_ne_zero-not cast_f64 t v keeps real simple =
    let (bits, some_bits, same) = keeps t v real simple in rw some_bits (ap not same)

or_not : (a b : Bool) → (not a || not b) ≡ not (a && b)
or_not true b = refl
or_not false b = refl

any_test-is_zero :
    (cast_f64 : DType → List ℕ → Option ℕ) (t : DType) (v : List ℕ)
    → KeepsZero cast_f64
    → any_test cast_f64 t v ≡ not (is_zero t v)
unfolding any_test do_any float_ne_zero re im is_bool is_complex is_zero
any_test-is_zero cast_f64 bool v keeps = refl
any_test-is_zero cast_f64 c64 v keeps = or_not _ _
any_test-is_zero cast_f64 c128 v keeps = or_not _ _
any_test-is_zero cast_f64 t v keeps = cast_ne_zero-not cast_f64 t v keeps refl refl

all_test-is_zero :
    (cast_f64 : DType → List ℕ → Option ℕ) (t : DType) (v : List ℕ)
    → KeepsZero cast_f64
    → all_test cast_f64 t v ≡ not (is_zero t v)
unfolding all_test do_all float_ne_zero re im is_bool is_complex is_zero
all_test-is_zero cast_f64 bool v keeps = refl
all_test-is_zero cast_f64 c64 v keeps = or_not _ _
all_test-is_zero cast_f64 c128 v keeps = or_not _ _
all_test-is_zero cast_f64 t v keeps = cast_ne_zero-not cast_f64 t v keeps refl refl

count_test-is_zero :
    (cast_f64 : DType → List ℕ → Option ℕ) (t : DType) (v : List ℕ)
    → KeepsZero cast_f64
    → count_test cast_f64 t v ≡ not (is_zero t v)
unfolding count_test do_cnz float_ne_zero re im is_bool is_complex is_zero
count_test-is_zero cast_f64 bool v keeps = refl
count_test-is_zero cast_f64 c64 v keeps = or_not _ _
count_test-is_zero cast_f64 c128 v keeps = or_not _ _
count_test-is_zero cast_f64 t v keeps = cast_ne_zero-not cast_f64 t v keeps refl refl

-- Where `num_traits::cast` gives an `f64` for each integer and real float, and zero for zero only: on
-- a contiguous buffer that can be read as its dtype, whichever of the 15 it is, `count_nonzero` counts
-- the elements whose value is not zero (a negative zero is zero; a NaN is not, nor is a complex number
-- with a part that is not), which are at most as many as the elements; `any` is whether there is one,
-- `all` whether they are all, and none of the three changes the memory.
pub counts_agree :
    (system : Option ℕ) (fresh : ℕ → ℕ) (cast_f64 : DType → List ℕ → Option ℕ) (mem : Memory)
    (buf : Buffer) (vs : List (List ℕ))
    → KeepsZero cast_f64
    → is_c_contiguous buf.layout ≡ true
    → to_vec mem buf.dtype buf ≡ ok vs
    → let n = nonzeros buf.dtype vs in
      (n ≤ size buf.layout)
      × (count_nonzero system fresh cast_f64 mem buf ≡ (ok n, mem))
      × (any system fresh cast_f64 mem buf ≡ (ok (ltb 0 n), mem))
      × (all system fresh cast_f64 mem buf ≡ (ok (n == size buf.layout), mem))
unfolding count_nonzero any all
counts_agree system fresh cast_f64 mem buf vs keeps whole held =
    let t = buf.dtype in
    let q : List ℕ → Bool = λ v. not (is_zero t v) in
    let values = contiguous_values-to_vec system fresh mem buf vs whole held in
    let long = length-to_vec mem t buf vs whole held in
    let number = count_of-nonzeros t vs in
    (
      omega (arith, long, number, count_of-below q vs),
      rw values (
          ap (λ (p : List ℕ → Bool). (ok (count_of p vs), mem))
            (λ i v. count_test-is_zero cast_f64 t v keeps i)
          ∙ ap (λ n. (ok n, mem)) number),
      rw values (
          ap (λ (p : List ℕ → Bool). (ok (any_of p vs), mem))
            (λ i v. any_test-is_zero cast_f64 t v keeps i)
          ∙ ap (λ b. (ok b, mem)) (any_of-count_of q vs ∙ ap (λ n. ltb 0 n) number)),
      rw values (
          ap (λ (p : List ℕ → Bool). (ok (all_of p vs), mem))
            (λ i v. all_test-is_zero cast_f64 t v keeps i)
          ∙ ap (λ b. (ok b, mem)) (all_of-count_of q vs ∙ ap₂ (λ a b. a == b) number long)),
    )
