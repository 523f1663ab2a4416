-- ===== src/Ops/Fill.antt =====
-- crates/mohu-buffer/src/ops.rs: fills, and the arithmetic sequence.
pub mod Sequence
use mohu_fork_nirman.Base.{
  ℕ, zero, suc, ◌+◌, Option, none, some, List, [], ◌∷◌, map, replicate, if◌then◌else◌,
}
use mohu_fork_nirman.Base.Words.{mul_word}
use mohu_fork_nirman.Errors.{MohuResult, ok, ◌>>◌}
use mohu_fork_nirman.DType.{DType}
use mohu_fork_nirman.DType.Scalar.{Scalar}
use mohu_fork_nirman.Layout.{size, is_c_contiguous}
use mohu_fork_nirman.Strides.Iter.{StridedByteIter, new_bytes, next_byte}
use mohu_fork_nirman.Buffer.{Memory, Buffer, then_do}
use mohu_fork_nirman.Buffer.Copy.{write, make_unique}
use mohu_fork_nirman.Buffer.Access.{check_dtype, write_value}
use mohu_fork_nirman.Buffer.Create.{fill_elements, fill_raw}
use mohu_fork_nirman.Ops.{store}
use mohu_fork_nirman.Ops.Checks.{check_write}

-- What the fills share: the check that they may write, and unique access.
unfoldable pub with_unique :
    Option ℕ
    → (ℕ → ℕ)
    → MohuResult (Unit {0})
    → (Buffer × Memory → MohuResult (Unit {0}) × (Buffer × Memory))
    → Buffer × Memory
    → MohuResult (Unit {0}) × (Buffer × Memory)
with_unique system fresh checks next s =
    then_do (checks, s) (λ done s. then_do (make_unique system fresh s) (λ done s. next s))

-- `fill` at the scalar type with dtype `t`.
unfoldable pub fill :
    Option ℕ
    → (ℕ → ℕ)
    → DType
    → List ℕ
    → Buffer × Memory
    → MohuResult (Unit {0}) × (Buffer × Memory)
fill system fresh t value buf =
    with_unique system fresh (check_dtype t buf.0 >> check_write buf.0)
      (λ s. let (r, mem) = fill_elements s.0 s.1 value in (r, (s.0, mem))) buf

unfoldable pub fill_zero :
    Option ℕ → (ℕ → ℕ) → Buffer × Memory → MohuResult (Unit {0}) × (Buffer × Memory)
fill_zero system fresh buf =
    with_unique system fresh (check_write buf.0)
      (λ s.
        let layout = s.0.layout in
        if is_c_contiguous layout
        then write_value (replicate (mul_word (size layout) layout.itemsize) 0) layout.offset s
        else fill_raw system fresh (replicate layout.itemsize 0) s)
      buf

-- `fill_one`; `one` has the bytes of the constant `ONE` of each scalar type, as `dtype_one_bytes` has.
unfoldable pub fill_one :
    Option ℕ
    → (ℕ → ℕ)
    → (DType → List ℕ)
    → Buffer × Memory
    → MohuResult (Unit {0}) × (Buffer × Memory)
fill_one system fresh one buf = fill system fresh buf.0.dtype (one buf.0.dtype) buf

module _ {A : Type 0} (add : A → A → A) (step : A) where
  -- The inner loop of `fill_sequential`.
  abbrev pub add_steps : ℕ → A → A
  add_steps zero acc = acc
  add_steps (suc i) acc = add_steps i (add acc step)

  -- The elements from the place `i` on, each computed by itself.
  abbrev pub sequence_from : ℕ → ℕ → A → List A
  sequence_from zero i start = []
  sequence_from (suc n) i start = add_steps i start ∷ sequence_from n (suc i) start

-- A walk over a buffer that is not contiguous, from the pointer `first`, that writes the value of each place.
unfoldable pub walk :
    ℕ → StridedByteIter → ℕ → Memory → ℕ → ℕ → (ℕ → List ℕ) → MohuResult (Unit {0}) × Memory
walk zero it i mem k first value = (ok tt, mem)
walk (suc fuel) it i mem k first value =
    let (item, it') = next_byte it in
    elim item [
      | none ↦ (ok tt, mem)
      | some off ↦
          then_do (write mem k (first + off) (value i))
            (λ done mem. walk fuel it' (suc i) mem k first value)
    ]

unfoldable pub fill_sequential :
    {A : Type 0}
    → Option ℕ
    → (ℕ → ℕ)
    → Scalar A
    → (A → A → A)
    → A
    → A
    → Buffer × Memory
    → MohuResult (Unit {0}) × (Buffer × Memory)
fill_sequential system fresh s add start step buf =
    with_unique system fresh (check_dtype s.dtype buf.0 >> check_write buf.0)
      (λ st.
        let layout = st.0.layout in
        if is_c_contiguous layout
        then store (map s.to_bytes (sequence_from add step (size layout) 0 start)) st
        else (let (r, mem) =
              walk (suc (size layout)) (new_bytes layout.shape layout.strides layout.offset) 0 st.1
                st.0.raw layout.offset (λ i. s.to_bytes (add_steps add step i start)) in
            (r, (st.0, mem))))
      buf
