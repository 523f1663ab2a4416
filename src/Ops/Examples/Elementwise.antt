-- ===== src/Ops/Examples/Elementwise.antt =====
-- crates/mohu-buffer/src/ops.rs: runs of the theorems on element-wise operations, fills and casts.
use mohu_fork_nirman.Base.{ℕ, ◌≡◌, ◌≢◌, refl, true, false, none, [], ◌∷◌, text_eq, arith}
use mohu_fork_nirman.Errors.{ok}
use mohu_fork_nirman.DType.{bool, u8, itemsize}
use mohu_fork_nirman.DType.Code.{dtype_eq}
use mohu_fork_nirman.Layout.{size, is_c_contiguous, is_empty, ndim}
use mohu_fork_nirman.Buffer.{Memory}
use mohu_fork_nirman.Buffer.Copy.{is_writeable}
use mohu_fork_nirman.Buffer.Create.{to_vec}
use mohu_fork_nirman.Strides.{c_strides}
use mohu_fork_nirman.Strides.Iter.{wrapping_product}
use mohu_fork_nirman.Buffer.Copy.{set_unique}
use mohu_fork_nirman.Ops.Contents.{Holds}
use mohu_fork_nirman.DType.Code.{as_u8}
use mohu_fork_nirman.Promote.{safe, can_cast, table_index}
use mohu_fork_nirman.Ops.Cast.{cast_copy}
use mohu_fork_nirman.Ops.Cast.Branches.{cast_copy-permitted}
use mohu_fork_nirman.Ops.Fill.{fill_sequential}
use mohu_fork_nirman.Ops.Fill.Sequence.{running, fill_sequential-Holds}
use mohu_fork_nirman.Ops.Stored.{Owned}
use mohu_fork_nirman.Ops.Examples.{xor, truth, memory, vector, whole, sole_1, held_0}

fill_sequential-Holds_example :
    (mem' : Memory) × (fill_sequential none (λ i. 0) truth xor false true (vector 1, memory)
      ≡ (ok tt, (set_unique (vector 1), mem')))
    × Holds truth mem' (set_unique (vector 1)) (running xor true (size (vector 1).layout) false)
    × ((i : ℕ) → i ≢ 1 → mem'.raws i ≡ memory.raws i)
fill_sequential-Holds_example =
    fill_sequential-Holds none (λ i. 0) truth xor false true (vector 1) memory sole_1

other : dtype_eq bool u8 ≡ false
unfolding dtype_eq
other = refl

bytes_1 : Owned memory u8 (record (vector 1) { dtype = u8 })
unfolding dtype_eq is_writeable is_c_contiguous is_empty size itemsize ndim text_eq c_strides
    wrapping_product
bytes_1 = record { owner = refl; typed = refl; writeable = refl; whole = refl; room = omega arith }

permitted : can_cast bool u8 safe ≡ true
unfolding can_cast table_index as_u8
permitted = refl

refused : can_cast u8 bool safe ≡ false
unfolding can_cast table_index as_u8
refused = refl

one_byte : 1 ≡ itemsize u8
unfolding itemsize
one_byte = refl

cast_copy-permitted_example :
    (mem' : Memory) × (cast_copy none
        (λ i. 0)
        (λ from to v. 7 ∷ [])
        safe
        (vector 0)
        (record (vector 1) { dtype = u8 }, memory)
      ≡ (ok tt, (set_unique (record (vector 1) { dtype = u8 }), mem')))
    × (to_vec mem' u8 (set_unique (record (vector 1) { dtype = u8 }))
        ≡ ok ((7 ∷ []) ∷ (7 ∷ []) ∷ (7 ∷ []) ∷ []))
    × ((i : ℕ) → i ≢ 1 → mem'.raws i ≡ memory.raws i)
cast_copy-permitted_example =
    cast_copy-permitted none (λ i. 0) (λ from to v. 7 ∷ []) safe (vector 0)
      (record (vector 1) { dtype = u8 }) memory ((0 ∷ []) ∷ (1 ∷ []) ∷ (0 ∷ []) ∷ []) bytes_1 other
      permitted (whole 0) refl held_0 (λ v. one_byte)
