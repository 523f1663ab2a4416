-- ===== src/Matrix.antt =====
-- crates/mohu-buffer/src/buffer.rs: buffers made with their elements: zeros, ones, rows, and the matrices with
-- something on a diagonal. `one` has the bytes of the constant `ONE` of each scalar type.
pub mod Views
mod Examples
use mohu_fork_nirman.Base.{
  ℕ, zero, suc, ◌+◌, ◌-◌, ◌*◌, ◌%◌, ◌^◌, min, Bool, not, ◌||◌, Option, List, [], ◌∷◌, ltb, ◌==◌,
  length, replicate, get_or, codes, if◌then◌else◌,
}
use mohu_fork_nirman.Base.Words.{usize_mod, add_word, sub_word, mul_word, is_negative}
use mohu_fork_nirman.Errors.{
  MohuResult, ok, err, panic, ◌>>=◌, ◌>>◌, internal, text, shape_mismatch,
}
use mohu_fork_nirman.DType.{DType, itemsize}
use mohu_fork_nirman.Layout.{size, ndim, new_c, byte_offset}
use mohu_fork_nirman.Buffer.{Memory, Buffer, c_order, then_do, raw_alloc, alloc_buffer, drop_raw}
use mohu_fork_nirman.Buffer.Copy.{
  is_writeable, read, write, to_contiguous, make_unique, copy_to_contiguous,
}
use mohu_fork_nirman.Buffer.Access.{check_dtype, set}
use mohu_fork_nirman.Buffer.Create.{concat, with_slice, filled}
use mohu_fork_nirman.Ops.Checks.{check_write}
use mohu_fork_nirman.Ops.Fill.{fill_one}

abbrev pub zero_bytes : ℕ → ℕ
zero_bytes i = 0

-- `Buffer::zeros`: the memory of `alloc_zeroed` holds zeros.
unfoldable pub zeros : Option ℕ → Memory → DType → List ℕ → MohuResult Buffer × Memory
zeros system mem dtype shape = alloc_buffer system zero_bytes mem dtype shape c_order

unfoldable pub ones :
    Option ℕ → (ℕ → ℕ) → (DType → List ℕ) → Memory → DType → List ℕ → MohuResult Buffer × Memory
ones system fresh one mem dtype shape =
    then_do (alloc_buffer system fresh mem dtype shape c_order)
      (λ buf mem. filled (fill_one system fresh one (buf, mem)))

-- The rows have `cols` values each.
unfoldable pub check_rows : ℕ → List (List (List ℕ)) → MohuResult (Unit {0})
check_rows cols [] = ok tt
check_rows cols (row ∷ rows) =
    if not (length row == cols)
    then err (shape_mismatch (cols ∷ []) (length row ∷ []))
    else check_rows cols rows

-- The rows go one after the other into the block, from `dst` on.
unfoldable pub write_rows :
    List (List (List ℕ)) → ℕ → ℕ → ℕ → Memory → MohuResult (Unit {0}) × Memory
write_rows [] item k dst mem = (ok tt, mem)
write_rows (row ∷ rows) item k dst mem =
    then_do (write mem k dst (concat row))
      (λ done mem. write_rows rows item k (dst + mul_word (length row) item) mem)

unfoldable pub from_slice_2d :
    Option ℕ → (ℕ → ℕ) → Memory → DType → List (List (List ℕ)) → MohuResult Buffer × Memory
from_slice_2d system fresh mem dtype [] = zeros system mem dtype (0 ∷ 0 ∷ [])
from_slice_2d system fresh mem dtype (row ∷ rows) =
    let cols = length row in
    let count = length (row ∷ rows) in
    let item = itemsize dtype in
    then_do (check_rows cols (row ∷ rows), mem)
      (λ done mem.
        then_do (raw_alloc system fresh mem (mul_word (mul_word count cols) item)) (λ k mem.
          then_do (write_rows (row ∷ rows) item k 0 mem)
            (λ done mem. with_slice dtype k (new_c (count ∷ cols ∷ []) item) mem)))

-- Where the diagonal `k`, the bit pattern of an `i64`, starts.
unfoldable pub diagonal_start : ℕ → ℕ × ℕ
diagonal_start k = if is_negative k then (sub_word 0 k, 0) else (0, k)

-- The loop along a diagonal of `out`, whose value number `i` comes from the memory.
unfoldable pub diagonal_loop :
    ℕ
    → ℕ
    → Memory
    → Buffer
    → ℕ × ℕ
    → (Memory → ℕ → MohuResult (List ℕ))
    → MohuResult (Unit {0}) × Memory
diagonal_loop zero i mem out start value = (ok tt, mem)
diagonal_loop (suc n) i mem out (row, col) value =
    then_do (value mem i, mem)
      (λ v mem.
        then_do (byte_offset out.layout (add_word row i ∷ add_word col i ∷ []), mem)
          (λ off mem.
            then_do (write mem out.raw (out.layout.offset + off) v)
              (λ done mem. diagonal_loop n (suc i) mem out (row, col) value)))

-- The new buffer is returned, or dropped where the loop fails.
unfoldable pub finished : Buffer → MohuResult (Unit {0}) × Memory → MohuResult Buffer × Memory
finished out (ok done, mem) = (ok out, mem)
finished out (err e, mem) = (err e, drop_raw mem out.raw)
finished out (panic, mem) = (panic, mem)

unfoldable pub eye :
    Option ℕ → (DType → List ℕ) → Memory → ℕ → ℕ → ℕ → DType → MohuResult Buffer × Memory
eye system one mem n m k dtype =
    let (row, col) = diagonal_start k in
    let diag_len = min (sub_word n row) (m - col) in
    then_do (zeros system mem dtype (n ∷ m ∷ [])) (λ out mem.
      if (n == 0) || (m == 0)
      then (ok out, mem)
      else finished out (diagonal_loop diag_len 0 mem out (row, col) (λ mem i. ok (one dtype))))

-- The element `i` of `v` is read at `i * itemsize` from its pointer, whatever its stride.
unfoldable pub diag : Option ℕ → Memory → Buffer → ℕ → MohuResult Buffer × Memory
diag system mem v k =
    let n = size v.layout in
    let item = itemsize v.dtype in
    let side = if is_negative k then add_word n (sub_word 0 k) else add_word n k in
    if not (ndim v.layout == 1)
    then (err (internal (text (codes "Buffer::diag: input must be 1-D"))), mem)
    else then_do (zeros system mem v.dtype (side ∷ side ∷ [])) (λ out mem. finished out (
        diagonal_loop n 0 mem out (diagonal_start k)
          (λ mem i. read (mem.raws v.raw) (v.layout.offset + i * item) item)))

-- `a < b` of two `i64`s.
unfoldable pub less_i64 : ℕ → ℕ → Bool
less_i64 a b = ltb ((a + 2 ^ 63) % usize_mod) ((b + 2 ^ 63) % usize_mod)

-- The inner loop of `tril` and `triu`, over the columns from `c` on.
unfoldable pub clear_row :
    ℕ → ℕ → ℕ → (ℕ → ℕ → Bool) → Buffer → Memory → MohuResult (Unit {0}) × Memory
clear_row zero r c clears out mem = (ok tt, mem)
clear_row (suc n) r c clears out mem =
    let rest = λ (m : Memory). clear_row n r (suc c) clears out m in
    if clears r c
    then then_do (byte_offset out.layout (r ∷ c ∷ []), mem)
        (λ off mem.
          then_do (write mem out.raw (out.layout.offset + off) (replicate (itemsize out.dtype) 0))
            (λ done mem. rest mem))
    else rest mem

unfoldable pub clear_rows :
    ℕ → ℕ → ℕ → (ℕ → ℕ → Bool) → Buffer → Memory → MohuResult (Unit {0}) × Memory
clear_rows zero cols r clears out mem = (ok tt, mem)
clear_rows (suc n) cols r clears out mem =
    then_do (clear_row cols r 0 clears out mem)
      (λ done mem. clear_rows n cols (suc r) clears out mem)

unfoldable pub triangle :
    Option ℕ → (ℕ → ℕ) → Memory → Buffer → List ℕ → (ℕ → ℕ → Bool) → MohuResult Buffer × Memory
triangle system fresh mem buf refused clears =
    if not (ndim buf.layout == 2)
    then (err (internal (text refused)), mem)
    else then_do (to_contiguous system fresh mem buf) (λ out mem.
      finished out
        (clear_rows (get_or out.layout.shape 0 0) (get_or out.layout.shape 1 0) 0 clears out mem))

unfoldable pub tril : Option ℕ → (ℕ → ℕ) → Memory → Buffer → ℕ → MohuResult Buffer × Memory
tril system fresh mem buf k =
    triangle system fresh mem buf (codes "tril: requires exactly 2 dimensions")
      (λ r c. less_i64 (add_word r k) c)

unfoldable pub triu : Option ℕ → (ℕ → ℕ) → Memory → Buffer → ℕ → MohuResult Buffer × Memory
triu system fresh mem buf k =
    triangle system fresh mem buf (codes "triu: requires exactly 2 dimensions")
      (λ r c. less_i64 c (add_word r k))

unfoldable pub copy_from :
    Option ℕ → (ℕ → ℕ) → Buffer → Buffer × Memory → MohuResult (Unit {0}) × (Buffer × Memory)
copy_from system fresh src buf = copy_to_contiguous system fresh src buf

unfoldable pub set_loop :
    ℕ
    → ℕ
    → Option ℕ
    → (ℕ → ℕ)
    → DType
    → List ℕ
    → Buffer × Memory
    → MohuResult (Unit {0}) × (Buffer × Memory)
set_loop zero i system fresh t value s = (ok tt, s)
set_loop (suc n) i system fresh t value s =
    then_do (set system fresh t (i ∷ i ∷ []) value s)
      (λ done s. set_loop n (suc i) system fresh t value s)

unfoldable pub fill_diagonal :
    Option ℕ
    → (ℕ → ℕ)
    → DType
    → List ℕ
    → Buffer × Memory
    → MohuResult (Unit {0}) × (Buffer × Memory)
fill_diagonal system fresh t value s =
    let checks =
      (if not (ndim s.0.layout == 2)
        then err (internal (text (codes "fill_diagonal: requires exactly 2 dimensions")))
        else ok tt)
      >> check_dtype t s.0
      >> check_write s.0 in
    then_do (checks, s)
      (λ done s. then_do (make_unique system fresh s) (λ done s.
        let shape = s.0.layout.shape in
        set_loop (min (get_or shape 0 0) (get_or shape 1 0)) 0 system fresh t value s))
