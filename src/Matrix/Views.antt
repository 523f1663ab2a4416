-- ===== src/Matrix/Views.antt =====
-- crates/mohu-buffer/src/buffer.rs: `diagonal`, `flip`, `sum_axis`, `PartialEq::eq`, and `flip_axis_copy` of ops.rs.
pub mod Flipped
use mohu_fork_nirman.Base.{
  ℕ, zero, suc, ◌+◌, ◌-◌, ◌*◌, min, Bool, true, false, not, ◌&&◌, ◌||◌, Option, none, some, List,
  [], ◌∷◌, ◌++◌, ltb, leb, ◌==◌, text_eq, take, drop, set, replicate, get_or, codes, if◌then◌else◌,
}
use mohu_fork_nirman.Base.Words.{add_word, sub_word, mul_word, is_negative}
use mohu_fork_nirman.Errors.{MohuResult, ok, err, panic, ◌>>=◌, ◌>>◌, internal, text, axis_outside}
use mohu_fork_nirman.DType.{DType, f64, itemsize}
use mohu_fork_nirman.DType.Code.{dtype_eq}
use mohu_fork_nirman.Strides.Iter.{NdIndexIter, new, next}
use mohu_fork_nirman.Layout.{
  Layout, size, ndim, nbytes, new_custom, byte_offset, insert_at, remove_at,
}
use mohu_fork_nirman.Buffer.{
  BufferFlags, Memory, Buffer, then_do, drop_raw, remove_flags, only_writeable, only_c_contiguous,
  only_f_contiguous,
}
use mohu_fork_nirman.Buffer.Copy.{read, write, copy_bytes, to_contiguous}
use mohu_fork_nirman.Buffer.Access.{check_dtype, view_as}
use mohu_fork_nirman.Ops.Checks.{check_shape, check_contiguous, check_write}
use mohu_fork_nirman.Ops.Fill.{with_unique}
use mohu_fork_nirman.Matrix.{zeros, finished, diagonal_start}

abbrev pub view_flags : BufferFlags → BufferFlags
view_flags f =
    remove_flags (remove_flags (remove_flags f only_writeable) only_c_contiguous) only_f_contiguous

unfoldable pub diagonal_layout : Layout → ℕ → MohuResult Layout
diagonal_layout l k =
    let nd = ndim l in
    let n = get_or l.shape (nd - 2) 0 in
    let m = get_or l.shape (nd - 1) 0 in
    let (row, col) = diagonal_start k in
    let diag_len = min (n - row) (m - col) in
    let stride = add_word (get_or l.strides (nd - 2) 0) (get_or l.strides (nd - 1) 0) in
    let start_idx = set (set (replicate nd 0) (nd - 2) row) (nd - 1) col in
    if ltb nd 2
    then err (internal (text (codes "diagonal: requires at least 2 dimensions")))
    else (byte_offset l start_idx >>= λ start_off.
        new_custom (take (nd - 2) l.shape ++ (diag_len ∷ []))
          (take (nd - 2) l.strides ++ (stride ∷ [])) start_off l.itemsize)

unfoldable pub diagonal : Memory → Buffer → ℕ → MohuResult Buffer × Memory
diagonal mem buf k = view_as mem buf (diagonal_layout buf.layout k) (λ layout. view_flags buf.flags)

unfoldable pub flip_layout : Layout → ℕ → MohuResult Layout
flip_layout l axis =
    let dim = get_or l.shape axis 0 in
    let stride = get_or l.strides axis 0 in
    let delta = if ltb 0 dim then mul_word (dim - 1) stride else 0 in
    let new_offset = add_word l.offset delta in
    if leb (ndim l) axis
    then err (internal (axis_outside (codes "flip") axis (ndim l)))
    else if is_negative new_offset
    then err (internal (text (codes "flip: computed offset is negative")))
    else new_custom l.shape (set l.strides axis (sub_word 0 stride)) new_offset l.itemsize

unfoldable pub flip : Memory → Buffer → ℕ → MohuResult Buffer × Memory
flip mem buf axis = view_as mem buf (flip_layout buf.layout axis) (λ layout. view_flags buf.flags)

-- The inner loop of `sum_axis`: the elements of the source along the axis, from number `k` on.
unfoldable pub sum_loop :
    {F : Type 0}
    → ℕ
    → ℕ
    → Memory
    → Buffer
    → (ℕ → List ℕ)
    → (DType → List ℕ → F)
    → (F → F → F)
    → F
    → MohuResult F
sum_loop zero k mem buf src_idx read_as_f64 add acc = ok acc
sum_loop (suc n) k mem buf src_idx read_as_f64 add acc =
    byte_offset buf.layout (src_idx k) >>= λ off.
    read (mem.raws buf.raw) (buf.layout.offset + off) (itemsize buf.dtype) >>= λ v.
    sum_loop n (suc k) mem buf src_idx read_as_f64 add (add acc (read_as_f64 buf.dtype v))

unfoldable pub sum_cells :
    ℕ
    → NdIndexIter
    → ℕ
    → Memory
    → Buffer
    → (Memory → List ℕ → MohuResult (List ℕ))
    → MohuResult (Unit {0}) × Memory
sum_cells zero it out_flat mem out cell = (ok tt, mem)
sum_cells (suc fuel) it out_flat mem out cell =
    let (item, it') = next it in
    elim item [
      | none ↦ (ok tt, mem)
      | some out_idx ↦
          then_do (cell mem out_idx, mem)
            (λ bytes mem.
              then_do (write mem out.raw (out.layout.offset + out_flat * 8) bytes)
                (λ done mem. sum_cells fuel it' (suc out_flat) mem out cell))
    ]

-- `sum_axis`, with the arithmetic of `f64` as parameters.
unfoldable pub sum_axis :
    {F : Type 0}
    → Option ℕ
    → F
    → (F → F → F)
    → (F → List ℕ)
    → (DType → List ℕ → F)
    → Memory
    → Buffer
    → ℕ
    → Bool
    → MohuResult Buffer × Memory
sum_axis system nought add to_bytes read_as_f64 mem buf axis keepdims =
    let shape = buf.layout.shape in
    let axis_size = get_or shape axis 0 in
    let out_shape = if keepdims then set shape axis 1 else remove_at axis shape in
    let source = λ (out_idx : List ℕ) (k : ℕ).
      if keepdims then set out_idx axis k else insert_at axis k out_idx in
    if leb (ndim buf.layout) axis
    then (err (internal (axis_outside (codes "sum_axis") axis (ndim buf.layout))), mem)
    else then_do (zeros system mem f64 out_shape) (λ out mem. finished out (
        sum_cells (suc (size out.layout)) (new out.layout.shape) 0 mem out (λ mem out_idx.
          sum_loop axis_size 0 mem buf (source out_idx) read_as_f64 add nought >>= λ acc.
          ok (to_bytes acc))))

-- The bytes of the two copies, which are then dropped.
unfoldable pub same_bytes : Memory → Buffer → Buffer → MohuResult Bool × Memory
same_bytes mem a b = (
  read (mem.raws a.raw) a.layout.offset (nbytes a.layout) >>= λ ab.
      read (mem.raws b.raw) b.layout.offset (nbytes b.layout) >>= λ bb. ok (text_eq ab bb),
  drop_raw (drop_raw mem b.raw) a.raw,
)

-- The first copy is dropped where the second one fails, which makes the comparison false.
unfoldable pub eq_second : Buffer → MohuResult Buffer × Memory → MohuResult Bool × Memory
eq_second a (ok b, mem) = same_bytes mem a b
eq_second a (err e, mem) = (ok false, drop_raw mem a.raw)
eq_second a (panic, mem) = (panic, mem)

unfoldable pub eq_first :
    MohuResult Buffer × Memory → (Memory → MohuResult Buffer × Memory) → MohuResult Bool × Memory
eq_first (ok a, mem) other = eq_second a (other mem)
eq_first (err e, mem) other = (ok false, mem)
eq_first (panic, mem) other = (panic, mem)

-- `PartialEq::eq`
unfoldable pub eq : Option ℕ → (ℕ → ℕ) → Memory → Buffer → Buffer → MohuResult Bool × Memory
eq system fresh mem a b =
    if not (dtype_eq a.dtype b.dtype) || not (text_eq a.layout.shape b.layout.shape)
    then (ok false, mem)
    else if (a.raw == b.raw)
        && (a.layout.offset == b.layout.offset)
        && text_eq a.layout.strides b.layout.strides
    then (ok true, mem)
    else eq_first (to_contiguous system fresh mem a) (λ mem. to_contiguous system fresh mem b)

-- The loop of `flip_axis_copy`, over the indices of the destination. `expect` makes an index out of range a
-- panic.
unfoldable pub expect_offset : {A : Type 0} → MohuResult A → MohuResult A
expect_offset (ok a) = ok a
expect_offset (err e) = panic
expect_offset panic = panic

unfoldable pub flip_loop :
    ℕ → NdIndexIter → ℕ → Memory → Buffer → Buffer → ℕ → MohuResult (Unit {0}) × Memory
flip_loop zero it dst_flat mem src dst axis = (ok tt, mem)
flip_loop (suc fuel) it dst_flat mem src dst axis =
    let item_size = itemsize src.dtype in
    let (item, it') = next it in
    elim item [
      | none ↦ (ok tt, mem)
      | some idx ↦
          let flipped =
            set idx axis
              (sub_word (sub_word (get_or src.layout.shape axis 0) 1) (get_or idx axis 0)) in
          then_do (expect_offset (byte_offset src.layout flipped), mem)
            (λ src_off mem.
              then_do
                (copy_bytes mem src.raw (src.layout.offset + src_off) dst.raw
                  (dst.layout.offset + dst_flat * item_size) item_size)
                (λ done mem. flip_loop fuel it' (suc dst_flat) mem src dst axis))
    ]

unfoldable pub flip_axis_copy :
    Option ℕ → (ℕ → ℕ) → Buffer → ℕ → Buffer × Memory → MohuResult (Unit {0}) × (Buffer × Memory)
flip_axis_copy system fresh src axis dst =
    with_unique system fresh
      (check_dtype src.dtype dst.0
        >> check_shape src dst.0
        >> (if leb (ndim src.layout) axis
            then err (internal (axis_outside (codes "flip_axis_copy") axis (ndim src.layout)))
            else ok tt)
        >> check_contiguous dst.0
        >> check_write dst.0)
      (λ s.
        let (r, mem) =
          flip_loop (suc (size s.0.layout)) (new s.0.layout.shape) 0 s.1 src s.0 axis in
        (r, (s.0, mem)))
      dst
