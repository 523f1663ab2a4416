-- ===== src/Ops/Cast.antt =====
-- crates/mohu-buffer/src/ops.rs: `cast_copy`. What a scalar becomes at another type is a parameter.
pub mod Branches
use Prim.Native.String.{String}
use mohu_fork_nirman.Base.{
  ℕ, zero, suc, ◌+◌, ◌*◌, not, ◌&&◌, Option, none, some, List, map, codes, if◌then◌else◌,
}
use mohu_fork_nirman.Errors.{MohuResult, ok, err, ◌>>=◌, ◌>>◌, invalid_cast, dtype_name, text}
use mohu_fork_nirman.DType.{DType, itemsize}
use mohu_fork_nirman.DType.Code.{as_u8, dtype_eq}
use mohu_fork_nirman.Promote.{CastMode, safe, same_kind, unsafe, can_cast}
use mohu_fork_nirman.Layout.{size, is_c_contiguous}
use mohu_fork_nirman.Strides.Iter.{StridedByteIter, new_bytes, next_byte}
use mohu_fork_nirman.Buffer.{Memory, Buffer, then_do}
use mohu_fork_nirman.Buffer.Copy.{read, write, copy_to_contiguous}
use mohu_fork_nirman.Ops.{load_bytes, store}
use mohu_fork_nirman.Ops.Checks.{check_len, check_write}
use mohu_fork_nirman.Ops.Fill.{with_unique}

-- The slow path, from the pointers `src_start` and `dst_start`.
unfoldable pub cast_loop :
    ℕ
    → StridedByteIter
    → ℕ
    → Memory
    → (List ℕ → List ℕ)
    → ℕ × ℕ × ℕ
    → ℕ × ℕ × ℕ
    → MohuResult (Unit {0}) × Memory
cast_loop zero it elem_idx mem cast source target = (ok tt, mem)
cast_loop (suc fuel) it elem_idx mem cast (src, src_start, src_size) (dst, dst_start, dst_size) =
    let (item, it') = next_byte it in
    elim item [
      | none ↦ (ok tt, mem)
      | some src_off ↦
          then_do (read (mem.raws src) (src_start + src_off) src_size, mem)
            (λ s mem.
              then_do (write mem dst (dst_start + elem_idx * dst_size) (cast s)) (λ done mem.
                cast_loop fuel it' (suc elem_idx) mem cast (src, src_start, src_size)
                  (dst, dst_start, dst_size)))
    ]

-- `cast_typed` at the scalar types with these dtypes.
unfoldable pub cast_typed :
    (List ℕ → List ℕ)
    → DType
    → DType
    → Buffer
    → Buffer × Memory
    → MohuResult (Unit {0}) × (Buffer × Memory)
cast_typed cast from to src (dst, mem) =
    let len = size src.layout in
    if is_c_contiguous src.layout && is_c_contiguous dst.layout
    then then_do (load_bytes mem src (itemsize from) len, (dst, mem))
        (λ vs s. store (map cast vs) s)
    else (let (r, mem') =
          cast_loop (suc len) (new_bytes src.layout.shape src.layout.strides src.layout.offset) 0
            mem cast (src.raw, src.layout.offset, itemsize from)
            (dst.raw, dst.layout.offset, itemsize to) in
        (r, (dst, mem')))

-- The mode's name stands for the reason, which the code prints it in.
abbrev pub mode_name : CastMode → String
mode_name safe = "Safe"
mode_name same_kind = "SameKind"
mode_name unsafe = "Unsafe"

unfoldable pub check_cast : DType → DType → CastMode → MohuResult (Unit {0})
check_cast from to mode =
    if not (can_cast from to mode)
    then err (
        invalid_cast (dtype_name (as_u8 from)) (dtype_name (as_u8 to))
          (text (codes (mode_name mode))))
    else ok tt

unfoldable pub cast_copy :
    Option ℕ
    → (ℕ → ℕ)
    → (DType → DType → List ℕ → List ℕ)
    → CastMode
    → Buffer
    → Buffer × Memory
    → MohuResult (Unit {0}) × (Buffer × Memory)
cast_copy system fresh cast mode src dst =
    then_do (check_len src dst.0, dst)
      (λ done dst.
        if dtype_eq src.dtype dst.0.dtype
        then copy_to_contiguous system fresh src dst
        else with_unique system fresh (check_cast src.dtype dst.0.dtype mode >> check_write dst.0)
            (λ s. cast_typed (cast src.dtype dst.0.dtype) src.dtype dst.0.dtype src s) dst)
