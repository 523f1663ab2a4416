-- ===== src/Ops/Cast/Branches.antt =====
-- crates/mohu-buffer/src/ops.rs: the branches of `cast_copy`.
use mohu_fork_nirman.Base.{
  ℕ, ◌≡◌, ◌≢◌, refl, ◌∙◌, true, false, Option, List, [], ◌∷◌, map, length, ==_iff, codes,
}
use mohu_fork_nirman.Errors.{ok, err, invalid_cast, dtype_name, text, Message}
use mohu_fork_nirman.DType.{DType, itemsize}
use mohu_fork_nirman.DType.Code.{as_u8, dtype_eq}
use mohu_fork_nirman.Promote.{CastMode, can_cast}
use mohu_fork_nirman.Layout.{size, is_c_contiguous}
use mohu_fork_nirman.Buffer.{Memory, Buffer}
use mohu_fork_nirman.Buffer.Copy.{make_unique, set_unique}
use mohu_fork_nirman.Buffer.Create.{to_vec}
use mohu_fork_nirman.Buffer.Roundtrip.{OfSize}
use mohu_fork_nirman.Ops.Checks.{check_len, check_write}
use mohu_fork_nirman.Ops.Contents.{length-map, load_bytes-to_vec, length-to_vec}
use mohu_fork_nirman.Ops.Stored.{Owned, store-to_vec, set_unique-Owned}
use mohu_fork_nirman.Ops.Fill.{with_unique}
use mohu_fork_nirman.Ops.Cast.{mode_name, cast_typed, check_cast, cast_copy}

OfSize-map :
    (n : ℕ) (f : List ℕ → List ℕ) (vs : List (List ℕ))
    → ((v : List ℕ) → length (f v) ≡ n)
    → OfSize n (map f vs)
OfSize-map n f [] h = tt
OfSize-map n f (v ∷ vs) h = (h v, OfSize-map n f vs h)

-- `cast_copy` from a contiguous source that holds `vs` to a destination of another dtype and as many
-- elements, which is writeable, contiguous and the only owner of its block. Where the mode permits the cast
-- the call succeeds, the destination holds the cast values, and no other block changes.
pub cast_copy-permitted :
    (system : Option ℕ) (fresh : ℕ → ℕ) (cast : DType → DType → List ℕ → List ℕ) (mode : CastMode)
    (src dst : Buffer) (mem : Memory) (vs : List (List ℕ))
    → Owned mem dst.dtype dst
    → dtype_eq src.dtype dst.dtype ≡ false
    → can_cast src.dtype dst.dtype mode ≡ true
    → is_c_contiguous src.layout ≡ true
    → size src.layout ≡ size dst.layout
    → to_vec mem src.dtype src ≡ ok vs
    → ((v : List ℕ) → length (cast src.dtype dst.dtype v) ≡ itemsize dst.dtype)
    → (mem' : Memory) × (cast_copy system fresh cast mode src (dst, mem)
        ≡ (ok tt, (set_unique dst, mem')))
      × (to_vec mem' dst.dtype (set_unique dst) ≡ ok (map (cast src.dtype dst.dtype) vs))
      × ((i : ℕ) → i ≢ dst.raw → mem'.raws i ≡ mem.raws i)
unfolding cast_copy cast_typed check_cast check_len check_write with_unique make_unique set_unique
cast_copy-permitted system fresh cast mode src dst mem vs owned other allowed whole fits held
      sized =
    let ws = map (cast src.dtype dst.dtype) vs in
    let (mem', stored, after, others) =
      store-to_vec (set_unique dst) mem dst.dtype ws (set_unique-Owned mem dst.dtype dst owned)
        (OfSize-map (itemsize dst.dtype) (cast src.dtype dst.dtype) vs sized)
        (length-map (cast src.dtype dst.dtype) vs
          ∙ length-to_vec mem src.dtype src vs whole held
          ∙ fits) in
    (
      mem',
      rw
          (
            (==_iff (size src.layout) (size dst.layout)).1 fits,
            other,
            allowed,
            owned.writeable,
            (==_iff (mem.raws dst.raw).strong_count 1).1 owned.owner,
            whole,
            owned.whole,
            load_bytes-to_vec mem src.dtype src vs whole held,
          )
          stored,
      after,
      others,
    )

-- Where the mode does not permit the cast of a source of as many elements and another dtype, `cast_copy`
-- fails with the two dtypes, and changes neither the destination nor the memory.
pub cast_copy-refused :
    (system : Option ℕ) (fresh : ℕ → ℕ) (cast : DType → DType → List ℕ → List ℕ) (mode : CastMode)
    (src dst : Buffer) (mem : Memory)
    → dtype_eq src.dtype dst.dtype ≡ false
    → can_cast src.dtype dst.dtype mode ≡ false
    → size src.layout ≡ size dst.layout
    → (reason : Message) × (cast_copy system fresh cast mode src (dst, mem) ≡ (
      err (invalid_cast (dtype_name (as_u8 src.dtype)) (dtype_name (as_u8 dst.dtype)) reason),
      (dst, mem),
    ))
unfolding cast_copy check_cast check_len with_unique
cast_copy-refused system fresh cast mode src dst mem other refused fits = (
  text (codes (mode_name mode)),
  rw ((==_iff (size src.layout) (size dst.layout)).1 fits, other, refused) refl,
)
