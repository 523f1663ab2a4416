-- ===== src/Ops.antt =====
-- crates/mohu-buffer/src/ops.rs: what its operations have in common. An operation checks its arguments, makes the
-- destination the only owner of its block, computes values from the slices of the contiguous
-- buffers, and writes them to the destination. The parallel loops write each element once and read
-- nothing that they write, so that their order does not matter.
pub mod Checks
pub mod Map
pub mod Contents
pub mod Stored
pub mod Elementwise
pub mod Scan
pub mod Indexed
pub mod Reduce
pub mod Fill
pub mod Cast
pub mod Unary
mod Examples
use mohu_fork_nirman.Base.{ℕ, ◌+◌, ◌*◌, Option, List, map, leb, if◌then◌else◌}
use mohu_fork_nirman.Errors.{MohuResult, ok, panic, ◌>>=◌}
use mohu_fork_nirman.DType.{itemsize}
use mohu_fork_nirman.DType.Scalar.{Scalar}
use mohu_fork_nirman.Layout.{size}
use mohu_fork_nirman.Buffer.{Memory, Buffer, then_do}
use mohu_fork_nirman.Buffer.Copy.{make_unique}
use mohu_fork_nirman.Buffer.Access.{write_value}
use mohu_fork_nirman.Buffer.Create.{concat, elements_at}

-- The bytes of `len` values of `size` bytes from the first element of a buffer on.
unfoldable pub load_bytes : Memory → Buffer → ℕ → ℕ → MohuResult (List (List ℕ))
load_bytes mem buf size len =
    let raw = mem.raws buf.raw in
    if leb (buf.layout.offset + len * size) raw.nbytes
    then ok (elements_at raw.bytes buf.layout.offset size len)
    else panic

-- `slice::from_raw_parts(buf.as_ptr() as *const T, len)`
unfoldable pub load : {A : Type 0} → Scalar A → Memory → Buffer → ℕ → MohuResult (List A)
unfolding load_bytes
load s mem buf len =
    load_bytes mem buf (itemsize s.dtype) len >>= λ values. ok (map s.from_bytes values)

-- The values go to the destination's slice.
unfoldable pub store : List (List ℕ) → Buffer × Memory → MohuResult (Unit {0}) × (Buffer × Memory)
unfolding write_value
store values s = write_value (concat values) s.0.layout.offset s

-- An operation, with the outcome of its checks and the values that it computes.
unfoldable pub run :
    Option ℕ
    → (ℕ → ℕ)
    → MohuResult (Unit {0})
    → (Buffer × Memory → MohuResult (List (List ℕ)))
    → Buffer × Memory
    → MohuResult (Unit {0}) × (Buffer × Memory)
unfolding make_unique store
run system fresh checks values s =
    then_do (checks, s)
      (λ done s.
        then_do (make_unique system fresh s) (λ done s. then_do (values s, s) (λ vs s. store vs s)))
