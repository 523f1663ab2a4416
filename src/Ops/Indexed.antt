-- ===== src/Ops/Indexed.antt =====
-- crates/mohu-buffer/src/ops.rs: `gather` and `scatter`. An index is the bit pattern of an `i64`.
pub mod Places
pub mod Stored
pub mod Calls
use mohu_fork_nirman.Base.{
  ℕ, zero, suc, ◌+◌, ◌-◌, ◌*◌, min, Option, none, some, List, [], ◌∷◌, map, ltb, get_elem?,
  if◌then◌else◌,
}
use mohu_fork_nirman.Base.Words.{is_negative, add_word}
use mohu_fork_nirman.Errors.{MohuResult, ok, panic, ◌>>=◌}
use mohu_fork_nirman.DType.{itemsize}
use mohu_fork_nirman.Layout.{size}
use mohu_fork_nirman.Buffer.{Memory, Buffer, then_do}
use mohu_fork_nirman.Buffer.Copy.{write, make_unique}
use mohu_fork_nirman.Ops.{load_bytes, run}
use mohu_fork_nirman.Ops.Checks.{check_indexed}

-- The number that bytes stand for, the least significant first.
abbrev pub from_le_bytes : List ℕ → ℕ
from_le_bytes [] = 0
from_le_bytes (b ∷ bs) = b + 256 * from_le_bytes bs

unfoldable pub load_indices : Memory → Buffer → ℕ → MohuResult (List ℕ)
unfolding load_bytes
load_indices mem indices n = load_bytes mem indices 8 n >>= λ values. ok (map from_le_bytes values)

-- `if idx < 0 { (len as i64 + idx) as usize } else { idx as usize }`
unfoldable pub position : ℕ → ℕ → ℕ
unfolding add_word
position len idx = if is_negative idx then add_word len idx else idx

-- The value at a place of a slice, whose absence is a panic.
abbrev pub value_at : Option (List ℕ) → MohuResult (List ℕ)
value_at none = panic
value_at (some v) = ok v

-- The loop of `gather`, in a build without debug assertions.
unfoldable pub gather_loop : List (List ℕ) → ℕ → List ℕ → MohuResult (List (List ℕ))
unfolding position
gather_loop values src_len [] = ok []
gather_loop values src_len (idx ∷ rest) =
    value_at (get_elem? values (min (position src_len idx) (src_len - 1))) >>= λ v.
    gather_loop values src_len rest >>= λ vs. ok (v ∷ vs)

unfoldable pub gather :
    Option ℕ
    → (ℕ → ℕ)
    → Buffer
    → Buffer
    → Buffer × Memory
    → MohuResult (Unit {0}) × (Buffer × Memory)
unfolding run check_indexed load_bytes load_indices gather_loop
gather system fresh src indices dst =
    let src_len = size src.layout in
    run system fresh (check_indexed src indices dst.0 dst.0)
      (λ st. load_bytes st.1 src (itemsize src.dtype) src_len >>= λ values.
        load_indices st.1 indices (size indices.layout) >>= λ idxs. gather_loop values src_len idxs)
      dst

-- The loop of `scatter`, from the destination's pointer `first` on.
unfoldable pub scatter_loop :
    List ℕ → List (List ℕ) → ℕ → ℕ → ℕ → ℕ → Memory → MohuResult (Unit {0}) × Memory
unfolding write position
scatter_loop [] values dst_len itemsize k first mem = (ok tt, mem)
scatter_loop (idx ∷ idxs) [] dst_len itemsize k first mem = (panic, mem)
scatter_loop (idx ∷ idxs) (v ∷ vs) dst_len itemsize k first mem =
    let j = position dst_len idx in
    let rest = λ (m : Memory). scatter_loop idxs vs dst_len itemsize k first m in
    if ltb j dst_len
    then then_do (write mem k (first + j * itemsize) v) (λ done m. rest m)
    else rest mem

unfoldable pub scatter :
    Option ℕ
    → (ℕ → ℕ)
    → Buffer
    → Buffer
    → Buffer × Memory
    → MohuResult (Unit {0}) × (Buffer × Memory)
unfolding check_indexed make_unique load_bytes load_indices scatter_loop
scatter system fresh indices src s =
    let n_src = size src.layout in
    let size' = itemsize src.dtype in
    then_do (check_indexed src indices s.0 src, s)
      (λ done s. then_do (make_unique system fresh s) (λ done (dst, mem).
        then_do (load_indices mem indices n_src, (dst, mem))
          (λ idxs (dst, mem).
            then_do (load_bytes mem src size' n_src, (dst, mem))
              (λ values (dst, mem).
                let (r, mem') =
                  scatter_loop idxs values (size dst.layout) size' dst.raw dst.layout.offset mem in
                (r, (dst, mem'))))))
