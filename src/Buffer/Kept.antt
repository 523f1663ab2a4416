-- ===== src/Buffer/Kept.antt =====
-- crates/mohu-buffer/src/buffer.rs and ops.rs: which blocks a copy of a buffer leaves alone.
use mohu_fork_nirman.Base.{
  ℕ, zero, suc, ◌+◌, ◌*◌, ◌≤◌, ◌<◌, ◌≡◌, inl, inr, refl, ap, sym, ◌∙◌, Option, List, leb, ==_iff,
  ne→==, length, arith, ℕ_discrete, Bool-cases, Option-cases, ◌&&◌,
}
use mohu_fork_nirman.Base.Words.{mul_word}
use mohu_fork_nirman.Errors.{MohuResult, ok, err, panic}
use mohu_fork_nirman.DType.{DType, itemsize}
use mohu_fork_nirman.Alloc.{AllocHandle, AllocStats, alloc, simd_align}
use mohu_fork_nirman.Layout.{Layout, size, is_c_contiguous}
use mohu_fork_nirman.Strides.{contiguous_nbytes}
use mohu_fork_nirman.Strides.Iter.{StridedByteIter, new_bytes, next_byte}
use mohu_fork_nirman.Buffer.{
  RawBuffer, Memory, Buffer, put, then_do, Order, c_order, store_handle, raw_alloc, with_layout,
  layout_of, alloc_buffer, drop_raw,
}
use mohu_fork_nirman.Buffer.Copy.{
  read, write, copy_bytes, copy_loop, copy_elements, copy_checked, check_copy, set_unique,
  to_contiguous,
}

-- The blocks below `n` hold the same bytes.
abbrev pub Same : ℕ → Memory → Memory → Type 0
Same n mem mem' =
    (k : ℕ)
    → k < n
    → ((mem'.raws k).bytes ≡ (mem.raws k).bytes) × ((mem'.raws k).nbytes ≡ (mem.raws k).nbytes)

-- A call that leaves the blocks below `n` alone, and whose result has `Q`.
abbrev pub Keeps : {A : Type 0} → (A → Type 0) → ℕ → Memory → MohuResult A × Memory → Type 0
Keeps Q n mem (ok a, mem') = Same n mem mem' × Q a
Keeps Q n mem (err e, mem') = Same n mem mem'
Keeps Q n mem (panic, mem') = Same n mem mem'

pub Same-refl : (n : ℕ) (mem : Memory) → Same n mem mem
Same-refl n mem k h = (refl, refl)

pub Same-trans : (n : ℕ) (a b c : Memory) → Same n a b → Same n b c → Same n a c
Same-trans n a b c p q k h = ((q k h).0 ∙ (p k h).0, (q k h).1 ∙ (p k h).1)

Keeps-then_do :
    {A B : Type 0} (Q : A → Type 0) (R : B → Type 0) (n : ℕ) (mem : Memory)
    (r : MohuResult A × Memory) (f : A → Memory → MohuResult B × Memory)
    → Keeps Q n mem r
    → ((a : A) (m : Memory) → Same n mem m → Q a → Keeps R n mem (f a m))
    → Keeps R n mem (then_do r f)
Keeps-then_do Q R n mem (ok a, m) f (s, q) step = step a m s q
Keeps-then_do Q R n mem (err e, m) f s step = s
Keeps-then_do Q R n mem (panic, m) f s step = s

-- The same call from an earlier memory.
Keeps-after :
    {A : Type 0} (Q : A → Type 0) (n : ℕ) (mem m : Memory) (r : MohuResult A × Memory)
    → Same n mem m
    → Keeps Q n m r
    → Keeps Q n mem r
Keeps-after Q n mem m (ok a, m') s (t, q) = (Same-trans n mem m m' s t, q)
Keeps-after Q n mem m (err e, m') s t = Same-trans n mem m m' s t
Keeps-after Q n mem m (panic, m') s t = Same-trans n mem m m' s t

put-other :
    (k i : ℕ) (raw : RawBuffer) (raws : ℕ → RawBuffer) → ¬ (i ≡ k) → put k raw raws i ≡ raws i
put-other k i raw raws h = rw (ne→== i k h) refl

pub drop_raw-Same : (n : ℕ) (mem : Memory) (k : ℕ) → Same n mem (drop_raw mem k)
unfolding drop_raw
drop_raw-Same n mem k i h = elim (ℕ_discrete i k) [
  | yes e ↦
      rw ((==_iff i k).1 e)
        (ap (λ j. (mem.raws j).bytes) (sym e), ap (λ j. (mem.raws j).nbytes) (sym e))
  | no d ↦ rw (ne→== i k d) (refl, refl)
]

store_handle-Keeps :
    (fresh : ℕ → ℕ) (n : ℕ) (mem : Memory) (nbytes : ℕ) (r : MohuResult AllocHandle × AllocStats)
    → n ≤ mem.next_raw
    → Keeps (λ k. n ≤ k) n mem (store_handle fresh mem nbytes r)
unfolding store_handle
store_handle-Keeps fresh n mem nbytes (ok handle, stats) room =
    ((λ k h. rw (ne→== k mem.next_raw (omega arith)) (refl, refl)), room)
store_handle-Keeps fresh n mem nbytes (err e, stats) room = λ k h. (refl, refl)
store_handle-Keeps fresh n mem nbytes (panic, stats) room = λ k h. (refl, refl)

pub write-Keeps :
    (n : ℕ) (mem : Memory) (k off : ℕ) (value : List ℕ)
    → n ≤ k
    → Keeps (λ done. Unit {0}) n mem (write mem k off value)
unfolding write
write-Keeps n mem k off value above =
    elim (Bool-cases (leb (off + length value) (mem.raws k).nbytes)) [
      | inl e ↦ rw (e, Keeps) ((λ i h. rw (ne→== i k (omega arith)) (refl, refl)), tt)
      | inr e ↦ rw (e, Keeps) (Same-refl n mem)
    ]

copy_bytes-Keeps :
    (n : ℕ) (mem : Memory) (src src_off dst dst_off count : ℕ)
    → n ≤ dst
    → Keeps (λ done. Unit {0}) n mem (copy_bytes mem src src_off dst dst_off count)
unfolding copy_bytes
copy_bytes-Keeps n mem src src_off dst dst_off count above =
    Keeps-then_do (λ value. Unit {0}) (λ done. Unit {0}) n mem
      (read (mem.raws src) src_off count, mem) _ (lifted (read (mem.raws src) src_off count))
      (λ value m s q.
        Keeps-after (λ done. Unit {0}) n mem m (write m dst dst_off value) s
          (write-Keeps n m dst dst_off value above))
  where
    lifted : (r : MohuResult (List ℕ)) → Keeps (λ value. Unit {0}) n mem (r, mem)
    lifted (ok a) = (Same-refl n mem, tt)
    lifted (err e) = Same-refl n mem
    lifted panic = Same-refl n mem

copy_loop-Keeps :
    (fuel n : ℕ) (it : StridedByteIter) (elem_idx : ℕ) (mem : Memory)
    (src src_start dst dst_start len len' : ℕ)
    → n ≤ dst
    → Keeps
        (λ done. Unit {0})
        n
        mem
        (copy_loop fuel it elem_idx mem src src_start dst dst_start len len')
unfolding copy_loop
copy_loop-Keeps zero n it elem_idx mem src src_start dst dst_start len len' above =
    (Same-refl n mem, tt)
copy_loop-Keeps (suc fuel) n it elem_idx mem src src_start dst dst_start len len' above =
    elim (Option-cases (next_byte it).0) [
      | inl e ↦ rw (e, copy_loop, Keeps) (Same-refl n mem, tt)
      | inr (src_off, e) ↦
          rw (e, copy_loop)
            (Keeps-then_do (λ done. Unit {0}) (λ done. Unit {0}) n mem _ _
              (copy_bytes-Keeps n mem src (src_start + src_off) dst (dst_start + elem_idx * len')
                len above)
              (λ done m s q.
                Keeps-after (λ done. Unit {0}) n mem m _ s
                  (copy_loop-Keeps fuel n (next_byte it).1 (suc elem_idx) m src src_start dst
                    dst_start len len' above)))
    ]

copy_elements-Keeps :
    (n : ℕ) (mem : Memory) (src dst : Buffer)
    → n ≤ dst.raw
    → Keeps (λ done. Unit {0}) n mem (copy_elements mem src dst)
unfolding copy_elements
copy_elements-Keeps n mem src dst above =
    elim (Bool-cases (is_c_contiguous src.layout && is_c_contiguous dst.layout)) [
      | inl e ↦ rw e (
          copy_bytes-Keeps n mem src.raw src.layout.offset dst.raw dst.layout.offset
            (mul_word (size src.layout) (itemsize src.dtype)) above)
      | inr e ↦ rw e (
          copy_loop-Keeps (suc (size src.layout)) n
            (new_bytes src.layout.shape src.layout.strides src.layout.offset) 0 mem src.raw
            src.layout.offset dst.raw dst.layout.offset (itemsize src.dtype) (itemsize dst.dtype)
            above)
    ]

-- A buffer in a block from `n` on, of a dtype.
abbrev pub At : ℕ → DType → Buffer → Type 0
At n dtype buf = (n ≤ buf.raw) × (buf.dtype ≡ dtype)

with_layout-Keeps :
    (n : ℕ) (dtype : DType) (k : ℕ) (layout : MohuResult Layout) (mem : Memory)
    → n ≤ k
    → Keeps (At n dtype) n mem (with_layout dtype k layout mem)
unfolding with_layout
with_layout-Keeps n dtype k (ok layout) mem above = (Same-refl n mem, (above, refl))
with_layout-Keeps n dtype k (err e) mem above = drop_raw-Same n mem k
with_layout-Keeps n dtype k panic mem above = drop_raw-Same n mem k

lifted-Keeps :
    {A : Type 0} (n : ℕ) (mem : Memory) (r : MohuResult A) → Keeps (λ a. Unit {0}) n mem (r, mem)
lifted-Keeps n mem (ok a) = (Same-refl n mem, tt)
lifted-Keeps n mem (err e) = Same-refl n mem
lifted-Keeps n mem panic = Same-refl n mem

alloc_buffer-Keeps :
    (system : Option ℕ) (fresh : ℕ → ℕ) (mem : Memory) (dtype : DType) (shape : List ℕ)
    (order : Order)
    → Keeps
        (At mem.next_raw dtype)
        mem.next_raw
        mem
        (alloc_buffer system fresh mem dtype shape order)
unfolding alloc_buffer raw_alloc
alloc_buffer-Keeps system fresh mem dtype shape order =
    sized (contiguous_nbytes shape (itemsize dtype))
  where
    sized :
        (r : MohuResult ℕ)
        → Keeps (At mem.next_raw dtype) mem.next_raw mem (
            then_do
              (r, mem)
              (λ nbytes mem.
                then_do
                  (raw_alloc system fresh mem nbytes)
                  (λ k mem. with_layout dtype k (layout_of order shape (itemsize dtype)) mem)))
    sized (err e) = Same-refl mem.next_raw mem
    sized panic = Same-refl mem.next_raw mem
    sized (ok nbytes) =
        Keeps-then_do (λ k. mem.next_raw ≤ k) (At mem.next_raw dtype) mem.next_raw mem
          (raw_alloc system fresh mem nbytes) _
          (store_handle-Keeps fresh mem.next_raw mem nbytes
            (alloc system mem.stats nbytes simd_align) (omega arith))
          (λ k m s above. Keeps-after (At mem.next_raw dtype) mem.next_raw mem m _ s (
            with_layout-Keeps mem.next_raw dtype k (layout_of order shape (itemsize dtype)) m
              above))

copy_checked-Keeps :
    (n : ℕ) (mem : Memory) (src dst : Buffer) (dtype : DType) (r : MohuResult (Unit {0}))
    → At n dtype dst
    → Keeps (At n dtype) n mem (copy_checked mem src dst r)
unfolding copy_checked set_unique
copy_checked-Keeps n mem src dst dtype (ok done) (above, same) =
    Keeps-then_do (λ done. Unit {0}) (At n dtype) n mem _ _
      (copy_elements-Keeps n mem src (set_unique dst) above) (λ done m s q. (s, (above, same)))
copy_checked-Keeps n mem src dst dtype (err e) at = drop_raw-Same n mem dst.raw
copy_checked-Keeps n mem src dst dtype panic at = Same-refl n mem

pub to_contiguous-Keeps :
    (system : Option ℕ) (fresh : ℕ → ℕ) (mem : Memory) (buf : Buffer)
    → Keeps (At mem.next_raw buf.dtype) mem.next_raw mem (to_contiguous system fresh mem buf)
unfolding to_contiguous
to_contiguous-Keeps system fresh mem buf =
    Keeps-then_do (At mem.next_raw buf.dtype) (At mem.next_raw buf.dtype) mem.next_raw mem _ _
      (alloc_buffer-Keeps system fresh mem buf.dtype buf.layout.shape c_order)
      (λ dst m s at.
        Keeps-after (At mem.next_raw buf.dtype) mem.next_raw mem m _ s
          (copy_checked-Keeps mem.next_raw m buf dst buf.dtype (check_copy buf dst) at))
