-- ===== src/Buffer/Isolated.antt =====
-- crates/mohu-buffer/src/buffer.rs: a write to a buffer whose block is shared leaves the other buffers alone.
use mohu_fork_nirman.Base.{ℕ, ◌≤◌, ◌<◌, ◌≡◌, refl, ap, Option, List, ne→==}
use mohu_fork_nirman.Errors.{MohuResult, ok, err, panic, ◌>>=◌}
use mohu_fork_nirman.DType.{DType, itemsize}
use mohu_fork_nirman.Layout.{byte_offset}
use mohu_fork_nirman.Buffer.{RawBuffer, Memory, Buffer, then_do, drop_raw}
use mohu_fork_nirman.Buffer.Copy.{read, write, to_contiguous, replace_by, make_unique}
use mohu_fork_nirman.Buffer.Kept.{
  Same, Keeps, At, Same-refl, Same-trans, drop_raw-Same, write-Keeps, to_contiguous-Keeps,
}
use mohu_fork_nirman.Buffer.Access.{
  get, set, set_unchecked, write_value, check_writeable, check_dtype,
}

-- The outcome of a call on a buffer: on success it is in a block from `n` on.
abbrev Moved : ℕ → Memory → MohuResult (Unit {0}) × (Buffer × Memory) → Type 0
Moved n mem (ok done, (buf, mem')) = Same n mem mem' × (n ≤ buf.raw)
Moved n mem (err e, (buf, mem')) = Same n mem mem'
Moved n mem (panic, (buf, mem')) = Same n mem mem'

replace_by-Moved :
    (n : ℕ) (mem : Memory) (buf : Buffer) (dtype : DType) (r : MohuResult Buffer × Memory)
    → Keeps (At n dtype) n mem r
    → Moved n mem (replace_by buf r)
unfolding replace_by
replace_by-Moved n mem buf dtype (ok copied, m) (s, (above, same)) =
    (Same-trans n mem m (drop_raw m buf.raw) s (drop_raw-Same n m buf.raw), above)
replace_by-Moved n mem buf dtype (err e, m) s = s
replace_by-Moved n mem buf dtype (panic, m) s = s

set_unchecked-Same :
    (n : ℕ) (mem : Memory) (indices value : List ℕ) (r : MohuResult (Unit {0}) × (Buffer × Memory))
    → Moved n mem r
    → Same n mem (then_do r (λ done (s : Buffer × Memory). set_unchecked indices value s)).1.1
unfolding set_unchecked write_value
set_unchecked-Same n mem indices value (err e, (buf, m)) s = s
set_unchecked-Same n mem indices value (panic, (buf, m)) s = s
set_unchecked-Same n mem indices value (ok done, (buf, m)) (s, above) =
    located (byte_offset buf.layout indices)
  where
    written : (r : MohuResult (Unit {0}) × Memory) → Keeps (λ done. Unit {0}) n m r → Same n mem r.1
    written (ok done, m') (t, q) = Same-trans n mem m m' s t
    written (err e, m') t = Same-trans n mem m m' s t
    written (panic, m') t = Same-trans n mem m m' s t

    located :
        (r : MohuResult ℕ)
        → Same n mem
            (then_do (r, (buf, m)) (λ off (s : Buffer × Memory). write_value value off s)).1.1
    located (err e) = s
    located panic = s
    located (ok off) = written (write m buf.raw off value) (write-Keeps n m buf.raw off value above)

set-Same :
    (system : Option ℕ) (fresh : ℕ → ℕ) (t : DType) (indices value : List ℕ) (buf : Buffer)
    (mem : Memory)
    → ¬ ((mem.raws buf.raw).strong_count ≡ 1)
    → Same mem.next_raw mem (set system fresh t indices value (buf, mem)).1.1
unfolding set make_unique
set-Same system fresh t indices value buf mem shared = checked (check_writeable t buf)
  where
    moved : Moved mem.next_raw mem (make_unique system fresh (buf, mem))
    moved = rw (ne→== (mem.raws buf.raw).strong_count 1 shared) (
        replace_by-Moved mem.next_raw mem buf buf.dtype (to_contiguous system fresh mem buf)
          (to_contiguous-Keeps system fresh mem buf))

    checked :
        (r : MohuResult (Unit {0}))
        → Same mem.next_raw mem
            (then_do
              (r, (buf, mem))
              (λ done (s : Buffer × Memory).
                then_do (make_unique system fresh s) (λ done s. set_unchecked indices value s))).1.1
    checked (err e) = Same-refl mem.next_raw mem
    checked panic = Same-refl mem.next_raw mem
    checked (ok done) =
        set_unchecked-Same mem.next_raw mem indices value (make_unique system fresh (buf, mem))
          moved

read-same :
    (a b : RawBuffer) (off n : ℕ)
    → a.bytes ≡ b.bytes
    → a.nbytes ≡ b.nbytes
    → read a off n ≡ read b off n
unfolding read
read-same a b off n same long = rw (same, long) refl

get-Same :
    (mem mem' : Memory) (t : DType) (c : Buffer) (indices : List ℕ)
    → ((mem'.raws c.raw).bytes ≡ (mem.raws c.raw).bytes)
      × ((mem'.raws c.raw).nbytes ≡ (mem.raws c.raw).nbytes)
    → get mem' t c indices ≡ get mem t c indices
unfolding get
get-Same mem mem' t c indices (same, long) =
    ap
      (λ (f : ℕ → MohuResult (List ℕ)).
        check_dtype t c >>= λ done. byte_offset c.layout indices >>= f)
      (λ i off. read-same (mem'.raws c.raw) (mem.raws c.raw) off (itemsize t) same long i)

-- Copy on write: `set` on a buffer whose block has other owners, whatever its outcome, does not change any
-- element that any buffer on a block in use reads, the ones on the same block included.
pub get-set_shared :
    (system : Option ℕ) (fresh : ℕ → ℕ) (t : DType) (indices value : List ℕ) (buf : Buffer)
    (mem : Memory) (c : Buffer) (u : DType) (at : List ℕ)
    → ¬ ((mem.raws buf.raw).strong_count ≡ 1)
    → c.raw < mem.next_raw
    → get (set system fresh t indices value (buf, mem)).1.1 u c at ≡ get mem u c at
get-set_shared system fresh t indices value buf mem c u at shared used =
    get-Same mem (set system fresh t indices value (buf, mem)).1.1 u c at
      (set-Same system fresh t indices value buf mem shared c.raw used)
