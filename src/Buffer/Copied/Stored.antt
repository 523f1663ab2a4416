-- ===== src/Buffer/Copied/Stored.antt =====
-- crates/mohu-buffer/src/buffer.rs: a write to a buffer whose block is shared.
use mohu_fork_nirman.Base.{
  ℕ, ◌+◌, ◌*◌, ◌≤◌, ◌<◌, ◌≡◌, ◌⊎◌, inl, inr, refl, ap, sym, subst, ◌∙◌, true, List, Option, some,
  length, arith, ==_iff, dec_lt, leb, if◌then◌else◌, le→leb,
}
use mohu_fork_nirman.Base.Words.{isize_max}
use mohu_fork_nirman.Errors.{ok, panic}
use mohu_fork_nirman.DType.{DType, itemsize}
use mohu_fork_nirman.Strides.Bounds.{product, InBounds, linear, linear-lt, linear-injective}
use mohu_fork_nirman.Layout.{byte_offset, byte_offset_unchecked}
use mohu_fork_nirman.Layout.Indexed.{fresh, byte_offset-within}
use mohu_fork_nirman.Buffer.{Memory, Buffer, BufferFlags}
use mohu_fork_nirman.Buffer.Copy.{is_writeable, read, make_unique}
use mohu_fork_nirman.DType.Code.{dtype_eq_refl}
use mohu_fork_nirman.Buffer.Access.{get, check_dtype}
use mohu_fork_nirman.Buffer.Copied.{bytes_at-same}
use mohu_fork_nirman.Buffer.Roundtrip.{itemsize-positive}
use mohu_fork_nirman.Buffer.Copied.Made.{made}
use mohu_fork_nirman.Buffer.Copied.Offsets.{Readable}
use mohu_fork_nirman.Buffer.Written.{write-inside, write-outside}
use mohu_fork_nirman.Buffer.Access.{set, set_unchecked, write_value, check_writeable}
use mohu_fork_nirman.Buffer.Copy.{write, bytes_at}
use mohu_fork_nirman.Buffer.Copied.Duplicate.{fresh_offset, last_inside}
use mohu_fork_nirman.Buffer.Copied.Unshared.{make_unique-made}

-- Two elements at different numbers lie apart.
elements_apart :
    (item a b i : ℕ)
    → ¬ (a ≡ b)
    → i < item
    → (item * b + i < item * a) ⊎ (item * a + item ≤ item * b + i)
elements_apart item a b i d h = elim (dec_lt b a) [
  | yes p ↦ inl (omega (arith, h, last_inside item b a p))
  | no p ↦ inr (omega (arith, last_inside item a b (omega (arith, p, d))))
]

set_made :
    (system : Option ℕ) (bytes : ℕ → ℕ) (idx value : List ℕ) (buf copy : Buffer) (mem m : Memory)
    (off : ℕ)
    → is_writeable buf ≡ true
    → make_unique system bytes (buf, mem) ≡ (ok tt, (copy, m))
    → byte_offset copy.layout idx ≡ ok off
    → set system bytes buf.dtype idx value (buf, mem)
      ≡ ((write m copy.raw off value).0, (copy, (write m copy.raw off value).1))
unfolding set check_writeable check_dtype set_unchecked write_value
set_made system bytes idx value buf copy mem m off w done at =
    rw (dtype_eq_refl buf.dtype, w, done, at) refl

write-nbytes :
    (mem : Memory) (k off : ℕ) (value : List ℕ)
    → off + length value ≤ (mem.raws k).nbytes
    → ((write mem k off value).1.raws k).nbytes ≡ (mem.raws k).nbytes
unfolding write
write-nbytes mem k off value room =
    rw (le→leb (off + length value) (mem.raws k).nbytes room, (==_iff k k).1 refl) refl

-- A write leaves what is read elsewhere in the block.
read-write :
    (mem : Memory) (k off : ℕ) (value : List ℕ) (o n : ℕ)
    → off + length value ≤ (mem.raws k).nbytes
    → ((i : ℕ) → i < n → (o + i < off) ⊎ (off + length value ≤ o + i))
    → read ((write mem k off value).1.raws k) o n ≡ read (mem.raws k) o n
unfolding read
read-write mem k off value o n room apart =
    ap
      (λ long.
        if leb (o + n) long
        then ok (bytes_at ((write mem k off value).1.raws k).bytes o n)
        else panic)
      (write-nbytes mem k off value room)
    ∙ ap (λ (bs : List ℕ). if leb (o + n) (mem.raws k).nbytes then ok bs else panic)
        (bytes_at-same ((write mem k off value).1.raws k).bytes (mem.raws k).bytes o o n
          (λ i h. write-outside mem k off value k (o + i) room (inr (apart i h))))

get-fresh :
    (m : Memory) (k : ℕ) (t : DType) (shape : List ℕ) (flags : BufferFlags) (idx : List ℕ)
    → InBounds idx shape
    → get m t (made k t shape flags) idx
      ≡ read (m.raws k) (byte_offset_unchecked (fresh shape (itemsize t)) idx) (itemsize t)
unfolding get check_dtype
get-fresh m k t shape flags idx b =
    rw (dtype_eq_refl t, byte_offset-within (fresh shape (itemsize t)) idx b) refl

-- The elements at two indices of a contiguous layout lie apart.
indices_apart :
    (shape : List ℕ) (item : ℕ) (idx jdx : List ℕ) (i : ℕ)
    → 0 < item
    → item * product shape ≤ isize_max
    → InBounds idx shape
    → InBounds jdx shape
    → ¬ (jdx ≡ idx)
    → i < item
    → (byte_offset_unchecked (fresh shape item) jdx + i
        < byte_offset_unchecked (fresh shape item) idx)
      ⊎ (byte_offset_unchecked (fresh shape item) idx + item
          ≤ byte_offset_unchecked (fresh shape item) jdx + i)
indices_apart shape item idx jdx i q fits b c d h =
    let at = fresh_offset shape item idx q fits b in
    let at' = fresh_offset shape item jdx q fits c in
    elim (elements_apart item (linear idx shape) (linear jdx shape) i
      (λ e. d (linear-injective jdx idx shape c b (sym e))) h) [
        | inl below ↦ inl (omega (arith, at, at', below))
        | inr above ↦ inr (omega (arith, at, at', above))
      ]

-- `set` on a writeable buffer whose block has other owners, at the buffer's dtype and an index within its shape,
-- where the system has memory; the buffer has elements, which all lie in its block and take at most
-- `isize::MAX` bytes, and it starts at the first byte of its block or is contiguous. The call
-- succeeds; the buffer then reads the value at the index, and at every other index what it read
-- before the call.
pub get-set_copied :
    (address : ℕ) (bytes : ℕ → ℕ) (mem : Memory) (buf : Buffer) (idx value : List ℕ)
    → buf.raw < mem.next_raw
    → Readable mem buf
    → ¬ ((mem.raws buf.raw).strong_count ≡ 1)
    → is_writeable buf ≡ true
    → InBounds idx buf.layout.shape
    → length value ≡ itemsize buf.dtype
    → (buf' : Buffer) × (mem' : Memory) × (set (some address) bytes buf.dtype idx value (buf, mem)
        ≡ (ok tt, (buf', mem')))
      × (get mem' buf.dtype buf' idx ≡ ok value)
      × ((jdx : List ℕ)
          → InBounds jdx buf.layout.shape
          → ¬ (jdx ≡ idx)
          → get mem' buf.dtype buf' jdx ≡ get mem buf.dtype buf jdx)
get-set_copied address bytes mem buf idx value used r more w b long =
    let shape = buf.layout.shape in
    let item = itemsize buf.dtype in
    let (flags, m, done, unshared, block) = make_unique-made address bytes mem buf used r more in
    let copy = made mem.next_raw buf.dtype shape flags in
    let target = fresh shape item in
    let off = byte_offset_unchecked target idx in
    let number = fresh_offset shape item idx (itemsize-positive buf.dtype) r.fits b in
    let below = last_inside item (linear idx shape) (product shape) (linear-lt idx shape b) in
    let room : off + length value ≤ (m.raws mem.next_raw).nbytes =
      omega (arith, number, below, long, block) in
    let (stored, back) = write-inside m mem.next_raw off value room in
    let m' = (write m mem.next_raw off value).1 in
    (
      copy,
      m',
      set_made (some address) bytes idx value buf copy mem m off w done
            (byte_offset-within target idx b)
          ∙ ap (λ d. (d, (copy, m'))) stored,
      get-fresh m' mem.next_raw buf.dtype shape flags idx b
          ∙ subst (λ n. read (m'.raws mem.next_raw) off n ≡ ok value) long back,
      (λ jdx c d.
          get-fresh m' mem.next_raw buf.dtype shape flags jdx c
          ∙ read-write m mem.next_raw off value (byte_offset_unchecked target jdx) item room (λ i h.
            subst
              (λ n.
                (byte_offset_unchecked target jdx + i < off)
                ⊎ (off + n ≤ byte_offset_unchecked target jdx + i))
              (sym long)
              (indices_apart shape item idx jdx i (itemsize-positive buf.dtype) r.fits b c d h))
          ∙ sym (get-fresh m mem.next_raw buf.dtype shape flags jdx c)
          ∙ unshared.reads jdx c),
    )
