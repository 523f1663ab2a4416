-- ===== src/Buffer/Copied/Unshared.antt =====
-- crates/mohu-buffer/src/buffer.rs: copy on write keeps every element.
use mohu_fork_nirman.Base.{
  ℕ, ◌*◌, ◌<◌, ◌≡◌, refl, ap, ◌∙◌, List, some, arith, ==_iff, ne→==, ℕ_discrete,
}
use mohu_fork_nirman.Errors.{ok}
use mohu_fork_nirman.DType.{DType, itemsize}
use mohu_fork_nirman.Strides.Bounds.{product, InBounds}
use mohu_fork_nirman.Buffer.{Memory, Buffer, BufferFlags, RawBuffer}
use mohu_fork_nirman.Buffer.Copy.{set_unique, make_unique, replace_by}
use mohu_fork_nirman.Buffer.Access.{get, check_dtype}
use mohu_fork_nirman.Buffer.{drop_raw}
use mohu_fork_nirman.Buffer.Copied.Made.{made}
use mohu_fork_nirman.Buffer.Copied.Offsets.{Readable}
use mohu_fork_nirman.Buffer.Copied.Duplicate.{to_contiguous-Duplicate, get-made}

drop_raw-other : (mem : Memory) (k j : ℕ) → ¬ (j ≡ k) → (drop_raw mem k).raws j ≡ mem.raws j
unfolding drop_raw
drop_raw-other mem k j h = rw (ne→== j k h) refl

set_unique_kept :
    (mem : Memory) (buf : Buffer)
    → (mem.raws buf.raw).strong_count ≡ 1
    → (mem.raws (set_unique buf).raw).strong_count ≡ 1
unfolding set_unique
set_unique_kept mem buf h = h

set_unique-dtype : (buf : Buffer) → (set_unique buf).dtype ≡ buf.dtype
unfolding set_unique
set_unique-dtype buf = refl

set_unique-shape : (buf : Buffer) → (set_unique buf).layout.shape ≡ buf.layout.shape
unfolding set_unique
set_unique-shape buf = refl

-- Unique access to a buffer with its elements: it is the only owner of its block, and every index reads as before.
pub record Unshared (mem mem' : Memory) (buf buf' : Buffer) : Type 0 where
  pub single : (mem'.raws buf'.raw).strong_count ≡ 1
  pub typed : buf'.dtype ≡ buf.dtype
  pub shaped : buf'.layout.shape ≡ buf.layout.shape
  pub reads :
      (idx : List ℕ)
      → InBounds idx buf.layout.shape
      → get mem' buf.dtype buf' idx ≡ get mem buf.dtype buf idx

get-raws :
    (m m' : Memory) (t : DType) (buf : Buffer) (idx : List ℕ)
    → m'.raws buf.raw ≡ m.raws buf.raw
    → get m' t buf idx ≡ get m t buf idx
unfolding get
get-raws m m' t buf idx same = rw same refl

get-set_unique :
    (mem : Memory) (t : DType) (buf : Buffer) (idx : List ℕ)
    → get mem t (set_unique buf) idx ≡ get mem t buf idx
unfolding get set_unique check_dtype
get-set_unique mem t buf idx = refl

-- The branch that copies.
pub make_unique-made :
    (address : ℕ) (bytes : ℕ → ℕ) (mem : Memory) (buf : Buffer)
    → buf.raw < mem.next_raw
    → Readable mem buf
    → ¬ ((mem.raws buf.raw).strong_count ≡ 1)
    → (flags : BufferFlags) × (m : Memory) × (make_unique (some address) bytes (buf, mem)
        ≡ (ok tt, (made mem.next_raw buf.dtype buf.layout.shape flags, m)))
      × Unshared mem m buf (made mem.next_raw buf.dtype buf.layout.shape flags)
      × ((m.raws mem.next_raw).nbytes ≡ itemsize buf.dtype * product buf.layout.shape)
unfolding make_unique replace_by
make_unique-made address bytes mem buf used r more =
    let (flags, m, copied, d) = to_contiguous-Duplicate address bytes mem buf used r in
    let copy = made mem.next_raw buf.dtype buf.layout.shape flags in
    let apart : ¬ (mem.next_raw ≡ buf.raw) = λ e. absurd (omega (arith, e, used)) in
    let same = drop_raw-other m buf.raw mem.next_raw apart in
    (
      flags,
      drop_raw m buf.raw,
      rw (ne→== (mem.raws buf.raw).strong_count 1 more, copied) refl,
      record {
        single = ap (λ (raw : RawBuffer). raw.strong_count) same ∙ d.single;
        typed = refl;
        shaped = refl;
        reads = λ idx b.
            get-raws m (drop_raw m buf.raw) buf.dtype copy idx same
            ∙ get-made mem m buf flags idx r d b;
      },
      ap (λ (raw : RawBuffer). raw.nbytes) same ∙ d.long,
    )

-- Copy on write keeps the contents. `make_unique` on a buffer with elements, which all lie in its block and take at
-- most `isize::MAX` bytes, and that starts at the first byte of its block or is contiguous, where
-- the system has memory: it succeeds, the buffer is then the only owner of its block, of the same
-- dtype and shape, and every index reads what it read before.
pub make_unique-Unshared :
    (address : ℕ) (bytes : ℕ → ℕ) (mem : Memory) (buf : Buffer)
    → buf.raw < mem.next_raw
    → Readable mem buf
    → (buf' : Buffer) × (mem' : Memory) × (make_unique (some address) bytes (buf, mem)
        ≡ (ok tt, (buf', mem')))
      × Unshared mem mem' buf buf'
unfolding make_unique
make_unique-Unshared address bytes mem buf used r =
    elim (ℕ_discrete (mem.raws buf.raw).strong_count 1) [
      | yes one ↦ (
        set_unique buf,
        mem,
        rw ((==_iff (mem.raws buf.raw).strong_count 1).1 one) refl,
        record {
          single = set_unique_kept mem buf one;
          typed = set_unique-dtype buf;
          shaped = set_unique-shape buf;
          reads = λ idx b. get-set_unique mem buf.dtype buf idx;
        },
      )
      | no more ↦
          let (flags, m, done, unshared, _) = make_unique-made address bytes mem buf used r more in
          (made mem.next_raw buf.dtype buf.layout.shape flags, m, done, unshared)
    ]
