-- ===== src/Buffer.antt =====
-- crates/mohu-buffer/src/buffer.rs: `RawBuffer` and `Buffer` over a memory of reference-counted blocks.
-- A `Memory` is what the `Arc<RawBuffer>`s of a thread point to, and the counters of alloc.rs; an
-- `Arc` is the number of its block. An access outside a block, which Rust leaves undefined, is
-- the outcome `panic`. `system` is the system's answer to an allocation, `fresh` the bytes that new
-- memory happens to hold.
pub mod Copy
pub mod Access
pub mod Kept
pub mod Isolated
pub mod Written
pub mod Views
pub mod Create
pub mod Roundtrip
pub mod Loops
pub mod Copied
pub mod Exchange
pub mod Iterate
mod Examples
use mohu_fork_nirman.Base.{
  ℕ, suc, ◌+◌, ◌-◌, ◌%◌, Bool, true, false, not, ◌&&◌, ◌||◌, Option, List, [], ◌∷◌, leb, ◌==◌,
  if◌then◌else◌, length,
}
use mohu_fork_nirman.Errors.{MohuResult, ok, err, panic}
use mohu_fork_nirman.DType.{DType, itemsize}
use mohu_fork_nirman.Alloc.{
  AllocStats, AllocHandle, AllocInner, no_memory, heap_block, mapping, alloc, drop_handle,
  simd_align,
}
use mohu_fork_nirman.Strides.{contiguous_nbytes}
use mohu_fork_nirman.Layout.{Layout, new_c, new_f, is_c_contiguous, is_f_contiguous}

-- The bits of `BufferFlags`.
pub record BufferFlags : Type 0 where
  pub writeable : Bool
  pub owns_data : Bool
  pub c_contiguous : Bool
  pub f_contiguous : Bool
  pub aligned : Bool

abbrev pub no_flags : BufferFlags
no_flags = record {
  writeable = false;
  owns_data = false;
  c_contiguous = false;
  f_contiguous = false;
  aligned = false;
}

abbrev pub only_writeable : BufferFlags
only_writeable = record no_flags { writeable = true }

abbrev pub only_owns_data : BufferFlags
only_owns_data = record no_flags { owns_data = true }

abbrev pub only_c_contiguous : BufferFlags
only_c_contiguous = record no_flags { c_contiguous = true }

abbrev pub only_f_contiguous : BufferFlags
only_f_contiguous = record no_flags { f_contiguous = true }

abbrev pub only_aligned : BufferFlags
only_aligned = record no_flags { aligned = true }

unfoldable pub contains_flags : BufferFlags → BufferFlags → Bool
contains_flags a b =
    (not b.writeable || a.writeable)
    && (not b.owns_data || a.owns_data)
    && (not b.c_contiguous || a.c_contiguous)
    && (not b.f_contiguous || a.f_contiguous)
    && (not b.aligned || a.aligned)

unfoldable pub insert_flags : BufferFlags → BufferFlags → BufferFlags
insert_flags a b = record {
  writeable = a.writeable || b.writeable;
  owns_data = a.owns_data || b.owns_data;
  c_contiguous = a.c_contiguous || b.c_contiguous;
  f_contiguous = a.f_contiguous || b.f_contiguous;
  aligned = a.aligned || b.aligned;
}

unfoldable pub remove_flags : BufferFlags → BufferFlags → BufferFlags
remove_flags a b = record {
  writeable = a.writeable && not b.writeable;
  owns_data = a.owns_data && not b.owns_data;
  c_contiguous = a.c_contiguous && not b.c_contiguous;
  f_contiguous = a.f_contiguous && not b.f_contiguous;
  aligned = a.aligned && not b.aligned;
}

-- The memory of mohu's allocator, or a tensor that was imported, by the address of its `DLManagedTensor` and whether
-- that has a deleter.
pub data BufferSource : Type 0 where
  owned : AllocHandle → BufferSource
  imported : ℕ → Bool → BufferSource

-- A `RawBuffer` with the count of its `Arc`s and its bytes.
pub record RawBuffer : Type 0 where
  pub source : BufferSource
  pub ptr : ℕ
  pub nbytes : ℕ
  pub strong_count : ℕ
  pub bytes : ℕ → ℕ

-- The blocks from `next_raw` on are not in use yet. `released` lists the imported tensors whose deleter has
-- been called, the last one first.
pub record Memory : Type 0 where
  pub stats : AllocStats
  pub raws : ℕ → RawBuffer
  pub next_raw : ℕ
  pub released : List ℕ

pub record Buffer : Type 0 where
  pub raw : ℕ
  pub dtype : DType
  pub layout : Layout
  pub flags : BufferFlags

abbrev pub put : ℕ → RawBuffer → (ℕ → RawBuffer) → ℕ → RawBuffer
put k raw raws i = if i == k then raw else raws i

-- `?` on a call that changes a state of type `S`.
abbrev pub then_do {ℓ} :
    {S A B : Type ℓ} → MohuResult A × S → (A → S → MohuResult B × S) → MohuResult B × S
then_do (ok a, s) next = next a s
then_do (err e, s) next = (err e, s)
then_do (panic, s) next = (panic, s)

-- `NonNull::<u8>::dangling()` is the address 1.
unfoldable pub address : AllocInner → ℕ
address no_memory = 1
address (heap_block ptr size align) = ptr
address (mapping ptr) = ptr

-- The end of `RawBuffer::alloc`: the handle goes into a new block.
unfoldable pub store_handle :
    (ℕ → ℕ) → Memory → ℕ → MohuResult AllocHandle × AllocStats → MohuResult ℕ × Memory
unfolding address
store_handle fresh mem nbytes (ok handle, stats) = (
  ok mem.next_raw,
  record {
    stats = stats;
    raws =
        put mem.next_raw
          (record {
            source = owned handle;
            ptr = address handle.inner;
            nbytes = nbytes;
            strong_count = 1;
            bytes = fresh;
          })
          mem.raws;
    next_raw = suc mem.next_raw;
    released = mem.released;
  },
)
store_handle fresh mem nbytes (err e, stats) = (err e, record mem { stats = stats })
store_handle fresh mem nbytes (panic, stats) = (panic, record mem { stats = stats })

-- `RawBuffer::alloc`, without the demand for zeroed memory, in an `Arc`.
unfoldable pub raw_alloc : Option ℕ → (ℕ → ℕ) → Memory → ℕ → MohuResult ℕ × Memory
unfolding store_handle
raw_alloc system fresh mem nbytes =
    store_handle fresh mem nbytes (alloc system mem.stats nbytes simd_align)

-- `Arc::clone`
unfoldable pub clone_raw : Memory → ℕ → Memory
clone_raw mem k =
    let raw = mem.raws k in
    record mem { raws = put k (record raw { strong_count = raw.strong_count + 1 }) mem.raws }

-- The memory of a block goes back to the system, or the deleter of its tensor is called.
unfoldable pub drop_source : BufferSource → AllocStats × List ℕ → AllocStats × List ℕ
drop_source (owned handle) (stats, released) = (drop_handle stats handle, released)
drop_source (imported managed has_deleter) (stats, released) =
    (stats, if not (managed == 0) && has_deleter then managed ∷ released else released)

-- An `Arc` is dropped; the last one drops the source.
unfoldable pub drop_raw : Memory → ℕ → Memory
unfolding drop_source
drop_raw mem k =
    let raw = mem.raws k in
    let (stats, released) =
      if raw.strong_count == 1
      then drop_source raw.source (mem.stats, mem.released)
      else (mem.stats, mem.released) in
    record mem {
      stats = stats;
      released = released;
      raws = put k (record raw { strong_count = raw.strong_count - 1 }) mem.raws;
    }

unfoldable pub is_aligned : RawBuffer → Bool
is_aligned raw = raw.ptr % simd_align == 0

unfoldable pub compute_flags : RawBuffer → Layout → BufferFlags
unfolding insert_flags is_aligned is_c_contiguous is_f_contiguous
compute_flags raw layout =
    let f = insert_flags (insert_flags no_flags only_writeable) only_owns_data in
    let g = if is_aligned raw then insert_flags f only_aligned else f in
    let h = if is_c_contiguous layout then insert_flags g only_c_contiguous else g in
    if is_f_contiguous layout then insert_flags h only_f_contiguous else h

pub data Order : Type 0 where
  c_order f_order : Order

unfoldable pub layout_of : Order → List ℕ → ℕ → MohuResult Layout
layout_of c_order shape size = new_c shape size
layout_of f_order shape size = new_f shape size

-- The end of `Buffer::alloc`: a layout that is refused drops the block again.
unfoldable pub with_layout : DType → ℕ → MohuResult Layout → Memory → MohuResult Buffer × Memory
unfolding compute_flags drop_raw
with_layout dtype k (ok layout) mem = (
  ok (record {
    raw = k;
    dtype = dtype;
    layout = layout;
    flags = compute_flags (mem.raws k) layout;
  }),
  mem,
)
with_layout dtype k (err e) mem = (err e, drop_raw mem k)
with_layout dtype k panic mem = (panic, drop_raw mem k)

-- `Buffer::alloc`
unfoldable pub alloc_buffer :
    Option ℕ → (ℕ → ℕ) → Memory → DType → List ℕ → Order → MohuResult Buffer × Memory
unfolding raw_alloc with_layout layout_of
alloc_buffer system fresh mem dtype shape order =
    then_do (contiguous_nbytes shape (itemsize dtype), mem)
      (λ nbytes mem.
        then_do (raw_alloc system fresh mem nbytes)
          (λ k mem. with_layout dtype k (layout_of order shape (itemsize dtype)) mem))
