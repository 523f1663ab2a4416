-- ===== src/Alloc.antt =====
-- crates/mohu-buffer/src/alloc.rs: allocation handles and the process-wide counters. The answer of the
-- operating system or of `std::alloc` to a request is an argument `system`: the address of the
-- memory, or nothing. The counters are seen by one thread, so that the compare-and-swap loop of
-- `record_alloc` runs once; an `i64` counter is its bit pattern.
pub mod Sizes
pub mod Outcome
use mohu_fork_nirman.Base.{
  ℕ, zero, suc, ◌+◌, ◌-◌, ◌*◌, ◌^◌, max, Bool, true, false, not, ◌&&◌, Option, none, some, List, [],
  ◌∷◌, ltb, leb, ◌==◌, if◌then◌else◌,
}
use mohu_fork_nirman.Base.Words.{usize_mod, isize_max, add_word, sub_word}
use mohu_fork_nirman.Errors.{MohuResult, ok, err, panic, allocation_failed}

abbrev pub simd_align : ℕ
simd_align = 64

abbrev pub mmap_threshold : ℕ
mmap_threshold = 2 ^ 20

pub record AllocStats : Type 0 where
  pub live_bytes : ℕ
  pub peak_bytes : ℕ
  pub alloc_count : ℕ
  pub free_count : ℕ
  pub heap_live_bytes : ℕ
  pub mmap_live_bytes : ℕ

pub data Strategy : Type 0 where
  zero_size heap mmap : Strategy

unfoldable pub record_alloc : AllocStats → ℕ → Strategy → AllocStats
unfolding add_word
record_alloc stats bytes strategy =
    let new = add_word stats.live_bytes bytes in
    record {
      live_bytes = new;
      peak_bytes = if ltb stats.peak_bytes new then new else stats.peak_bytes;
      alloc_count = add_word stats.alloc_count 1;
      free_count = stats.free_count;
      heap_live_bytes = elim strategy [
        | heap ↦ add_word stats.heap_live_bytes bytes
        | _ ↦ stats.heap_live_bytes
      ];
      mmap_live_bytes = elim strategy [
        | mmap ↦ add_word stats.mmap_live_bytes bytes
        | _ ↦ stats.mmap_live_bytes
      ];
    }

unfoldable pub record_free : AllocStats → ℕ → Strategy → AllocStats
unfolding add_word sub_word
record_free stats bytes strategy = record {
  live_bytes = sub_word stats.live_bytes bytes;
  peak_bytes = stats.peak_bytes;
  alloc_count = stats.alloc_count;
  free_count = add_word stats.free_count 1;
  heap_live_bytes = elim strategy [
    | heap ↦ sub_word stats.heap_live_bytes bytes
    | _ ↦ stats.heap_live_bytes
  ];
  mmap_live_bytes = elim strategy [
    | mmap ↦ sub_word stats.mmap_live_bytes bytes
    | _ ↦ stats.mmap_live_bytes
  ];
}

-- `live_count`, an `i64`.
unfoldable pub live_count : AllocStats → ℕ
live_count stats = sub_word stats.alloc_count stats.free_count

-- An `AllocInner` with the address of its memory; a heap block also has its size and alignment.
pub data AllocInner : Type 0 where
  no_memory : AllocInner
  heap_block : ℕ → ℕ → ℕ → AllocInner
  mapping : ℕ → AllocInner

pub record AllocHandle : Type 0 where
  pub inner : AllocInner
  pub len : ℕ
  pub align : ℕ
  pub mlocked : Bool

unfoldable pub strategy_of : AllocInner → Strategy
strategy_of no_memory = zero_size
strategy_of (heap_block ptr size align) = heap
strategy_of (mapping ptr) = mmap

unfoldable pub strategy : AllocHandle → Strategy
unfolding strategy_of
strategy handle = strategy_of handle.inner

-- `usize::next_power_of_two`: the powers of two from `p` on, of which there are `fuel`. Past the last
-- one the result wraps to 0.
unfoldable pub double_from : ℕ → ℕ → ℕ → ℕ
double_from zero p n = 0
double_from (suc fuel) p n = let rest = double_from fuel (2 * p) n in if leb n p then p else rest

unfoldable pub next_power_of_two : ℕ → ℕ
unfolding double_from
next_power_of_two n = double_from 64 1 n

-- What `StdLayout::from_size_align` accepts, for an alignment that is 0 or a power of two.
unfoldable pub from_size_align : ℕ → ℕ → Bool
from_size_align size align = not (align == 0) && leb (size + (align - 1)) isize_max

unfoldable pub heap_alloc_inner : Option ℕ → ℕ → ℕ → MohuResult AllocInner
unfolding from_size_align
heap_alloc_inner system len align =
    if from_size_align len align
    then elim system [
      | none ↦ err (allocation_failed len)
      | some ptr ↦ ok (heap_block ptr len align)
    ]
    else err (allocation_failed len)

-- The choice between a mapping and the heap, for `len` above 0.
unfoldable pub alloc_inner : Option ℕ → ℕ → ℕ → MohuResult AllocInner
unfolding heap_alloc_inner
alloc_inner system len align =
    if leb mmap_threshold len
    then elim system [ none ↦ err (allocation_failed len) | some ptr ↦ ok (mapping ptr) ]
    else heap_alloc_inner system len align

-- The end of `alloc`, on the outcome of the choice.
unfoldable pub alloc_record :
    AllocStats → ℕ → ℕ → MohuResult AllocInner → MohuResult AllocHandle × AllocStats
unfolding record_alloc strategy_of
alloc_record stats len align (ok inner) = (
  ok (record { inner = inner; len = len; align = align; mlocked = false }),
  record_alloc stats len (strategy_of inner),
)
alloc_record stats len align (err e) = (err e, stats)
alloc_record stats len align panic = (panic, stats)

unfoldable pub alloc : Option ℕ → AllocStats → ℕ → ℕ → MohuResult AllocHandle × AllocStats
unfolding next_power_of_two alloc_inner alloc_record
alloc system stats len align =
    let align' = next_power_of_two (max align simd_align) in
    if len == 0
    then (ok (record { inner = no_memory; len = 0; align = align'; mlocked = false }), stats)
    else alloc_record stats len align' (alloc_inner system len align')

-- `Drop`: the counters after a handle is freed.
unfoldable pub drop_handle : AllocStats → AllocHandle → AllocStats
unfolding record_free strategy
drop_handle stats handle =
    if handle.len == 0 then stats else record_free stats handle.len (strategy handle)

-- `try_grow`, which never moves the memory.
unfoldable pub try_grow : AllocHandle → ℕ → MohuResult Bool
try_grow handle new_len = if leb new_len handle.len then ok true else ok false
