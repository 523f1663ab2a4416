-- ===== src/Pool.antt =====
-- crates/mohu-buffer/src/pool.rs: the two-tier pool of allocations. A `World` is the counters of
-- alloc.rs, one `BufferPool` (its mutex is held for a whole call), and the calling thread's cache.
-- `system` is the operating system's answer to the allocation that a call may make. The vector
-- of a bucket is kept with its last handle first; the vector of the thread's cache as it is.
pub mod Buckets
pub mod Fast
pub mod Maintain
pub mod Cache
pub mod Invariant
pub mod Release
pub mod Trim
mod Examples
pub mod Reuse
pub mod Steps
pub mod Warm
use mohu_fork_nirman.Base.{
  ℕ, zero, suc, ◌+◌, ◌-◌, ◌*◌, ◌^◌, Bool, true, false, not, ◌&&◌, Option, none, some, List, [], ◌∷◌,
  ◌++◌, reverse, map, ltb, leb, ◌==◌, if◌then◌else◌, length,
}
use mohu_fork_nirman.Base.Words.{add_word, sub_word}
use mohu_fork_nirman.Errors.{MohuResult, ok, err, panic}
use mohu_fork_nirman.Alloc.{
  AllocStats, AllocHandle, simd_align, next_power_of_two, alloc, drop_handle,
}

abbrev pub tl_slots : ℕ
tl_slots = 32

abbrev pub tl_max_bytes : ℕ
tl_max_bytes = 4 * 1024 * 1024

pub record TlStats : Type 0 where
  pub hits : ℕ
  pub misses : ℕ
  pub returns : ℕ
  pub cached_bytes : ℕ

unfoldable pub size_class : ℕ → ℕ
size_class n = if n == 0 then 1 else next_power_of_two n

pub record PoolBucket : Type 0 where
  pub handles : List AllocHandle
  pub cached_bytes : ℕ

abbrev pub new_bucket : PoolBucket
new_bucket = record { handles = []; cached_bytes = 0 }

unfoldable pub push : PoolBucket → AllocHandle → PoolBucket
unfolding add_word
push b h = record { handles = h ∷ b.handles; cached_bytes = add_word b.cached_bytes h.len }

unfoldable pub pop : PoolBucket → Option (AllocHandle × PoolBucket)
unfolding sub_word
pop b = elim b.handles [
  | [] ↦ none
  | h ∷ hs ↦ some (h, record { handles = hs; cached_bytes = sub_word b.cached_bytes h.len })
]

-- A `BTreeMap`, its keys in ascending order.
abbrev pub Buckets : Type 0
Buckets = List (ℕ × PoolBucket)

pub record PoolInner : Type 0 where
  pub buckets : Buckets
  pub cached_bytes : ℕ
  pub hit_count : ℕ
  pub miss_count : ℕ
  pub return_count : ℕ

abbrev pub new_inner : PoolInner
new_inner = record {
  buckets = [];
  cached_bytes = 0;
  hit_count = 0;
  miss_count = 0;
  return_count = 0;
}

pub record World : Type 0 where
  pub stats : AllocStats
  pub max_cached_bytes : ℕ
  pub inner : PoolInner
  pub cache : List (ℕ × AllocHandle)
  pub tl_stats : TlStats

abbrev pub new_tl_stats : TlStats
new_tl_stats = record { hits = 0; misses = 0; returns = 0; cached_bytes = 0 }

-- A pool before its first call, with counters at zero (`BufferPool::new`).
unfoldable pub empty_world : ℕ → World
empty_world max_cached_bytes = record {
  stats = record {
    live_bytes = 0;
    peak_bytes = 0;
    alloc_count = 0;
    free_count = 0;
    heap_live_bytes = 0;
    mmap_live_bytes = 0;
  };
  max_cached_bytes = max_cached_bytes;
  inner = new_inner;
  cache = [];
  tl_stats = new_tl_stats;
}

-- `buckets.get_mut(&class)` and then `bucket.pop()`.
unfoldable pub pop_class : ℕ → Buckets → Option (AllocHandle × Buckets)
unfolding pop
pop_class class [] = none
pop_class class ((k, b) ∷ rest) =
    let later = pop_class class rest in
    if class == k
    then elim (pop b) [ none ↦ none | some (h, b') ↦ some (h, (k, b') ∷ rest) ]
    else elim later [ none ↦ none | some (h, rest') ↦ some (h, (k, b) ∷ rest') ]

-- `buckets.entry(class).or_insert_with(PoolBucket::new).push(handle)`
unfoldable pub push_class : ℕ → AllocHandle → Buckets → Buckets
unfolding push
push_class class h [] = (class, push new_bucket h) ∷ []
push_class class h ((k, b) ∷ rest) =
    let later = push_class class h rest in
    if class == k
    then (k, push b h) ∷ rest
    else if ltb class k
    then (class, push new_bucket h) ∷ (k, b) ∷ rest
    else (k, b) ∷ later

-- The call of `AllocHandle::alloc` with its effect on the counters.
unfoldable pub alloc_in : Option ℕ → World → ℕ → MohuResult AllocHandle × World
alloc_in system w len =
    let (r, stats) = alloc system w.stats len simd_align in (r, record w { stats = stats })

unfoldable pub acquire : Option ℕ → World → ℕ → MohuResult AllocHandle × World
unfolding alloc_in pop_class add_word sub_word
acquire system w nbytes =
    let inner = w.inner in
    if nbytes == 0
    then alloc_in system w 0
    else elim (pop_class (size_class nbytes) inner.buckets) [
      | some (h, buckets) ↦ (
        ok h,
        record w {
          inner = record {
            buckets = buckets;
            cached_bytes = sub_word inner.cached_bytes h.len;
            hit_count = add_word inner.hit_count 1;
            miss_count = inner.miss_count;
            return_count = inner.return_count;
          };
        },
      )
      | none ↦
          alloc_in system
            (record w { inner = record inner { miss_count = add_word inner.miss_count 1 } })
            (size_class nbytes)
    ]

unfoldable pub release : World → AllocHandle → World
unfolding push_class add_word
release w h =
    let inner = w.inner in
    if h.len == 0
    then record w { stats = drop_handle w.stats h }
    else if ltb w.max_cached_bytes (add_word inner.cached_bytes h.len)
    then record w {
      stats = drop_handle w.stats h;
      inner = record inner { return_count = add_word inner.return_count 1 };
    }
    else record w {
      inner = record {
        buckets = push_class (size_class h.len) h inner.buckets;
        cached_bytes = add_word inner.cached_bytes h.len;
        hit_count = inner.hit_count;
        miss_count = inner.miss_count;
        return_count = add_word inner.return_count 1;
      };
    }
