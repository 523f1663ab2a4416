-- ===== src/Pool/Maintain.antt =====
-- crates/mohu-buffer/src/pool.rs: the upkeep of the global pool: `trim`, `clear`, `warm` and the
-- statistics.
use mohu_fork_nirman.Base.{
  ℕ, zero, suc, ◌+◌, true, false, Option, none, some, List, [], ◌∷◌, reverse, ltb, ◌==◌,
  if◌then◌else◌, length,
}
use mohu_fork_nirman.Base.Words.{add_word, sub_word}
use mohu_fork_nirman.Errors.{MohuResult, ok, err, panic}
use mohu_fork_nirman.Alloc.{AllocStats, AllocHandle, drop_handle}
use mohu_fork_nirman.Pool.{Buckets, World, size_class, pop, push_class, alloc_in}

-- The last bucket that is not empty gives up a handle.
unfoldable pub pop_largest : Buckets → Option (AllocHandle × Buckets)
unfolding pop
pop_largest [] = none
pop_largest ((k, b) ∷ rest) = elim (pop_largest rest) [
  | some (h, rest') ↦ some (h, (k, b) ∷ rest')
  | none ↦ elim (pop b) [ none ↦ none | some (h, b') ↦ some (h, (k, b') ∷ rest) ]
]

-- The handle that a round of `trim` takes out is freed.
unfoldable pub evict : World → AllocHandle → Buckets → World
unfolding sub_word
evict w h buckets = record w {
  stats = drop_handle w.stats h;
  inner = record w.inner { buckets = buckets; cached_bytes = sub_word w.inner.cached_bytes h.len };
}

-- The loop of `trim`. A round evicts a handle, so that one round more than there are handles is
-- enough.
unfoldable pub trim_loop : ℕ → ℕ → World → World
unfolding pop_largest evict
trim_loop zero keep_bytes w = w
trim_loop (suc fuel) keep_bytes w = elim (ltb keep_bytes w.inner.cached_bytes) [
  | false ↦ w
  | true ↦ elim (pop_largest w.inner.buckets) [
    | none ↦ w
    | some (h, buckets) ↦ trim_loop fuel keep_bytes (evict w h buckets)
  ]
]

unfoldable pub handle_count : Buckets → ℕ
handle_count [] = 0
handle_count ((k, b) ∷ rest) = length b.handles + handle_count rest

unfoldable pub trim : World → ℕ → World
unfolding trim_loop handle_count
trim w keep_bytes = trim_loop (suc (handle_count w.inner.buckets)) keep_bytes w

-- Dropping a map of buckets frees each vector from its first handle on.
unfoldable pub drop_all : AllocStats → List AllocHandle → AllocStats
drop_all stats [] = stats
drop_all stats (h ∷ hs) = drop_all (drop_handle stats h) hs

unfoldable pub drop_buckets : AllocStats → Buckets → AllocStats
unfolding drop_all
drop_buckets stats [] = stats
drop_buckets stats ((k, b) ∷ rest) = drop_buckets (drop_all stats (reverse b.handles)) rest

unfoldable pub clear : World → World
unfolding drop_buckets
clear w = record w {
  stats = drop_buckets w.stats w.inner.buckets;
  inner = record w.inner { buckets = []; cached_bytes = 0 };
}

-- The inner loop of `warm`, where `answers` are those of the system to its calls. The handles made
-- before a failure are freed.
unfoldable pub alloc_many : List (Option ℕ) → World → ℕ → MohuResult (List AllocHandle) × World
unfolding alloc_in drop_all
alloc_many [] w class = (ok [], w)
alloc_many (answer ∷ answers) w class =
    let (r, w1) = alloc_in answer w class in
    let (rs, w2) = alloc_many answers w1 class in
    elim r [
      | ok h ↦ elim rs [
        | ok hs ↦ (ok (h ∷ hs), w2)
        | err e ↦ (err e, record w2 { stats = drop_handle w2.stats h })
        | panic ↦ (panic, w2)
      ]
      | err e ↦ (err e, w1)
      | panic ↦ (panic, w1)
    ]

-- The handles that a full pool refuses are freed.
unfoldable pub store_many : World → ℕ → List AllocHandle → World
unfolding push_class drop_all add_word
store_many w class [] = w
store_many w class (h ∷ hs) =
    let inner = w.inner in
    if ltb w.max_cached_bytes (add_word inner.cached_bytes h.len)
    then record w { stats = drop_all w.stats (h ∷ hs) }
    else store_many
        (record w {
          inner = record {
            buckets = push_class class h inner.buckets;
            cached_bytes = add_word inner.cached_bytes h.len;
            hit_count = inner.hit_count;
            miss_count = inner.miss_count;
            return_count = add_word inner.return_count 1;
          };
        })
        class hs

-- `warm`, where `answers` has for each size the system's answers to its `count_per_size` calls.
unfoldable pub warm : World → List (ℕ × List (Option ℕ)) → MohuResult (Unit {0}) × World
unfolding alloc_many store_many
warm w [] = (ok tt, w)
warm w ((size, answers) ∷ sizes) =
    if size == 0
    then warm w sizes
    else let (r, w1) = alloc_many answers w (size_class size) in
      elim r [
        | ok handles ↦ warm (store_many w1 (size_class size) handles) sizes
        | err e ↦ (err e, w1)
        | panic ↦ (panic, w1)
      ]

pub record PoolStats : Type 0 where
  pub cached_bytes : ℕ
  pub cached_blocks : ℕ
  pub hit_count : ℕ
  pub miss_count : ℕ
  pub return_count : ℕ
  pub size_classes : ℕ

-- `hit_rate`, a float, is left out.
unfoldable pub stats : World → PoolStats
unfolding handle_count
stats w = record {
  cached_bytes = w.inner.cached_bytes;
  cached_blocks = handle_count w.inner.buckets;
  hit_count = w.inner.hit_count;
  miss_count = w.inner.miss_count;
  return_count = w.inner.return_count;
  size_classes = length w.inner.buckets;
}

pub record SizeClassStats : Type 0 where
  pub size_class : ℕ
  pub cached_handles : ℕ
  pub cached_bytes : ℕ

unfoldable pub size_class_stats : Buckets → List SizeClassStats
size_class_stats [] = []
size_class_stats ((class, b) ∷ rest) =
    record { size_class = class; cached_handles = length b.handles; cached_bytes = b.cached_bytes }
    ∷ size_class_stats rest
