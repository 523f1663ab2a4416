-- ===== src/Pool/Fast.antt =====
-- crates/mohu-buffer/src/pool.rs: the cache of a thread, `fast_acquire`, `fast_release` and
-- `drain_thread_local`.
use mohu_fork_nirman.Base.{
  ℕ, ◌-◌, ◌&&◌, Option, none, some, List, [], ◌∷◌, ◌++◌, ltb, leb, ◌==◌, if◌then◌else◌, length,
}
use mohu_fork_nirman.Base.Words.{add_word}
use mohu_fork_nirman.Errors.{MohuResult, ok}
use mohu_fork_nirman.Alloc.{AllocHandle, drop_handle}
use mohu_fork_nirman.Pool.{World, size_class, alloc_in, acquire, release, tl_slots, tl_max_bytes}

-- `Vec::swap_remove` of the first entry of the class: the last entry takes its place.
unfoldable pub last_or : ℕ × AllocHandle → List (ℕ × AllocHandle) → ℕ × AllocHandle
last_or x [] = x
last_or x (y ∷ ys) = last_or y ys

unfoldable pub but_last : List (ℕ × AllocHandle) → List (ℕ × AllocHandle)
but_last [] = []
but_last (x ∷ []) = []
but_last (x ∷ y ∷ ys) = x ∷ but_last (y ∷ ys)

unfoldable pub fill_gap : List (ℕ × AllocHandle) → List (ℕ × AllocHandle)
unfolding last_or but_last
fill_gap [] = []
fill_gap (y ∷ ys) = last_or y ys ∷ but_last (y ∷ ys)

unfoldable pub take_class :
    ℕ → List (ℕ × AllocHandle) → Option (AllocHandle × List (ℕ × AllocHandle))
unfolding fill_gap
take_class class [] = none
take_class class ((k, h) ∷ rest) =
    let later = take_class class rest in
    if k == class
    then some (h, fill_gap rest)
    else elim later [ none ↦ none | some (h', rest') ↦ some (h', (k, h) ∷ rest') ]

unfoldable pub fast_acquire : Option ℕ → World → ℕ → MohuResult AllocHandle × World
unfolding take_class add_word
fast_acquire system w nbytes =
    let st = w.tl_stats in
    if nbytes == 0
    then alloc_in system w 0
    else if leb (size_class nbytes) tl_max_bytes
    then elim (take_class (size_class nbytes) w.cache) [
      | some (h, cache) ↦ (
        ok h,
        record w {
          cache = cache;
          tl_stats = record {
            hits = add_word st.hits 1;
            misses = st.misses;
            returns = st.returns;
            cached_bytes = st.cached_bytes - h.len;
          };
        },
      )
      | none ↦
          acquire system (record w { tl_stats = record st { misses = add_word st.misses 1 } })
            nbytes
    ]
    else acquire system w nbytes

-- `c.iter().map(|(_, h)| h.len()).sum()`, which wraps.
unfoldable pub cur_bytes : ℕ → List (ℕ × AllocHandle) → ℕ
unfolding add_word
cur_bytes total [] = total
cur_bytes total ((k, h) ∷ rest) = cur_bytes (add_word total h.len) rest

-- `poison` does nothing in a build without debug assertions.
unfoldable pub fast_release : World → AllocHandle → World
unfolding cur_bytes add_word
fast_release w h =
    let st = w.tl_stats in
    if h.len == 0
    then record w { stats = drop_handle w.stats h }
    else if leb (size_class h.len) tl_max_bytes
        && (ltb (length w.cache) tl_slots
            && leb (add_word (cur_bytes 0 w.cache) h.len) tl_max_bytes)
    then record w {
      cache = w.cache ++ (size_class h.len, h) ∷ [];
      tl_stats = record {
        hits = st.hits;
        misses = st.misses;
        returns = add_word st.returns 1;
        cached_bytes = add_word st.cached_bytes h.len;
      };
    }
    else release w h

unfoldable pub release_all : World → List (ℕ × AllocHandle) → World
unfolding release
release_all w [] = w
release_all w ((k, h) ∷ rest) = release_all (release w h) rest

unfoldable pub drain_thread_local : World → World
unfolding release_all
drain_thread_local w =
    release_all (record w { cache = []; tl_stats = record w.tl_stats { cached_bytes = 0 } }) w.cache
