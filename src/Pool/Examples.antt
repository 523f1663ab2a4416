-- ===== src/Pool/Examples.antt =====
-- crates/mohu-buffer/src/pool.rs: a small pool at work.
use mohu_fork_nirman.Base.{ℕ, ◌≤◌, ◌≡◌, ◌⊎◌, refl, [], ◌∷◌, ◌++◌, none, some, false, arith}
use mohu_fork_nirman.Base.Words.{add_word}
use mohu_fork_nirman.Errors.{ok, err, allocation_failed}
use mohu_fork_nirman.Alloc.{
  AllocHandle, heap_block, alloc, alloc_record, alloc_inner, heap_alloc_inner, from_size_align,
  next_power_of_two, double_from,
}
use mohu_fork_nirman.Pool.{World, empty_world, acquire, release, alloc_in, size_class, pop_class}
use mohu_fork_nirman.Pool.Maintain.{trim, clear, warm}
use mohu_fork_nirman.Pool.Fast.{drain_thread_local}
use mohu_fork_nirman.Pool.Invariant.{Inv}
use mohu_fork_nirman.Pool.Trim.{trim-Inv}
use mohu_fork_nirman.Pool.Warm.{warm-Inv}
use mohu_fork_nirman.Pool.Reuse.{acquire-release}
use mohu_fork_nirman.Pool.Steps.{
  Reach, start, next, acquiring, releasing, reach-Inv, clear-drain_thread_local, hold,
}

abbrev first : AllocHandle
first = record { inner = heap_block 4096 128 64; len = 128; align = 64; mlocked = false }

abbrev small_world : World
small_world = empty_world 1000

abbrev served_world : World
served_world = (acquire (some 4096) small_world 100).1

served : (acquire (some 4096) small_world 100).0 ≡ ok first
unfolding acquire empty_world pop_class alloc_in alloc alloc_inner heap_alloc_inner from_size_align
    alloc_record size_class next_power_of_two double_from
served = refl

served-hold : hold (acquire (some 4096) small_world 100).0 [] ≡ [] ++ first ∷ []
served-hold = rw served refl

calls : Reach 1000 (release served_world first) []
calls =
    next (next start (acquiring (some 4096) 100 (omega arith))) (releasing [] [] first served-hold)

reach-Inv_example : Inv 0 (release served_world first)
reach-Inv_example = reach-Inv 1000 (release served_world first) [] (omega arith) calls

clear-drain_thread_local_example :
    (clear (drain_thread_local (release served_world first))).stats.live_bytes ≡ 0
clear-drain_thread_local_example =
    clear-drain_thread_local 1000 (release served_world first) (omega arith) calls

trim-Inv_example :
    Inv 0 (trim (release served_world first) 100)
    × ((trim (release served_world first) 100).inner.cached_bytes ≤ 100)
trim-Inv_example = trim-Inv (release served_world first) 100 0 reach-Inv_example

start-Inv : Inv 0 small_world
start-Inv = reach-Inv 1000 small_world [] (omega arith) start

warm-Inv_example :
    Inv 0 (warm small_world ((100, some 4096 ∷ none ∷ []) ∷ [])).1
    × (((warm small_world ((100, some 4096 ∷ none ∷ []) ∷ [])).0 ≡ ok tt)
        ⊎ ((len : ℕ) × ((warm small_world ((100, some 4096 ∷ none ∷ []) ∷ [])).0
              ≡ err (allocation_failed len))))
warm-Inv_example =
    warm-Inv ((100, some 4096 ∷ none ∷ []) ∷ []) small_world 0 (omega arith, tt) start-Inv

-- A handle of 5 bytes, which serves a request for 8.
abbrev odd_handle : AllocHandle
odd_handle = record { inner = heap_block 4096 5 64; len = 5; align = 64; mlocked = false }

same_class : size_class 8 ≡ size_class 5
unfolding size_class next_power_of_two double_from
same_class = refl

acquire-release_example : (acquire none (release small_world odd_handle) 8).0 ≡ ok odd_handle
unfolding empty_world add_word
acquire-release_example =
    acquire-release none small_world odd_handle 8 (omega arith) (omega arith) (omega arith)
      same_class
