-- ===== src/Pool/Trim.antt =====
-- crates/mohu-buffer/src/pool.rs: the loop of `trim` ends, below its target.
use mohu_fork_nirman.Base.{
  ℕ, zero, suc, ◌+◌, ◌%◌, ◌≤◌, ◌<◌, inl, inr, ap, ◌∙◌, arith, dec_lt, lt→ltb, ge→ltb,
}
use mohu_fork_nirman.Base.Words.{usize_mod, sub_word}
use mohu_fork_nirman.Alloc.{AllocHandle}
use mohu_fork_nirman.Alloc.Outcome.{live_bytes-drop_handle}
use mohu_fork_nirman.Pool.{Buckets, World}
use mohu_fork_nirman.Pool.Maintain.{evict, trim_loop, handle_count, trim}
use mohu_fork_nirman.Pool.Buckets.{bytes, Taken, pop_largest-Taken, sub_word-add}
use mohu_fork_nirman.Pool.Invariant.{tl_bytes, Inv}

evict-Inv :
    (w : World) (h : AllocHandle) (buckets : Buckets) (out : ℕ)
    → Inv out w
    → Taken w.inner.buckets h buckets
    → Inv out (evict w h buckets)
unfolding evict
evict-Inv w h buckets out v (filed, positive, sum, number) =
    let fits = v.global.bounded in
    let limit = v.global.limited in
    record {
      global = record {
        filed = filed;
        counted =
            ap (λ c. sub_word c h.len) (v.global.counted ∙ sum)
            ∙ sub_word-add h.len (bytes buckets) (omega arith);
        limited = omega arith;
        bounded = v.global.bounded;
      };
      local = v.local;
      live =
          live_bytes-drop_handle w.stats h (out + bytes buckets + tl_bytes w.cache)
            (v.live ∙ ap (λ t. t % usize_mod) (omega arith)) (omega arith);
    }

trim_loop-Inv :
    (fuel keep_bytes : ℕ) (w : World) (out : ℕ)
    → handle_count w.inner.buckets < fuel
    → Inv out w
    → Inv out (trim_loop fuel keep_bytes w)
      × ((trim_loop fuel keep_bytes w).inner.cached_bytes ≤ keep_bytes)
unfolding trim_loop
trim_loop-Inv zero keep_bytes w out enough v = absurd (omega arith)
trim_loop-Inv (suc fuel) keep_bytes w out enough v =
    let fits = v.global.bounded in
    let limit = v.global.limited in
    elim (dec_lt keep_bytes w.inner.cached_bytes) [
      | no done ↦ rw (ge→ltb keep_bytes w.inner.cached_bytes done, trim_loop) (v, omega arith)
      | yes over ↦
          rw (lt→ltb keep_bytes w.inner.cached_bytes over, trim_loop)
            (elim (pop_largest-Taken w.inner.buckets v.global.filed (omega arith)) [
              | inl (e, none_left, empty) ↦ absurd (omega (arith, v.global.counted))
              | inr (h, buckets, e, taken) ↦
                  let fewer : handle_count buckets < fuel = omega (arith, taken.3) in
                  rw (e, trim_loop)
                    (trim_loop-Inv fuel keep_bytes (evict w h buckets) out fewer
                      (evict-Inv w h buckets out v taken))
            ])
    ]

-- `trim` ends with at most the bytes to keep cached in the global pool, and keeps the invariant.
pub trim-Inv :
    (w : World) (keep_bytes out : ℕ)
    → Inv out w
    → Inv out (trim w keep_bytes) × ((trim w keep_bytes).inner.cached_bytes ≤ keep_bytes)
unfolding trim
trim-Inv w keep_bytes out v =
    trim_loop-Inv (suc (handle_count w.inner.buckets)) keep_bytes w out (omega arith) v
