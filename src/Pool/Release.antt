-- ===== src/Pool/Release.antt =====
-- crates/mohu-buffer/src/pool.rs: `release`, `drain_thread_local` and `clear` keep the invariant.
use mohu_fork_nirman.Base.{
  ℕ, ◌+◌, ◌%◌, ◌≤◌, ◌<◌, ◌≡◌, refl, ap, subst, ◌∙◌, List, [], ◌∷◌, ◌++◌, reverse, arith, ==_iff,
  ne→==, ℕ_discrete, dec_lt, lt→ltb, ge→ltb,
}
use mathlib.Core.List.{reverse-cons}
use mohu_fork_nirman.Base.Words.{usize_mod, isize_max, add_word}
use mohu_fork_nirman.Alloc.{AllocStats, AllocHandle, drop_handle}
use mohu_fork_nirman.Alloc.Outcome.{live_bytes-drop_handle}
use mohu_fork_nirman.Pool.{Buckets, World, release}
use mohu_fork_nirman.Pool.Fast.{release_all, drain_thread_local}
use mohu_fork_nirman.Pool.Maintain.{drop_all, drop_buckets, clear}
use mohu_fork_nirman.Pool.Buckets.{lens, bytes, push_class-Filed, add_word-small}
use mohu_fork_nirman.Pool.Invariant.{tl_bytes, Inv}

-- A handle that a caller gives up and that is freed.
pub dropped-live :
    (w : World) (h : AllocHandle) (out : ℕ)
    → h.len ≤ isize_max
    → Inv (out + h.len) w
    → (drop_handle w.stats h).live_bytes
      ≡ (out + bytes w.inner.buckets + tl_bytes w.cache) % usize_mod
dropped-live w h out small v =
    live_bytes-drop_handle w.stats h (out + bytes w.inner.buckets + tl_bytes w.cache)
      (v.live ∙ ap (λ t. t % usize_mod) (omega arith)) (omega arith)

-- `release` of a handle that the callers hold, of at most `isize::MAX` bytes, keeps the invariant: the
-- handle is cached or freed, and its bytes are no longer held by the callers.
pub release-Inv :
    (w : World) (h : AllocHandle) (out : ℕ)
    → h.len ≤ isize_max
    → Inv (out + h.len) w
    → Inv out (release w h)
unfolding release
release-Inv w h out small v =
    let fits = v.global.bounded in
    let limit = v.global.limited in
    elim (ℕ_discrete h.len 0) [
      | yes z ↦
          rw ((==_iff h.len 0).1 z)
            (record { global = v.global; local = v.local; live = dropped-live w h out small v })
      | no p ↦
          let room = add_word-small w.inner.cached_bytes h.len (omega (arith, v.global.counted)) in
          rw (ne→== h.len 0 p)
            (elim (dec_lt w.max_cached_bytes (add_word w.inner.cached_bytes h.len)) [
              | yes full ↦
                  rw (lt→ltb w.max_cached_bytes (add_word w.inner.cached_bytes h.len) full)
                    (record {
                      global = record {
                        filed = v.global.filed;
                        counted = v.global.counted;
                        limited = v.global.limited;
                        bounded = v.global.bounded;
                      };
                      local = v.local;
                      live = dropped-live w h out small v;
                    })
              | no free ↦
                  let (filed, sum, number) =
                    push_class-Filed h w.inner.buckets v.global.filed (omega arith) (omega arith) in
                  rw (ge→ltb w.max_cached_bytes (add_word w.inner.cached_bytes h.len) free)
                    (record {
                      global = record {
                        filed = filed;
                        counted = room ∙ omega (arith, v.global.counted, sum);
                        limited = omega (arith, v.global.counted, sum, room);
                        bounded = v.global.bounded;
                      };
                      local = v.local;
                      live = v.live ∙ ap (λ t. t % usize_mod) (omega (arith, sum));
                    })
            ])
    ]

release_all-Inv :
    (w : World) (handles : List (ℕ × AllocHandle)) (out : ℕ)
    → tl_bytes handles ≤ isize_max
    → Inv (out + tl_bytes handles) w
    → Inv out (release_all w handles)
unfolding release_all
release_all-Inv w [] out small v = subst (λ o. Inv o w) (omega arith) v
release_all-Inv w ((k, h) ∷ rest) out small v =
    release_all-Inv (release w h) rest out (omega arith)
      (release-Inv w h (out + tl_bytes rest) (omega arith) (subst (λ o. Inv o w) (omega arith) v))

-- `drain_thread_local` moves the thread's cache to the global pool: the invariant holds after it.
pub drain_thread_local-Inv : (w : World) (out : ℕ) → Inv out w → Inv out (drain_thread_local w)
unfolding drain_thread_local
drain_thread_local-Inv w out v =
    release_all-Inv _ w.cache out (omega (arith, v.local.limited)) (record {
      global = v.global;
      local = record { filed = tt; counted = refl; limited = omega arith; slots = omega arith };
      live = v.live ∙ ap (λ t. t % usize_mod) (omega arith);
    })

pub lens-append : (xs ys : List AllocHandle) → lens (xs ++ ys) ≡ lens xs + lens ys
lens-append [] ys = omega arith
lens-append (x ∷ xs) ys = omega (arith, lens-append xs ys)

drop_all-live :
    (stats : AllocStats) (hs : List AllocHandle) (rest : ℕ)
    → stats.live_bytes ≡ (lens hs + rest) % usize_mod
    → lens hs < usize_mod
    → (drop_all stats hs).live_bytes ≡ rest % usize_mod
unfolding drop_all
drop_all-live stats [] rest e small = e ∙ ap (λ t. t % usize_mod) (omega arith)
drop_all-live stats (h ∷ hs) rest e small =
    drop_all-live (drop_handle stats h) hs rest
      (live_bytes-drop_handle stats h (lens hs + rest) (e ∙ ap (λ t. t % usize_mod) (omega arith))
        (omega arith))
      (omega arith)

lens-reverse : (xs : List AllocHandle) → lens (reverse xs) ≡ lens xs
lens-reverse [] = refl
lens-reverse (x ∷ xs) =
    ap lens (reverse-cons x xs) ∙ lens-append (reverse xs) (x ∷ []) ∙ omega (arith, lens-reverse xs)

drop_buckets-live :
    (stats : AllocStats) (bs : Buckets) (rest : ℕ)
    → stats.live_bytes ≡ (bytes bs + rest) % usize_mod
    → bytes bs < usize_mod
    → (drop_buckets stats bs).live_bytes ≡ rest % usize_mod
unfolding drop_buckets
drop_buckets-live stats [] rest e small = e ∙ ap (λ t. t % usize_mod) (omega arith)
drop_buckets-live stats ((k, b) ∷ bs) rest e small =
    drop_buckets-live (drop_all stats (reverse b.handles)) bs rest
      (drop_all-live stats (reverse b.handles) (bytes bs + rest)
        (e ∙ ap (λ t. t % usize_mod) (omega (arith, lens-reverse b.handles)))
        (omega (arith, lens-reverse b.handles)))
      (omega arith)

-- `clear` frees what the global pool holds: the invariant holds after it, with no cached bytes.
pub clear-Inv :
    (w : World) (out : ℕ)
    → Inv out w
    → Inv out (clear w) × ((clear w).inner.cached_bytes ≡ 0) × ((clear w).inner.buckets ≡ [])
unfolding clear
clear-Inv w out v =
    let fits = v.global.bounded in
    (
      record {
        global = record {
          filed = tt;
          counted = refl;
          limited = omega arith;
          bounded = v.global.bounded;
        };
        local = v.local;
        live =
            drop_buckets-live w.stats w.inner.buckets (out + tl_bytes w.cache)
              (v.live ∙ ap (λ t. t % usize_mod) (omega arith)) (omega (arith, v.global.limited))
            ∙ ap (λ t. t % usize_mod) (omega arith);
      },
      refl,
      refl,
    )
