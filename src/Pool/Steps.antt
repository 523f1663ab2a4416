-- ===== src/Pool/Steps.antt =====
-- crates/mohu-buffer/src/pool.rs: any sequence of calls by one thread, and the handles that its callers
-- hold.
use mohu_fork_nirman.Base.{
  ℕ, ◌+◌, ◌^◌, ◌%◌, ◌≤◌, ◌≡◌, refl, ap, subst, ◌∙◌, List, [], ◌∷◌, ◌++◌, Option, arith,
}
use mohu_fork_nirman.Base.Words.{usize_mod, isize_max}
use mohu_fork_nirman.Errors.{MohuResult, ok, err, panic}
use mohu_fork_nirman.Alloc.{AllocHandle}
use mohu_fork_nirman.Pool.{World, acquire, release, empty_world}
use mohu_fork_nirman.Pool.Fast.{fast_acquire, fast_release, drain_thread_local, release_all}
use mohu_fork_nirman.Pool.Maintain.{trim, clear, warm}
use mohu_fork_nirman.Pool.Buckets.{lens, bytes}
use mohu_fork_nirman.Pool.Invariant.{Inv, Served, FitSmall, tl_bytes, acquire-Served}
use mohu_fork_nirman.Pool.Release.{release-Inv, drain_thread_local-Inv, clear-Inv, lens-append}
use mohu_fork_nirman.Pool.Cache.{fast_acquire-Served, fast_release-Inv}
use mohu_fork_nirman.Pool.Trim.{trim-Inv}
use mohu_fork_nirman.Pool.Warm.{warm-Inv, SmallSizes}

-- What the callers hold after a request.
abbrev pub hold : MohuResult AllocHandle → List AllocHandle → List AllocHandle
hold (ok h) held = h ∷ held
hold (err e) held = held
hold panic held = held

-- One call: a request up to 2 ^ 62 bytes, the return of any handle that is held, or upkeep.
pub data Step (w : World) (held : List AllocHandle) : World → List AllocHandle → Type 0 where
  acquiring :
      (system : Option ℕ) (n : ℕ)
      → n ≤ 2 ^ 62
      → Step w held (acquire system w n).1 (hold (acquire system w n).0 held)
  fast_acquiring :
      (system : Option ℕ) (n : ℕ)
      → n ≤ 2 ^ 62
      → Step w held (fast_acquire system w n).1 (hold (fast_acquire system w n).0 held)
  releasing :
      (xs ys : List AllocHandle) (h : AllocHandle)
      → held ≡ xs ++ h ∷ ys
      → Step w held (release w h) (xs ++ ys)
  fast_releasing :
      (xs ys : List AllocHandle) (h : AllocHandle)
      → held ≡ xs ++ h ∷ ys
      → Step w held (fast_release w h) (xs ++ ys)
  draining : Step w held (drain_thread_local w) held
  trimming : (keep_bytes : ℕ) → Step w held (trim w keep_bytes) held
  clearing : Step w held (clear w) held
  warming :
      (sizes : List (ℕ × List (Option ℕ))) → SmallSizes sizes → Step w held (warm w sizes).1 held

-- The states that calls lead to, from a new pool with a limit and no handle held.
pub data Reach (limit : ℕ) : World → List AllocHandle → Type 0 where
  start : Reach limit (empty_world limit) []
  next :
      {w w' : World} {held held' : List AllocHandle}
      → Reach limit w held
      → Step w held w' held'
      → Reach limit w' held'

-- Handles of at most `isize::MAX` bytes.
abbrev pub Small : List AllocHandle → Type 0
Small [] = Unit {0}
Small (h ∷ hs) = (h.len ≤ isize_max) × Small hs

Small-split :
    (xs : List AllocHandle) (h : AllocHandle) (ys : List AllocHandle)
    → Small (xs ++ h ∷ ys)
    → (h.len ≤ isize_max) × Small (xs ++ ys)
Small-split [] h ys s = s
Small-split (x ∷ xs) h ys (p, s) = let (small, rest) = Small-split xs h ys s in (small, (p, rest))

held-Inv :
    (w : World) (held xs ys : List AllocHandle) (h : AllocHandle)
    → held ≡ xs ++ h ∷ ys
    → Inv (lens held) w
    → Inv (lens (xs ++ ys) + h.len) w
held-Inv w held xs ys h e v =
    subst (λ o. Inv o w) (ap lens e ∙ lens-append xs (h ∷ ys) ∙ omega (arith, lens-append xs ys)) v

hold-Inv :
    (n : ℕ) (held : List AllocHandle) (r : MohuResult AllocHandle × World)
    → Small held
    → Served (FitSmall n) (lens held) r
    → Inv (lens (hold r.0 held)) r.1 × Small (hold r.0 held)
hold-Inv n held (ok h, w) s (v, (small, fit)) = (subst (λ o. Inv o w) (omega arith) v, (small, s))
hold-Inv n held (err e, w) s (v, cause) = (v, s)
hold-Inv n held (panic, w) s v = absurd v

Step-Inv :
    {w w' : World} {held held' : List AllocHandle}
    → Step w held w' held'
    → Inv (lens held) w × Small held
    → Inv (lens held') w' × Small held'
Step-Inv {w = w} {held = held} (acquiring system n small) (v, s) =
    hold-Inv n held (acquire system w n) s (acquire-Served system w n (lens held) small v)
Step-Inv {w = w} {held = held} (fast_acquiring system n small) (v, s) =
    hold-Inv n held (fast_acquire system w n) s (fast_acquire-Served system w n (lens held) small v)
Step-Inv {w = w} {held = held} (releasing xs ys h e) (v, s) =
    let (small, rest) = Small-split xs h ys (subst Small e s) in
    (release-Inv w h (lens (xs ++ ys)) small (held-Inv w held xs ys h e v), rest)
Step-Inv {w = w} {held = held} (fast_releasing xs ys h e) (v, s) =
    let (small, rest) = Small-split xs h ys (subst Small e s) in
    (fast_release-Inv w h (lens (xs ++ ys)) small (held-Inv w held xs ys h e v), rest)
Step-Inv {w = w} {held = held} draining (v, s) = (drain_thread_local-Inv w (lens held) v, s)
Step-Inv {w = w} {held = held} (trimming keep_bytes) (v, s) =
    ((trim-Inv w keep_bytes (lens held) v).0, s)
Step-Inv {w = w} {held = held} clearing (v, s) = ((clear-Inv w (lens held) v).0, s)
Step-Inv {w = w} {held = held} (warming sizes small) (v, s) =
    ((warm-Inv sizes w (lens held) small v).0, s)

reached :
    (limit : ℕ) {w : World} {held : List AllocHandle}
    → limit ≤ isize_max
    → Reach limit w held
    → Inv (lens held) w × Small held
unfolding empty_world
reached limit bound start = (
  record {
    global = record { filed = tt; counted = refl; limited = omega arith; bounded = bound };
    local = record { filed = tt; counted = refl; limited = omega arith; slots = omega arith };
    live = refl;
  },
  tt,
)
reached limit bound (next r step) = Step-Inv step (reached limit bound r)

-- After any sequence of calls on a new pool whose limit is at most `isize::MAX` (requests up to 2 ^ 62
-- bytes, returns of handles that are held, `drain_thread_local`, `trim`, `clear`, `warm`), both tiers
-- file and count their handles, within their limits, and the live bytes of the process are those
-- that the callers and the two tiers hold.
pub reach-Inv :
    (limit : ℕ) (w : World) (held : List AllocHandle)
    → limit ≤ isize_max
    → Reach limit w held
    → Inv (lens held) w
reach-Inv limit w held bound r = (reached limit bound r).0

release-cache : (w : World) (h : AllocHandle) → (release w h).cache ≡ w.cache
unfolding release
release-cache w h = ground arith

release_all-cache :
    (handles : List (ℕ × AllocHandle)) (w : World) → (release_all w handles).cache ≡ w.cache
unfolding release_all
release_all-cache [] w = refl
release_all-cache ((k, h) ∷ rest) w = release_all-cache rest (release w h) ∙ release-cache w h

drained-cache : (w : World) → (clear (drain_thread_local w)).cache ≡ []
unfolding drain_thread_local clear
drained-cache w = release_all-cache w.cache _

-- Nothing leaks: after any sequence of calls (as for the invariant) on a new pool whose limit is at most
-- `isize::MAX` that leaves no handle held, `drain_thread_local` and then `clear` bring the live
-- bytes of the process to zero.
pub clear-drain_thread_local :
    (limit : ℕ) (w : World)
    → limit ≤ isize_max
    → Reach limit w []
    → (clear (drain_thread_local w)).stats.live_bytes ≡ 0
clear-drain_thread_local limit w bound r =
    let (v, none_cached, none_filed) =
      clear-Inv (drain_thread_local w) 0
        (drain_thread_local-Inv w 0 (reach-Inv limit w [] bound r)) in
    let empty = drained-cache w in
    let after = clear (drain_thread_local w) in
    let none_live : 0 + bytes after.inner.buckets + tl_bytes after.cache ≡ 0 =
      omega (arith, ap bytes none_filed, ap tl_bytes empty) in
    v.live ∙ ap (λ t. t % usize_mod) none_live
