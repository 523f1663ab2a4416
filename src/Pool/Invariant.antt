-- ===== src/Pool/Invariant.antt =====
-- crates/mohu-buffer/src/pool.rs: what every call keeps of a pool, a thread's cache and the counters.
use mohu_fork_nirman.Base.{
  ℕ, ◌+◌, ◌^◌, ◌%◌, ◌≤◌, ◌<◌, ◌≡◌, ◌⊎◌, inl, inr, refl, ap, ◌∙◌, List, [], ◌∷◌, Option, arith,
  ==_iff, ne→==, length, ℕ_discrete,
}
use mohu_fork_nirman.Base.Words.{usize_mod, isize_max, add_word, sub_word}
use mohu_fork_nirman.Errors.{MohuResult, ok, err, panic, allocation_failed}
use mohu_fork_nirman.Alloc.{AllocStats, AllocHandle, simd_align, next_power_of_two, alloc}
use mohu_fork_nirman.Alloc.Outcome.{Allocated, alloc-Allocated}
use mohu_fork_nirman.Alloc.Sizes.{next_power_of_two_lem}
use mohu_fork_nirman.Pool.{
  TlStats, PoolInner, Buckets, World, size_class, alloc_in, acquire, tl_slots, tl_max_bytes,
}
use mohu_fork_nirman.Pool.Buckets.{bytes, Filed, Taken, pop_class-Taken, sub_word-add}

abbrev pub tl_bytes : List (ℕ × AllocHandle) → ℕ
tl_bytes [] = 0
tl_bytes ((k, h) ∷ rest) = h.len + tl_bytes rest

-- The thread's cache files its handles under their classes, none of them empty.
abbrev pub OfCache : List (ℕ × AllocHandle) → Type 0
OfCache [] = Unit {0}
OfCache ((k, h) ∷ rest) = (0 < h.len) × (size_class h.len ≡ k) × OfCache rest

-- The global pool counts the bytes that it holds, within its limit.
pub record Global (max_cached_bytes : ℕ) (inner : PoolInner) : Type 0 where
  pub filed : Filed inner.buckets
  pub counted : inner.cached_bytes ≡ bytes inner.buckets
  pub limited : bytes inner.buckets ≤ max_cached_bytes
  pub bounded : max_cached_bytes ≤ isize_max

-- So does a thread's cache.
pub record Local (cache : List (ℕ × AllocHandle)) (st : TlStats) : Type 0 where
  pub filed : OfCache cache
  pub counted : st.cached_bytes ≡ tl_bytes cache
  pub limited : tl_bytes cache ≤ tl_max_bytes
  pub slots : length cache ≤ tl_slots

-- The invariant, where the callers hold `out` bytes: both tiers are in order, and the live bytes are
-- those that the callers and the two tiers hold.
pub record Inv (out : ℕ) (w : World) : Type 0 where
  pub global : Global w.max_cached_bytes w.inner
  pub local : Local w.cache w.tl_stats
  pub live : w.stats.live_bytes ≡ (out + bytes w.inner.buckets + tl_bytes w.cache) % usize_mod

-- The outcome of a request, where the callers held `out` bytes before it: a handle with `P`, which they
-- now hold too, or the allocation error; never a panic.
abbrev pub Served : (AllocHandle → Type 0) → ℕ → MohuResult AllocHandle × World → Type 0
Served P out (ok h, w) = Inv (out + h.len) w × P h
Served P out (err e, w) = Inv out w × ((len : ℕ) × (e ≡ allocation_failed len))
Served P out (panic, w) = ⊥

pub Served-map :
    (P Q : AllocHandle → Type 0) (out : ℕ) (r : MohuResult AllocHandle × World)
    → ((h : AllocHandle) → P h → Q h)
    → Served P out r
    → Served Q out r
Served-map P Q out (ok h, w) f (v, p) = (v, f h p)
Served-map P Q out (err e, w) f v = v
Served-map P Q out (panic, w) f v = v

-- Other counters than the bytes do not matter.
pub live_bytes-lt : (out : ℕ) (w : World) → Inv out w → w.stats.live_bytes < usize_mod
live_bytes-lt out w v = omega (arith, v.live)

with_stats-Served :
    (w : World) (len out : ℕ) (p : MohuResult AllocHandle × AllocStats)
    → Inv out w
    → Allocated w.stats len p
    → Served (λ h. h.len ≡ len) out (p.0, record w { stats = p.1 })
with_stats-Served w len out (ok h, stats) v (same, counted) = (
  record { global = v.global; local = v.local; live = omega (arith, v.live, counted, same) },
  same,
)
with_stats-Served w len out (err e, stats) v (positive, cause, same) = (
  record {
    global = v.global;
    local = v.local;
    live = ap (λ (s : AllocStats). s.live_bytes) same ∙ v.live;
  },
  (len, cause),
)
with_stats-Served w len out (panic, stats) v a = absurd a

pub alloc_in-Served :
    (system : Option ℕ) (w : World) (len out : ℕ)
    → Inv out w
    → Served (λ h. h.len ≡ len) out (alloc_in system w len)
unfolding alloc_in
alloc_in-Served system w len out v =
    with_stats-Served w len out (alloc system w.stats len simd_align) v
      (alloc-Allocated system w.stats len simd_align (live_bytes-lt out w v))

-- A handle serves a request where both have the same size class; a request for nothing gets an
-- empty handle.
abbrev pub Fit : ℕ → AllocHandle → Type 0
Fit n h = ((n ≡ 0) × (h.len ≡ 0)) ⊎ (size_class h.len ≡ size_class n)

size_class_one : size_class 1 ≡ 1
unfolding size_class next_power_of_two
size_class_one = refl

-- The class of a size up to 2 ^ 62: a size of its own class, which fits in an `isize`.
pub size_class_lem :
    (n : ℕ)
    → n ≤ 2 ^ 62
    → (n ≤ size_class n) × (size_class n ≤ isize_max) × (size_class (size_class n) ≡ size_class n)
unfolding size_class
size_class_lem n h = elim (ℕ_discrete n 0) [
  | yes z ↦ rw ((==_iff n 0).1 z) (omega arith, omega arith, size_class_one)
  | no p ↦
      let (above, positive, tight, again) = next_power_of_two_lem n (omega arith) in
      let small : ¬ (next_power_of_two n ≡ 0) = omega arith in
      rw (ne→== n 0 p)
        (above, ground (arith, tight), rw (ne→== (next_power_of_two n) 0 small) again)
]

acquire-hit :
    (w : World) (h : AllocHandle) (buckets : Buckets) (out n : ℕ)
    → Inv out w
    → Taken w.inner.buckets h buckets
    → size_class h.len ≡ size_class n
    → Inv (out + h.len) (record w {
      inner = record {
        buckets = buckets;
        cached_bytes = sub_word w.inner.cached_bytes h.len;
        hit_count = add_word w.inner.hit_count 1;
        miss_count = w.inner.miss_count;
        return_count = w.inner.return_count;
      };
    })
acquire-hit w h buckets out n v (filed, positive, sum, number) same =
    let fits = v.global.bounded in
    record {
      global = record {
        filed = filed;
        counted =
            ap (λ c. sub_word c h.len) (v.global.counted ∙ sum)
            ∙ sub_word-add h.len (bytes buckets) (omega (arith, v.global.limited));
        limited = omega (arith, v.global.limited);
        bounded = v.global.bounded;
      };
      local = v.local;
      live = omega (arith, v.live);
    }

-- A request up to 2 ^ 62 bytes.
abbrev pub FitSmall : ℕ → AllocHandle → Type 0
FitSmall n h = (h.len ≤ isize_max) × Fit n h

pub acquire-Served :
    (system : Option ℕ) (w : World) (n out : ℕ)
    → n ≤ 2 ^ 62
    → Inv out w
    → Served (FitSmall n) out (acquire system w n)
unfolding acquire
acquire-Served system w n out small v = elim (ℕ_discrete n 0) [
  | yes z ↦ rw ((==_iff n 0).1 z) (
      Served-map (λ h. h.len ≡ 0) (FitSmall n) out (alloc_in system w 0)
        (λ h e. (omega arith, inl (z, e))) (alloc_in-Served system w 0 out v))
  | no p ↦
      let (above, word, again) = size_class_lem n small in
      let fits = v.global.bounded in
      let limit = v.global.limited in
      rw (ne→== n 0 p)
        (elim (pop_class-Taken (size_class n) w.inner.buckets v.global.filed (omega arith)) [
          | inr (h, buckets, e, taken, own) ↦
              rw e (acquire-hit w h buckets out n v taken own, (omega (arith, taken.2), inr own))
          | inl e ↦ rw e (
              Served-map (λ h. h.len ≡ size_class n) (FitSmall n) out _
                (λ h e. (omega arith, inr (ap size_class e ∙ again)))
                (alloc_in-Served system
                  (record w {
                    inner = record w.inner { miss_count = add_word w.inner.miss_count 1 };
                  })
                  (size_class n) out
                  (record {
                    global = record {
                      filed = v.global.filed;
                      counted = v.global.counted;
                      limited = v.global.limited;
                      bounded = v.global.bounded;
                    };
                    local = v.local;
                    live = v.live;
                  })))
        ])
]
