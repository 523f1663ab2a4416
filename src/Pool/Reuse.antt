-- ===== src/Pool/Reuse.antt =====
-- crates/mohu-buffer/src/pool.rs: which handle a request gets.
use mohu_fork_nirman.Base.{
  ℕ, ◌^◌, ◌≤◌, ◌<◌, ◌≡◌, inl, inr, refl, sym, subst, ◌∙◌, [], ◌∷◌, Option, some, arith, ==_iff,
  ne→==, ℕ_discrete, dec_lt, lt→ltb, ge→ltb,
}
use mohu_fork_nirman.Base.Words.{add_word, sub_word}
use mohu_fork_nirman.Errors.{ok}
use mohu_fork_nirman.Alloc.{AllocHandle, alloc}
use mohu_fork_nirman.Alloc.Sizes.{next_power_of_two_lem, next_power_of_two-wraps}
use mohu_fork_nirman.Pool.{
  Buckets, World, PoolBucket, push, pop, new_bucket, size_class, pop_class, push_class, acquire,
  release, alloc_in,
}
use mohu_fork_nirman.Pool.Buckets.{pop_class-Taken}
use mohu_fork_nirman.Pool.Invariant.{Inv}

-- A bucket after a handle was pushed and popped.
abbrev repushed : PoolBucket → AllocHandle → PoolBucket
repushed b h = record {
  handles = b.handles;
  cached_bytes = sub_word (add_word b.cached_bytes h.len) h.len;
}

-- The last handle filed under a class is the first one taken.
pop_class-push_class :
    (class : ℕ) (h : AllocHandle) (bs : Buckets)
    → (bs' : Buckets) × (pop_class class (push_class class h bs) ≡ some (h, bs'))
unfolding pop_class push_class push pop sub_word add_word
pop_class-push_class class h [] =
    (((class, repushed new_bucket h) ∷ []), rw ((==_iff class class).1 refl) refl)
pop_class-push_class class h ((k, b) ∷ rest) = elim (ℕ_discrete class k) [
  | yes e ↦
      rw ((==_iff class k).1 e, pop_class)
        (((k, repushed b h) ∷ rest), rw ((==_iff class k).1 e) refl)
  | no n ↦ rw (ne→== class k n) (elim (dec_lt class k) [
    | yes l ↦
        rw (lt→ltb class k l)
          (((class, repushed new_bucket h) ∷ (k, b) ∷ rest), rw ((==_iff class class).1 refl) refl)
    | no g ↦
        let (rest', later) = pop_class-push_class class h rest in
        rw (ge→ltb class k g) (((k, b) ∷ rest'), rw (ne→== class k n, later) refl)
  ])
]

-- A handle that `release` caches is the one that the next `acquire` of its size class gets (the pool is
-- last in, first out), whatever the length of the handle and of the request within the class.
pub acquire-release :
    (system : Option ℕ) (w : World) (h : AllocHandle) (n : ℕ)
    → 0 < h.len
    → add_word w.inner.cached_bytes h.len ≤ w.max_cached_bytes
    → ¬ (n ≡ 0)
    → size_class n ≡ size_class h.len
    → (acquire system (release w h) n).0 ≡ ok h
unfolding acquire release
acquire-release system w h n positive room asked same =
    let (buckets, found) = pop_class-push_class (size_class h.len) h w.inner.buckets in
    let e =
      subst (λ c. pop_class c (push_class (size_class h.len) h w.inner.buckets) ≡ some (h, buckets))
        (sym same) found in
    rw
      (
        ne→== n 0 asked,
        ne→== h.len 0 (omega arith),
        ge→ltb w.max_cached_bytes (add_word w.inner.cached_bytes h.len) (omega arith),
        e,
      )
      refl

wrapped_class : (n : ℕ) → 2 ^ 63 < n → size_class n ≡ 0
unfolding size_class
wrapped_class n h = rw (ne→== n 0 (omega arith)) (next_power_of_two-wraps n h)

small_class : (n : ℕ) → n ≤ 2 ^ 63 → ¬ (size_class n ≡ 0)
unfolding size_class
small_class n h = elim (ℕ_discrete n 0) [
  | yes z ↦ rw ((==_iff n 0).1 z) (omega arith)
  | no p ↦ rw (ne→== n 0 p) (omega (arith, next_power_of_two_lem n h))
]

-- A request for more than 2 ^ 63 bytes does not fail: its size class wraps to 0, and it gets an empty
-- handle, in every state where the invariant holds.
pub acquire_wraps :
    (system : Option ℕ) (w : World) (n out : ℕ)
    → 2 ^ 63 < n
    → Inv out w
    → (h : AllocHandle) × ((acquire system w n).0 ≡ ok h) × (h.len ≡ 0)
unfolding acquire alloc_in alloc
acquire_wraps system w n out big v =
    let fits = v.global.bounded in
    let limit = v.global.limited in
    let wrapped = wrapped_class n big in
    rw (ne→== n 0 (omega arith))
      (elim (pop_class-Taken (size_class n) w.inner.buckets v.global.filed (omega arith)) [
        | inl e ↦ rw (e, wrapped) (_, refl, refl)
        | inr (h, buckets, e, taken, own) ↦
            absurd (small_class h.len (omega (arith, taken.2)) (own ∙ wrapped))
      ])
