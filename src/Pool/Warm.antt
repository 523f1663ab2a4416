-- ===== src/Pool/Warm.antt =====
-- crates/mohu-buffer/src/pool.rs: `warm` fills the global pool within its limit.
use mohu_fork_nirman.Base.{
  ℕ, ◌+◌, ◌^◌, ◌%◌, ◌≤◌, ◌<◌, ◌≡◌, ◌⊎◌, inl, inr, refl, ap, subst, ◌∙◌, List, [], ◌∷◌, Option,
  arith, ==_iff, ne→==, ℕ_discrete, dec_lt, lt→ltb, ge→ltb,
}
use mohu_fork_nirman.Base.Words.{usize_mod, isize_max, add_word}
use mohu_fork_nirman.Errors.{MohuResult, ok, err, panic, allocation_failed}
use mohu_fork_nirman.Alloc.{AllocHandle, drop_handle}
use mohu_fork_nirman.Pool.{Buckets, World, size_class, alloc_in, push_class}
use mohu_fork_nirman.Pool.Maintain.{alloc_many, store_many, warm, drop_all}
use mohu_fork_nirman.Pool.Buckets.{lens, bytes, Filed, push_class-Filed, add_word-small}
use mohu_fork_nirman.Pool.Invariant.{Inv, Served, alloc_in-Served, size_class_lem}
use mohu_fork_nirman.Pool.Release.{dropped-live}

-- Handles of one length.
abbrev pub OfLen : ℕ → List AllocHandle → Type 0
OfLen n [] = Unit {0}
OfLen n (h ∷ hs) = (h.len ≡ n) × OfLen n hs

pub Served-cases :
    (P : AllocHandle → Type 0) (out : ℕ) (r : MohuResult AllocHandle × World)
    → Served P out r
    → ((h : AllocHandle) × (r.0 ≡ ok h) × Inv (out + h.len) r.1 × P h)
      ⊎ ((len : ℕ) × (r.0 ≡ err (allocation_failed len)) × Inv out r.1)
Served-cases P out (ok h, w) (v, p) = inl (h, refl, v, p)
Served-cases P out (err e, w) (v, (len, cause)) = inr (len, ap err cause, v)
Served-cases P out (panic, w) v = absurd v

-- The outcome of the inner loop of `warm`.
abbrev Stocked : ℕ → ℕ → MohuResult (List AllocHandle) × World → Type 0
Stocked class out (ok hs, w) = Inv (out + lens hs) w × OfLen class hs
Stocked class out (err e, w) = Inv out w × ((len : ℕ) × (e ≡ allocation_failed len))
Stocked class out (panic, w) = ⊥

Stocked-cases :
    (class out : ℕ) (r : MohuResult (List AllocHandle) × World)
    → Stocked class out r
    → ((hs : List AllocHandle) × (r.0 ≡ ok hs) × Inv (out + lens hs) r.1 × OfLen class hs)
      ⊎ ((len : ℕ) × (r.0 ≡ err (allocation_failed len)) × Inv out r.1)
Stocked-cases class out (ok hs, w) (v, p) = inl (hs, refl, v, p)
Stocked-cases class out (err e, w) (v, (len, cause)) = inr (len, ap err cause, v)
Stocked-cases class out (panic, w) v = absurd v

drop_handle-Inv :
    (w : World) (h : AllocHandle) (out : ℕ)
    → h.len ≤ isize_max
    → Inv (out + h.len) w
    → Inv out (record w { stats = drop_handle w.stats h })
drop_handle-Inv w h out small v = record {
  global = v.global;
  local = v.local;
  live = dropped-live w h out small v;
}

drop_all-Inv :
    (w : World) (hs : List AllocHandle) (class out : ℕ)
    → class ≤ isize_max
    → OfLen class hs
    → Inv (out + lens hs) w
    → Inv out (record w { stats = drop_all w.stats hs })
unfolding drop_all
drop_all-Inv w [] class out small own v =
    let v' = subst (λ o. Inv o w) (omega arith) v in
    record { global = v'.global; local = v'.local; live = v'.live }
drop_all-Inv w (h ∷ hs) class out small (same, own) v =
    drop_all-Inv (record w { stats = drop_handle w.stats h }) hs class out small own
      (drop_handle-Inv w h (out + lens hs) (omega arith) (subst (λ o. Inv o w) (omega arith) v))

alloc_many-Stocked :
    (answers : List (Option ℕ)) (w : World) (class out : ℕ)
    → class ≤ isize_max
    → Inv out w
    → Stocked class out (alloc_many answers w class)
unfolding alloc_many
alloc_many-Stocked [] w class out small v = (subst (λ o. Inv o w) (omega arith) v, tt)
alloc_many-Stocked (a ∷ answers) w class out small v =
    let w1 = (alloc_in a w class).1 in
    elim (Served-cases (λ h. h.len ≡ class) out (alloc_in a w class)
      (alloc_in-Served a w class out v)) [
        | inr (len, e, v1) ↦ rw (e, alloc_many, Stocked) (v1, (len, refl))
        | inl (h, e, v1, same) ↦
            rw (e, alloc_many, Stocked)
              (elim (Stocked-cases class (out + h.len) (alloc_many answers w1 class)
                (alloc_many-Stocked answers w1 class (out + h.len) small v1)) [
                  | inl (hs, e2, v2, own) ↦
                      rw (e2, alloc_many, Stocked)
                        (
                          subst (λ o. Inv o (alloc_many answers w1 class).1) (omega arith) v2,
                          (same, own),
                        )
                  | inr (len, e2, v2) ↦
                      rw (e2, alloc_many, Stocked)
                        (drop_handle-Inv _ h out (omega arith) v2, (len, refl))
                ])
      ]

push_class-own :
    (h : AllocHandle) (bs : Buckets) (class : ℕ)
    → size_class h.len ≡ class
    → Filed bs
    → 0 < h.len
    → h.len + bytes bs < usize_mod
    → Filed (push_class class h bs) × (bytes (push_class class h bs) ≡ h.len + bytes bs)
push_class-own h bs class e f p small =
    let (filed, sum, number) = push_class-Filed h bs f p small in
    subst (λ c. Filed (push_class c h bs) × (bytes (push_class c h bs) ≡ h.len + bytes bs)) e
      (filed, sum)

store_many-Inv :
    (hs : List AllocHandle) (w : World) (class out : ℕ)
    → class ≤ isize_max
    → 0 < class
    → size_class class ≡ class
    → OfLen class hs
    → Inv (out + lens hs) w
    → Inv out (store_many w class hs)
unfolding store_many
store_many-Inv [] w class out small positive fixed own v = subst (λ o. Inv o w) (omega arith) v
store_many-Inv (h ∷ hs) w class out small positive fixed (same, own) v =
    let fits = v.global.bounded in
    let limit = v.global.limited in
    let room = add_word-small w.inner.cached_bytes h.len (omega (arith, v.global.counted)) in
    elim (dec_lt w.max_cached_bytes (add_word w.inner.cached_bytes h.len)) [
      | yes full ↦
          rw (lt→ltb w.max_cached_bytes (add_word w.inner.cached_bytes h.len) full)
            (drop_all-Inv w (h ∷ hs) class out small (same, own) v)
      | no free ↦
          let (filed, sum) =
            push_class-own h w.inner.buckets class (ap size_class same ∙ fixed) v.global.filed
              (omega arith) (omega arith) in
          rw (ge→ltb w.max_cached_bytes (add_word w.inner.cached_bytes h.len) free) (
            store_many-Inv hs _ class out small positive fixed own (record {
              global = record {
                filed = filed;
                counted = room ∙ omega (arith, v.global.counted, sum);
                limited = omega (arith, v.global.counted, sum, room);
                bounded = v.global.bounded;
              };
              local = v.local;
              live = v.live ∙ ap (λ t. t % usize_mod) (omega (arith, sum));
            }))
    ]

-- The sizes of a call of `warm` are up to 2 ^ 62.
abbrev pub SmallSizes : List (ℕ × List (Option ℕ)) → Type 0
SmallSizes [] = Unit {0}
SmallSizes ((size, answers) ∷ sizes) = (size ≤ 2 ^ 62) × SmallSizes sizes

-- `warm` for sizes up to 2 ^ 62 either succeeds or fails with the allocation error; in both cases the
-- invariant holds after it, with the callers holding what they held: no handle that it made leaks.
pub warm-Inv :
    (sizes : List (ℕ × List (Option ℕ))) (w : World) (out : ℕ)
    → SmallSizes sizes
    → Inv out w
    → Inv out (warm w sizes).1
      × (((warm w sizes).0 ≡ ok tt)
          ⊎ ((len : ℕ) × ((warm w sizes).0 ≡ err (allocation_failed len))))
unfolding warm
warm-Inv [] w out small v = (v, inl refl)
warm-Inv ((size, answers) ∷ sizes) w out (small, others) v = elim (ℕ_discrete size 0) [
  | yes z ↦ rw ((==_iff size 0).1 z, warm) (warm-Inv sizes w out others v)
  | no p ↦
      let (above, word, again) = size_class_lem size small in
      let made = alloc_many answers w (size_class size) in
      rw (ne→== size 0 p, warm)
        (elim (Stocked-cases (size_class size) out made
          (alloc_many-Stocked answers w (size_class size) out word v)) [
            | inr (len, e, v1) ↦ rw (e, warm) (v1, inr (len, refl))
            | inl (hs, e, v1, own) ↦
                rw (e, warm)
                  (warm-Inv sizes _ out others (
                    store_many-Inv hs made.1 (size_class size) out word (omega arith) again own v1))
          ])
]
