-- ===== src/Pool/Cache.antt =====
-- crates/mohu-buffer/src/pool.rs: the thread's cache, `fast_acquire` and `fast_release`.
use mohu_fork_nirman.Base.{
  ℕ, suc, ◌+◌, ◌^◌, ◌%◌, ◌≤◌, ◌<◌, ◌≡◌, ◌⊎◌, inl, inr, refl, ap, sym, ◌∙◌, List, [], ◌∷◌, ◌++◌,
  Option, none, some, ◌&&◌, &&-true, arith, ltb, leb, ==_iff, ne→==, length, length-append,
  ℕ_discrete, dec_le, le→leb, gt→leb, leb→le, ltb→lt, Bool-cases,
}
use mohu_fork_nirman.Base.Words.{usize_mod, isize_max, add_word}
use mohu_fork_nirman.Alloc.{AllocHandle}
use mohu_fork_nirman.Pool.{World, size_class, tl_slots, tl_max_bytes, alloc_in}
use mohu_fork_nirman.Pool.Fast.{
  last_or, but_last, fill_gap, take_class, fast_acquire, fast_release, cur_bytes,
}
use mohu_fork_nirman.Pool.Buckets.{add_word-small}
use mohu_fork_nirman.Pool.Invariant.{
  tl_bytes, OfCache, Inv, Served, Served-map, FitSmall, alloc_in-Served, acquire-Served,
}
use mohu_fork_nirman.Pool.Release.{dropped-live, release-Inv}

-- The cache with its last entry put in front, as `swap_remove` leaves the tail.
fill_gap-OfCache :
    (x : ℕ × AllocHandle) (ys : List (ℕ × AllocHandle))
    → OfCache (x ∷ ys)
    → OfCache (last_or x ys ∷ but_last (x ∷ ys))
      × (tl_bytes (last_or x ys ∷ but_last (x ∷ ys)) ≡ tl_bytes (x ∷ ys))
      × (length (but_last (x ∷ ys)) ≡ length ys)
unfolding last_or but_last
fill_gap-OfCache (k, h) [] f = (f, refl, refl)
fill_gap-OfCache (k, h) (y ∷ ys) (p, e, f) =
    let (kept, sum, long) = fill_gap-OfCache y ys f in
    ((kept.0, kept.1, (p, e, kept.2)), omega (arith, sum), ap suc long)

fill_gap-kept :
    (rest : List (ℕ × AllocHandle))
    → OfCache rest
    → OfCache (fill_gap rest)
      × (tl_bytes (fill_gap rest) ≡ tl_bytes rest)
      × (length (fill_gap rest) ≡ length rest)
unfolding fill_gap
fill_gap-kept [] f = (f, refl, refl)
fill_gap-kept (y ∷ ys) f =
    let (kept, sum, long) = fill_gap-OfCache y ys f in (kept, sum, ap suc long)

take_class-lem :
    (class : ℕ) (cache : List (ℕ × AllocHandle))
    → OfCache cache
    → (take_class class cache ≡ none)
      ⊎ ((h : AllocHandle) × (cache' : List (ℕ × AllocHandle)) × (take_class class cache
            ≡ some (h, cache'))
          × OfCache cache'
          × (tl_bytes cache ≡ h.len + tl_bytes cache')
          × (length cache ≡ suc (length cache'))
          × (size_class h.len ≡ class))
unfolding take_class
take_class-lem class [] f = inl refl
take_class-lem class ((k, h) ∷ rest) (p, own, f) = elim (ℕ_discrete k class) [
  | yes e ↦
      let (kept, sum, long) = fill_gap-kept rest f in
      rw ((==_iff k class).1 e)
        (inr (h, fill_gap rest, refl, kept, omega (arith, sum), ap suc (sym long), own ∙ e))
  | no n ↦ rw (ne→== k class n) (elim (take_class-lem class rest f) [
    | inl e ↦ inl (rw e refl)
    | inr (h', rest', e, kept, sum, long, same) ↦
        inr (h', ((k, h) ∷ rest'), rw e refl, (p, own, kept), omega (arith, sum), ap suc long, same)
  ])
]

-- `fast_acquire` of up to 2 ^ 62 bytes either gives a handle of the request's size class, empty for an
-- empty request, which the callers hold from then on, or fails with the allocation error; the
-- invariant holds after it in each case.
pub fast_acquire-Served :
    (system : Option ℕ) (w : World) (n out : ℕ)
    → n ≤ 2 ^ 62
    → Inv out w
    → Served (FitSmall n) out (fast_acquire system w n)
unfolding fast_acquire
fast_acquire-Served system w n out small v = elim (ℕ_discrete n 0) [
  | yes z ↦ rw ((==_iff n 0).1 z) (
      Served-map (λ h. h.len ≡ 0) (FitSmall n) out (alloc_in system w 0)
        (λ h e. (omega arith, inl (z, e))) (alloc_in-Served system w 0 out v))
  | no p ↦ rw (ne→== n 0 p) (elim (dec_le (size_class n) tl_max_bytes) [
    | no big ↦ rw (gt→leb (size_class n) tl_max_bytes big) (acquire-Served system w n out small v)
    | yes local ↦
        rw (le→leb (size_class n) tl_max_bytes local)
          (elim (take_class-lem (size_class n) w.cache v.local.filed) [
            | inl e ↦ rw e (
                acquire-Served system _ n out small (record {
                  global = v.global;
                  local = record {
                    filed = v.local.filed;
                    counted = v.local.counted;
                    limited = v.local.limited;
                    slots = v.local.slots;
                  };
                  live = v.live;
                }))
            | inr (h, cache, e, kept, sum, long, same) ↦ rw e (
              record {
                global = v.global;
                local = record {
                  filed = kept;
                  counted = omega (arith, v.local.counted, sum);
                  limited = omega (arith, v.local.limited, sum);
                  slots = omega (arith, v.local.slots, long);
                };
                live = v.live ∙ ap (λ t. t % usize_mod) (omega (arith, sum));
              },
              (omega (arith, v.local.limited, sum), inr same),
            )
          ])
  ])
]

cur_bytes-small :
    (total : ℕ) (cache : List (ℕ × AllocHandle))
    → total + tl_bytes cache < usize_mod
    → cur_bytes total cache ≡ total + tl_bytes cache
unfolding cur_bytes
cur_bytes-small total [] h = omega arith
cur_bytes-small total ((k, a) ∷ rest) h =
    ap (λ t. cur_bytes t rest) (add_word-small total a.len (omega arith))
    ∙ cur_bytes-small (total + a.len) rest (omega arith)
    ∙ omega arith

OfCache-snoc :
    (cache : List (ℕ × AllocHandle)) (h : AllocHandle)
    → OfCache cache
    → 0 < h.len
    → OfCache (cache ++ (size_class h.len, h) ∷ [])
      × (tl_bytes (cache ++ (size_class h.len, h) ∷ []) ≡ tl_bytes cache + h.len)
OfCache-snoc [] h f p = ((p, refl, tt), omega arith)
OfCache-snoc ((k, a) ∷ rest) h (q, e, f) p =
    let (kept, sum) = OfCache-snoc rest h f p in ((q, e, kept), omega (arith, sum))

-- `fast_release` of a handle that the callers hold, of at most `isize::MAX` bytes, keeps the
-- invariant: the handle is cached in one of the two tiers or freed.
pub fast_release-Inv :
    (w : World) (h : AllocHandle) (out : ℕ)
    → h.len ≤ isize_max
    → Inv (out + h.len) w
    → Inv out (fast_release w h)
unfolding fast_release
fast_release-Inv w h out small v = elim (ℕ_discrete h.len 0) [
  | yes z ↦
      rw ((==_iff h.len 0).1 z)
        (record { global = v.global; local = v.local; live = dropped-live w h out small v })
  | no p ↦
      let accepted =
        leb (size_class h.len) tl_max_bytes
        && (ltb (length w.cache) tl_slots
            && leb (add_word (cur_bytes 0 w.cache) h.len) tl_max_bytes) in
      rw (ne→== h.len 0 p) (elim (Bool-cases accepted) [
        | inr e ↦ rw e (release-Inv w h out small v)
        | inl e ↦
            let limit = v.local.limited in
            let (_, slots_room) = &&-true (leb (size_class h.len) tl_max_bytes) _ e in
            let (slots, room) = &&-true (ltb (length w.cache) tl_slots) _ slots_room in
            let current = cur_bytes-small 0 w.cache (omega arith) in
            let total = add_word-small (cur_bytes 0 w.cache) h.len (omega (arith, current)) in
            let fits = leb→le _ _ room in
            let (kept, sum) = OfCache-snoc w.cache h v.local.filed (omega arith) in
            rw e (record {
              global = v.global;
              local = record {
                filed = kept;
                counted =
                    add_word-small w.tl_stats.cached_bytes h.len (omega (arith, v.local.counted))
                    ∙ omega (arith, v.local.counted, sum);
                limited = omega (arith, sum, fits, total, current);
                slots = omega (
                  arith,
                  length-append w.cache ((size_class h.len, h) ∷ []),
                  ltb→lt (length w.cache) tl_slots slots,
                );
              };
              live = v.live ∙ ap (λ t. t % usize_mod) (omega (arith, sum));
            })
      ])
]
