-- ===== src/Strides/Iter/Yield.antt =====
-- crates/mohu-buffer/src/strides.rs: the runs of `NdIndexIter`.
use mohu_fork_nirman.Base.{
  ℕ, zero, suc, ◌+◌, ◌-◌, ◌≤◌, ◌<◌, ◌≡◌, ◌⊎◌, inl, inr, refl, ap, subst, ◌∙◌, sym, List, true,
  Option, none, some, arith, dec_lt,
}
use mohu_fork_nirman.Base.Words.{usize_mod}
use mohu_fork_nirman.Errors.{ok}
use mohu_fork_nirman.Strides.{shape_size, unravel_index}
use mohu_fork_nirman.Strides.Bounds.{product, InBounds, linear, linear-injective}
use mohu_fork_nirman.Strides.Size.{shape_size-ok}
use mohu_fork_nirman.Strides.Ravel.{ravel_multi_index-unravel_index}
use mohu_fork_nirman.Strides.Iter.{NdIndexIter, new, next}
use mohu_fork_nirman.Strides.Iter.Runs.{At, new-At, next-At, counted_up, shape-finish, next-stopped}

-- The iterator after `k` calls of `next`, and what the call after those returns.
unfoldable pub after : ℕ → NdIndexIter → NdIndexIter
after zero it = it
after (suc k) it = (next (after k it)).1

unfoldable pub nth : ℕ → NdIndexIter → Option (List ℕ)
nth k it = (next (after k it)).0

-- Up to the last index the iterator is on its way, on the shape that it was made with.
abbrev OnWay : List ℕ → ℕ → NdIndexIter → Type 0
OnWay shape k it = (it.shape ≡ shape) × At k it

shape-new : (shape : List ℕ) → (new shape).shape ≡ shape
unfolding new
shape-new shape = refl

after-OnWay :
    (shape : List ℕ) (k : ℕ)
    → product shape < usize_mod
    → k ≤ product shape
    → OnWay shape k (after k (new shape))
unfolding after
after-OnWay shape zero w h = (shape-new shape, new-At shape w)
after-OnWay shape (suc k) w h =
    let it = after k (new shape) in
    let (same, place) = after-OnWay shape k w (omega arith) in
    let size = ap product same in
    let (step, next_place) = next-At k it (omega arith) place (omega arith) in
    subst (OnWay shape (suc k)) (sym (ap (λ r. r.1) step))
      (shape-finish (counted_up it) ∙ same, next_place)

stays : (it : NdIndexIter) (j : ℕ) → it.done ≡ true → after j it ≡ it
unfolding after
stays it zero d = refl
stays it (suc j) d = ap (λ t. (next t).1) (stays it j d) ∙ ap (λ r. r.1) (next-stopped it d)

after-add : (j k : ℕ) (it : NdIndexIter) → after (j + k) it ≡ after j (after k it)
unfolding after
after-add zero k it = let e : zero + k ≡ k = omega arith in ap (λ n. after n it) e
after-add (suc j) k it =
    let e : suc j + k ≡ suc (j + k) = omega arith in
    ap (λ n. after n it) e ∙ ap (λ t. (next t).1) (after-add j k it)

done_at_end :
    (shape : List ℕ) → product shape < usize_mod → (after (product shape) (new shape)).done ≡ true
done_at_end shape w =
    let it = after (product shape) (new shape) in
    let (same, place) = after-OnWay shape (product shape) w (omega arith) in
    elim place.place [
      | inl (less, _, _, _) ↦ absurd (omega (arith, ap product same))
      | inr (_, d) ↦ d
    ]

pub nth-past :
    (shape : List ℕ) (k : ℕ)
    → product shape < usize_mod
    → product shape ≤ k
    → nth k (new shape) ≡ none
unfolding nth
nth-past shape k w h =
    let stop = done_at_end shape w in
    let whole : k ≡ k - product shape + product shape = omega arith in
    let rest =
      ap (λ n. after n (new shape)) whole
      ∙ after-add (k - product shape) (product shape) (new shape)
      ∙ stays _ (k - product shape) stop in
    ap (λ t. (next t).0) rest ∙ ap (λ r. r.0) (next-stopped _ stop)

pub nth-within :
    (shape : List ℕ) (k : ℕ)
    → product shape < usize_mod
    → k < product shape
    → (idx : List ℕ) × (nth k (new shape) ≡ some idx) × InBounds idx shape × (linear idx shape ≡ k)
unfolding nth
nth-within shape k w h =
    let it = after k (new shape) in
    let (same, place) = after-OnWay shape k w (omega arith) in
    let size = ap product same in
    let (step, _) = next-At k it (omega arith) place (omega arith) in
    elim place.place [
      | inl (_, _, within, number) ↦ (
        it.current,
        ap (λ r. r.0) step,
        subst (λ s. InBounds it.current s) same within,
        ap (linear it.current) (sym same) ∙ number,
      )
      | inr (all, _) ↦ absurd (omega arith)
    ]

-- For a shape whose size `shape_size` gives, the call of `next` after `k` others returns the index
-- that `unravel_index` gives for `k`, for every `k` below the size, and nothing from the size on; so the
-- iterator yields every index of the shape once, in row-major order.
pub nth-unravel_index :
    (shape : List ℕ) (size k : ℕ)
    → shape_size shape ≡ ok size
    → ((k < size)
        × ((idx : List ℕ) × (nth k (new shape) ≡ some idx) × (unravel_index k shape ≡ ok idx)))
      ⊎ ((size ≤ k) × (nth k (new shape) ≡ none))
nth-unravel_index shape size k s =
    let (n, small) = shape_size-ok shape size s in
    elim (dec_lt k size) [
      | yes p ↦
          let (idx, e, within, number) = nth-within shape k (omega arith) (omega arith) in
          let (jdx, f, within', number', _) = ravel_multi_index-unravel_index shape size k s p in
          inl (
            p,
            (
              idx,
              e,
              subst (λ j. unravel_index k shape ≡ ok j)
                  (linear-injective jdx idx shape within' within (number' ∙ sym number)) f,
            ),
          )
      | no q ↦ inr (omega arith, nth-past shape k (omega arith) (omega arith))
    ]
