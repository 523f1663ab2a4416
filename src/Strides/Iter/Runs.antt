-- ===== src/Strides/Iter/Runs.antt =====
-- crates/mohu-buffer/src/strides.rs: the state between calls of `next`, and what one call does to it.
use native.Mathlib.Nat.{mod-eq_of_lt, one-mul, mul_assoc}
use mohu_fork_nirman.Base.{
  ℕ, suc, ◌+◌, ◌*◌, ◌-◌, ◌%◌, ◌<◌, ◌≡◌, ◌⊎◌, inl, inr, refl, ap, ◌∙◌, List, [], ◌∷◌, Bool, true,
  false, ltb, ◌==◌, if◌then◌else◌, length, replicate, none, some, arith, dec_lt, lt→ltb, ge→ltb,
}
use mohu_fork_nirman.Base.Words.{usize_mod, add_word, mul_word, add_word-eq-add, mod-mul}
use mohu_fork_nirman.Strides.Bounds.{product, InBounds, linear, positive-mul}
use mohu_fork_nirman.Strides.Iter.{NdIndexIter, wrapping_product, new, advance_loop, advance, next}
use mohu_fork_nirman.Strides.Iter.Odometer.{Advanced, advance_loop-Advanced}

mul_word-lt : (a b : ℕ) → mul_word a b < usize_mod
unfolding mul_word
mul_word-lt a b = omega arith

mul_word-mod : (a d p : ℕ) → mul_word a d * p % usize_mod ≡ a * (d * p) % usize_mod
unfolding mul_word
mul_word-mod a d p = mod-mul (a * d) p usize_mod ∙ ap (λ t. t % usize_mod) (mul_assoc a d p)

-- The product of a shape wraps as one.
wrapping_product-mod :
    (acc : ℕ) (ds : List ℕ)
    → acc < usize_mod
    → wrapping_product acc ds ≡ acc * product ds % usize_mod
unfolding wrapping_product
wrapping_product-mod acc [] h = omega arith
wrapping_product-mod acc (d ∷ ds) h =
    wrapping_product-mod (mul_word acc d) ds (mul_word-lt acc d) ∙ mul_word-mod acc d (product ds)

-- The state after `k` calls: the index to come is the one numbered `k`, or all are done.
pub record At (k : ℕ) (it : NdIndexIter) : Type 0 where
  pub counted : it.count ≡ k
  pub whole : it.total ≡ product it.shape
  pub place :
      ((k < product it.shape)
        × (it.done ≡ false)
        × InBounds it.current it.shape
        × (linear it.current it.shape ≡ k))
      ⊎ ((product it.shape ≡ k) × (it.done ≡ true))

zeros-InBounds : (ds : List ℕ) → 0 < product ds → InBounds (replicate (length ds) 0) ds
zeros-InBounds [] h = tt
zeros-InBounds (d ∷ ds) h =
    let (hd, hp) = positive-mul d (product ds) h in (hd, zeros-InBounds ds hp)

zeros-linear : (ds : List ℕ) → linear (replicate (length ds) 0) ds ≡ 0
zeros-linear [] = refl
zeros-linear (d ∷ ds) = omega (arith, zeros-linear ds)

pub total-new :
    (shape : List ℕ) → product shape < usize_mod → wrapping_product 1 shape ≡ product shape
total-new shape w =
    wrapping_product-mod 1 shape (omega arith)
    ∙ ap (λ p. p % usize_mod) (one-mul (product shape))
    ∙ mod-eq_of_lt w

pub new-At : (shape : List ℕ) → product shape < usize_mod → At 0 (new shape)
unfolding new
new-At shape w = ground (arith, total-new shape w, zeros-InBounds shape, zeros-linear shape)

axes-pos : (ds : List ℕ) → 1 < product ds → 0 < length ds
axes-pos [] h = omega arith
axes-pos (d ∷ ds) h = omega arith

pos→ne : {n : ℕ} → 0 < n → (n == 0) ≡ false
pos→ne {n} h = ground arith

Advanced-next :
    (shape current : List ℕ) (out : List ℕ × Bool)
    → Advanced shape current out
    → linear current shape + 1 < product shape
    → (out.1 ≡ false) × InBounds out.0 shape × (linear out.0 shape ≡ linear current shape + 1)
Advanced-next shape current (after, false) a h = (refl, a.0, a.1)
Advanced-next shape current (after, true) a h = absurd (omega arith)

advance_loop-next :
    (shape current : List ℕ) (k : ℕ)
    → 0 < length shape
    → product shape < usize_mod
    → InBounds current shape
    → linear current shape ≡ k
    → suc k < product shape
    → let out = advance_loop (length shape - 1) shape current in
      (out.1 ≡ false) × InBounds out.0 shape × (linear out.0 shape ≡ suc k)
advance_loop-next shape current k axes w b l h =
    let walk = advance_loop-Advanced (length shape - 1) shape current (omega arith) w b in
    let (going, within, number) = Advanced-next shape current _ walk (omega arith) in
    (going, within, omega arith)

-- One call of `advance` before the last index.
advance-At :
    (k : ℕ) (it : NdIndexIter)
    → it.count ≡ suc k
    → it.total ≡ product it.shape
    → it.done ≡ false
    → InBounds it.current it.shape
    → linear it.current it.shape ≡ k
    → suc k < product it.shape
    → product it.shape < usize_mod
    → At (suc k) (advance it)
unfolding advance
advance-At k it c t n b l h w =
    let axes = axes-pos it.shape (omega arith) in
    let (going, within, number) = advance_loop-next it.shape it.current k axes w b l h in
    rw (pos→ne axes)
      (record { counted = c; whole = t; place = inl (h, rw going n, within, number) })

-- What `next` leaves once it has counted the index.
pub finish : NdIndexIter → NdIndexIter
finish c = if ltb c.count c.total then advance c else record c { done = true }

abbrev pub counted_up : NdIndexIter → NdIndexIter
counted_up it = record it { count = add_word it.count 1 }

next-running :
    (it : NdIndexIter) → it.done ≡ false → next it ≡ (some it.current, finish (counted_up it))
unfolding next finish
next-running it r = ground arith

pub next-stopped : (it : NdIndexIter) → it.done ≡ true → next it ≡ (none, it)
unfolding next
next-stopped it r = ground arith

finish-At :
    (k : ℕ) (c : NdIndexIter)
    → c.count ≡ suc k
    → c.total ≡ product c.shape
    → c.done ≡ false
    → InBounds c.current c.shape
    → linear c.current c.shape ≡ k
    → k < product c.shape
    → product c.shape < usize_mod
    → At (suc k) (finish c)
unfolding finish
finish-At k c n t r b l h w = elim (dec_lt (suc k) (product c.shape)) [
  | yes p ↦ rw (lt→ltb c.count c.total (omega arith)) (advance-At k c n t r b l p w)
  | no q ↦
      rw (ge→ltb c.count c.total (omega arith))
        (record { counted = n; whole = t; place = inr (omega arith, refl) })
]

pub next-At :
    (k : ℕ) (it : NdIndexIter)
    → product it.shape < usize_mod
    → At k it
    → k < product it.shape
    → (next it ≡ (some it.current, finish (counted_up it))) × At (suc k) (finish (counted_up it))
next-At k it w v h = elim v.place [
  | inl (less, running, within, number) ↦ (
    next-running it running,
    finish-At k (counted_up it)
        (ap (λ c. add_word c 1) v.counted ∙ add_word-eq-add k 1 (omega arith) ∙ omega arith) v.whole
        running within number h w,
  )
  | inr (all, stopped) ↦ absurd (omega arith)
]

pub shape-finish : (c : NdIndexIter) → (finish c).shape ≡ c.shape
unfolding finish advance
shape-finish c = ground arith
