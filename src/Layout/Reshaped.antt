-- ===== src/Layout/Reshaped.antt =====
-- crates/mohu-buffer/src/layout.rs: the offsets of indices in a reshaped layout.
use mohu_fork_nirman.Base.{
  ℕ, ◌+◌, ◌*◌, ◌≤◌, ◌<◌, ◌≡◌, inl, inr, refl, ap, sym, ◌∙◌, List, [], ◌∷◌, true, false, ◌||◌, ◌==◌,
  ==_iff, if◌then◌else◌, length, arith, Bool-cases, ℕ_discrete, ne→==, text_eq, text_eq→eq,
}
use mohu_fork_nirman.Base.Words.{usize_mod, isize_max}
use mohu_fork_nirman.Errors.{ok, ok-injective}
use mohu_fork_nirman.Strides.{c_strides, c_strides_from}
use mohu_fork_nirman.Strides as strides_module
use mohu_fork_nirman.Strides.Bounds.{product, InBounds, linear}
use mohu_fork_nirman.Strides.Address.{byte_offset-c_strides}
use mohu_fork_nirman.Strides.Iter.{wrapping_product}
use mohu_fork_nirman.Strides.Iter.Runs.{total-new}
use mohu_fork_nirman.Layout.{
  Layout, ndim, size, contains_zero, is_empty, is_c_contiguous, reshape, byte_offset_unchecked,
}

InBounds-contains_zero : (is ds : List ℕ) → InBounds is ds → contains_zero ds ≡ false
unfolding contains_zero
InBounds-contains_zero [] [] b = refl
InBounds-contains_zero [] (d ∷ ds) b = absurd b
InBounds-contains_zero (i ∷ is) [] b = refl
InBounds-contains_zero (i ∷ is) (d ∷ ds) b = ground (arith, b.0, InBounds-contains_zero is ds b.1)

pub contiguous_strides :
    (shape strides idx : List ℕ) (item : ℕ)
    → length strides ≡ length shape
    → InBounds idx shape
    → (if contains_zero shape || length shape == 0
        then true
        else text_eq strides (c_strides shape item))
      ≡ true
    → strides ≡ c_strides shape item
unfolding c_strides c_strides_from
contiguous_strides [] [] idx item s b h = refl
contiguous_strides [] (t ∷ ss) idx item s b h = absurd (omega arith)
contiguous_strides (d ∷ ds) strides idx item s b h =
    text_eq→eq strides _
      (rw (InBounds-contains_zero idx (d ∷ ds) b, ne→== (length (d ∷ ds)) 0 (omega arith)) at h)

abbrev reshaped : Layout → List ℕ → Layout
reshaped l new_shape = record {
  shape = new_shape;
  strides = c_strides new_shape l.itemsize;
  offset = l.offset;
  itemsize = l.itemsize;
}

reshape_parts :
    (l m : Layout) (new_shape : List ℕ)
    → reshape l new_shape ≡ ok m
    → (is_c_contiguous l ≡ true)
      × (size l ≡ wrapping_product 1 new_shape)
      × (m ≡ reshaped l new_shape)
unfolding reshape
reshape_parts l m new_shape h = elim (Bool-cases (is_c_contiguous l)) [
  | inr c ↦ absurd (ground (arith, c, h))
  | inl c ↦ elim (ℕ_discrete (size l) (wrapping_product 1 new_shape)) [
    | no n ↦ absurd (ground (arith, c, ne→== (size l) (wrapping_product 1 new_shape) n, h))
    | yes p ↦ (
      c,
      p,
      ok-injective (sym (rw (c, (==_iff (size l) (wrapping_product 1 new_shape)).1 p) at h)),
    )
  ]
]

-- Where `reshape` gives a view of a layout with a stride for each axis, whose bytes end below 2 ^ 64 and
-- take at most `isize::MAX`, and the new shape's exact size is a `usize`, the two shapes have the
-- same size, and indices with the same row-major number in the two read the same byte offset.
pub reshape-byte_offset :
    (l m : Layout) (new_shape idx jdx : List ℕ)
    → 0 < l.itemsize
    → length l.strides ≡ length l.shape
    → l.itemsize * product l.shape ≤ isize_max
    → l.offset + l.itemsize * product l.shape < usize_mod
    → product l.shape < usize_mod
    → product new_shape < usize_mod
    → reshape l new_shape ≡ ok m
    → InBounds idx l.shape
    → InBounds jdx new_shape
    → linear jdx new_shape ≡ linear idx l.shape
    → (product new_shape ≡ product l.shape)
      × (byte_offset_unchecked m jdx ≡ byte_offset_unchecked l idx)
unfolding byte_offset_unchecked size is_c_contiguous is_empty ndim
reshape-byte_offset l m new_shape idx jdx q s fits top small small' made b b' number =
    let (c, sizes, same) = reshape_parts l m new_shape made in
    let equal : product new_shape ≡ product l.shape =
      sym (total-new new_shape small') ∙ sym sizes ∙ total-new l.shape small in
    let strides = contiguous_strides l.shape l.strides idx l.itemsize s b c in
    let old = byte_offset-c_strides l.shape idx l.itemsize l.offset q fits top b in
    let new =
      byte_offset-c_strides new_shape jdx l.itemsize l.offset q (rw equal fits) (rw equal top) b' in
    (
      equal,
      ap (λ (v : Layout). byte_offset_unchecked v jdx) same
          ∙ new.0
          ∙ ap (λ k. l.offset + l.itemsize * k) number
          ∙ sym (ap (λ ss. strides_module.byte_offset idx ss l.offset) strides ∙ old.0),
    )
