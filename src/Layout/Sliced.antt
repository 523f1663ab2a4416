-- ===== src/Layout/Sliced.antt =====
-- crates/mohu-buffer/src/layout.rs: the offsets of indices in a sliced layout.
use mohu_fork_nirman.Base.{
  ℕ, zero, suc, ◌+◌, ◌*◌, ◌<◌, ◌≡◌, ap, subst, sym, ◌∙◌, List, [], ◌∷◌, length, get_or, set,
  length-set, arith, dec_le, le→leb,
}
use mohu_fork_nirman.Base.Ints.{pos}
use mohu_fork_nirman.Base.Words.{usize_mod, add_word, mul_word}
use mohu_fork_nirman.Errors.{ok, ok-injective}
use mohu_fork_nirman.Strides.Bounds.{InBounds, InBounds-length}
use mohu_fork_nirman.Strides.Reach.{byte_offset-stepped}
use mohu_fork_nirman.Layout.{Layout, ndim, byte_offset_unchecked}
use mohu_fork_nirman.Layout.Slice.{SliceArg, clamp, map_or, unwrap_or, resolve, slice_axis}
use mohu_fork_nirman.Layout.Resolve.{resolve_forward}

-- An index within a shape whose axis is replaced has its entry below the replacement.
pub InBounds-at :
    (axis c : ℕ) (is ds : List ℕ)
    → axis < length ds
    → InBounds is (set ds axis c)
    → get_or is axis 0 < c
InBounds-at axis c [] [] h b = absurd (omega arith)
InBounds-at zero c [] (d ∷ ds) h b = absurd b
InBounds-at (suc axis) c [] (d ∷ ds) h b = absurd b
InBounds-at axis c (i ∷ is) [] h b = absurd (omega arith)
InBounds-at zero c (i ∷ is) (d ∷ ds) h b = b.0
InBounds-at (suc axis) c (i ∷ is) (d ∷ ds) h b = InBounds-at axis c is ds (omega arith) b.1

-- Both are put back.
pub InBounds-set :
    (axis c j : ℕ) (is ds : List ℕ)
    → InBounds is (set ds axis c)
    → j < get_or ds axis 0
    → InBounds (set is axis j) ds
InBounds-set axis c j [] [] b h = tt
InBounds-set zero c j [] (d ∷ ds) b h = absurd b
InBounds-set (suc axis) c j [] (d ∷ ds) b h = absurd b
InBounds-set axis c j (i ∷ is) [] b h = absurd b
InBounds-set zero c j (i ∷ is) (d ∷ ds) b h = (h, b.1)
InBounds-set (suc axis) c j (i ∷ is) (d ∷ ds) b h = (b.0, InBounds-set axis c j is ds b.1 h)

-- The outcome of `slice_axis` for a slice that resolves.
slice_axis-ok :
    (l : Layout) (axis : ℕ) (arg : SliceArg) (start count step : ℕ)
    → axis < length l.shape
    → resolve arg (get_or l.shape axis 0) ≡ ok (start, count, step)
    → slice_axis l axis arg
      ≡ ok (record {
        shape = set l.shape axis count;
        strides = set l.strides axis (mul_word (get_or l.strides axis 0) step);
        offset = add_word l.offset (mul_word start (get_or l.strides axis 0));
        itemsize = l.itemsize;
      })
unfolding slice_axis ndim
slice_axis-ok l axis arg start count step h r = ground (arith, r)

slice_axis-in_range :
    (l m : Layout) (axis : ℕ) (arg : SliceArg)
    → slice_axis l axis arg ≡ ok m
    → axis < length l.shape
unfolding slice_axis ndim
slice_axis-in_range l m axis arg h = elim (dec_le (length l.shape) axis) [
  | yes p ↦ absurd (ground (arith, le→leb (length l.shape) axis p))
  | no q ↦ omega arith
]

-- Where a layout has a stride for each axis and `slice_axis` with a positive step `n + 1` gives a view,
-- an index within the view stands for the index of the layout with `start + i * (n + 1)` in
-- place of the axis's entry `i`: that index is within the layout, and the view reads its byte
-- offset.
pub slice_axis-byte_offset :
    (l m : Layout) (axis n : ℕ) (arg : SliceArg) (idx : List ℕ)
    → l.offset < usize_mod
    → length l.strides ≡ length l.shape
    → unwrap_or arg.step (pos 1) ≡ pos (suc n)
    → slice_axis l axis arg ≡ ok m
    → InBounds idx m.shape
    → let start = map_or arg.start 0 (clamp (get_or l.shape axis 0)) in
      let source = set idx axis (start + get_or idx axis 0 * suc n) in
      InBounds source l.shape × (byte_offset_unchecked m idx ≡ byte_offset_unchecked l source)
unfolding byte_offset_unchecked
slice_axis-byte_offset l m axis n arg idx w s step made within =
    let h = slice_axis-in_range l m axis arg made in
    let dim = get_or l.shape axis 0 in
    let start = map_or arg.start 0 (clamp dim) in
    let (count, r, selects, last) = resolve_forward arg dim n (get_or idx axis 0) step in
    let same = ok-injective (sym made ∙ slice_axis-ok l axis arg start count (suc n) h r) in
    let inside : InBounds idx (set l.shape axis count) =
      subst (λ (v : Layout). InBounds idx v.shape) same within in
    let below = selects.0 (InBounds-at axis count idx l.shape h inside) in
    let long : length idx ≡ length l.shape =
      InBounds-length idx (set l.shape axis count) inside ∙ length-set l.shape axis count in
    (
      InBounds-set axis count (start + get_or idx axis 0 * suc n) idx l.shape inside (omega arith),
      ap (λ (v : Layout). byte_offset_unchecked v idx) same
          ∙ byte_offset-stepped axis start (suc n) l.offset idx l.strides w (omega arith)
              (omega arith),
    )
