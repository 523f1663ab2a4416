-- ===== src/Layout/Indexed.antt =====
-- crates/mohu-buffer/src/layout.rs: the offsets of indices, and those of fresh and of broadcast
-- layouts.
use mohu_fork_nirman.Base.{
  ℕ, suc, ◌+◌, ◌*◌, ◌≤◌, ◌<◌, ◌≡◌, ◌⊎◌, inl, inr, refl, ap, sym, ◌∙◌, List, [], ◌∷◌, false, ==_iff,
  length, arith, dec_le, ℕ_discrete, ne→==, le→leb, gt→leb,
}
use mohu_fork_nirman.Base.Words.{usize_mod, isize_max}
use mohu_fork_nirman.Errors.{
  MohuResult, ok, ok-injective, err, >>=-ok, index_out_of_bounds, too_many_indices,
}
use mohu_fork_nirman.Strides.{c_strides, broadcast_strides}
use mohu_fork_nirman.Strides.Bounds.{product, InBounds, InBounds-length, linear}
use mohu_fork_nirman.Strides.Address.{byte_offset-c_strides, row_major, c_strides-row_major}
use mohu_fork_nirman.Strides.Repeated.{source_index, broadcast_strides-byte_offset}
use mohu_fork_nirman.Strides.Validate.{validate_strides}
use mohu_fork_nirman.Strides.Validate.Contiguous.{validate_strides-c_strides}
use mohu_fork_nirman.Layout.{
  Layout, ndim, new_custom, new_c, broadcast_to, check_indices, byte_offset_unchecked, byte_offset,
}

-- The check of the axes from number `axis` on: it passes, or reports the first entry out of bounds.
abbrev Checked : List ℕ → List ℕ → MohuResult (Unit {0}) → Type 0
Checked is ds r =
    (InBounds is ds × (r ≡ ok tt))
    ⊎ ((¬ InBounds is ds)
        × ((i : ℕ) × (axis : ℕ) × (d : ℕ) × (d ≤ i) × (r ≡ err (index_out_of_bounds i axis d))))

check_indices-Checked :
    (axis : ℕ) (is ds : List ℕ) → length is ≡ length ds → Checked is ds (check_indices axis is ds)
unfolding check_indices
check_indices-Checked axis [] [] h = inl (tt, refl)
check_indices-Checked axis [] (d ∷ ds) h = absurd (omega arith)
check_indices-Checked axis (i ∷ is) [] h = absurd (omega arith)
check_indices-Checked axis (i ∷ is) (d ∷ ds) h = elim (dec_le d i) [
  | yes p ↦ rw (le→leb d i p) (inr ((λ b. absurd (omega (arith, b.0))), (i, axis, d, p, refl)))
  | no q ↦ rw (gt→leb d i q) (elim (check_indices-Checked (axis + 1) is ds (omega arith)) [
    | inl (b, r) ↦ inl ((omega arith, b), r)
    | inr (n, e) ↦ inr ((λ b. n b.1), e)
  ])
]

-- `byte_offset` gives the unchecked offset of an index within the layout, and an error for every other
-- index: the count error where its length is not the number of axes, and otherwise the bounds
-- error for an entry that is not below its dimension.
pub byte_offset_iff :
    (l : Layout) (idx : List ℕ)
    → (InBounds idx l.shape × (byte_offset l idx ≡ ok (byte_offset_unchecked l idx)))
      ⊎ ((¬ (length idx ≡ length l.shape))
          × (byte_offset l idx ≡ err (too_many_indices (length idx) (length l.shape))))
      ⊎ ((¬ InBounds idx l.shape)
          × ((i : ℕ) × (axis : ℕ) × (d : ℕ) × (d ≤ i)
              × (byte_offset l idx ≡ err (index_out_of_bounds i axis d))))
unfolding byte_offset ndim
byte_offset_iff l idx = elim (ℕ_discrete (length idx) (length l.shape)) [
  | no n ↦ inr (inl (n, rw (ne→== (length idx) (length l.shape) n) refl))
  | yes p ↦
      rw ((==_iff (length idx) (length l.shape)).1 p)
        (elim (check_indices-Checked 0 idx l.shape p) [
          | inl (b, r) ↦ inl (b, rw r refl)
          | inr (n, (i, axis, d, h, r)) ↦ inr (inr (n, (i, axis, d, h, rw r refl)))
        ])
]

pub byte_offset-within :
    (l : Layout) (idx : List ℕ)
    → InBounds idx l.shape
    → byte_offset l idx ≡ ok (byte_offset_unchecked l idx)
byte_offset-within l idx b = elim (byte_offset_iff l idx) [
  | inl (_, e) ↦ e
  | inr (inl (n, _)) ↦ absurd (n (InBounds-length idx l.shape b))
  | inr (inr (n, _)) ↦ absurd (n b)
]

abbrev pub fresh : List ℕ → ℕ → Layout
fresh shape item = record {
  shape = shape;
  strides = c_strides shape item;
  offset = 0;
  itemsize = item;
}

length-row_major : (ds : List ℕ) (item : ℕ) → length (row_major ds item) ≡ length ds
length-row_major [] item = refl
length-row_major (d ∷ ds) item = ap suc (length-row_major ds item)

new_custom-fresh :
    (shape strides : List ℕ) (item : ℕ)
    → 0 < item
    → length strides ≡ length shape
    → validate_strides shape strides item false ≡ ok tt
    → new_custom shape strides 0 item
      ≡ ok (record { shape = shape; strides = strides; offset = 0; itemsize = item })
unfolding new_custom
new_custom-fresh shape strides item q l v = ground (arith, v)

-- `new_c` on a shape with no zero whose elements take at most `isize::MAX` bytes.
pub new_c-fresh :
    (shape : List ℕ) (item : ℕ)
    → 0 < item
    → 0 < product shape
    → item * product shape ≤ isize_max
    → new_c shape item ≡ ok (fresh shape item)
unfolding new_c
new_c-fresh shape item q p h =
    new_custom-fresh shape (c_strides shape item) item q
      (ap length (c_strides-row_major shape item q p h) ∙ length-row_major shape item)
      (validate_strides-c_strides shape item q p h)

-- For a shape with no zero whose elements take at most `isize::MAX` bytes, `new_c` succeeds, and
-- in the layout that it gives an index within the shape has the offset of its row-major number
-- times the item size, which leaves an item below the size in bytes.
pub new_c-byte_offset :
    (shape idx : List ℕ) (item : ℕ)
    → 0 < item
    → 0 < product shape
    → item * product shape ≤ isize_max
    → InBounds idx shape
    → (l : Layout) × (new_c shape item ≡ ok l)
      × (byte_offset l idx ≡ ok (item * linear idx shape))
      × (item * linear idx shape + item ≤ item * product shape)
unfolding new_c byte_offset_unchecked
new_c-byte_offset shape idx item q p h b =
    let (same, below) = byte_offset-c_strides shape idx item 0 q h (omega arith) b in
    let long : length (c_strides shape item) ≡ length shape =
      ap length (c_strides-row_major shape item q p h) ∙ length-row_major shape item in
    (
      fresh shape item,
      new_custom-fresh shape (c_strides shape item) item q long
          (validate_strides-c_strides shape item q p h),
      byte_offset-within (fresh shape item) idx b ∙ ap ok (omega (arith, same)),
      omega (arith, same, below),
    )

-- Where `broadcast_to` succeeds on a layout with a stride for each axis, an index within the new shape
-- stands for a source index within the layout, with leading axes dropped and repeated axes read
-- at 0, and both read the same byte offset.
pub broadcast_to-byte_offset :
    (l m : Layout) (new_shape idx : List ℕ)
    → l.offset < usize_mod
    → length l.shape ≡ length l.strides
    → broadcast_to l new_shape ≡ ok m
    → InBounds idx new_shape
    → InBounds (source_index l.shape new_shape idx) l.shape
      × (byte_offset_unchecked m idx ≡ byte_offset_unchecked l (source_index l.shape new_shape idx))
unfolding broadcast_to byte_offset_unchecked
broadcast_to-byte_offset l m new_shape idx w s made b =
    let (strides, r, e) = >>=-ok (broadcast_strides l.shape l.strides new_shape) _ made in
    let (inside, same) =
      broadcast_strides-byte_offset l.shape l.strides new_shape strides idx l.offset s r w b in
    (inside, ap (λ (v : Layout). byte_offset_unchecked v idx) (ok-injective (sym e)) ∙ same)
