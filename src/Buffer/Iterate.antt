-- ===== src/Buffer/Iterate.antt =====
-- crates/mohu-buffer/src/view.rs: the iterator over the elements of a typed view.
use mohu_fork_nirman.Base.{
  ℕ, zero, suc, ◌+◌, ◌≤◌, ◌<◌, ◌≡◌, refl, ap, sym, subst, ◌∙◌, ◌⊎◌, inl, inr, List, Option, none,
  some,
}
use mohu_fork_nirman.Errors.{MohuResult, ok, ok-injective}
use mohu_fork_nirman.DType.{DType, itemsize}
use mohu_fork_nirman.Strides.{shape_size, unravel_index}
use mohu_fork_nirman.Strides.Bounds.{InBounds}
use mohu_fork_nirman.Strides.Ravel.{ravel_multi_index-unravel_index}
use mohu_fork_nirman.Strides.Iter.{StridedByteIter, new, new_bytes, next_byte, size_hint}
use mohu_fork_nirman.Strides.Iter.Yield.{nth, nth-unravel_index}
use mohu_fork_nirman.Strides.Iter.Bytes.{at_index, after_bytes, nth_byte, nth_byte-nth}
use mohu_fork_nirman.Layout.{byte_offset_unchecked}
use mohu_fork_nirman.Layout.Indexed.{byte_offset-within}
use mohu_fork_nirman.Buffer.{Memory, Buffer}
use mohu_fork_nirman.Buffer.Copy.{read}
use mohu_fork_nirman.Buffer.Access.{view_get}

-- `raw_ptr` is the byte number `start` of the block `raw`.
pub record ViewIter : Type 0 where
  pub raw : ℕ
  pub start : ℕ
  pub iter : StridedByteIter

-- `BufferView::iter`, from the pointer `as_ptr`, which is past the offset of the layout.
unfoldable pub view_iter : Buffer → ViewIter
view_iter view = record {
  raw = view.raw;
  start = view.layout.offset;
  iter = new_bytes view.layout.shape view.layout.strides view.layout.offset;
}

-- The element at an offset that the iterator over the bytes yields.
unfoldable pub element : Memory → DType → ViewIter → Option ℕ → Option (MohuResult (List ℕ))
element mem t it none = none
element mem t it (some off) = some (read (mem.raws it.raw) (it.start + off) (itemsize t))

-- `ViewIter::next`
unfoldable pub view_next : Memory → DType → ViewIter → Option (MohuResult (List ℕ)) × ViewIter
unfolding element
view_next mem t it =
    let (off, rest) = next_byte it.iter in (element mem t it off, record it { iter = rest })

unfoldable pub view_size_hint : ViewIter → ℕ
view_size_hint it = size_hint it.iter.nd_iter

-- The iterator after `k` calls of `next`.
pub after_views : ℕ → Memory → DType → ViewIter → ViewIter
after_views zero mem t it = it
after_views (suc k) mem t it = (view_next mem t (after_views k mem t it)).1

after_views-after_bytes :
    (k : ℕ) (mem : Memory) (t : DType) (it : ViewIter)
    → after_views k mem t it ≡ record it { iter = after_bytes k it.iter }
unfolding after_views after_bytes view_next
after_views-after_bytes zero mem t it = refl
after_views-after_bytes (suc k) mem t it =
    ap (λ i. (view_next mem t i).1) (after_views-after_bytes k mem t it)

-- The item of a call is the element at what the iterator over the indices yields there.
view_next-nth :
    (mem : Memory) (t : DType) (view : Buffer) (k : ℕ)
    → (view_next mem t (after_views k mem t (view_iter view))).0
      ≡ element mem t
          (view_iter view)
          (at_index view.layout.strides view.layout.offset (nth k (new view.layout.shape)))
unfolding view_next view_iter new_bytes nth_byte
view_next-nth mem t view k =
    ap (λ i. (view_next mem t i).0) (after_views-after_bytes k mem t (view_iter view))
    ∙ ap (element mem t (view_iter view))
        (nth_byte-nth k (new_bytes view.layout.shape view.layout.strides view.layout.offset))

-- The element at an index within the shape is what the view reads there.
element-view_get :
    (mem : Memory) (t : DType) (view : Buffer) (idx : List ℕ)
    → InBounds idx view.layout.shape
    → element mem t (view_iter view) (at_index view.layout.strides view.layout.offset (some idx))
      ≡ some (view_get mem t view idx)
unfolding element view_iter view_get byte_offset_unchecked
element-view_get mem t view idx within = rw (byte_offset-within view.layout idx within) refl

-- A view iterates over what it reads. For a view whose shape has a size that `shape_size` gives, the call of `next`
-- after `k` others yields what `BufferView::get` reads at the index that `unravel_index` gives for `k`, for each `k`
-- below the size, and from then on nothing.
pub view_next-view_get :
    (mem : Memory) (t : DType) (view : Buffer) (size k : ℕ)
    → shape_size view.layout.shape ≡ ok size
    → let item = (view_next mem t (after_views k mem t (view_iter view))).0 in
      ((k < size)
        × ((idx : List ℕ) × (unravel_index k view.layout.shape ≡ ok idx)
            × (item ≡ some (view_get mem t view idx))))
      ⊎ ((size ≤ k) × (item ≡ none))
unfolding element
view_next-view_get mem t view size k s = elim (nth-unravel_index view.layout.shape size k s) [
  | inl (less, (idx, yielded, unraveled)) ↦
      let (jdx, unraveled', within, _, _) =
        ravel_multi_index-unravel_index view.layout.shape size k s less in
      let inside : InBounds idx view.layout.shape =
        subst (λ i. InBounds i view.layout.shape) (ok-injective (sym unraveled' ∙ unraveled))
          within in
      inl (
        less,
        (
          idx,
          unraveled,
          view_next-nth mem t view k
              ∙ ap
                  (λ o.
                    element mem t (view_iter view)
                      (at_index view.layout.strides view.layout.offset o))
                  yielded
              ∙ element-view_get mem t view idx inside,
        ),
      )
  | inr (past, yielded) ↦ inr (
    past,
    view_next-nth mem t view k
        ∙ ap
            (λ o.
              element mem t (view_iter view) (at_index view.layout.strides view.layout.offset o))
            yielded,
  )
]
