-- ===== src/Buffer/Views.antt =====
-- crates/mohu-buffer/src/buffer.rs: a view of a buffer reads the elements of the buffer.
use mohu_fork_nirman.Base.{
  ℕ, suc, ◌+◌, ◌*◌, ◌<◌, ◌≡◌, refl, ap, ap₂, sym, subst, set, ◌∙◌, List, length, get_or, ==_iff,
}
use mohu_fork_nirman.Base.Ints.{pos}
use mohu_fork_nirman.Base.Words.{usize_mod}
use mohu_fork_nirman.Errors.{
  err_not_ok, panic_not_ok, MohuResult, ok, err, panic, ◌>>=◌, ok-injective,
}
use mohu_fork_nirman.DType.{DType, itemsize}
use mohu_fork_nirman.Strides.Bounds.{InBounds}
use mohu_fork_nirman.Layout.{Layout, byte_offset_unchecked}
use mohu_fork_nirman.Layout.Indexed.{byte_offset-within}
use mohu_fork_nirman.Layout.Permute.{permute, gather}
use mohu_fork_nirman.Layout.Permuted.{permute-byte_offset}
use mohu_fork_nirman.Layout.Slice.{SliceArg, clamp, map_or, unwrap_or, slice_axis}
use mohu_fork_nirman.Layout.Sliced.{slice_axis-byte_offset}
use mohu_fork_nirman.Buffer.{BufferFlags, Memory, Buffer, clone_raw}
use mohu_fork_nirman.Buffer.Copy.{read}
use mohu_fork_nirman.Buffer.Access.{get, check_dtype, view_as, permute_buffer, slice_buffer}

clone_raw-read :
    (mem : Memory) (k off n : ℕ) → read ((clone_raw mem k).raws k) off n ≡ read (mem.raws k) off n
unfolding clone_raw read
clone_raw-read mem k off n = rw ((==_iff k k).1 refl) refl

-- A view with another layout reads at an index what the buffer reads at an index with the same offset.
pub get-view_as :
    (mem : Memory) (t : DType) (buf : Buffer) (m : Layout) (flags : BufferFlags)
    (idx source : List ℕ)
    → InBounds idx m.shape
    → InBounds source buf.layout.shape
    → byte_offset_unchecked m idx ≡ byte_offset_unchecked buf.layout source
    → get (clone_raw mem buf.raw) t (record buf { layout = m; flags = flags }) idx
      ≡ get mem t buf source
unfolding get check_dtype
get-view_as mem t buf m flags idx source inside inside' same =
    rw (byte_offset-within m idx inside, byte_offset-within buf.layout source inside', same)
      (ap (λ r. check_dtype t buf >>= λ done. r)
        (clone_raw-read mem buf.raw (byte_offset_unchecked buf.layout source) (itemsize t)))

pub view_as-ok :
    (mem : Memory) (buf view : Buffer) (mem' : Memory) (layout : MohuResult Layout)
    (flags : Layout → BufferFlags)
    → view_as mem buf layout flags ≡ (ok view, mem')
    → (m : Layout) × (layout ≡ ok m)
      × (view ≡ record buf { layout = m; flags = flags m })
      × (mem' ≡ clone_raw mem buf.raw)
unfolding view_as
view_as-ok mem buf view mem' (ok m) flags made = (
  m,
  refl,
  ok-injective (ap (λ (p : MohuResult Buffer × Memory). p.0) (sym made)),
  ap (λ (p : MohuResult Buffer × Memory). p.1) (sym made),
)
view_as-ok mem buf view mem' (err e) flags made =
    absurd (err_not_ok (ap (λ (p : MohuResult Buffer × Memory). p.0) made))
view_as-ok mem buf view mem' panic flags made =
    absurd (panic_not_ok (ap (λ (p : MohuResult Buffer × Memory). p.0) made))

-- Where `permute` gives a view of a buffer whose layout has a stride for each axis, the view reads at the
-- entries of an index, taken in the order of the axes, what the buffer reads at the index.
pub get-permute_buffer :
    (mem mem' : Memory) (t : DType) (buf view : Buffer) (axes idx : List ℕ)
    → buf.layout.offset < usize_mod
    → length buf.layout.strides ≡ length buf.layout.shape
    → permute_buffer mem buf axes ≡ (ok view, mem')
    → InBounds idx buf.layout.shape
    → get mem' t view (gather axes idx) ≡ get mem t buf idx
unfolding permute_buffer
get-permute_buffer mem mem' t buf view axes idx w s made within =
    let (m, laid, same, kept) = view_as-ok mem buf view mem' (permute buf.layout axes) _ made in
    let (inside, offsets) = permute-byte_offset buf.layout m axes idx w s laid within in
    ap₂ (λ a b. get a t b (gather axes idx)) kept same
    ∙ get-view_as mem t buf m _ (gather axes idx) idx inside within offsets

-- Where `slice_axis` with a positive step `n + 1` gives a view of a buffer whose layout has a stride for
-- each axis, the view reads at an index within it what the buffer reads at the index with
-- `start + i * (n + 1)` in place of the axis's entry `i`.
pub get-slice_buffer :
    (mem mem' : Memory) (t : DType) (buf view : Buffer) (axis n : ℕ) (arg : SliceArg) (idx : List ℕ)
    → buf.layout.offset < usize_mod
    → length buf.layout.strides ≡ length buf.layout.shape
    → unwrap_or arg.step (pos 1) ≡ pos (suc n)
    → slice_buffer mem buf axis arg ≡ (ok view, mem')
    → InBounds idx view.layout.shape
    → get mem' t view idx
      ≡ get mem t buf (
          set idx axis (
            map_or arg.start 0 (clamp (get_or buf.layout.shape axis 0))
            + get_or idx axis 0 * suc n))
unfolding slice_buffer
get-slice_buffer mem mem' t buf view axis n arg idx w s step made within =
    let (m, laid, same, kept) =
      view_as-ok mem buf view mem' (slice_axis buf.layout axis arg) _ made in
    let within' = subst (λ (b : Buffer). InBounds idx b.layout.shape) same within in
    let (inside, offsets) =
      slice_axis-byte_offset buf.layout m axis n arg idx w s step laid within' in
    ap₂ (λ a b. get a t b idx) kept same ∙ get-view_as mem t buf m _ idx _ within' inside offsets
