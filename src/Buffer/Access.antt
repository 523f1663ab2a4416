-- ===== src/Buffer/Access.antt =====
-- crates/mohu-buffer/src/buffer.rs and view.rs: elements read and written, shares of a buffer, and the typed
-- views. A value of a scalar type is the list of its bytes.
use mohu_fork_nirman.Base.{ℕ, ◌+◌, Bool, true, false, not, Option, List, ltb, if◌then◌else◌}
use mohu_fork_nirman.Errors.{
  MohuResult, ok, err, panic, ◌>>=◌, dtype_mismatch, dtype_name, read_only, cannot_resize_shared,
}
use mohu_fork_nirman.DType.{DType, itemsize}
use mohu_fork_nirman.DType.Code.{as_u8, dtype_eq}
use mohu_fork_nirman.Layout.{
  Layout, byte_offset, byte_offset_unchecked, reshape, broadcast_to, expand_dims, squeeze,
}
use mohu_fork_nirman.Layout.Permute.{permute, transpose}
use mohu_fork_nirman.Layout.Slice.{SliceArg, slice_axis}
use mohu_fork_nirman.Buffer.{
  BufferFlags, Memory, Buffer, then_do, clone_raw, insert_flags, remove_flags, only_writeable,
  only_c_contiguous, only_f_contiguous, compute_flags,
}
use mohu_fork_nirman.Buffer.Copy.{read, write, is_writeable, make_unique}

unfoldable pub check_dtype : DType → Buffer → MohuResult (Unit {0})
check_dtype t buf =
    if not (dtype_eq t buf.dtype)
    then err (dtype_mismatch (dtype_name (as_u8 t)) (dtype_name (as_u8 buf.dtype)))
    else ok tt

-- `Buffer::get` at the scalar type with dtype `t`.
unfoldable pub get : Memory → DType → Buffer → List ℕ → MohuResult (List ℕ)
unfolding check_dtype
get mem t buf indices = check_dtype t buf >>= λ done.
    byte_offset buf.layout indices >>= λ off. read (mem.raws buf.raw) off (itemsize t)

-- The checks of `set`, and of a view that can write.
unfoldable pub check_writeable : DType → Buffer → MohuResult (Unit {0})
unfolding check_dtype
check_writeable t buf =
    check_dtype t buf >>= λ done. if not (is_writeable buf) then err read_only else ok tt

unfoldable pub write_value :
    List ℕ → ℕ → Buffer × Memory → MohuResult (Unit {0}) × (Buffer × Memory)
unfolding write
write_value value off (buf, mem) = let (r, mem') = write mem buf.raw off value in (r, (buf, mem'))

-- The end of `set`, with unique access.
unfoldable pub set_unchecked :
    List ℕ → List ℕ → Buffer × Memory → MohuResult (Unit {0}) × (Buffer × Memory)
unfolding write_value
set_unchecked indices value s =
    then_do (byte_offset s.0.layout indices, s) (λ off s. write_value value off s)

-- `Buffer::set`
unfoldable pub set :
    Option ℕ
    → (ℕ → ℕ)
    → DType
    → List ℕ
    → List ℕ
    → Buffer × Memory
    → MohuResult (Unit {0}) × (Buffer × Memory)
unfolding check_writeable set_unchecked
set system fresh t indices value s =
    then_do (check_writeable t s.0, s)
      (λ done s. then_do (make_unique system fresh s) (λ done s. set_unchecked indices value s))

-- `share`, and `Clone::clone`
unfoldable pub share : Memory → Buffer → Buffer × Memory
unfolding remove_flags clone_raw
share mem buf =
    (record buf { flags = remove_flags buf.flags only_writeable }, clone_raw mem buf.raw)

-- `set_writeable`
unfoldable pub set_writeable : Memory → Buffer → Bool → MohuResult Buffer
unfolding insert_flags remove_flags
set_writeable mem buf writeable =
    let shared = ltb 1 (mem.raws buf.raw).strong_count in
    elim writeable [
      | true ↦
          if shared
          then err cannot_resize_shared
          else ok (record buf { flags = insert_flags buf.flags only_writeable })
      | false ↦ ok (record buf { flags = remove_flags buf.flags only_writeable })
    ]

-- A new buffer on the same block with another layout and flags.
unfoldable pub view_as :
    Memory → Buffer → MohuResult Layout → (Layout → BufferFlags) → MohuResult Buffer × Memory
unfolding clone_raw
view_as mem buf (ok layout) flags =
    (ok (record buf { layout = layout; flags = flags layout }), clone_raw mem buf.raw)
view_as mem buf (err e) flags = (err e, mem)
view_as mem buf panic flags = (panic, mem)

abbrev without_c : BufferFlags → BufferFlags
without_c f = remove_flags (remove_flags f only_writeable) only_c_contiguous

unfoldable pub transpose_buffer : Memory → Buffer → MohuResult Buffer × Memory
unfolding view_as remove_flags
transpose_buffer mem buf = view_as mem buf (transpose buf.layout) (λ layout. without_c buf.flags)

unfoldable pub permute_buffer : Memory → Buffer → List ℕ → MohuResult Buffer × Memory
unfolding view_as remove_flags
permute_buffer mem buf axes =
    view_as mem buf (permute buf.layout axes) (λ layout. without_c buf.flags)

unfoldable pub reshape_buffer : Memory → Buffer → List ℕ → MohuResult Buffer × Memory
unfolding view_as compute_flags
reshape_buffer mem buf new_shape =
    view_as mem buf (reshape buf.layout new_shape) (compute_flags (mem.raws buf.raw))

unfoldable pub slice_buffer : Memory → Buffer → ℕ → SliceArg → MohuResult Buffer × Memory
unfolding view_as remove_flags
slice_buffer mem buf axis arg =
    view_as mem buf (slice_axis buf.layout axis arg)
      (λ layout. remove_flags (without_c buf.flags) only_f_contiguous)

unfoldable pub broadcast_buffer : Memory → Buffer → List ℕ → MohuResult Buffer × Memory
unfolding view_as remove_flags
broadcast_buffer mem buf new_shape =
    view_as mem buf (broadcast_to buf.layout new_shape)
      (λ layout. remove_flags buf.flags only_writeable)

unfoldable pub expand_buffer : Memory → Buffer → ℕ → MohuResult Buffer × Memory
unfolding view_as
expand_buffer mem buf axis = view_as mem buf (expand_dims buf.layout axis) (λ layout. buf.flags)

unfoldable pub squeeze_buffer : Memory → Buffer → MohuResult Buffer × Memory
unfolding view_as
squeeze_buffer mem buf = view_as mem buf (ok (squeeze buf.layout)) (λ layout. buf.flags)

-- `BufferView::new`, which borrows the buffer.
unfoldable pub new_view : DType → Buffer → MohuResult Buffer
unfolding check_dtype
new_view t buf = check_dtype t buf >>= λ done. ok buf

-- `BufferView::get`: the pointer `as_ptr`, which is past the offset of the layout, and then the offset of
-- the element.
unfoldable pub view_get : Memory → DType → Buffer → List ℕ → MohuResult (List ℕ)
view_get mem t view indices = byte_offset view.layout indices >>= λ off.
    read (mem.raws view.raw) (view.layout.offset + off) (itemsize t)

unfoldable pub view_get_unchecked : Memory → DType → Buffer → List ℕ → MohuResult (List ℕ)
view_get_unchecked mem t view indices =
    read (mem.raws view.raw) (view.layout.offset + byte_offset_unchecked view.layout indices)
      (itemsize t)

-- `BufferViewMut::new`
unfoldable pub new_view_mut :
    Option ℕ → (ℕ → ℕ) → DType → Buffer × Memory → MohuResult (Unit {0}) × (Buffer × Memory)
unfolding check_writeable
new_view_mut system fresh t s =
    then_do (check_writeable t s.0, s) (λ done s. make_unique system fresh s)

-- `BufferViewMut::set`
unfoldable pub view_set : Memory → Buffer → List ℕ → List ℕ → MohuResult (Unit {0}) × Memory
unfolding write
view_set mem view indices value =
    then_do (byte_offset view.layout indices, mem)
      (λ off mem. write mem view.raw (view.layout.offset + off) value)
