-- ===== src/Ops/Checks.antt =====
-- crates/mohu-buffer/src/ops.rs: the checks of its operations, in the order of the code.
use Prim.Native.String.{String}
use mohu_fork_nirman.Base.{not, ◌&&◌, ◌||◌, codes, ◌==◌, text_eq, if◌then◌else◌}
use mohu_fork_nirman.Errors.{
  MohuResult, ok, err, ◌>>◌, shape_mismatch, non_contiguous, read_only, dtype_mismatch, dtype_name,
  text,
}
use mohu_fork_nirman.DType.{DType, u8, i64}
use mohu_fork_nirman.DType.Code.{as_u8, dtype_eq}
use mohu_fork_nirman.Layout.{size, is_c_contiguous}
use mohu_fork_nirman.Buffer.{Buffer}
use mohu_fork_nirman.Buffer.Copy.{is_writeable}
use mohu_fork_nirman.Buffer.Access.{check_dtype}

unfoldable pub check_contiguous : Buffer → MohuResult (Unit {0})
check_contiguous buf = if is_c_contiguous buf.layout then ok tt else err non_contiguous

unfoldable pub check_write : Buffer → MohuResult (Unit {0})
unfolding is_writeable
check_write buf = if is_writeable buf then ok tt else err read_only

unfoldable pub check_len : Buffer → Buffer → MohuResult (Unit {0})
check_len a b =
    if size a.layout == size b.layout
    then ok tt
    else err (shape_mismatch a.layout.shape b.layout.shape)

unfoldable pub check_shape : Buffer → Buffer → MohuResult (Unit {0})
check_shape a b =
    if text_eq a.layout.shape b.layout.shape
    then ok tt
    else err (shape_mismatch a.layout.shape b.layout.shape)

-- The checks of `parallel_map`, which do not look at the dtypes.
unfoldable pub check_map : Buffer → Buffer → MohuResult (Unit {0})
unfolding check_contiguous check_len check_write
check_map src dst =
    check_contiguous src >> (check_contiguous dst >> (check_len src dst >> check_write dst))

-- Two buffers at one dtype; the error names the dtype of the first, whichever differs.
unfoldable pub check_both : DType → Buffer → Buffer → MohuResult (Unit {0})
check_both t a b =
    if not (dtype_eq t a.dtype) || not (dtype_eq t b.dtype)
    then err (dtype_mismatch (dtype_name (as_u8 t)) (dtype_name (as_u8 a.dtype)))
    else ok tt

-- The checks of `parallel_scan` and of `clip`.
unfoldable pub check_typed : DType → Buffer → Buffer → MohuResult (Unit {0})
unfolding check_both check_len check_contiguous check_write
check_typed t src dst =
    check_both t src dst
    >> check_len src dst
    >> check_contiguous src
    >> check_contiguous dst
    >> check_write dst

unfoldable pub check_zip : DType → Buffer → Buffer → Buffer → MohuResult (Unit {0})
unfolding check_both check_contiguous check_write
check_zip t a b dst =
    check_both t a b
    >> (if (size a.layout == size b.layout) && (size a.layout == size dst.layout)
        then ok tt
        else err (shape_mismatch a.layout.shape b.layout.shape))
    >> check_contiguous a
    >> check_contiguous b
    >> check_contiguous dst
    >> check_write dst

-- A buffer of a fixed dtype, which the error spells out.
unfoldable pub check_named : DType → String → Buffer → MohuResult (Unit {0})
check_named t name buf =
    if not (dtype_eq buf.dtype t)
    then err (dtype_mismatch (text (codes name)) (dtype_name (as_u8 buf.dtype)))
    else ok tt

-- One round of the loop of `where_select` over its two sources.
unfoldable pub check_choice : DType → Buffer → Buffer → MohuResult (Unit {0})
unfolding check_dtype check_shape check_contiguous
check_choice t mask buf = check_dtype t buf >> check_shape mask buf >> check_contiguous buf

-- The checks of `where_select`, which ask neither the mask nor the destination to be contiguous, and do
-- not look at the dtype of the destination.
unfoldable pub check_select : DType → Buffer → Buffer → Buffer → Buffer → MohuResult (Unit {0})
unfolding check_dtype check_choice check_write check_shape
check_select t mask a b dst =
    check_named u8 "U8" mask
    >> check_choice t mask a
    >> check_choice t mask b
    >> check_write dst
    >> check_shape mask dst

-- The checks of `gather`, and with the source in place of the destination those of `scatter`.
unfoldable pub check_indexed : Buffer → Buffer → Buffer → Buffer → MohuResult (Unit {0})
unfolding check_named check_dtype check_len check_write
check_indexed src indices dst along =
    check_named i64 "I64" indices
    >> check_dtype src.dtype dst
    >> (if is_c_contiguous src.layout
          && is_c_contiguous indices.layout
          && is_c_contiguous dst.layout
        then ok tt
        else err non_contiguous)
    >> check_len indices along
    >> check_write dst
