-- ===== src/Errors/Codes.antt =====
-- crates/mohu-error/src/codes.rs: the stable numeric codes of the errors.
use mohu_fork_nirman.Base.{ℕ, Bool, leb, ◌&&◌, if◌then◌else◌, Text, codes}

pub data ErrorCode : Type 0 where
  shape_mismatch : ErrorCode
  broadcast_error : ErrorCode
  dimension_mismatch : ErrorCode
  axis_out_of_range : ErrorCode
  scalar_array : ErrorCode
  zero_sized_dimension : ErrorCode
  shape_overflow : ErrorCode
  reshape_incompatible : ErrorCode
  empty_stack_sequence : ErrorCode
  concat_shape_mismatch : ErrorCode
  dtype_mismatch : ErrorCode
  invalid_cast : ErrorCode
  overflow : ErrorCode
  underflow : ErrorCode
  unknown_dtype : ErrorCode
  unsupported_dtype : ErrorCode
  ambiguous_promotion : ErrorCode
  index_out_of_bounds : ErrorCode
  too_many_indices : ErrorCode
  zero_slice_step : ErrorCode
  slice_out_of_bounds : ErrorCode
  bool_index_shape_mismatch : ErrorCode
  fancy_index_out_of_bounds : ErrorCode
  allocation_failed : ErrorCode
  alignment_error : ErrorCode
  buffer_too_small : ErrorCode
  invalid_stride : ErrorCode
  overlapping_strides : ErrorCode
  non_contiguous : ErrorCode
  read_only : ErrorCode
  cannot_resize_shared : ErrorCode
  offset_overflow : ErrorCode
  singular_matrix : ErrorCode
  non_convergence : ErrorCode
  domain_error : ErrorCode
  division_by_zero : ErrorCode
  matrix_dimension_mismatch : ErrorCode
  eigen_decomposition_failed : ErrorCode
  not_positive_definite : ErrorCode
  qr_rank_deficient : ErrorCode
  svd_non_convergence : ErrorCode
  unsupported_norm_order : ErrorCode
  io : ErrorCode
  invalid_magic : ErrorCode
  unsupported_version : ErrorCode
  corrupt_data : ErrorCode
  unexpected_eof : ErrorCode
  unsupported_codec : ErrorCode
  npy_header_error : ErrorCode
  npz_entry_not_found : ErrorCode
  csv_parse_error : ErrorCode
  dlpack_unsupported_device : ErrorCode
  dlpack_version_mismatch : ErrorCode
  dlpack_null_pointer : ErrorCode
  dlpack_unsupported_dtype : ErrorCode
  dlpack_invalid : ErrorCode
  arrow_schema : ErrorCode
  arrow_ipc : ErrorCode
  arrow_unsupported_type : ErrorCode
  arrow_validity_error : ErrorCode
  python_type : ErrorCode
  python_value : ErrorCode
  python_buffer : ErrorCode
  python_no_buffer : ErrorCode
  python_unsupported_buffer_format : ErrorCode
  context : ErrorCode
  not_implemented : ErrorCode
  internal : ErrorCode

-- `self as u32`
unfoldable pub number : ErrorCode → ℕ
number ErrorCode.shape_mismatch = 1000
number ErrorCode.broadcast_error = 1001
number ErrorCode.dimension_mismatch = 1002
number ErrorCode.axis_out_of_range = 1003
number ErrorCode.scalar_array = 1004
number ErrorCode.zero_sized_dimension = 1005
number ErrorCode.shape_overflow = 1006
number ErrorCode.reshape_incompatible = 1007
number ErrorCode.empty_stack_sequence = 1008
number ErrorCode.concat_shape_mismatch = 1009
number ErrorCode.dtype_mismatch = 2000
number ErrorCode.invalid_cast = 2001
number ErrorCode.overflow = 2002
number ErrorCode.underflow = 2003
number ErrorCode.unknown_dtype = 2004
number ErrorCode.unsupported_dtype = 2005
number ErrorCode.ambiguous_promotion = 2006
number ErrorCode.index_out_of_bounds = 3000
number ErrorCode.too_many_indices = 3001
number ErrorCode.zero_slice_step = 3002
number ErrorCode.slice_out_of_bounds = 3003
number ErrorCode.bool_index_shape_mismatch = 3004
number ErrorCode.fancy_index_out_of_bounds = 3005
number ErrorCode.allocation_failed = 4000
number ErrorCode.alignment_error = 4001
number ErrorCode.buffer_too_small = 4002
number ErrorCode.invalid_stride = 4003
number ErrorCode.overlapping_strides = 4004
number ErrorCode.non_contiguous = 4005
number ErrorCode.read_only = 4006
number ErrorCode.cannot_resize_shared = 4007
number ErrorCode.offset_overflow = 4008
number ErrorCode.singular_matrix = 5000
number ErrorCode.non_convergence = 5001
number ErrorCode.domain_error = 5002
number ErrorCode.division_by_zero = 5003
number ErrorCode.matrix_dimension_mismatch = 5004
number ErrorCode.eigen_decomposition_failed = 5005
number ErrorCode.not_positive_definite = 5006
number ErrorCode.qr_rank_deficient = 5007
number ErrorCode.svd_non_convergence = 5008
number ErrorCode.unsupported_norm_order = 5009
number ErrorCode.io = 6000
number ErrorCode.invalid_magic = 6001
number ErrorCode.unsupported_version = 6002
number ErrorCode.corrupt_data = 6003
number ErrorCode.unexpected_eof = 6004
number ErrorCode.unsupported_codec = 6005
number ErrorCode.npy_header_error = 6006
number ErrorCode.npz_entry_not_found = 6007
number ErrorCode.csv_parse_error = 6008
number ErrorCode.dlpack_unsupported_device = 7000
number ErrorCode.dlpack_version_mismatch = 7001
number ErrorCode.dlpack_null_pointer = 7002
number ErrorCode.dlpack_unsupported_dtype = 7003
number ErrorCode.dlpack_invalid = 7004
number ErrorCode.arrow_schema = 8000
number ErrorCode.arrow_ipc = 8001
number ErrorCode.arrow_unsupported_type = 8002
number ErrorCode.arrow_validity_error = 8003
number ErrorCode.python_type = 9000
number ErrorCode.python_value = 9001
number ErrorCode.python_buffer = 9002
number ErrorCode.python_no_buffer = 9003
number ErrorCode.python_unsupported_buffer_format = 9004
number ErrorCode.context = 10000
number ErrorCode.not_implemented = 10001
number ErrorCode.internal = 10002

-- The pattern `first..=last`.
abbrev within : ℕ → ℕ → ErrorCode → Bool
within first last c = leb first (number c) && leb (number c) last

unfoldable pub is_shape : ErrorCode → Bool
unfolding number
is_shape = within 1000 1999

unfoldable pub is_dtype : ErrorCode → Bool
unfolding number
is_dtype = within 2000 2999

unfoldable pub is_index : ErrorCode → Bool
unfolding number
is_index = within 3000 3999

unfoldable pub is_buffer : ErrorCode → Bool
unfolding number
is_buffer = within 4000 4999

unfoldable pub is_compute : ErrorCode → Bool
unfolding number
is_compute = within 5000 5999

unfoldable pub is_io : ErrorCode → Bool
unfolding number
is_io = within 6000 6999

unfoldable pub is_dlpack : ErrorCode → Bool
unfolding number
is_dlpack = within 7000 7999

unfoldable pub is_arrow : ErrorCode → Bool
unfolding number
is_arrow = within 8000 8999

unfoldable pub is_python : ErrorCode → Bool
unfolding number
is_python = within 9000 9999

unfoldable pub domain : ErrorCode → Text
unfolding number
domain c =
    if within 1000 1999 c
    then codes "shape"
    else if within 2000 2999 c
    then codes "dtype"
    else if within 3000 3999 c
    then codes "index"
    else if within 4000 4999 c
    then codes "buffer"
    else if within 5000 5999 c
    then codes "compute"
    else if within 6000 6999 c
    then codes "io"
    else if within 7000 7999 c
    then codes "dlpack"
    else if within 8000 8999 c
    then codes "arrow"
    else if within 9000 9999 c
    then codes "python"
    else codes "general"
