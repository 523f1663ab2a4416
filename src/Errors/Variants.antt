-- ===== src/Errors/Variants.antt =====
-- crates/mohu-error/src/error.rs: `code`, the code of each variant.
use mohu_fork_nirman.Errors.{MohuError}
use mohu_fork_nirman.Errors.Codes.{ErrorCode}

unfoldable pub code : MohuError → ErrorCode
code (MohuError.shape_mismatch _ _) = ErrorCode.shape_mismatch
code (MohuError.broadcast_error _ _) = ErrorCode.broadcast_error
code (MohuError.dimension_mismatch _ _) = ErrorCode.dimension_mismatch
code (MohuError.axis_out_of_range _ _) = ErrorCode.axis_out_of_range
code MohuError.scalar_array = ErrorCode.scalar_array
code (MohuError.zero_sized_dimension _) = ErrorCode.zero_sized_dimension
code (MohuError.shape_overflow _) = ErrorCode.shape_overflow
code (MohuError.reshape_incompatible _ _ _) = ErrorCode.reshape_incompatible
code MohuError.empty_stack_sequence = ErrorCode.empty_stack_sequence
code (MohuError.concat_shape_mismatch _ _ _) = ErrorCode.concat_shape_mismatch
code (MohuError.dtype_mismatch _ _) = ErrorCode.dtype_mismatch
code (MohuError.invalid_cast _ _ _) = ErrorCode.invalid_cast
code (MohuError.overflow _ _) = ErrorCode.overflow
code (MohuError.underflow _ _) = ErrorCode.underflow
code (MohuError.unknown_dtype _) = ErrorCode.unknown_dtype
code (MohuError.unsupported_dtype _ _) = ErrorCode.unsupported_dtype
code (MohuError.ambiguous_promotion _ _) = ErrorCode.ambiguous_promotion
code (MohuError.index_out_of_bounds _ _ _) = ErrorCode.index_out_of_bounds
code (MohuError.too_many_indices _ _) = ErrorCode.too_many_indices
code MohuError.zero_slice_step = ErrorCode.zero_slice_step
code (MohuError.slice_out_of_bounds _ _ _ _) = ErrorCode.slice_out_of_bounds
code (MohuError.bool_index_shape_mismatch _ _) = ErrorCode.bool_index_shape_mismatch
code (MohuError.fancy_index_out_of_bounds _ _ _) = ErrorCode.fancy_index_out_of_bounds
code (MohuError.allocation_failed _) = ErrorCode.allocation_failed
code (MohuError.alignment_error _ _) = ErrorCode.alignment_error
code (MohuError.buffer_too_small _ _) = ErrorCode.buffer_too_small
code (MohuError.invalid_stride _ _ _) = ErrorCode.invalid_stride
code (MohuError.overlapping_strides _ _ _) = ErrorCode.overlapping_strides
code MohuError.non_contiguous = ErrorCode.non_contiguous
code MohuError.read_only = ErrorCode.read_only
code MohuError.cannot_resize_shared = ErrorCode.cannot_resize_shared
code (MohuError.offset_overflow _ _ _) = ErrorCode.offset_overflow
code MohuError.singular_matrix = ErrorCode.singular_matrix
code (MohuError.non_convergence _ _ _) = ErrorCode.non_convergence
code (MohuError.domain_error _ _) = ErrorCode.domain_error
code MohuError.division_by_zero = ErrorCode.division_by_zero
code (MohuError.matrix_dimension_mismatch _ _ _ _ _) = ErrorCode.matrix_dimension_mismatch
code (MohuError.eigen_decomposition_failed _) = ErrorCode.eigen_decomposition_failed
code MohuError.not_positive_definite = ErrorCode.not_positive_definite
code (MohuError.qr_rank_deficient _ _) = ErrorCode.qr_rank_deficient
code (MohuError.svd_non_convergence _) = ErrorCode.svd_non_convergence
code (MohuError.unsupported_norm_order _ _) = ErrorCode.unsupported_norm_order
code (MohuError.io _) = ErrorCode.io
code (MohuError.invalid_magic _ _ _) = ErrorCode.invalid_magic
code (MohuError.unsupported_version _ _ _ _ _) = ErrorCode.unsupported_version
code (MohuError.corrupt_data _ _) = ErrorCode.corrupt_data
code (MohuError.unexpected_eof _ _) = ErrorCode.unexpected_eof
code (MohuError.unsupported_codec _ _ _) = ErrorCode.unsupported_codec
code (MohuError.npy_header_error _) = ErrorCode.npy_header_error
code (MohuError.npz_entry_not_found _) = ErrorCode.npz_entry_not_found
code (MohuError.csv_parse_error _ _ _) = ErrorCode.csv_parse_error
code (MohuError.dlpack_unsupported_device _) = ErrorCode.dlpack_unsupported_device
code (MohuError.dlpack_version_mismatch _ _ _) = ErrorCode.dlpack_version_mismatch
code MohuError.dlpack_null_pointer = ErrorCode.dlpack_null_pointer
code (MohuError.dlpack_unsupported_dtype _ _ _) = ErrorCode.dlpack_unsupported_dtype
code (MohuError.dlpack_invalid _) = ErrorCode.dlpack_invalid
code (MohuError.arrow_schema _) = ErrorCode.arrow_schema
code (MohuError.arrow_ipc _) = ErrorCode.arrow_ipc
code (MohuError.arrow_unsupported_type _) = ErrorCode.arrow_unsupported_type
code (MohuError.arrow_validity_error _ _) = ErrorCode.arrow_validity_error
code (MohuError.python_type _ _) = ErrorCode.python_type
code (MohuError.python_value _) = ErrorCode.python_value
code (MohuError.python_buffer _) = ErrorCode.python_buffer
code MohuError.python_no_buffer = ErrorCode.python_no_buffer
code (MohuError.python_unsupported_buffer_format _) = ErrorCode.python_unsupported_buffer_format
code (MohuError.context _ _) = ErrorCode.context
code (MohuError.not_implemented _) = ErrorCode.not_implemented
code (MohuError.internal _) = ErrorCode.internal
code (MohuError.multiple _) = ErrorCode.internal
