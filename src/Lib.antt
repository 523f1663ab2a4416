-- ===== src/Lib.antt =====
-- A verification library for mohu, an array library in Rust.
--
-- The part that carries logic of its own today is four crates:
--
--   crates/mohu-error    the error type that every call returns
--   crates/mohu-dtype    the runtime type tag, its tables, names and codes
--   crates/mohu-buffer   shapes, strides and addresses, over allocated memory
--   crates/mohu-random   the generators of random numbers
--
-- Base        shared names, tests, lists, texts, integers and machine words
-- Errors      crates/mohu-error/src/error.rs: `MohuError` and `MohuResult`; `code` in Errors.Variants,
--             codes.rs in Errors.Codes, kind.rs and `kind` in Errors.Kinds, chain.rs in
--             Errors.Chain, multi.rs in Errors.Multi, context.rs in Errors.Context
-- DType       crates/mohu-dtype/src/dtype.rs: the enum, item sizes, kinds and conversions; DType.Code has
--             `as_u8` and `from_u8`; DType.Scalar is the trait `Scalar` of scalar.rs, as an interface
-- Names       crates/mohu-dtype/src/dtype.rs: NumPy names, characters, and `parse`
-- Promote     crates/mohu-dtype/src/promote.rs: the tables, `promote`, `can_cast`, `common_type`
-- Compat      crates/mohu-dtype/src/compat.rs: buffer, struct, ctypes, C and Rust names
-- Dlpack      crates/mohu-dtype/src/dlpack.rs: DLPack types and devices
-- IntInfo     crates/mohu-dtype/src/iinfo.rs: limits of the integer types
-- Strides     crates/mohu-buffer/src/strides.rs: strides, sizes, broadcasting and index conversion, with
--             `NdIndexIter` and `StridedByteIter` in Strides.Iter and `validate_strides` in
--             Strides.Validate
-- Layout      crates/mohu-buffer/src/layout.rs: a shape, strides, an offset and an item size, and the views of
--             one layout by another; Layout.Permute has `permute` and `transpose`, Layout.Slice has
--             `SliceArg` and `slice_axis`, Layout.Extent `byte_range`, `overlaps_with` and `normalise_axis`
-- Alloc       crates/mohu-buffer/src/alloc.rs: `AllocHandle`, the choice of an allocation, and the
--             counters `AllocStats`
-- Pool        crates/mohu-buffer/src/pool.rs: `BufferPool` with its buckets; Pool.Fast has the thread's
--             cache, Pool.Maintain `trim`, `clear`, `warm` and the statistics, Pool.Steps any sequence
--             of calls
-- Buffer      crates/mohu-buffer/src/buffer.rs: `RawBuffer`, `Buffer`, its flags and its memory; Buffer.Copy has
--             `copy_to_contiguous` of ops.rs and copy on write, Buffer.Access elements, the views of a
--             buffer and view.rs, Buffer.Iterate the iterator over a view, Buffer.Create slices of values
--             and `fill_raw`; Buffer.Copied follows a copy from the loop over the elements to a write to a
--             shared buffer; Buffer.Exchange has the tensors that leave and enter through DLPack, where a
--             pointer is an address and the memory lists the deleters that were called
-- Ops         crates/mohu-buffer/src/ops.rs: maps, zips, clips and casts in Ops.Map and Ops.Cast, scans in
--             Ops.Scan, `gather`, `scatter` and `where_select` in Ops.Indexed, reductions in Ops.Reduce,
--             the fills in Ops.Fill, `abs_copy` and its like in Ops.Unary; Ops.Checks has the guards
--             that they share, and Ops.Contents and Ops.Stored what a buffer holds before and after
-- Matrix      crates/mohu-buffer/src/buffer.rs: buffers made with their elements (`zeros`, `eye`, `diag`,
--             `tril`, ...); Matrix.Views has `diagonal`, `flip`, `sum_axis` and equality
-- Numeric     crates/mohu-buffer/src/buffer.rs: the numeric methods, which call Ops;
--             Numeric.Truth has the tests of `any`, `all` and `count_nonzero` for each dtype
-- Random      crates/mohu-random/src/generator.rs: `fill_bytes`, with `Pcg64` in Random.Pcg and
--             `Philox4x64` in Random.Philox
-- Examples    runs of the theorems at concrete values; each larger part has such a module of its own
--
-- How the code is read:
--   * The target has 64-bit words and the build no overflow checks. A `usize` is a natural number,
--     and each addition or multiplication that can wrap is written modulo 2 ^ 64. An `isize` is
--     its bit pattern (Base.Words), since the code casts between the two freely.
--   * A Rust panic is the outcome `panic`, apart from `err`: a remainder or a division by zero, or
--     an index out of range.
--   * Loops are structural recursion over the lists that they walk, or over the axis number, so that
--     no fuel is needed, but for these. The loop of `trim` has as fuel one round more than there are
--     cached handles, since each round frees one; `next_power_of_two` has 64 rounds, one for each
--     bit; a loop over `StridedByteIter` has one round more than the layout's size, which is the
--     number of items that the iterator counts (Buffer.Loops). The loops of Ops and Matrix over an
--     iterator have the same number of rounds, and a list is cut into at most as many chunks as it
--     has values.
--   * A scalar type is an instance of the interface `Scalar`: its dtype, and its bytes with what they
--     mean. Arithmetic on scalars and on `f64` and the casts between them are parameters. Numeric.Truth
--     takes a float by its bits, and `x != 0.0` is whether a bit but the sign is set.
--   * A parallel loop writes each element once and reads none that it writes, so that it is one loop
--     in order. How rayon splits a reduction is a parameter, any tree of splits, and so is the number
--     of threads, which decides the chunks of a parallel scan.
--   * The pool is one state, `World`, that every call takes and returns: the counters of alloc.rs, the
--     pool behind its mutex, which is held for a whole call, and the cache of one thread. The
--     answer of the operating system to an allocation is an argument, an address or nothing.
--   * Memory is numbered blocks of bytes with a count of owners. A read or write outside a block,
--     which Rust leaves undefined, is the outcome `panic`.
--   * A text is its list of code points. A table is the list of its entries in the source's order.
--   * A formatted error message is kept as the values that it prints.
--
-- The parts meet in a few places. A Layout is checked by `validate_strides`, takes its strides from
-- `c_strides` or `broadcast_strides`, and reads an index by `byte_offset` of Strides, so that its
-- theorems rest on those of Strides; a dtype enters by its item size alone. The pool calls
-- `AllocHandle::alloc` and drops handles, so that its invariant also states what the counters of
-- alloc.rs hold. A Buffer is a block of a Memory, which AllocHandle gives, with a dtype and a
-- Layout: its views take their layouts from Layout. The operations of Ops take and return a Memory,
-- make their destination the only owner of its block as Buffer.Copy does, and read and write whole
-- contiguous buffers; the methods of Matrix and Numeric call them on a new buffer. The generators of
-- Random stand alone.
--
-- Not modelled: other threads of the pool and `advise_all`; `from_raw_parts` and the mutable raw
-- pointers of buffer.rs, `arange` and `linspace`, non-temporal fills, display and prefetching in
-- buffer.rs and ops.rs; what the casts of cast.rs and the arithmetic of the scalar types compute,
-- which rest on the crates num-traits, half and num-complex; the texts of the errors, reporter.rs
-- and the glue to Python; `f64` values (limits of the floating-point types, `minimum_scalar_type`,
-- the comparisons of mohu-testing); the Arrow and serde glue; the tracing calls; the system calls
-- of alloc.rs. The remaining crates are module declarations and placeholders.
pub mod Base
pub mod Errors
pub mod DType
pub mod Promote
pub mod Names
pub mod Compat
pub mod Dlpack
pub mod IntInfo
pub mod Strides
pub mod Layout
pub mod Alloc
pub mod Pool
pub mod Buffer
pub mod Ops
pub mod Matrix
pub mod Numeric
pub mod Random
pub mod Examples
