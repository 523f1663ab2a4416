-- ===== src/Buffer/Examples.antt =====
-- crates/mohu-buffer/src/buffer.rs: a block of 12 bytes with two rows of three 16-bit numbers.
use mohu_fork_nirman.Base.{
  ℕ, suc, ◌*◌, ◌+◌, ◌≤◌, ◌<◌, ◌⊎◌, List, ◌≡◌, inl, inr, refl, none, some, true, false, [], ◌∷◌,
  arith,
}
use mohu_fork_nirman.Base.Ints.{pos}
use mohu_fork_nirman.Base.Words.{isize_max, add_word, mul_word}
use mohu_fork_nirman.Errors.{ok, ◌>>=◌}
use mohu_fork_nirman.DType.{i16, itemsize}
use mohu_fork_nirman.DType.Code.{dtype_eq}
use mohu_fork_nirman.Alloc.{heap_block}
use mohu_fork_nirman.Strides as strides_module
use mohu_fork_nirman.Layout.{ndim, byte_offset, byte_offset_unchecked, check_indices}
use mohu_fork_nirman.Layout.Slice.{SliceArg, clamp, resolve_step, resolve, slice_axis}
use mohu_fork_nirman.Buffer.{
  RawBuffer, owned, Memory, Buffer, no_flags, only_writeable, remove_flags, clone_raw,
}
use mohu_fork_nirman.Buffer.Copy.{is_writeable, read, copy_loop}
use mohu_fork_nirman.Buffer.Access.{get, view_get, new_view, slice_buffer, view_as}
use mohu_fork_nirman.Buffer.Access as access
use mohu_fork_nirman.Buffer.Isolated.{get-set_shared}
use mohu_fork_nirman.Buffer.Written.{get-set, view_get-get}
use mohu_fork_nirman.Buffer.Iterate.{view_iter, view_next, after_views, view_next-view_get}
use mohu_fork_nirman.Strides.{shape_size, unravel_index}
use mohu_fork_nirman.Strides.Bounds.{product}
use mohu_fork_nirman.Strides.Iter.{new_bytes}
use mohu_fork_nirman.Buffer.Loops.{loops_end}
use mohu_fork_nirman.Buffer.Create.{from_slice, to_vec, collect_loop, fill_loop}
use mohu_fork_nirman.Buffer.Roundtrip.{OfSize, to_vec-from_slice}

abbrev pub block : ℕ → RawBuffer
block owners = record {
  source = owned (record { inner = heap_block 4096 12 64; len = 12; align = 64; mlocked = false });
  ptr = 4096;
  nbytes = 12;
  strong_count = owners;
  bytes = λ i. i;
}

abbrev pub memory : ℕ → Memory
memory owners = record {
  stats = record {
    live_bytes = 12;
    peak_bytes = 12;
    alloc_count = 1;
    free_count = 0;
    heap_live_bytes = 12;
    mmap_live_bytes = 0;
  };
  raws = λ k. block owners;
  next_raw = 1;
  released = [];
}

abbrev pub numbers : Buffer
numbers = record {
  raw = 0;
  dtype = i16;
  layout = record { shape = 2 ∷ 3 ∷ []; strides = 6 ∷ 2 ∷ []; offset = 0; itemsize = 2 };
  flags = only_writeable;
}

same_dtype : dtype_eq i16 numbers.dtype ≡ true
unfolding dtype_eq
same_dtype = refl

writeable_numbers : is_writeable numbers ≡ true
unfolding is_writeable
writeable_numbers = refl

last_offset : byte_offset numbers.layout (1 ∷ 2 ∷ []) ≡ ok 10
unfolding byte_offset byte_offset_unchecked strides_module.byte_offset add_word mul_word
    check_indices ndim
last_offset = refl

two_bytes : 2 ≡ itemsize i16
unfolding itemsize
two_bytes = refl

room : 10 + itemsize i16 ≤ 12
unfolding itemsize
room = omega arith

get-set_example :
    ((access.set none (λ i. 0) i16 (1 ∷ 2 ∷ []) (7 ∷ 8 ∷ []) (numbers, memory 1)).0 ≡ ok tt)
    × (get
          (access.set none (λ i. 0) i16 (1 ∷ 2 ∷ []) (7 ∷ 8 ∷ []) (numbers, memory 1)).1.1
          i16
          (access.set none (λ i. 0) i16 (1 ∷ 2 ∷ []) (7 ∷ 8 ∷ []) (numbers, memory 1)).1.0
          (1 ∷ 2 ∷ [])
        ≡ ok (7 ∷ 8 ∷ []))
    × (((access.set none (λ i. 0) i16 (1 ∷ 2 ∷ []) (7 ∷ 8 ∷ []) (numbers, memory 1)).1.1.raws
            0).bytes
          9
        ≡ 9)
get-set_example =
    get-set none (λ i. 0) i16 (1 ∷ 2 ∷ []) (7 ∷ 8 ∷ []) numbers (memory 1) 10 0 9 same_dtype
      writeable_numbers refl last_offset two_bytes room (inr (inl (omega arith)))

get-set_shared_example :
    get
      (access.set (some 8192) (λ i. 0) i16 (1 ∷ 2 ∷ []) (7 ∷ 8 ∷ []) (numbers, memory 2)).1.1
      i16
      numbers
      (0 ∷ 0 ∷ [])
    ≡ get (memory 2) i16 numbers (0 ∷ 0 ∷ [])
get-set_shared_example =
    get-set_shared (some 8192) (λ i. 0) i16 (1 ∷ 2 ∷ []) (7 ∷ 8 ∷ []) numbers (memory 2) numbers i16
      (0 ∷ 0 ∷ []) (omega arith) (omega arith)

view_get-get_example :
    (new_view i16 numbers >>= λ view. view_get (memory 1) i16 view (1 ∷ 2 ∷ []))
    ≡ get (memory 1) i16 numbers (1 ∷ 2 ∷ [])
view_get-get_example = view_get-get (memory 1) i16 numbers (1 ∷ 2 ∷ []) refl

-- `1::2`
abbrev odd : SliceArg
odd = record { start = some (pos 1); stop = none; step = some (pos 2) }

-- The middle column.
abbrev column : Buffer
column = record numbers {
  layout = record { shape = 2 ∷ 1 ∷ []; strides = 6 ∷ 4 ∷ []; offset = 2; itemsize = 2 };
  flags = no_flags;
}

column_of : slice_buffer (memory 1) numbers 1 odd ≡ (ok column, clone_raw (memory 1) 0)
unfolding slice_buffer slice_axis resolve resolve_step clamp ndim add_word mul_word view_as
    remove_flags
column_of = refl

-- A typed view of the middle column reads the number to the right of it.
column_view :
    (view_get (memory 1) i16 column (0 ∷ 0 ∷ []) ≡ ok (4 ∷ 5 ∷ []))
    × (get (memory 1) i16 column (0 ∷ 0 ∷ []) ≡ ok (2 ∷ 3 ∷ []))
unfolding get view_get access.check_dtype dtype_eq byte_offset byte_offset_unchecked
    strides_module.byte_offset add_word mul_word check_indices ndim itemsize read
column_view = (refl, refl)

values_sized : OfSize (itemsize i16) ((1 ∷ 0 ∷ []) ∷ (2 ∷ 0 ∷ []) ∷ [])
unfolding itemsize
values_sized = (refl, (refl, tt))

values_small : itemsize i16 * 2 ≤ isize_max
unfolding itemsize
values_small = omega arith

to_vec-from_slice_example :
    (buf : Buffer) × (mem' : Memory) × (from_slice
        (some 8192)
        (λ i. 0)
        (memory 1)
        i16
        ((1 ∷ 0 ∷ []) ∷ (2 ∷ 0 ∷ []) ∷ [])
      ≡ (ok buf, mem'))
    × (to_vec mem' i16 buf ≡ ok ((1 ∷ 0 ∷ []) ∷ (2 ∷ 0 ∷ []) ∷ []))
to_vec-from_slice_example =
    to_vec-from_slice 8192 (λ i. 0) (memory 1) i16 ((1 ∷ 0 ∷ []) ∷ (2 ∷ 0 ∷ []) ∷ []) (omega arith)
      values_small values_sized

-- Three numbers with a gap between them, in six rounds.
loops_end_example :
    (collect_loop 6 (new_bytes (3 ∷ []) (4 ∷ []) 2) (block 1) 2
      ≡ collect_loop (suc (product (3 ∷ []))) (new_bytes (3 ∷ []) (4 ∷ []) 2) (block 1) 2)
    × (fill_loop 6 (new_bytes (3 ∷ []) (4 ∷ []) 2) (memory 1) 0 0 (9 ∷ 9 ∷ [])
        ≡ fill_loop
            (suc (product (3 ∷ [])))
            (new_bytes (3 ∷ []) (4 ∷ []) 2)
            (memory 1)
            0
            0
            (9 ∷ 9 ∷ []))
    × (copy_loop 6 (new_bytes (3 ∷ []) (4 ∷ []) 2) 0 (memory 1) 0 0 0 0 2 2
        ≡ copy_loop
            (suc (product (3 ∷ [])))
            (new_bytes (3 ∷ []) (4 ∷ []) 2)
            0
            (memory 1)
            0
            0
            0
            0
            2
            2)
loops_end_example =
    loops_end (3 ∷ []) (4 ∷ []) 2 6 (block 1) (memory 1) 0 0 0 0 0 0 0 2 2 (9 ∷ 9 ∷ [])
      (omega arith) (omega arith)

six_numbers : shape_size (2 ∷ 3 ∷ []) ≡ ok 6
unfolding shape_size
six_numbers = refl

view_next-view_get_example :
    let item = (view_next (memory 1) i16 (after_views 4 (memory 1) i16 (view_iter numbers))).0 in
    ((4 < 6)
      × ((idx : List ℕ) × (unravel_index 4 (2 ∷ 3 ∷ []) ≡ ok idx)
          × (item ≡ some (view_get (memory 1) i16 numbers idx))))
    ⊎ ((6 ≤ 4) × (item ≡ none))
view_next-view_get_example = view_next-view_get (memory 1) i16 numbers 6 4 six_numbers
