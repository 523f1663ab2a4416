-- ===== src/Matrix/Examples.antt =====
-- crates/mohu-buffer/src/buffer.rs: a matrix of two rows of three bytes.
use mohu_fork_nirman.Base.{◌-◌, ◌≡◌, refl, false, [], ◌∷◌, arith}
use mohu_fork_nirman.Base.Words.{usize_mod, add_word, mul_word, sub_word}
use mohu_fork_nirman.Errors.{ok}
use mohu_fork_nirman.DType.{u8}
use mohu_fork_nirman.Alloc.{heap_block}
use mohu_fork_nirman.Layout.{ndim, new_custom}
use mohu_fork_nirman.Strides.Validate.{validate_strides, validate_axes}
use mohu_fork_nirman.Buffer.{
  owned, Memory, Buffer, only_writeable, no_flags, clone_raw, remove_flags,
}
use mohu_fork_nirman.Buffer.Access.{get, view_as}
use mohu_fork_nirman.Matrix.Views.{flip, flip_layout}
use mohu_fork_nirman.Matrix.Views.Flipped.{get-flip}

abbrev memory : Memory
memory = record {
  stats = record {
    live_bytes = 16;
    peak_bytes = 16;
    alloc_count = 1;
    free_count = 0;
    heap_live_bytes = 16;
    mmap_live_bytes = 0;
  };
  raws = λ k. record {
    source =
        owned (record { inner = heap_block 4096 16 64; len = 16; align = 64; mlocked = false });
    ptr = 4096;
    nbytes = 16;
    strong_count = 1;
    bytes = λ i. i;
  };
  next_raw = 1;
  released = [];
}

abbrev rows : Buffer
rows = record {
  raw = 0;
  dtype = u8;
  layout = record { shape = 2 ∷ 3 ∷ []; strides = 3 ∷ 1 ∷ []; offset = 0; itemsize = 1 };
  flags = only_writeable;
}

-- The columns from the last to the first.
abbrev mirrored : Buffer
mirrored = record rows {
  layout = record {
    shape = 2 ∷ 3 ∷ [];
    strides = 3 ∷ (usize_mod - 1) ∷ [];
    offset = 2;
    itemsize = 1;
  };
  flags = no_flags;
}

flipped_view : flip memory rows 1 ≡ (ok mirrored, clone_raw memory 0)
unfolding flip flip_layout ndim new_custom validate_strides add_word mul_word sub_word view_as
    remove_flags validate_axes
flipped_view = refl

get-flip_example :
    get (clone_raw memory 0) u8 mirrored (1 ∷ 0 ∷ []) ≡ get memory u8 rows (1 ∷ 2 ∷ [])
get-flip_example =
    get-flip memory (clone_raw memory 0) u8 rows mirrored 1 (1 ∷ 0 ∷ []) (omega arith) refl
      (omega arith) flipped_view (omega arith, (omega arith, tt))
